-- ===== src/Kernel/Cursor.antt =====
-- src/kernel/query/cursor.js: the cursor of a page. JSON, base64url and SHA-256 are the platform's and
-- parameters here.
use omp_spec_kit.Prelude.{
  ℕ, Text, Free, text_beq, text_beq_refl, Bool, true, false, not, ◌||◌, leb, nat_beq, ◌≡◌, ◌≢◌,
  refl, ap, Option, none, some, [], ◌∷◌, ◌++◌, length, arith, Bool-cases, Option-cases, inl, inr,
  if◌then◌else◌, ◌∙◌, Result, ok, err,
}

pub data CursorError : Type 0 where
  invalid_cursor : CursorError

abbrev pub later_dot : ℕ → Text → Option (Text × Text) → Option (Text × Text)
later_dot c cs (some (front, back)) = some (c ∷ front, back)
later_dot c cs none = if nat_beq c 46 then some ([], cs) else none

-- `lastIndexOf(".")`, with what stands before it and after it.
unfoldable pub cut_last_dot : Text → Option (Text × Text)
cut_last_dot [] = none
cut_last_dot (c ∷ cs) = later_dot c cs (cut_last_dot cs)

cut_last_dot-Free : (t : Text) → Free 46 t → cut_last_dot t ≡ none
unfolding cut_last_dot
cut_last_dot-Free [] h = refl
cut_last_dot-Free (c ∷ cs) (h, hs) =
    let other : nat_beq c 46 ≡ false = ground arith in rw (cut_last_dot-Free cs hs, other) refl

cut_last_dot-append :
    (front back : Text) → Free 46 back → cut_last_dot (front ++ 46 ∷ back) ≡ some (front, back)
unfolding cut_last_dot
cut_last_dot-append [] back h = rw (cut_last_dot-Free back h) refl
cut_last_dot-append (c ∷ cs) back h = rw (cut_last_dot-append cs back h) refl

-- `Buffer.byteLength(cursor, "ascii") !== cursor.length` never holds: ASCII has a byte for each unit.
abbrev pub is_too_long : ℕ → Text → Bool
is_too_long max_bytes cursor = nat_beq (length cursor) 0 || not (leb (length cursor) max_bytes)

module _ {P : Type 0} (stringify : P → Text) (parse : Text → Option P) (to_base64 : Text → Text)
    (from_base64 : Text → Option Text) (checksum : Text → Text) where
  unfoldable pub encode_cursor : P → Text
  encode_cursor payload = to_base64 (stringify payload) ++ 46 ∷ checksum (stringify payload)

  abbrev pub payload_of : Option P → Result CursorError P
  payload_of none = err invalid_cursor
  payload_of (some payload) = ok payload

  abbrev pub check_json : Text → Option Text → Result CursorError P
  check_json mac none = err invalid_cursor
  check_json mac (some json) =
      if not (text_beq (checksum json) mac) then err invalid_cursor else payload_of (parse json)

  abbrev pub check_parts : Option (Text × Text) → Result CursorError P
  check_parts none = err invalid_cursor
  check_parts (some (body, mac)) =
      if nat_beq (length body) 0 || nat_beq (length mac) 0
      then err invalid_cursor
      else check_json mac (from_base64 body)

  -- `parse` gives the payload of a text that is the JSON of an object.
  unfoldable pub decode_cursor : ℕ → Text → Result CursorError P
  decode_cursor max_bytes cursor =
      if is_too_long max_bytes cursor then err invalid_cursor else check_parts (cut_last_dot cursor)

  -- A cursor that was encoded within the limit is decoded to its payload. Of the platform this takes that
  -- JSON and base64url are read back as they were written, that neither of the parts is empty, and that a
  -- hexadecimal digest has no dot.
  pub decode_cursor-encode_cursor :
      (max_bytes : ℕ) (payload : P)
      → parse (stringify payload) ≡ some payload
      → from_base64 (to_base64 (stringify payload)) ≡ some (stringify payload)
      → length (to_base64 (stringify payload)) ≢ 0
      → length (checksum (stringify payload)) ≢ 0
      → Free 46 (checksum (stringify payload))
      → is_too_long max_bytes (encode_cursor payload) ≡ false
      → decode_cursor max_bytes (encode_cursor payload) ≡ ok payload
  unfolding decode_cursor encode_cursor
  decode_cursor-encode_cursor max_bytes payload json body some_body some_mac free short =
      let no_body : nat_beq (length (to_base64 (stringify payload))) 0 ≡ false = ground arith in
      let no_mac : nat_beq (length (checksum (stringify payload))) 0 ≡ false = ground arith in
      rw
        (
          short,
          cut_last_dot-append (to_base64 (stringify payload)) (checksum (stringify payload)) free,
          no_body,
          no_mac,
          body,
          text_beq_refl (checksum (stringify payload)),
          json,
        )
        refl

  -- What is decoded has the checksum of its JSON: a cursor is accepted only if its last part is the
  -- checksum of what its first part encodes, and the payload is what that JSON parses to.
  check_json_sound :
      (mac : Text) (o : Option Text) (payload : P)
      → check_json mac o ≡ ok payload
      → (json : Text) × (o ≡ some json)
        × (text_beq (checksum json) mac ≡ true)
        × (parse json ≡ some payload)
  check_json_sound mac none payload h = absurd (cc)
  check_json_sound mac (some json) payload h = elim (Bool-cases (text_beq (checksum json) mac)) [
    | inr wrong ↦ absurd (cc (rw wrong at h))
    | inl right ↦ elim (Option-cases (parse json)) [
      | inl e ↦ absurd (cc (rw (right, e) at h))
      | inr (p, e) ↦
          let same : p ≡ payload = cc (rw (right, e) at h) in (json, refl, right, e ∙ ap some same)
    ]
  ]
