-- ===== src/Enforcement/Selectors.antt =====
-- src/enforcement/classifier.js: the selectors that the host's read tools take after a path.
use omp_spec_kit.Prelude.{
  ℕ, zero, suc, ◌+◌, ◌*◌, ◌-◌, Text, text, text_beq, strip_prefix, take, drop, Bool, true, false,
  not, ◌&&◌, ◌||◌, leb, nat_beq, Option, none, some, List, [], ◌∷◌, if◌then◌else◌, all, split_on,
  last_index_of,
}
use omp_spec_kit.Enforcement.Values.{strip_folded}

abbrev pub is_digit : ℕ → Bool
is_digit c = leb 48 c && leb c 57

-- `\d*` after the digits read so far, whose number is `seen`.
unfoldable pub digits_from : ℕ → Text → ℕ × Text
digits_from seen [] = (seen, [])
digits_from seen (c ∷ cs) =
    let rest = digits_from (seen * 10 + (c - 48)) cs in if is_digit c then rest else (seen, c ∷ cs)

-- `[1-9]\d*`
unfoldable pub positive : Text → Option (ℕ × Text)
positive [] = none
positive (c ∷ cs) = if leb 49 c && leb c 57 then some (digits_from (c - 48) cs) else none

-- `L?`
abbrev pub skip_line_letter : Text → Text
skip_line_letter [] = []
skip_line_letter (c ∷ cs) = if nat_beq c 76 || nat_beq c 108 then cs else c ∷ cs

pub data Separator : Type 0 where
  dash plus dots : Separator

abbrev pub separator_of : Text → Option (Separator × Text)
separator_of [] = none
separator_of (c ∷ cs) =
    if nat_beq c 45
    then some (Separator.dash, cs)
    else if nat_beq c 43
    then some (Separator.plus, cs)
    else elim (strip_prefix (text "..") (c ∷ cs)) [
      | none ↦ none
      | some rest ↦ some (Separator.dots, rest)
    ]

abbrev pub max_safe_integer : ℕ
max_safe_integer = 9007199254740991

abbrev pub range_end : Separator → ℕ → Option (ℕ × Text) → Text → Bool
range_end separator start none [] =
    leb start max_safe_integer && elim separator [ Separator.plus ↦ false | _ ↦ true ]
range_end separator start none (c ∷ cs) = false
range_end separator start (some (end', [])) rest =
    leb start max_safe_integer
    && leb end' max_safe_integer
    && elim separator [ Separator.plus ↦ true | _ ↦ leb start end' ]
range_end separator start (some (end', c ∷ cs)) rest = false

abbrev pub range_after : ℕ → Option (Separator × Text) → Text → Bool
range_after start none [] = leb start max_safe_integer
range_after start none (c ∷ cs) = false
range_after start (some (separator, rest)) t =
    range_end separator start (positive (skip_line_letter rest)) (skip_line_letter rest)

abbrev pub range_start : Option (ℕ × Text) → Bool
range_start none = false
range_start (some (start, rest)) = range_after start (separator_of rest) rest

unfoldable pub valid_read_range_chunk : Text → Bool
valid_read_range_chunk chunk = range_start (positive (skip_line_letter chunk))

abbrev pub is_range : Text → Bool
is_range part = not (text_beq part []) && all valid_read_range_chunk (split_on 44 part)

-- `/^(?:raw|conflicts)$/iu`
abbrev pub is_whole : Text → Text → Bool
is_whole word part = elim (strip_folded word part) [ none ↦ false | some rest ↦ text_beq rest [] ]

unfoldable pub valid_read_selector_part : Text → Bool
valid_read_selector_part part =
    is_whole (text "raw") part || is_whole (text "conflicts") part || is_range part

-- `lower` is `toLowerCase`.
module _ (lower : Text → Text) where
  abbrev pub is_raw : Text → Bool
  is_raw part = text_beq (lower part) (text "raw")

  abbrev pub selector_parts : List Text → Bool
  selector_parts (part ∷ []) = valid_read_selector_part part
  selector_parts (first ∷ (second ∷ [])) =
      (is_raw first && valid_read_selector_part second)
      || (is_raw second && valid_read_selector_part first)
  selector_parts _ = false

  unfoldable pub is_read_selector : Text → Bool
  is_read_selector selector = selector_parts (split_on 58 selector)

  -- A second selector before the last one: one of the two is `raw` and the other a range.
  abbrev pub inner_cut : Text → Text → Option ℕ → Text
  inner_cut base_path candidate none = base_path
  inner_cut base_path candidate (some zero) = base_path
  inner_cut base_path candidate (some (suc colon)) =
      let inner = drop (suc (suc colon)) base_path in
      if (is_raw inner && is_range candidate) || (is_range inner && is_raw candidate)
      then take (suc colon) base_path
      else base_path

  abbrev pub cut_at : Text → Option ℕ → Text
  cut_at raw none = raw
  cut_at raw (some zero) = raw
  cut_at raw (some (suc colon)) =
      let candidate = drop (suc (suc colon)) raw in
      let base_path = take (suc colon) raw in
      if is_read_selector candidate
      then inner_cut base_path candidate (last_index_of 58 base_path)
      else raw

  -- `stripReadSelector`; `on_windows` is the test of `process.platform`.
  unfoldable pub strip_read_selector : Bool → Text → Text
  strip_read_selector on_windows raw = if on_windows then cut_at raw (last_index_of 58 raw) else raw
