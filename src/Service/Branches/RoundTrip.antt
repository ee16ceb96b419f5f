-- ===== src/Service/Branches/RoundTrip.antt =====
-- Branch names are printed and parsed without loss.
use omp_spec_kit.Prelude.{
  ℕ, Text, strip_prefix, strip_prefix-append, strip_prefix-eq-some, Bool, true, not, ◌≡◌, refl, ap,
  Option, none, some, [], ◌∷◌, ◌++◌, ok, >>=-eq-ok, arith, &&-right, Bool-cases, Option-cases, inl,
  inr, ◌∙◌, append-nil,
}
use omp_spec_kit.Kernel.Identity.{is_valid_spec_slug, kebab_from, is_lower_alnum}
use omp_spec_kit.Service.Branches.{
  spec_branch_prefix, spec_work_separator, spec_branch_name, spec_work_branch_name, cut_separator,
  cut_here, cut_before, spec_branch, work_branch, classify_rest, parse_stripped, parse_spec_branch,
  with_topic,
}

-- No separator begins inside a slug.
kebab_from-next : (t r : Text) → kebab_from true t ≡ true → strip_prefix (b'-' ∷ []) (t ++ r) ≡ none
unfolding kebab_from strip_prefix
kebab_from-next [] r h = absurd (cc)
kebab_from-next (c ∷ cs) r h = ground arith

strip_prefix-kebab :
    (need : Bool) (c : ℕ) (cs r : Text)
    → kebab_from need (c ∷ cs) ≡ true
    → strip_prefix spec_work_separator (c ∷ (cs ++ r)) ≡ none
unfolding kebab_from strip_prefix
strip_prefix-kebab need c cs r h = elim (Bool-cases (is_lower_alnum c)) [
  | inl letter ↦ ground arith
  | inr dash ↦ ground (arith, kebab_from-next cs r)
]

kebab_from-rest :
    (need : Bool) (c : ℕ) (cs : Text)
    → kebab_from need (c ∷ cs) ≡ true
    → kebab_from (not (is_lower_alnum c)) cs ≡ true
unfolding kebab_from
kebab_from-rest need c cs h = &&-right _ _ h

cut_separator-kebab : (t : Text) (need : Bool) → kebab_from need t ≡ true → cut_separator t ≡ none
unfolding cut_separator
cut_separator-kebab [] need h = refl
cut_separator-kebab (c ∷ cs) need h = rw (← append-nil cs) (
    rw
      (
        strip_prefix-kebab need c cs [] h,
        append-nil cs,
        cut_separator-kebab cs _ (kebab_from-rest need c cs h),
      )
      refl)

cut_separator-append :
    (t r : Text) (need : Bool)
    → kebab_from need t ≡ true
    → cut_separator (t ++ (spec_work_separator ++ r)) ≡ some (t, r)
unfolding cut_separator
cut_separator-append [] r need h =
    ap (λ o. cut_here o (cut_before b'-' (cut_separator (b'-' ∷ r))))
      (strip_prefix-append spec_work_separator r)
cut_separator-append (c ∷ cs) r need h =
    rw
      (
        strip_prefix-kebab need c cs (spec_work_separator ++ r) h,
        cut_separator-append cs r _ (kebab_from-rest need c cs h),
      )
      refl

-- What a parsed text reads.
cut_separator_sound :
    (t front back : Text)
    → cut_separator t ≡ some (front, back)
    → t ≡ front ++ (spec_work_separator ++ back)
unfolding cut_separator
cut_separator_sound [] front back h = absurd (cc)
cut_separator_sound (c ∷ cs) front back h =
    elim (Option-cases (strip_prefix spec_work_separator (c ∷ cs))) [
      | inr (rest, e) ↦
          let here : ◌≡◌ {A = Option (Text × Text)} (some ([], rest)) (some (front, back)) =
            rw (e, cut_separator) at h in
          strip_prefix-eq-some spec_work_separator (c ∷ cs) rest e ∙ cc
      | inl e ↦ elim (Option-cases (cut_separator cs)) [
        | inl none' ↦ absurd (cc (rw (e, none', cut_separator) at h))
        | inr ((f, b), later) ↦
            let there : ◌≡◌ {A = Option (Text × Text)} (some (c ∷ f, b)) (some (front, back)) =
              rw (e, later, cut_separator) at h in
            ap (λ t. c ∷ t) (cut_separator_sound cs f b later) ∙ cc
      ]
    ]

spec_branch_name-ok :
    (slug branch : Text)
    → spec_branch_name slug ≡ ok branch
    → (is_valid_spec_slug slug ≡ true) × (branch ≡ spec_branch_prefix ++ slug)
unfolding spec_branch_name
spec_branch_name-ok slug branch h = ground arith

with_topic-ok :
    (topic base branch : Text)
    → with_topic topic base ≡ ok branch
    → branch ≡ base ++ (spec_work_separator ++ topic)
with_topic-ok topic base branch h = ground arith

spec_work_branch_name-ok :
    (slug topic branch : Text)
    → spec_work_branch_name slug topic ≡ ok branch
    → (is_valid_spec_slug slug ≡ true)
      × (is_valid_spec_slug topic ≡ true)
      × (branch ≡ spec_branch_prefix ++ (slug ++ (spec_work_separator ++ topic)))
unfolding spec_work_branch_name
spec_work_branch_name-ok slug topic branch h = elim (Bool-cases (is_valid_spec_slug topic)) [
  | inl valid ↦
      let (base, e, rest) =
        >>=-eq-ok (spec_branch_name slug) (with_topic topic)
          (rw (valid, spec_work_branch_name) at h) in
      let (slug_valid, same) = spec_branch_name-ok slug base e in
      (
        slug_valid,
        valid,
        with_topic-ok topic base branch rest ∙ ap (λ t. t ++ (spec_work_separator ++ topic)) same,
      )
  | inr invalid ↦ absurd (cc (rw (invalid, spec_work_branch_name) at h))
]

-- A name that spec_branch_name returns is parsed to the slug that it was made from.
pub parse_spec_branch-name :
    (slug branch : Text)
    → spec_branch_name slug ≡ ok branch
    → parse_spec_branch branch ≡ some (spec_branch slug)
unfolding parse_spec_branch is_valid_spec_slug
parse_spec_branch-name slug branch h =
    let (valid, same) = spec_branch_name-ok slug branch h in
    rw (same, strip_prefix-append spec_branch_prefix slug, cut_separator-kebab slug true valid)
      (rw valid refl)

-- A name that spec_work_branch_name returns is parsed to the slug and the topic that it was made from.
pub parse_spec_branch-work_name :
    (slug topic branch : Text)
    → spec_work_branch_name slug topic ≡ ok branch
    → parse_spec_branch branch ≡ some (work_branch slug topic)
unfolding parse_spec_branch is_valid_spec_slug
parse_spec_branch-work_name slug topic branch h =
    let (valid, topic_valid, same) = spec_work_branch_name-ok slug topic branch h in
    rw
      (
        same,
        strip_prefix-append spec_branch_prefix (slug ++ (spec_work_separator ++ topic)),
        cut_separator-append slug topic true valid,
      )
      (rw (valid, topic_valid) refl)

classify_rest_sound :
    (rest slug topic : Text)
    → (classify_rest rest (cut_separator rest) ≡ some (spec_branch slug)
        → (rest ≡ slug) × (is_valid_spec_slug slug ≡ true))
      × (classify_rest rest (cut_separator rest) ≡ some (work_branch slug topic)
          → (rest ≡ slug ++ (spec_work_separator ++ topic))
            × (is_valid_spec_slug slug ≡ true)
            × (is_valid_spec_slug topic ≡ true))
classify_rest_sound rest slug topic = elim (Option-cases (cut_separator rest)) [
  | inl e ↦ rw e (ground arith)
  | inr ((front, back), e) ↦ rw e (ground (arith, cut_separator_sound rest front back e))
]

-- A text that parses as a work branch is the prefix, the slug, the separator and the topic, both
-- parts valid slugs.
parse_spec_branch_sound :
    (branch slug topic : Text)
    → parse_spec_branch branch ≡ some (work_branch slug topic)
    → (branch ≡ spec_branch_prefix ++ (slug ++ (spec_work_separator ++ topic)))
      × (is_valid_spec_slug slug ≡ true)
      × (is_valid_spec_slug topic ≡ true)
unfolding parse_spec_branch
parse_spec_branch_sound branch slug topic h =
    elim (Option-cases (strip_prefix spec_branch_prefix branch)) [
      | inl e ↦ absurd (cc (rw (e, parse_spec_branch) at h))
      | inr (rest, e) ↦
          let parsed : parse_stripped (some rest) ≡ some (work_branch slug topic) =
            rw (e, parse_spec_branch) at h in
          let (same, valid, topic_valid) = (classify_rest_sound rest slug topic).1 parsed in
          (
            strip_prefix-eq-some spec_branch_prefix branch rest e
                ∙ ap (λ t. spec_branch_prefix ++ t) same,
            valid,
            topic_valid,
          )
    ]
