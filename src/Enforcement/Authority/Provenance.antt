-- ===== src/Enforcement/Authority/Provenance.antt =====
-- What an authority that is granted says of the tools that the host shows.
use omp_spec_kit.Prelude.{
  ℕ, ◌+◌, Text, Bool, true, false, not, ◌&&◌, ◌||◌, nat_beq, Option, none, some, List, [], ◌∷◌,
  if◌then◌else◌, Result, ok, err, ◌≡◌, ◌⊎◌, refl, ◌∙◌, inl, inr, Bool-cases, Option-cases, arith,
  All, filter, length,
}
use omp_spec_kit.Enforcement.Authority.{
  Family, family_has, family_get, ObservedTool, is_registered, AuthorityError, count_families,
  judge_counts, in_family, tally, resolve_authority,
}

module _ (family_a family_b : Family) where
  -- A tool with a name of a family comes from the MCP server of that name.
  unfoldable pub IsGenuine : ObservedTool → Type 0
  IsGenuine tool =
      ((family_has family_a tool.name || family_has family_b tool.name) && not (is_registered tool))
      ≡ false

  abbrev pub members : Family → List ObservedTool → ℕ
  members family tools = length (filter (λ tool. family_has family tool.name) tools)

  tally-add :
      (here : Bool) (n : ℕ) (tool : ObservedTool) (rest : List ObservedTool)
      → tally here n + length rest ≡ n + length (if here then tool ∷ rest else rest)
  tally-add true n tool rest = omega arith
  tally-add false n tool rest = refl

  counts_sound :
      (tools : List ObservedTool) (a b m n : ℕ)
      → count_families family_a family_b a b tools ≡ some (m, n)
      → All IsGenuine tools × (m ≡ a + members family_a tools) × (n ≡ b + members family_b tools)
  unfolding count_families IsGenuine
  counts_sound [] a b m n h = (tt, ground arith, ground arith)
  counts_sound (tool ∷ tools) a b m n h =
      elim (Bool-cases (
        (family_has family_a tool.name || family_has family_b tool.name)
        && not (is_registered tool))) [
          | inl spoof ↦
              absurd (let h' : ◌≡◌ {A = Option (ℕ × ℕ)} none (some (m, n)) = rw spoof at h in cc)
          | inr genuine ↦
              let (rest, in_a, in_b) =
                counts_sound tools (tally (family_has family_a tool.name) a)
                  (tally (family_has family_b tool.name) b) m n (rw genuine at h) in
              (
                (genuine, rest),
                in_a
                    ∙ tally-add (family_has family_a tool.name) a tool
                        (filter (λ t. family_has family_a t.name) tools),
                in_b
                    ∙ tally-add (family_has family_b tool.name) b tool
                        (filter (λ t. family_has family_b t.name) tools),
              )
        ]

  -- One whole family, and nothing of the other.
  abbrev pub IsWhole : List ObservedTool → ℕ → Type 0
  IsWhole tools expected =
      ((members family_a tools ≡ expected) × (members family_b tools ≡ 0))
      ⊎ ((members family_b tools ≡ expected) × (members family_a tools ≡ 0))

  in_family-ok :
      (o : Option Text) (tool : Text) → in_family family_a family_b o ≡ ok tool → o ≡ some tool
  in_family-ok none tool h = absurd (cc)
  in_family-ok (some t) tool h = ground arith

  judged :
      (tool_name tool : Text) (expected m n : ℕ)
      → judge_counts family_a family_b tool_name expected (some (m, n)) ≡ ok tool
      → (((m ≡ expected) × (n ≡ 0)) ⊎ ((n ≡ expected) × (m ≡ 0)))
        × ((family_get family_a tool_name ≡ some tool)
            ⊎ (family_get family_b tool_name ≡ some tool))
  judged tool_name tool expected m n h = elim (Bool-cases (nat_beq m expected && nat_beq n 0)) [
    | inl a ↦
        let h' : in_family family_a family_b (family_get family_a tool_name) ≡ ok tool =
          rw a at h in
        (inl (ground arith), inl (in_family-ok _ tool h'))
    | inr not_a ↦ elim (Bool-cases (nat_beq n expected && nat_beq m 0)) [
      | inl b ↦
          let h' : in_family family_a family_b (family_get family_b tool_name) ≡ ok tool =
            rw (not_a, b) at h in
          (inr (ground arith), inr (in_family-ok _ tool h'))
      | inr not_b ↦ absurd (
          let h' : ◌≡◌ {A = Result AuthorityError Text}
              (err (AuthorityError.incomplete_family m n expected)) (ok tool) =
            rw (not_a, not_b) at h in
          cc)
    ]
  ]

  -- Where the host shows its tools, a call is granted a tool only if every tool shown under a name of a
  -- family comes from the MCP server of that name, and the tools shown are the expected number of one
  -- family and none of the other; the tool that is granted has the name of the call in a family.
  pub resolve_authority_sound :
      (tool_name tool : Text) (tools : List ObservedTool) (expected : ℕ)
      → resolve_authority family_a family_b tool_name (some tools) expected ≡ ok tool
      → All IsGenuine tools
        × IsWhole tools expected
        × ((family_get family_a tool_name ≡ some tool)
            ⊎ (family_get family_b tool_name ≡ some tool))
  unfolding resolve_authority
  resolve_authority_sound tool_name tool tools expected h =
      elim (Option-cases (count_families family_a family_b 0 0 tools)) [
        | inl spoof ↦ absurd (
            let h' : ◌≡◌ {A = Result AuthorityError Text} (err AuthorityError.spoof_detected)
                (ok tool) =
              rw (spoof, judge_counts) at h in
            cc)
        | inr ((m, n), counted) ↦
            let (genuine, in_a, in_b) = counts_sound tools 0 0 m n counted in
            let in_a' : m ≡ members family_a tools = omega (arith, in_a) in
            let in_b' : n ≡ members family_b tools = omega (arith, in_b) in
            let h' : judge_counts family_a family_b tool_name expected (some (m, n)) ≡ ok tool =
              rw counted at h in
            let (whole, named) = judged tool_name tool expected m n h' in
            (genuine, rw (← in_a', ← in_b') whole, named)
      ]
