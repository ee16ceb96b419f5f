-- ===== src/Service/Auth/Providers.antt =====
-- Verifying a direct token against the bound providers: fail-closed, and no wider for a hint.
use omp_spec_kit.Prelude.{
  Text, text_beq, Bool, true, false, not, ◌≡◌, ◌↔◌, refl, Option, none, some, List, [], ◌∷◌, filter,
  All, All-append, All-filter, All-split, All-parts, inl, inr, ◌⊎◌,
}
use omp_spec_kit.Service.Auth.{
  Idp, order_candidates, Verdict, identity, rejected, unreachable, verified, invalid_token,
  verify_direct,
}

module _ (verify : Idp → Verdict) where
  Verdict-cases :
      (v : Verdict) → ((login : Text) × (v ≡ identity login)) ⊎ ((v ≡ rejected) ⊎ (v ≡ unreachable))
  Verdict-cases (identity login) = inl (login, refl)
  Verdict-cases rejected = inr (inl refl)
  Verdict-cases unreachable = inr (inr refl)

  invalid_token-All :
      (dead : Bool) (idps : List Idp)
      → verify_direct verify dead idps ≡ invalid_token
      → (dead ≡ false) × All (λ idp. verify idp ≡ rejected) idps
  unfolding verify_direct
  invalid_token-All true [] h = absurd (cc)
  invalid_token-All false [] h = (refl, tt)
  invalid_token-All dead (idp ∷ idps) h = elim (Verdict-cases (verify idp)) [
    | inl (login, e) ↦ absurd (cc (rw (e, verify_direct) at h))
    | inr (inl e) ↦
        let (alive, rest) = invalid_token-All dead idps (rw (e, verify_direct) at h) in
        (alive, (e, rest))
    | inr (inr e) ↦ absurd (cc ((invalid_token-All true idps (rw (e, verify_direct) at h)).0))
  ]

  All-invalid_token :
      (idps : List Idp)
      → All (λ idp. verify idp ≡ rejected) idps
      → verify_direct verify false idps ≡ invalid_token
  unfolding verify_direct
  All-invalid_token [] h = refl
  All-invalid_token (idp ∷ idps) (h, hs) = rw (h, verify_direct) (All-invalid_token idps hs)

  -- A token is called invalid exactly when every provider was reached and rejected it.
  verify_direct-invalid_iff :
      (idps : List Idp)
      → (verify_direct verify false idps ≡ invalid_token) ↔ All (λ idp. verify idp ≡ rejected) idps
  verify_direct-invalid_iff idps =
      ((λ h. (invalid_token-All false idps h).1), All-invalid_token idps)

  -- What is verified was verified by one of the candidates.
  verify_direct_sound :
      (P : Idp → Type 0) (dead : Bool) (idps : List Idp) (login : Text) (idp : Idp)
      → All P idps
      → verify_direct verify dead idps ≡ verified login idp
      → (verify idp ≡ identity login) × P idp
  unfolding verify_direct
  verify_direct_sound P true [] login idp p h = absurd (cc)
  verify_direct_sound P false [] login idp p h = absurd (cc)
  verify_direct_sound P dead (i ∷ idps) login idp (p, ps) h = elim (Verdict-cases (verify i)) [
    | inl (l, e) ↦
        let same : verified l i ≡ verified login idp = rw (e, verify_direct) at h in
        let who : i ≡ idp = cc in let name : l ≡ login = cc in rw (← who, ← name) (e, p)
    | inr (inl e) ↦ verify_direct_sound P dead idps login idp ps (rw (e, verify_direct) at h)
    | inr (inr e) ↦ verify_direct_sound P true idps login idp ps (rw (e, verify_direct) at h)
  ]

  All-order_candidates :
      (P : Idp → Type 0) (hint : Option Text) (idps : List Idp)
      → All P idps
      → All P (order_candidates hint idps)
  unfolding order_candidates
  All-order_candidates P none idps h = h
  All-order_candidates P (some hint) idps h =
      All-append P (filter (λ idp. text_beq idp.tenant hint) idps)
        (filter (λ idp. not (text_beq idp.tenant hint)) idps) (All-filter P _ idps h)
        (All-filter P _ idps h)

  order_candidates-All :
      (P : Idp → Type 0) (hint : Option Text) (idps : List Idp)
      → All P (order_candidates hint idps)
      → All P idps
  unfolding order_candidates
  order_candidates-All P none idps h = h
  order_candidates-All P (some hint) idps h =
      let (front, back) =
        All-split P (filter (λ idp. text_beq idp.tenant hint) idps)
          (filter (λ idp. not (text_beq idp.tenant hint)) idps) h in
      All-parts P (λ idp. text_beq idp.tenant hint) idps front back

  -- A hint only reorders: a token is invalid with it exactly if it is invalid without it.
  order_candidates-invalid_iff :
      (hint : Option Text) (idps : List Idp)
      → (verify_direct verify false (order_candidates hint idps) ≡ invalid_token)
        ↔ (verify_direct verify false idps ≡ invalid_token)
  order_candidates-invalid_iff hint idps = (
    (λ h. (verify_direct-invalid_iff idps).1 (
        order_candidates-All _ hint idps
          ((verify_direct-invalid_iff (order_candidates hint idps)).0 h))),
    (λ h.
        (verify_direct-invalid_iff (order_candidates hint idps)).1
          (All-order_candidates _ hint idps ((verify_direct-invalid_iff idps).0 h))),
  )

  -- Whoever is verified under a hint was verified by a provider with any property that all the candidates have.
  order_candidates_sound :
      (P : Idp → Type 0) (hint : Option Text) (idps : List Idp) (login : Text) (idp : Idp)
      → All P idps
      → verify_direct verify false (order_candidates hint idps) ≡ verified login idp
      → (verify idp ≡ identity login) × P idp
  order_candidates_sound P hint idps login idp p h =
      verify_direct_sound P false (order_candidates hint idps) login idp
        (All-order_candidates P hint idps p) h
