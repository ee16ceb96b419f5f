-- ===== src/Kernel/Normalize/LineEndings.antt =====
-- What normalisation does to line endings.
use omp_spec_kit.Prelude.{
  Text, Free, Bool, true, false, ◌&&◌, nat_beq, ◌≡◌, refl, [], ◌∷◌, arith, Bool-cases, inl, inr,
}
use omp_spec_kit.Kernel.Normalize.{lines_from, strip_bom, normalize_source}

lines_from-Free : (after_cr : Bool) (t : Text) → Free 13 (lines_from after_cr t)
unfolding lines_from
lines_from-Free after_cr [] = tt
lines_from-Free after_cr (c ∷ cs) = elim (Bool-cases (nat_beq c 13)) [
  | inl cr ↦ rw cr ((λ e. ground arith), lines_from-Free true cs)
  | inr other ↦ rw other (elim (Bool-cases (nat_beq c 10 && after_cr)) [
    | inl second ↦ rw second (lines_from-Free false cs)
    | inr kept ↦ rw kept ((λ e. ground arith), lines_from-Free false cs)
  ])
]

-- Text without a carriage return is left as it is.
lines_from-eq : (t : Text) → Free 13 t → lines_from false t ≡ t
unfolding lines_from
lines_from-eq [] h = refl
lines_from-eq (c ∷ cs) (h, hs) =
    let other : nat_beq c 13 ≡ false = ground arith in
    let kept : (nat_beq c 10 && false) ≡ false = ground arith in
    rw (other, kept, lines_from-eq cs hs) refl

-- Normalised text has no carriage return.
normalize_source-Free : (t : Text) → Free 13 (normalize_source t)
unfolding normalize_source
normalize_source-Free t = lines_from-Free false (strip_bom t)

-- Normalising the line endings of text that was normalised changes nothing.
lines_from_idem : (t : Text) → lines_from false (normalize_source t) ≡ normalize_source t
lines_from_idem t = lines_from-eq (normalize_source t) (normalize_source-Free t)

-- Text without a carriage return and without a byte order mark at its start is normal already.
normalize_source-eq : (t : Text) → Free 13 t → strip_bom t ≡ t → normalize_source t ≡ t
unfolding normalize_source
normalize_source-eq t free clean = rw clean (lines_from-eq t free)
