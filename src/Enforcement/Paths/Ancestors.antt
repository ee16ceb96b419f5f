-- ===== src/Enforcement/Paths/Ancestors.antt =====
-- What the search for an ancestor that exists answers (`existingAncestor` of src/enforcement/resolve-targets.js).
use omp_spec_kit.Prelude.{
  ℕ, zero, suc, ◌<◌, ◌≡◌, ◌≢◌, Text, text_beq, text_beq_iff, length, true, Bool-cases, inl, inr,
  ◌⊎◌, arith,
}
use omp_spec_kit.Enforcement.Paths.{
  Platform, Probe, found, missing, failed, Ancestor, exists_at, no_ancestor, io_error, out_of_fuel,
  existing_ancestor,
}

-- `path.dirname` of an absolute path is absolute, and is the path itself or shorter.
abbrev pub IsDirname : Platform → Type 0
IsDirname w =
    (p : Text)
    → w.is_absolute p ≡ true
    → (w.parent_of p ≡ p)
      ⊎ ((w.is_absolute (w.parent_of p) ≡ true) × (length (w.parent_of p) < length p))

-- From a path to an ancestor of it, past paths that do not exist.
pub data Climbs (w : Platform) : Text → Text → Type 0 where
  here : {p : Text} → Climbs w p p
  up :
      {p q : Text}
      → w.lstat p ≡ missing
      → w.parent_of p ≢ p
      → Climbs w (w.parent_of p) q
      → Climbs w p q

-- The answer is right: the first ancestor that exists, or none up to the root, or an error on the way.
abbrev pub IsAnswer : Platform → Text → Ancestor → Type 0
IsAnswer w p (exists_at q) = Climbs w p q × (w.lstat q ≡ found tt)
IsAnswer w p no_ancestor = (q : Text) × Climbs w p q × (w.lstat q ≡ missing) × (w.parent_of q ≡ q)
IsAnswer w p io_error = (q : Text) × Climbs w p q × (w.lstat q ≡ failed)
IsAnswer w p out_of_fuel = ⊥

up-IsAnswer :
    (w : Platform) (p : Text) (a : Ancestor)
    → w.lstat p ≡ missing
    → w.parent_of p ≢ p
    → IsAnswer w (w.parent_of p) a
    → IsAnswer w p a
up-IsAnswer w p (exists_at q) gone step (climb, there) = (up gone step climb, there)
up-IsAnswer w p no_ancestor gone step (q, climb, there, root) = (q, up gone step climb, there, root)
up-IsAnswer w p io_error gone step (q, climb, broken) = (q, up gone step climb, broken)
up-IsAnswer w p out_of_fuel gone step h = h

Probe-cases : (o : Probe Unit) → (o ≡ found tt) ⊎ ((o ≡ missing) ⊎ (o ≡ failed))
Probe-cases (found tt) = inl (λ i. found tt)
Probe-cases missing = inr (inl (λ i. missing))
Probe-cases failed = inr (inr (λ i. failed))

-- With any fuel above the length of the path, of an absolute path: the search ends, and answers with the
-- nearest ancestor that exists, past ancestors that do not; with none if there is none up to the root; or
-- with an error that reading an ancestor gave, past ancestors that do not exist. Of the platform this takes
-- that `path.dirname` of an absolute path is absolute, and is the path itself or shorter.
pub existing_ancestor-IsAnswer :
    (w : Platform) (fuel : ℕ) (current : Text)
    → IsDirname w
    → w.is_absolute current ≡ true
    → length current < fuel
    → IsAnswer w current (existing_ancestor w fuel current)
unfolding existing_ancestor
existing_ancestor-IsAnswer w zero current dirname absolute enough = absurd (omega arith)
existing_ancestor-IsAnswer w (suc fuel) current dirname absolute enough =
    elim (Probe-cases (w.lstat current)) [
      | inl there ↦ rw there (here, there)
      | inr (inr broken) ↦ rw broken (current, here, broken)
      | inr (inl gone) ↦ elim (Bool-cases (text_beq (w.parent_of current) current)) [
        | inl root ↦ rw (gone, root) (current, here, gone, (text_beq_iff _ _).0 root)
        | inr below ↦
            let step : w.parent_of current ≢ current =
              λ e. let same = (text_beq_iff (w.parent_of current) current).1 e in cc in
            rw (gone, below)
              (elim (dirname current absolute) [
                | inl same ↦ absurd (step same)
                | inr (absolute', shorter) ↦
                    up-IsAnswer w current (existing_ancestor w fuel (w.parent_of current)) gone step
                      (existing_ancestor-IsAnswer w fuel (w.parent_of current) dirname absolute'
                        (omega arith))
              ])
      ]
    ]
