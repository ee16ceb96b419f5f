-- ===== src/Prelude/Texts.antt =====
-- Text as the JavaScript engine sees it: a list of UTF-16 code units.
use Prim.Native.Nat.{ℕ, suc, ◌+◌}
use Prim.Native.Char.{code}
use Prim.Native.String.{String}
use mathlib.Core.Path.{◌≡◌, refl, ap, sym}
use mathlib.Core.Logic.{◌↔◌, ◌≢◌, ◌⊎◌, inl, inr}
use mathlib.Core.Bool.{Bool, true, false, ◌&&◌, ◌||◌}
use mathlib.Core.Option
use mathlib.Core.Option.{Option, none, some}
use mathlib.Core.List.{List, [], ◌∷◌, ◌++◌, reverse}
use native.Mathlib.Omega.{arith}
use native.Mathlib.Numerals.{add-one}
use omp_spec_kit.Prelude.Tests.{Equality, nat_eq, nat_beq, leb, if◌then◌else◌, Bool-cases}
use omp_spec_kit.Prelude.Lists.{length, All, take, drop}

abbrev pub Text : Type 0
Text = List ℕ

-- The code units of a literal; the literals of the sources modelled here are in the basic plane.
abbrev pub text : String → Text
text String.[] = []
text (String.◌∷◌ c s) = code c ∷ text s

unfoldable pub text_beq : Text → Text → Bool
text_beq [] [] = true
text_beq (c ∷ cs) (d ∷ ds) = nat_beq c d && text_beq cs ds
text_beq _ _ = false

pub text_beq_iff : (s t : Text) → (text_beq s t ≡ true) ↔ (s ≡ t)
unfolding text_beq
text_beq_iff [] [] = ground arith
text_beq_iff [] (d ∷ ds) = ground arith
text_beq_iff (c ∷ cs) [] = ground arith
text_beq_iff (c ∷ cs) (d ∷ ds) = ground (arith, text_beq_iff cs ds)

instance abbrev pub text_eq : Equality Text
text_eq = record { test = text_beq; test_iff = text_beq_iff }

pub text_beq_refl : (s : Text) → text_beq s s ≡ true
text_beq_refl s = (text_beq_iff s s).1 refl

-- `text.startsWith(prefix)`, and what follows the prefix.
unfoldable pub strip_prefix : Text → Text → Option Text
strip_prefix [] t = some t
strip_prefix (p ∷ ps) [] = none
strip_prefix (p ∷ ps) (c ∷ cs) = if nat_beq p c then strip_prefix ps cs else none

unfoldable pub starts_with : Text → Text → Bool
starts_with t p = elim (strip_prefix p t) [ none ↦ false | some _ ↦ true ]

pub strip_prefix-eq-some : (p t r : Text) → strip_prefix p t ≡ some r → t ≡ p ++ r
unfolding strip_prefix
strip_prefix-eq-some [] t r h = ground arith
strip_prefix-eq-some (p ∷ ps) [] r h = cc
strip_prefix-eq-some (p ∷ ps) (c ∷ cs) r h = ground (arith, strip_prefix-eq-some ps cs r)

pub strip_prefix-append : (p r : Text) → strip_prefix p (p ++ r) ≡ some r
unfolding strip_prefix
strip_prefix-append [] r = refl
strip_prefix-append (p ∷ ps) r = ground (arith, strip_prefix-append ps r)

-- `text.indexOf(ch)` for one code unit; `none` is -1.
unfoldable pub index_of : ℕ → Text → Option ℕ
index_of ch [] = none
index_of ch (c ∷ cs) = if nat_beq c ch then some 0 else Option.map suc (index_of ch cs)

-- The code unit does not occur.
abbrev pub Free : ℕ → Text → Type 0
Free ch t = All (λ c. c ≢ ch) t

pub index_of-Free : (ch : ℕ) (t : Text) → Free ch t → index_of ch t ≡ none
unfolding index_of
index_of-Free ch [] h = refl
index_of-Free ch (c ∷ cs) (h, hs) = rw (index_of-Free ch cs hs) (ground arith)

pub index_of-append :
    (ch : ℕ) (s r : Text) → Free ch s → index_of ch (s ++ ch ∷ r) ≡ some (length s)
unfolding index_of
index_of-append ch [] r h = ground arith
index_of-append ch (c ∷ cs) r (h, hs) = rw (index_of-append ch cs r hs) (ground arith)

index_of-cons :
    (ch c : ℕ) (cs : Text) (i : ℕ)
    → index_of ch (c ∷ cs) ≡ some i
    → ((c ≡ ch) × (i ≡ 0)) ⊎ ((j : ℕ) × (index_of ch cs ≡ some j) × (i ≡ suc j))
unfolding index_of
index_of-cons ch c cs i h = elim (Bool-cases (nat_beq c ch)) [
  | inl same ↦ inl (ground arith)
  | inr other ↦
      let (j, e, same) = (Option.map-eq-some_iff _ _).0 (rw other at h) in inr (j, e, sym same)
]

index_of-nil : (ch i : ℕ) → index_of ch [] ≢ some i
unfolding index_of
index_of-nil ch i h = cc

-- An index that is found splits the text at the code unit.
pub index_of_sound :
    (ch : ℕ) (t : Text) (i : ℕ) → index_of ch t ≡ some i → t ≡ take i t ++ ch ∷ drop (i + 1) t
index_of_sound ch [] i h = absurd (index_of-nil ch i h)
index_of_sound ch (c ∷ cs) i h = elim (index_of-cons ch c cs i h) [
  | inl (same, start) ↦ rw (same, start) refl
  | inr (j, e, later) ↦
      rw (later, add-one (suc j)) (ap (λ t. c ∷ t) (rw add-one at (index_of_sound ch cs j e)))
]

-- White space and line terminators, as `String.prototype.trim` removes them.
unfoldable pub is_space : ℕ → Bool
is_space c =
    (leb 9 c && leb c 13)
    || nat_beq c 32
    || nat_beq c 0xa0
    || nat_beq c 0x1680
    || (leb 0x2000 c && leb c 0x200a)
    || nat_beq c 0x2028
    || nat_beq c 0x2029
    || nat_beq c 0x202f
    || nat_beq c 0x205f
    || nat_beq c 0x3000
    || nat_beq c 0xfeff

unfoldable pub trim_start : Text → Text
trim_start [] = []
trim_start (c ∷ cs) = let rest = trim_start cs in if is_space c then rest else c ∷ cs

unfoldable pub trim : Text → Text
trim t = reverse (trim_start (reverse (trim_start t)))
