-- ===== src/Kernel/Normalize.antt =====
-- src/kernel/normalize.js: the normalisation of decoded text, byte lengths and the order of code points.
-- Decoding bytes and digests are the platform's.
pub mod LineEndings
use omp_spec_kit.Prelude.{
  ℕ, ◌+◌, ◌*◌, ◌-◌, Text, text_beq, Bool, true, false, not, ◌&&◌, leb, ltb, nat_beq, List, [], ◌∷◌,
  length, if◌then◌else◌,
}

-- `/\r\n?/gu` replaced by "\n"; `after_cr` says that the unit before was a carriage return.
unfoldable pub lines_from : Bool → Text → Text
lines_from after_cr [] = []
lines_from after_cr (c ∷ cs) =
    let rest = lines_from (nat_beq c 13) cs in
    if nat_beq c 13 then 10 ∷ rest else if nat_beq c 10 && after_cr then rest else c ∷ rest

abbrev pub strip_bom : Text → Text
strip_bom [] = []
strip_bom (c ∷ cs) = if nat_beq c 0xfeff then cs else c ∷ cs

-- What `normalizeSourceBytes` makes of the text that was decoded.
unfoldable pub normalize_source : Text → Text
normalize_source t = lines_from false (strip_bom t)

abbrev pub is_high_unit : ℕ → Bool
is_high_unit c = leb 0xd800 c && leb c 0xdbff

abbrev pub is_low_unit : ℕ → Bool
is_low_unit c = leb 0xdc00 c && leb c 0xdfff

abbrev pub code_point_bytes : ℕ → ℕ
code_point_bytes c =
    if ltb c 0x80 then 1 else if ltb c 0x800 then 2 else if ltb c 0x10000 then 3 else 4

-- `codePointAt`: a pair of surrogates is one code point.
abbrev pub code_point : ℕ → Text → ℕ
code_point c [] = c
code_point c (d ∷ ds) =
    if is_high_unit c && is_low_unit d then 0x10000 + (c - 0xd800) * 0x400 + (d - 0xdc00) else c

-- `paired` says that the unit was read with the one before it.
unfoldable pub byte_length_from : Bool → Text → ℕ
byte_length_from paired [] = 0
byte_length_from paired (c ∷ cs) =
    let rest = byte_length_from (not paired && ltb 0xffff (code_point c cs)) cs in
    if paired then rest else code_point_bytes (code_point c cs) + rest

unfoldable pub byte_length : Text → ℕ
byte_length t = byte_length_from false t

pub data Order : Type 0 where
  before same after : Order

abbrev pub order_of : ℕ → ℕ → Order
order_of a b = if ltb a b then before else if ltb b a then after else same

-- The loop over the units both have; a pair is skipped as one.
unfoldable pub compare_from : Bool → ℕ → ℕ → Text → Text → Order
compare_from paired m n (a ∷ us) (b ∷ vs) =
    let rest = compare_from (not paired && ltb 0xffff (code_point a us)) m n us vs in
    if paired
    then rest
    else if nat_beq (code_point a us) (code_point b vs)
    then rest
    else if ltb (code_point a us) (code_point b vs)
    then before
    else after
compare_from paired m n _ _ = order_of m n

unfoldable pub compare_code_points : Text → Text → Order
compare_code_points a b =
    if text_beq a b then same else compare_from false (length a) (length b) a b
