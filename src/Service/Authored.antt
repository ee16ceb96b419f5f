-- ===== src/Service/Authored.antt =====
-- src/service/registry.js (`authoredField`) and the version grammar of src/service/publish.js.
use mathlib.Core.List.{reverse}
use omp_spec_kit.Prelude.{
  ℕ, Text, text, starts_with, trim, trim_start, Bool, true, false, not, ◌&&◌, ◌||◌, leb, nat_beq,
  Option, none, some, [], ◌∷◌, ◌++◌, length, drop, all, any, if◌then◌else◌,
}
use omp_spec_kit.Kernel.Identity.{is_lower_alnum, is_upper}

-- What ends a line for `^`, `$` and `.`.
abbrev pub is_line_end : ℕ → Bool
is_line_end c = nat_beq c 10 || nat_beq c 13 || nat_beq c 0x2028 || nat_beq c 0x2029

-- `(.+)$`: the rest of the line.
unfoldable pub rest_of_line : Text → Text
rest_of_line [] = []
rest_of_line (c ∷ cs) = let rest = rest_of_line cs in if is_line_end c then [] else c ∷ rest

-- `\s*(.+)$` after the colon: white space is skipped, line ends included; where nothing else
-- follows, the expression gives back a blank, and the field is empty.
abbrev pub value_from : Text → Text → Option Text
value_from [] blanks = if any (λ c. not (is_line_end c)) blanks then some [] else none
value_from (c ∷ cs) blanks = some (trim (rest_of_line (c ∷ cs)))

unfoldable pub field_value : Text → Option Text
field_value after = value_from (trim_start after) after

abbrev pub field_here : Bool → Text → Text → Option Text
field_here line_start label t =
    if line_start && starts_with t label then field_value (drop (length label) t) else none

abbrev pub first_some {ℓ} : {A : Type ℓ} → Option A → Option A → Option A
first_some none other = other
first_some (some a) other = some a

unfoldable pub authored_from : Text → Bool → Text → Option Text
authored_from label line_start [] = none
authored_from label line_start (c ∷ cs) =
    first_some (field_here line_start label (c ∷ cs)) (authored_from label (is_line_end c) cs)

unfoldable pub authored_field : Text → Text → Option Text
authored_field t name = authored_from (name ++ text ":") true t

abbrev pub is_alnum : ℕ → Bool
is_alnum c = is_lower_alnum c || is_upper c

abbrev pub is_version_char : ℕ → Bool
is_version_char c = is_alnum c || nat_beq c 46 || nat_beq c 95 || nat_beq c 47 || nat_beq c 45

-- `/^[A-Za-z0-9][A-Za-z0-9._/-]*$/`
abbrev pub has_version_form : Text → Bool
has_version_form [] = false
has_version_form (c ∷ cs) = is_alnum c && all is_version_char cs

unfoldable pub has_double_dot : Text → Bool
has_double_dot [] = false
has_double_dot (c ∷ cs) = starts_with (c ∷ cs) (text "..") || has_double_dot cs

abbrev pub ends_with_char : ℕ → Text → Bool
ends_with_char ch t = starts_with (reverse t) (ch ∷ [])

-- `[~^:?*[\]\\ ]`
abbrev pub is_forbidden_char : ℕ → Bool
is_forbidden_char c =
    nat_beq c 126
    || nat_beq c 94
    || nat_beq c 58
    || nat_beq c 63
    || nat_beq c 42
    || nat_beq c 91
    || nat_beq c 93
    || nat_beq c 92
    || nat_beq c 32

unfoldable pub is_ref_safe_version : Text → Bool
is_ref_safe_version version =
    not (nat_beq (length version) 0)
    && leb (length version) 128
    && has_version_form version
    && not (has_double_dot version)
    && not (ends_with_char 47 version)
    && not (ends_with_char 46 version)
    && not (any is_forbidden_char version)
