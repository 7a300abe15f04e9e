-- ===== src/Base/Codes.antt =====
-- Texts that the program walks by character: lists of code units, with `String(n)`, `Number(s)` on
-- digits, `split`, `join` and `trim`.
pub mod Digits
pub mod Words
use Prim.Native.Char.{code}
use Prim.Native.Nat.{ℕ, zero, suc, ◌+◌, ◌-◌, ◌*◌, ◌/◌, ◌%◌}
use Prim.Native.String.{String}
use mathlib.Core.Bool.{Bool, true, false, not, ◌&&◌}
use mathlib.Core.List.{List, [], ◌∷◌, ◌++◌}
use omni_python_web_template.Base.Tests.{ltb, leb, nat_beq, if◌then◌else◌}
use omni_python_web_template.Base.Lists.{is_nil, all, filter}
use omni_python_web_template.Base.Text.{is_space}

abbrev pub Codes : Type 0
Codes = List ℕ

abbrev pub codes : String → Codes
codes String.[] = []
codes (String.◌∷◌ c s) = code c ∷ codes s

-- `\d`
abbrev pub is_digit : ℕ → Bool
is_digit c = leb 48 c && leb c 57

-- `/^\d+$/`
abbrev pub is_number : Codes → Bool
is_number s = not (is_nil s) && all is_digit s

-- The last digit is written last; each step divides by ten, so n + 1 steps are enough.
unfoldable pub print_from : ℕ → ℕ → Codes
print_from zero n = []
print_from (suc fuel) n =
    let before = print_from fuel (n / 10) in (if ltb n 10 then [] else before) ++ (48 + n % 10) ∷ []

unfoldable pub print : ℕ → Codes
print n = print_from (suc n) n

unfoldable pub number_onto : ℕ → Codes → ℕ
number_onto n [] = n
number_onto n (c ∷ s) = number_onto (n * 10 + (c - 48)) s

-- `Number(s)` on digits; the empty text gives 0.
unfoldable pub number : Codes → ℕ
number s = number_onto 0 s

abbrev pub onto_first : ℕ → List Codes → List Codes
onto_first c [] = (c ∷ []) ∷ []
onto_first c (w ∷ ws) = (c ∷ w) ∷ ws

-- The parts between the separators, empty ones too.
unfoldable pub split_by : (ℕ → Bool) → Codes → List Codes
split_by is_separator [] = [] ∷ []
split_by is_separator (c ∷ s) =
    let rest = split_by is_separator s in if is_separator c then [] ∷ rest else onto_first c rest

-- `s.trim().split(/\s+/).filter(Boolean)`
unfoldable pub words : Codes → List Codes
words s = filter (λ w. not (is_nil w)) (split_by is_space s)

unfoldable pub join_with : ℕ → List Codes → Codes
join_with separator [] = []
join_with separator (w ∷ []) = w
join_with separator (w ∷ v ∷ ws) = w ++ separator ∷ join_with separator (v ∷ ws)

unfoldable pub trim_codes_start : Codes → Codes
trim_codes_start [] = []
trim_codes_start (c ∷ s) = if is_space c then trim_codes_start s else c ∷ s

unfoldable pub trim_codes_end : Codes → Codes
trim_codes_end [] = []
trim_codes_end (c ∷ s) =
    let rest = trim_codes_end s in if is_space c && is_nil rest then [] else c ∷ rest

unfoldable pub trim_codes : Codes → Codes
trim_codes s = trim_codes_end (trim_codes_start s)

-- `s === t`
abbrev pub same_codes : Codes → Codes → Bool
same_codes [] [] = true
same_codes [] (d ∷ t) = false
same_codes (c ∷ s) [] = false
same_codes (c ∷ s) (d ∷ t) = nat_beq c d && same_codes s t
