-- ===== src/Base/Text.antt =====
-- `String.prototype.trim`.
use Prim.Native.Char.{Char, code}
use Prim.Native.Nat.{ℕ}
use Prim.Native.String.{String, [], ◌∷◌}
use mathlib.Core.Path.{◌≡◌, refl, ap, ◌∙◌}
use mathlib.Core.Logic.{inl, inr}
use mathlib.Core.Bool.{Bool, true, false, ◌&&◌, ◌||◌}
use omni_python_web_template.Base.Tests.{leb, nat_beq, if◌then◌else◌, Bool-cases}

-- WhiteSpace and LineTerminator of the language
unfoldable pub is_space : ℕ → Bool
is_space c =
    nat_beq c 32
    || leb 9 c && leb c 13
    || nat_beq c 0xa0
    || nat_beq c 0x1680
    || leb 0x2000 c && leb c 0x200a
    || nat_beq c 0x2028
    || nat_beq c 0x2029
    || nat_beq c 0x202f
    || nat_beq c 0x205f
    || nat_beq c 0x3000
    || nat_beq c 0xfeff

abbrev pub is_empty : String → Bool
is_empty [] = true
is_empty (c ∷ s) = false

unfoldable pub trim_start : String → String
trim_start [] = []
trim_start (c ∷ s) = if is_space (code c) then trim_start s else c ∷ s

unfoldable pub trim_end : String → String
trim_end [] = []
trim_end (c ∷ s) =
    let rest = trim_end s in if is_space (code c) && is_empty rest then [] else c ∷ rest

unfoldable pub trim : String → String
trim s = trim_end (trim_start s)

trim_end_idempotent : (s : String) → trim_end (trim_end s) ≡ trim_end s
unfolding trim_end
trim_end_idempotent [] = refl
trim_end_idempotent (c ∷ s) = elim (Bool-cases (is_space (code c) && is_empty (trim_end s))) [
  | inl cut ↦ rw cut refl
  | inr kept ↦ rw (kept, trim_end_idempotent s, kept) refl
]

trim_start_stops : (c : Char) (s : String) → is_space (code c) ≡ false → trim_start (c ∷ s) ≡ c ∷ s
unfolding trim_start
trim_start_stops c s letter = rw letter

trim_end_stops :
    (c : Char) (s : String) → is_space (code c) ≡ false → trim_end (c ∷ s) ≡ c ∷ trim_end s
unfolding trim_end
trim_end_stops c s letter = rw letter

trim_start_skips :
    (c : Char) (s : String) → is_space (code c) ≡ true → trim_start (c ∷ s) ≡ trim_start s
unfolding trim_start
trim_start_skips c s space = rw space

trim_start-trim_end : (s : String) → trim_start (trim_end (trim_start s)) ≡ trim_end (trim_start s)
trim_start-trim_end [] = unfold trim_start trim_end in refl
trim_start-trim_end (c ∷ s) = elim (Bool-cases (is_space (code c))) [
  | inl space ↦ rw (trim_start_skips c s space) (trim_start-trim_end s)
  | inr letter ↦
      rw (trim_start_stops c s letter, trim_end_stops c s letter)
        (trim_start_stops c (trim_end s) letter)
]

pub trim_idempotent : (s : String) → trim (trim s) ≡ trim s
unfolding trim
trim_idempotent s = ap trim_end (trim_start-trim_end s) ∙ trim_end_idempotent (trim_start s)
