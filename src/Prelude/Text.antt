-- ===== src/Prelude/Text.antt =====
-- Texts: Go's `len` in bytes, `strings.TrimSpace` and `strings.Join`.
use Prim.Native.Char.{Char, code}
use Prim.Native.String.{String, ◌++◌, slice}
use Prim.Native.Nat.{ℕ, zero, suc, ◌+◌, ◌/◌, ◌%◌}
use mathlib.Core.Bool.{Bool, ◌&&◌, ◌||◌}
use mathlib.Core.List.{List, [], ◌∷◌}
use attention.Prelude.Tests.{leb, eqb, if◌then◌else◌}

-- `unicode.IsSpace`
is_space : ℕ → Bool
is_space c =
    (leb 9 c && leb c 13)
    || eqb c 32
    || eqb c 0x85
    || eqb c 0xa0
    || eqb c 0x1680
    || (leb 0x2000 c && leb c 0x200a)
    || eqb c 0x2028
    || eqb c 0x2029
    || eqb c 0x202f
    || eqb c 0x205f
    || eqb c 0x3000

trim_left : String → String
trim_left String.[] = String.[]
trim_left (String.◌∷◌ c s) =
    let rest = trim_left s in if is_space (code c) then rest else String.◌∷◌ c s

-- A character in front of a text that is trimmed already.
put_back : Char → String → String
put_back c String.[] = if is_space (code c) then String.[] else String.◌∷◌ c String.[]
put_back c (String.◌∷◌ d t) = String.◌∷◌ c (String.◌∷◌ d t)

trim_right : String → String
unfolding put_back
trim_right String.[] = String.[]
trim_right (String.◌∷◌ c s) = put_back c (trim_right s)

-- `strings.TrimSpace`
unfoldable pub trim_space : String → String
unfolding is_space trim_left trim_right
trim_space s = trim_right (trim_left s)

-- `strings.Join(parts, sep)`
unfoldable pub join : List String → String → String
join [] sep = ""
join (x ∷ []) sep = x
join (x ∷ y ∷ xs) sep = x ++ (sep ++ join (y ∷ xs) sep)

-- The decimal digits of a number in front of `acc`; a number below 10 to the fuel is printed whole.
digits : ℕ → ℕ → String → String
digits zero n acc = acc
digits (suc fuel) n acc =
    let acc' = slice "0123456789" (n % 10) (n % 10 + 1) ++ acc in
    let rest = digits fuel (n / 10) acc' in if eqb (n / 10) 0 then acc' else rest

-- `%d` of a number that is not negative.
unfoldable pub show_nat : ℕ → String
unfolding digits
show_nat n = digits (suc n) n ""
