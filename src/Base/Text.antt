-- ===== src/Base/Text.antt =====
-- A JavaScript string is the list of its UTF-16 code units.
use Prim.Native.Nat.{ℕ, suc, ◌+◌, ◌-◌, ◌/◌, ◌%◌, ◌<◌}
use Prim.Native.Char.{code}
use Prim.Native.String.{String}
use mathlib.Core.Path.{◌≡◌}
use mathlib.Core.Logic.{◌↔◌}
use mathlib.Core.Bool.{Bool, true, false, ◌&&◌}
use mathlib.Core.List.{List, [], ◌∷◌}
use mathlib.Core.Option.{Option, none, some}
use native.Mathlib.Omega.{arith}
use mt5700_console.Base.Tests.{leb, ltb, ◌==◌, if◌then◌else◌}

abbrev pub Str : Type 0
Str = List ℕ

-- A string as a condition, or its length as one.
abbrev pub is_text : Str → Bool
is_text [] = false
is_text (c ∷ s) = true

-- The code points of a literal; every literal of this library is in the basic plane.
abbrev pub codes : String → Str
codes String.[] = []
codes (String.◌∷◌ c s) = code c ∷ codes s

-- `===` on strings.
unfoldable pub str_eq : Str → Str → Bool
str_eq [] [] = true
str_eq (x ∷ xs) (y ∷ ys) = x == y && str_eq xs ys
str_eq _ _ = false

pub str_eq_iff : (a b : Str) → (str_eq a b ≡ true) ↔ (a ≡ b)
unfolding str_eq
str_eq_iff (x ∷ a) (y ∷ b) = ground (arith, str_eq_iff a b)
str_eq_iff _ _ = ground arith

-- Is the first string a prefix of the second?
unfoldable pub starts_with : Str → Str → Bool
starts_with [] s = true
starts_with (x ∷ xs) [] = false
starts_with (x ∷ xs) (y ∷ ys) = x == y && starts_with xs ys

-- `s.indexOf(t)`; `none` is -1.
unfoldable pub index_of : Str → Str → Option ℕ
unfolding starts_with
index_of [] t = if starts_with t [] then some 0 else none
index_of (c ∷ s) t =
    if starts_with t (c ∷ s)
    then some 0
    else elim (index_of s t) [ none ↦ none | some i ↦ some (suc i) ]

-- Upper-case hexadecimal digits.
unfoldable pub hex_digit : ℕ → ℕ
hex_digit d = if ltb d 10 then 48 + d else 55 + d

-- `parseInt(c, 16)` on one digit; `none` is NaN.
unfoldable pub hex_value : ℕ → Option ℕ
hex_value c =
    if leb 48 c && leb c 57
    then some (c - 48)
    else if leb 65 c && leb c 70
    then some (c - 55)
    else if leb 97 c && leb c 102
    then some (c - 87)
    else none

pub hex_value-hex_digit : (d : ℕ) → d < 16 → hex_value (hex_digit d) ≡ some d
unfolding hex_value hex_digit
hex_value-hex_digit d h = ground arith

-- `b.toString(16).padStart(2, '0').toUpperCase()` on a byte.
unfoldable pub hex2 : ℕ → Str
hex2 b = hex_digit (b / 16) ∷ hex_digit (b % 16) ∷ []

abbrev pub IsByte : ℕ → Type 0
IsByte b = b < 256

abbrev pub IsUnit16 : ℕ → Type 0
IsUnit16 c = c < 65536
