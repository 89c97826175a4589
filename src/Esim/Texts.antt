-- ===== src/Esim/Texts.antt =====
-- The regular expressions of euicc.js on the answers of the modem: each is a search for the first
-- place where a reader of a prefix succeeds.
pub mod Spans
use mt5700_console.Base.{
  ℕ, zero, suc, ◌+◌, ◌-◌, ◌*◌, ◌/◌, ◌%◌, ◌^◌, ◌≤◌, ◌<◌, min, max, ◌≡◌, refl, sym, ap, ap₂, ◌∙◌, ◌≢◌,
  ◌↔◌, ◌⊎◌, inl, inr, Bool, true, false, not, ◌&&◌, ◌||◌, Option, none, some, List, [], ◌∷◌, ◌++◌,
  map, append-nil, append_assoc, arith, ltb, leb, ◌==◌, if◌then◌else◌, ltb→lt, ==_iff, Bool-cases,
  Option-cases, &&-left, &&-right, some_inj, length, get_elem?, get_or, take, drop, replicate,
  flatten, all, All, length-append, take-length-append, drop-length-append, take-append-drop,
  length-take, length-drop, flatten-append, All-append, All-take, All-drop, Str, codes, str_eq,
  str_eq_iff, starts_with, index_of, hex_digit, hex_value, hex_value-hex_digit, hex2, IsByte,
  IsUnit16, is_text,
}
use mt5700_console.Cache.{is_space}
use mt5700_console.Sms.Address.{is_digit}

unfoldable pub take_while : (ℕ → Bool) → Str → Str
take_while p [] = []
take_while p (c ∷ s) = let rest = take_while p s in if p c then c ∷ rest else []

unfoldable pub drop_while : (ℕ → Bool) → Str → Str
drop_while p [] = []
drop_while p (c ∷ s) = if p c then drop_while p s else c ∷ s

-- Behind a literal.
unfoldable pub behind : Str → Str → Option Str
behind [] s = some s
behind (x ∷ xs) [] = none
behind (x ∷ xs) (y ∷ ys) = if x == y then behind xs ys else none

-- The first place where the reader succeeds.
unfoldable pub search_text : {A : Type 0} → (Str → Option A) → Str → Option A
search_text f [] = f []
search_text f (c ∷ s) =
    let rest = search_text f s in elim (f (c ∷ s)) [ none ↦ rest | some a ↦ some a ]

abbrev pub is_hex_digit : ℕ → Bool
is_hex_digit c = (leb 48 c && leb c 57) || ((leb 65 c && leb c 70) || (leb 97 c && leb c 102))

-- `\s*(\d+)`: the digits and the rest.
unfoldable pub spaced_digits : Str → Option (Str × Str)
spaced_digits s =
    let t = drop_while is_space s in
    let d = take_while is_digit t in if is_text d then some (d, drop_while is_digit t) else none

-- `CME ERROR:\s*(\d+)`.
unfoldable pub cme_at : Str → Option Str
cme_at s = elim (behind (codes "CME ERROR:") s) [
  | none ↦ none
  | some t ↦ elim (spaced_digits t) [ none ↦ none | some d ↦ some d.0 ]
]

-- `\s*,\s*` behind the digits.
unfoldable pub behind_comma : Str → Option Str
behind_comma s = elim (behind (codes ",") (drop_while is_space s)) [
  | none ↦ none
  | some t ↦ some (drop_while is_space t)
]

-- `"([0-9A-Fa-f]*)"`.
unfoldable pub quoted_hex : Str → Option Str
quoted_hex s = elim (behind (codes "\"") s) [
  | none ↦ none
  | some t ↦ elim (behind (codes "\"") (drop_while is_hex_digit t)) [
    | none ↦ none
    | some u ↦ some (take_while is_hex_digit t)
  ]
]

-- `"?([0-9A-Fa-f]*)"?`.
unfoldable pub maybe_quoted_hex : Str → Option Str
maybe_quoted_hex s = elim (behind (codes "\"") s) [
  | none ↦ some (take_while is_hex_digit s)
  | some t ↦ some (take_while is_hex_digit t)
]

-- The name of the line, the number, the comma, and then the digits.
unfoldable pub line_at : Str → (Str → Option Str) → Str → Option Str
line_at name hex s = elim (behind name s) [
  | none ↦ none
  | some t ↦ elim (spaced_digits t) [
    | none ↦ none
    | some d ↦ elim (behind_comma d.1) [ none ↦ none | some u ↦ hex u ]
  ]
]
