-- ===== src/Sms/Address.antt =====
-- Addresses: `encodeAddress` of smsEncode.js, and `decodeAddress` of parse.js with the loop of
-- `decodeIncomingPdu` that reads hexadecimal.
pub mod Hex
pub mod RoundTrip
use mt5700_console.Base.{
  ℕ, zero, suc, ◌+◌, ◌-◌, ◌*◌, ◌/◌, ◌%◌, ◌^◌, ◌≤◌, ◌<◌, min, max, ◌≡◌, refl, sym, ap, ap₂, ◌∙◌, ◌≢◌,
  ◌↔◌, ◌⊎◌, inl, inr, Bool, true, false, not, ◌&&◌, ◌||◌, Option, none, some, List, [], ◌∷◌, ◌++◌,
  map, append-nil, append_assoc, arith, ltb, leb, ◌==◌, if◌then◌else◌, ltb→lt, ==_iff, Bool-cases,
  Option-cases, &&-left, &&-right, some_inj, length, get_elem?, get_or, take, drop, replicate,
  flatten, all, All, length-append, take-length-append, drop-length-append, take-append-drop,
  length-take, length-drop, flatten-append, All-append, All-take, All-drop, Str, codes, str_eq,
  str_eq_iff, starts_with, index_of, hex_digit, hex_value, hex_value-hex_digit, hex2, IsByte,
  IsUnit16, is_text,
}
use mt5700_console.Sms.Gsm7.{septets_to_string}
use mt5700_console.Sms.Septets.{unpack_septets}

abbrev pub is_digit : ℕ → Bool
is_digit c = leb 48 c && leb c 57

-- `number.replace(/[^\d]/g, '')`.
unfoldable pub digits_of : Str → Str
digits_of [] = []
digits_of (c ∷ s) = let rest = digits_of s in if is_digit c then c ∷ rest else rest

-- `number.indexOf('+') === 0`.
unfoldable pub has_plus : Str → Bool
has_plus [] = false
has_plus (c ∷ s) = c == 43

-- `n.toString(16).toUpperCase()`, on fuel; `n` rounds are enough.
unfoldable pub hex_loop : ℕ → ℕ → Str
hex_loop zero n = hex_digit n ∷ []
hex_loop (suc fuel) n =
    let rest = hex_loop fuel (n / 16) in
    if ltb n 16 then hex_digit n ∷ [] else rest ++ (hex_digit (n % 16) ∷ [])

unfoldable pub to_hex : ℕ → Str
unfolding hex_loop
to_hex n = hex_loop n n

-- `s.padStart(n, '0')`.
unfoldable pub pad_start : ℕ → Str → Str
pad_start n s = replicate (n - length s) 48 ++ s

-- `digits += 'F'` where the count is odd.
unfoldable pub pad_even : Str → Str
pad_even raw = if length raw % 2 == 0 then raw else raw ++ (70 ∷ [])

-- The loop over the pairs of digits: `packed += digits[i + 1] + digits[i]`.
unfoldable pub swap_pairs : Str → Str
swap_pairs (a ∷ b ∷ s) = b ∷ a ∷ swap_pairs s
swap_pairs _ = []

abbrev empty_address : Bool → Str
empty_address is_smsc = if is_smsc then 48 ∷ 48 ∷ [] else []

unfoldable pub encode_address : Str → Bool → Str
unfolding digits_of has_plus to_hex pad_start pad_even swap_pairs
encode_address number is_smsc =
    let raw = digits_of number in
    let ton_npi = if has_plus number then 0x91 else 0x81 in
    let padded = pad_even raw in
    let len = if is_smsc then length padded / 2 + 1 else length raw in
    let coded = pad_start 4 (to_hex len ++ to_hex ton_npi) ++ swap_pairs padded in
    if is_text raw then coded else empty_address is_smsc

-- `raw.push(parseInt(hex.slice(i, i + 2), 16))` over a string of hexadecimal digits, the only ones
-- that `parseCMGL` passes on; `none` for a string that has another character.
unfoldable pub hex_to_bytes : Str → Option (List ℕ)
hex_to_bytes (a ∷ b ∷ s) =
    let rest = hex_to_bytes s in
    elim (hex_value a) [
      | none ↦ none
      | some x ↦ elim (hex_value b) [
        | none ↦ none
        | some y ↦ elim rest [ none ↦ none | some bs ↦ some ((x * 16 + y) ∷ bs) ]
      ]
    ]
hex_to_bytes _ = some []

-- `if (d <= 9) digits += String(d)`.
abbrev pub push_digit : Str → ℕ → Str
push_digit digits d = if leb d 9 then digits ++ ((48 + d) ∷ []) else digits

-- The loop of `decodeAddress`, on `raw.slice(i)`: the digits, and how many bytes were read.
unfoldable pub read_digits : ℕ → List ℕ → Str → ℕ → Str × ℕ
read_digits nibbles [] digits i = (digits, i)
read_digits nibbles (b ∷ bs) digits i =
    let more =
      read_digits (nibbles - 2) bs (push_digit (push_digit digits (b % 16)) (b / 16 % 16))
        (i + 1) in
    if ltb 0 nibbles then more else (digits, i)

-- `{ address, ton }`.
pub record Address : Type 0 where
  pub text : Str
  pub ton : ℕ

-- `decodeAddress` on `raw.slice(offset)`, which has the length and the type of address.
unfoldable pub decode_address : ℕ → ℕ → List ℕ → Address
unfolding read_digits
decode_address len toa bytes =
    let ton = toa / 16 % 8 in
    let (digits, used) = read_digits len bytes [] 0 in
    let alpha = septets_to_string (unpack_septets (take used bytes) (len * 4 / 7)) in
    if ton == 5
    then record { text = alpha; ton = ton }
    else if ton == 1
    then record { text = 43 ∷ digits; ton = ton }
    else record { text = digits; ton = ton }
