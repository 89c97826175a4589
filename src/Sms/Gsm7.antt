-- ===== src/Sms/Gsm7.antt =====
-- The GSM 7-bit alphabet: the tables of smsEncode.js and of parse.js, which the sources write
-- twice, and the characters of a message.
pub mod Codes
pub mod Texts
use mt5700_console.Base.{
  ℕ, ◌+◌, Bool, true, false, ◌&&◌, Option, none, some, List, [], ◌∷◌, ◌++◌, ◌==◌, leb,
  if◌then◌else◌, Str, codes, index_of, get_or, get_elem?,
}

-- `GSM7_ALPHABET` of smsEncode.js.
abbrev pub gsm7_alphabet : Str
gsm7_alphabet =
    codes "@£$¥èéùìòÇ\nØø\rÅåΔ_ΦΓΛΩΠΨΣΘΞ"
    ++ (0x1b
        ∷ codes
            "ÆæßÉ !\"#¤%&'()*+,-./0123456789:;<=>?¡ABCDEFGHIJKLMNOPQRSTUVWXYZÄÖÑÜ§¿abcdefghijklmnopqrstuvwxyzäöñüà")

abbrev pub is_high_surrogate : ℕ → Bool
is_high_surrogate c = leb 0xd800 c && leb c 0xdbff

abbrev pub is_low_surrogate : ℕ → Bool
is_low_surrogate c = leb 0xdc00 c && leb c 0xdfff

-- `Array.from(message)`: the code points, each as a string of one or two code units.
unfoldable pub array_from : Str → List Str
array_from [] = []
array_from (c ∷ []) = (c ∷ []) ∷ []
array_from (c ∷ d ∷ s) =
    let pair = (c ∷ d ∷ []) ∷ array_from s in
    let single = (c ∷ []) ∷ array_from (d ∷ s) in
    if is_high_surrogate c && is_low_surrogate d then pair else single

-- `EXT_MAP[ch]`, where it has that key.
unfoldable pub ext_map : Str → Option ℕ
ext_map (c ∷ []) =
    if c == 0x5e
    then some 0x14
    else if c == 0x7b
    then some 0x28
    else if c == 0x7d
    then some 0x29
    else if c == 0x5c
    then some 0x2f
    else if c == 0x5b
    then some 0x3c
    else if c == 0x7e
    then some 0x3d
    else if c == 0x5d
    then some 0x3e
    else if c == 0x7c
    then some 0x40
    else if c == 0x20ac
    then some 0x65
    else none
ext_map _ = none

unfoldable pub is_ext_char : Str → Bool
is_ext_char ch = elim (ext_map ch) [ none ↦ false | some e ↦ true ]

-- The last tests of `gsm7Code`, on `ch.charCodeAt(0)`.
unfoldable pub control_code : Option ℕ → Option ℕ
control_code none = none
control_code (some c) =
    if c == 0x0d then some 13 else if c == 0x0a then some 10 else if c == 0 then some 0 else none

unfoldable pub gsm7_code : Str → Option ℕ
gsm7_code ch = elim (index_of gsm7_alphabet ch) [
  | some basic ↦ some basic
  | none ↦ elim (ext_map ch) [ some e ↦ some e | none ↦ control_code (get_elem? ch 0) ]
]

-- `gsm7Extension` of parse.js, with the form feed that the encoder's table does not have.
unfoldable pub gsm7_extension : ℕ → Option ℕ
gsm7_extension c =
    if c == 0x0a
    then some 0x0c
    else if c == 0x14
    then some 0x5e
    else if c == 0x28
    then some 0x7b
    else if c == 0x29
    then some 0x7d
    else if c == 0x2f
    then some 0x5c
    else if c == 0x3c
    then some 0x5b
    else if c == 0x3d
    then some 0x7e
    else if c == 0x3e
    then some 0x5d
    else if c == 0x40
    then some 0x7c
    else if c == 0x65
    then some 0x20ac
    else none

-- `sb += GSM7_ALPHABET[c]`, or a question mark for what is no septet.
unfoldable pub basic_char : ℕ → ℕ
basic_char c = get_or gsm7_alphabet c 0x3f

-- `septetsToString` of parse.js.
unfoldable pub septets_to_string : List ℕ → Str
septets_to_string [] = []
septets_to_string (c ∷ []) = basic_char c ∷ []
septets_to_string (c ∷ d ∷ r) =
    let plain = basic_char c ∷ septets_to_string (d ∷ r) in
    let rest = septets_to_string r in
    if c == 0x1b then elim (gsm7_extension d) [ none ↦ plain | some e ↦ e ∷ rest ] else plain

-- `needsUcs2`.
unfoldable pub needs_ucs2_chars : List Str → Bool
needs_ucs2_chars [] = false
needs_ucs2_chars (ch ∷ chs) = elim (gsm7_code ch) [ none ↦ true | some c ↦ needs_ucs2_chars chs ]

unfoldable pub needs_ucs2 : Str → Bool
unfolding needs_ucs2_chars
needs_ucs2 message = needs_ucs2_chars (array_from message)

-- `isExtChar(ch) ? 2 : 1`, which the sources write three times.
abbrev pub septet_cost : Str → ℕ
septet_cost ch = if is_ext_char ch then 2 else 1

unfoldable pub total_septets_chars : List Str → ℕ
total_septets_chars [] = 0
total_septets_chars (ch ∷ chs) = septet_cost ch + total_septets_chars chs

-- `totalSeptets`, also the count `msgSeptets` of `buildUserData`.
unfoldable pub total_septets : Str → ℕ
unfolding total_septets_chars
total_septets message = total_septets_chars (array_from message)
