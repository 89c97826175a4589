-- ===== src/Tlv.antt =====
-- The BER-TLV of euicc.js: reading it from octets and from hexadecimal, writing it, and cutting a
-- profile package into commands.
pub mod Nodes
pub mod Packages
mod Tests
use mt5700_console.Base.{
  ℕ, zero, suc, ◌+◌, ◌-◌, ◌*◌, ◌/◌, ◌%◌, ◌^◌, ◌≤◌, ◌<◌, min, max, ◌≡◌, refl, sym, ap, ap₂, ◌∙◌, ◌≢◌,
  ◌↔◌, ◌⊎◌, inl, inr, Bool, true, false, not, ◌&&◌, ◌||◌, Option, none, some, List, [], ◌∷◌, ◌++◌,
  map, append-nil, append_assoc, arith, ltb, leb, ◌==◌, if◌then◌else◌, ltb→lt, ==_iff, Bool-cases,
  Option-cases, &&-left, &&-right, some_inj, length, get_elem?, get_or, take, drop, replicate,
  flatten, all, All, length-append, take-length-append, drop-length-append, take-append-drop,
  length-take, length-drop, flatten-append, All-append, All-take, All-drop, Str, codes, str_eq,
  str_eq_iff, starts_with, index_of, hex_digit, hex_value, hex_value-hex_digit, hex2, IsByte,
  IsUnit16, is_text,
}

-- Where an element is, its tag in hexadecimal.
pub record Head : Type 0 where
  pub tag : Str
  pub value_start : ℕ
  pub value_end : ℕ

-- The error codes that the readers throw.
pub data TlvError : Type 0 where
  truncated unsupported_tag bad_apdu bad_hex : TlvError

-- The tag at a position, and how many octets it has.
unfoldable pub read_tag : List ℕ → ℕ → TlvError ⊎ (Str × ℕ)
read_tag bytes pos =
    let b0 = get_or bytes pos 0 in
    if not (b0 % 32 == 31)
    then inr (hex2 b0, 1)
    else if leb (length bytes) (pos + 1)
    then inl truncated
    else if b0 == 0x9f || b0 == 0xbf
    then inr (hex2 b0 ++ hex2 (get_or bytes (pos + 1) 0), 2)
    else inl unsupported_tag

-- The length at a position, and how many octets it takes.
unfoldable pub read_len : List ℕ → ℕ → TlvError ⊎ (ℕ × ℕ)
read_len bytes pos =
    let b = get_or bytes pos 0 in
    if leb (length bytes) pos
    then inl truncated
    else if ltb b 0x80
    then inr (b, 1)
    else if b == 0x81
    then (if leb (length bytes) (pos + 1) then inl truncated else inr (get_or bytes (pos + 1) 0, 2))
    else if b == 0x82
    then (if leb (length bytes) (pos + 2)
        then inl truncated
        else inr (get_or bytes (pos + 1) 0 * 256 + get_or bytes (pos + 2) 0, 3))
    else inl truncated

unfoldable pub head_at : List ℕ → Str → ℕ → ℕ → TlvError ⊎ Head
head_at bytes tag start len =
    if ltb (length bytes) (start + len)
    then inl truncated
    else inr (record { tag = tag; value_start = start; value_end = start + len })

-- `readTlvHead`; `none` is the `null` at the end.
unfoldable pub read_tlv_head : List ℕ → ℕ → TlvError ⊎ Option Head
unfolding read_tag read_len head_at
read_tlv_head bytes pos = if leb (length bytes) pos then inr none else elim (read_tag bytes pos) [
  | inl e ↦ inl e
  | inr tag ↦ elim (read_len bytes (pos + tag.1)) [
    | inl e ↦ inl e
    | inr len ↦ elim (head_at bytes tag.0 (pos + tag.1 + len.1) len.0) [
      | inl e ↦ inl e
      | inr h ↦ inr (some h)
    ]
  ]
]

-- The loop of `parseTlvChildren`, from a position on; each element has two octets at least.
unfoldable pub parse_tlv_loop : ℕ → List ℕ → ℕ → TlvError ⊎ List (Str × List ℕ)
parse_tlv_loop zero bytes pos = inr []
parse_tlv_loop (suc fuel) bytes pos = elim (read_tlv_head bytes pos) [
  | inl e ↦ inl e
  | inr found ↦ elim found [
    | none ↦ inr []
    | some h ↦ elim (parse_tlv_loop fuel bytes h.value_end) [
      | inl e ↦ inl e
      | inr rest ↦
          inr ((h.tag, take (h.value_end - h.value_start) (drop h.value_start bytes)) ∷ rest)
    ]
  ]
]

unfoldable pub parse_tlv_children : List ℕ → TlvError ⊎ List (Str × List ℕ)
unfolding parse_tlv_loop
parse_tlv_children bytes = parse_tlv_loop (length bytes) bytes 0

-- `tlvHex`, on a value with an even number of digits.
unfoldable pub tlv_hex : Str → Str → TlvError ⊎ Str
tlv_hex tag val =
    let n = length val / 2 in
    if ltb n 0x80
    then inr (tag ++ (hex2 n ++ val))
    else if leb n 0xff
    then inr (tag ++ (codes "81" ++ (hex2 n ++ val)))
    else if leb n 0xffff
    then inr (tag ++ (codes "82" ++ (hex2 (n / 256) ++ (hex2 (n % 256) ++ val))))
    else inl bad_apdu

-- `parseInt(s, 16)` on hexadecimal digits.
unfoldable pub hex_number : ℕ → Str → ℕ
hex_number acc [] = acc
hex_number acc (c ∷ s) = elim (hex_value c) [ none ↦ acc | some d ↦ hex_number (acc * 16 + d) s ]

abbrev pub number_at : Str → ℕ → ℕ → ℕ
number_at hex i n = hex_number 0 (take n (drop i hex))

-- `api.isHex` on a string.
unfoldable pub is_hex : Str → Bool
is_hex s =
    is_text s
    && (length s % 2 == 0 && all (λ c. elim (hex_value c) [ none ↦ false | some d ↦ true ]) s)

-- The length field at a digit: the length, and the digit behind the field. `none` is for a field
-- that does not end, and for a form that is not supported.
unfoldable pub read_length : Str → ℕ → Option (ℕ × ℕ)
read_length hex j =
    let l8 = number_at hex j 2 in
    let n = l8 % 128 in
    if ltb (length hex) (j + 2)
    then none
    else if ltb l8 128
    then some (l8, j + 2)
    else if ltb n 1 || (ltb 2 n || ltb (length hex) (j + 2 + n * 2))
    then none
    else some (number_at hex (j + 2) (n * 2), j + 2 + n * 2)

-- `api.tlvTotalBytes`; `none` is -1.
unfoldable pub tlv_total_bytes : Str → Option ℕ
unfolding read_length
tlv_total_bytes hex =
    let i = if number_at hex 0 2 % 32 == 31 then 4 else 2 in
    if not (is_hex hex) || ltb (length hex) 4
    then none
    else elim (read_length hex i) [ none ↦ none | some l ↦ some (l.1 / 2 + l.0) ]

-- Positions count digits.
pub record Node : Type 0 where
  pub tag : Str
  pub start : ℕ
  pub value_start : ℕ
  pub value_len : ℕ
  pub stop : ℕ

abbrev upper_hex : ℕ → ℕ
upper_hex c = if leb 97 c && leb c 122 then c - 32 else c

unfoldable pub node_at : Str → Str → ℕ → ℕ × ℕ → Option Node
node_at hex tag i l =
    if ltb (length hex) (l.1 + l.0 * 2)
    then none
    else some (record {
      tag = map upper_hex tag;
      start = i;
      value_start = l.1;
      value_len = l.0;
      stop = l.1 + l.0 * 2;
    })

-- Behind the tag, which ends at `j`.
unfoldable pub read_behind_tag : Str → ℕ → ℕ → Option Node
unfolding read_length node_at
read_behind_tag hex i j = elim (read_length hex j) [
  | none ↦ none
  | some l ↦ node_at hex (take (j - i) (drop i hex)) i l
]

-- `readTlvAt`, on a string of hexadecimal digits.
unfoldable pub read_tlv_at : Str → ℕ → Option Node
unfolding read_behind_tag
read_tlv_at hex i =
    if ltb (length hex) (i + 4)
    then none
    else if not (number_at hex i 2 % 32 == 31)
    then read_behind_tag hex i (i + 2)
    else if ltb (length hex) (i + 6)
    then none
    else read_behind_tag hex i (i + 4)
