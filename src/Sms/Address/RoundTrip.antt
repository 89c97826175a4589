-- ===== src/Sms/Address/RoundTrip.antt =====
-- `decodeAddress` reads back what `encodeAddress` wrote, behind the digits of its length and type.
use mt5700_console.Base.{
  ℕ, suc, ◌+◌, ◌-◌, ◌*◌, ◌/◌, ◌%◌, ◌≤◌, ◌<◌, ◌≡◌, refl, sym, ap, ap₂, ◌∙◌, ◌≢◌, inl, inr, Bool,
  true, false, some, List, [], ◌∷◌, ◌++◌, append-nil, append_assoc, arith, ltb, leb, ◌==◌,
  if◌then◌else◌, Bool-cases, length, drop, All, length-append, drop-length-append, Str, str_eq,
  str_eq_iff, hex_digit, hex2, is_text,
}
use mt5700_console.Base.Table.{holds_between, holds_between_lem}
use mt5700_console.Sms.Address.{
  is_digit, digits_of, has_plus, to_hex, pad_start, pad_even, swap_pairs, encode_address,
  hex_to_bytes, push_digit, read_digits, Address, decode_address,
}
use mt5700_console.Sms.Address.Hex.{octets_to_hex, hex_to_bytes-pair, hex_to_bytes-octets_to_hex}

abbrev pub IsDigits : Str → Type 0
IsDigits = All (λ c. is_digit c ≡ true)

-- The octets of the digits: the first of each pair in the low half, a filler behind an odd count.
unfoldable pub address_bytes : Str → List ℕ
address_bytes [] = []
address_bytes (a ∷ []) = (15 * 16 + (a - 48)) ∷ []
address_bytes (a ∷ b ∷ ds) = ((b - 48) * 16 + (a - 48)) ∷ address_bytes ds

pub length-address_bytes : (ds : Str) → length (address_bytes ds) ≡ (length ds + 1) / 2
unfolding address_bytes
length-address_bytes [] = refl
length-address_bytes (a ∷ []) = refl
length-address_bytes (a ∷ b ∷ ds) = omega (arith, length-address_bytes ds)

pub digits_of-IsDigits : (number : Str) → IsDigits (digits_of number)
unfolding digits_of
digits_of-IsDigits [] = tt
digits_of-IsDigits (c ∷ s) = elim (Bool-cases (is_digit c)) [
  | inl e ↦ rw e (e, digits_of-IsDigits s)
  | inr e ↦ rw e (digits_of-IsDigits s)
]

pad_even_pair : (a b : ℕ) (ds : Str) → pad_even (a ∷ b ∷ ds) ≡ a ∷ b ∷ pad_even ds
unfolding pad_even
pad_even_pair a b ds = ground arith

digit_is_hex : (c : ℕ) → is_digit c ≡ true → (c - 48 < 16) × (hex_digit (c - 48) ≡ c)
unfolding hex_digit
digit_is_hex c h = ground arith

hex_pair :
    (a b : ℕ) (s : Str) (bs : List ℕ)
    → is_digit a ≡ true
    → is_digit b ≡ true
    → hex_to_bytes s ≡ some bs
    → hex_to_bytes (b ∷ a ∷ s) ≡ some (((b - 48) * 16 + (a - 48)) ∷ bs)
hex_pair a b s bs ha hb e =
    let (la, ea) = digit_is_hex a ha in
    let (lb, eb) = digit_is_hex b hb in
    ap₂ (λ (x y : ℕ). hex_to_bytes (x ∷ y ∷ s)) (sym eb) (sym ea)
    ∙ hex_to_bytes-pair (b - 48) (a - 48) s bs lb la e

hex_last :
    (a : ℕ) (s : Str) (bs : List ℕ)
    → is_digit a ≡ true
    → hex_to_bytes s ≡ some bs
    → hex_to_bytes (70 ∷ a ∷ s) ≡ some ((15 * 16 + (a - 48)) ∷ bs)
unfolding hex_digit
hex_last a s bs ha e =
    let (la, ea) = digit_is_hex a ha in
    ap (λ (y : ℕ). hex_to_bytes (70 ∷ y ∷ s)) (sym ea)
    ∙ hex_to_bytes-pair 15 (a - 48) s bs (omega arith) la e

hex_to_bytes-swap_pairs :
    (ds s : Str) (bs : List ℕ)
    → IsDigits ds
    → hex_to_bytes s ≡ some bs
    → hex_to_bytes (swap_pairs (pad_even ds) ++ s) ≡ some (address_bytes ds ++ bs)
unfolding address_bytes swap_pairs
hex_to_bytes-swap_pairs [] s bs h e = unfold pad_even in e
hex_to_bytes-swap_pairs (a ∷ []) s bs h e = unfold pad_even in hex_last a s bs h.0 e
hex_to_bytes-swap_pairs (a ∷ b ∷ ds) s bs h e =
    ap (λ t. hex_to_bytes (swap_pairs t ++ s)) (pad_even_pair a b ds)
    ∙ hex_pair a b (swap_pairs (pad_even ds) ++ s) (address_bytes ds ++ bs) h.0 h.1.0
        (hex_to_bytes-swap_pairs ds s bs h.1.1 e)

-- The length and the type of an address are two digits each.
abbrev two_fields : ℕ → ℕ → Bool
two_fields toa n = str_eq (pad_start 4 (to_hex n ++ to_hex toa)) (hex2 n ++ hex2 toa)

fields_table :
    (holds_between 0 256 (two_fields 0x91) ≡ true) × (holds_between 0 256 (two_fields 0x81) ≡ true)
unfolding holds_between str_eq pad_start to_hex hex2 hex_digit
fields_table = (refl, refl)

toa_of : Str → ℕ
toa_of number = if has_plus number then 0x91 else 0x81

read_digits_done :
    (rest : List ℕ) (digits : Str) (i : ℕ) → read_digits 0 rest digits i ≡ (digits, i)
unfolding read_digits
read_digits_done [] digits i = refl
read_digits_done (b ∷ rest) digits i = refl

digit_bounds : (c : ℕ) → is_digit c ≡ true → (48 ≤ c) × (c ≤ 57)
digit_bounds c h = ground arith

push_digit_of :
    (digits : Str) (c d : ℕ)
    → is_digit c ≡ true
    → d ≡ c - 48
    → push_digit digits d ≡ digits ++ (c ∷ [])
push_digit_of digits c d h e =
    let (lo, hi) = digit_bounds c h in
    let small : leb d 9 ≡ true = ground arith in
    rw small (ap (λ (v : ℕ). digits ++ (v ∷ [])) (omega arith))

push_filler : (digits : Str) (d : ℕ) → d ≡ 15 → push_digit digits d ≡ digits
push_filler digits d e = rw e refl

push_pair :
    (digits : Str) (a b v : ℕ)
    → is_digit a ≡ true
    → is_digit b ≡ true
    → v ≡ (b - 48) * 16 + (a - 48)
    → push_digit (push_digit digits (v % 16)) (v / 16 % 16) ≡ (digits ++ (a ∷ [])) ++ (b ∷ [])
push_pair digits a b v ha hb e =
    let (la, ua) = digit_bounds a ha in
    let (lb, ub) = digit_bounds b hb in
    push_digit_of (push_digit digits (v % 16)) b (v / 16 % 16) hb (omega arith)
    ∙ ap (λ (t : Str). t ++ (b ∷ [])) (push_digit_of digits a (v % 16) ha (omega arith))

push_single :
    (digits : Str) (a v : ℕ)
    → is_digit a ≡ true
    → v ≡ 15 * 16 + (a - 48)
    → push_digit (push_digit digits (v % 16)) (v / 16 % 16) ≡ digits ++ (a ∷ [])
push_single digits a v ha e =
    let (la, ua) = digit_bounds a ha in
    push_filler (push_digit digits (v % 16)) (v / 16 % 16) (omega arith)
    ∙ push_digit_of digits a (v % 16) ha (omega arith)

read_digits_step :
    (n b : ℕ) (bs : List ℕ) (digits : Str) (i : ℕ)
    → read_digits (suc n) (b ∷ bs) digits i
      ≡ read_digits (suc n - 2) bs (push_digit (push_digit digits (b % 16)) (b / 16 % 16)) (i + 1)
unfolding read_digits
read_digits_step n b bs digits i = let more : ltb 0 (suc n) ≡ true = ground arith in rw more

read_digits-address_bytes :
    (ds : Str) (rest : List ℕ) (digits : Str) (i : ℕ)
    → IsDigits ds
    → (read_digits (length ds) (address_bytes ds ++ rest) digits i).0 ≡ digits ++ ds
unfolding address_bytes
read_digits-address_bytes [] rest digits i h =
    ap (λ (r : Str × ℕ). r.0) (read_digits_done rest digits i) ∙ sym (append-nil digits)
read_digits-address_bytes (a ∷ []) rest digits i h =
    let v = 15 * 16 + (a - 48) in
    ap (λ (r : Str × ℕ). r.0)
      (read_digits_step 0 v rest digits i
        ∙ read_digits_done rest (push_digit (push_digit digits (v % 16)) (v / 16 % 16)) (i + 1))
    ∙ push_single digits a v h.0 refl
read_digits-address_bytes (a ∷ b ∷ ds) rest digits i h =
    let v = (b - 48) * 16 + (a - 48) in
    let left : suc (suc (length ds)) - 2 ≡ length ds = omega arith in
    ap (λ (r : Str × ℕ). r.0)
      (read_digits_step (suc (length ds)) v (address_bytes ds ++ rest) digits i
        ∙ ap₂ (λ (n : ℕ) (t : Str). read_digits n (address_bytes ds ++ rest) t (i + 1)) left
            (push_pair digits a b v h.0 h.1.0 refl))
    ∙ read_digits-address_bytes ds rest ((digits ++ (a ∷ [])) ++ (b ∷ [])) (i + 1) h.1.1
    ∙ simp append_assoc

-- What a reader should make of the address of a number.
unfoldable pub address_of : Str → Address
address_of number =
    if has_plus number
    then record { text = 43 ∷ digits_of number; ton = 1 }
    else record { text = digits_of number; ton = 0 }

decode_address-address_bytes :
    (number : Str) (rest : List ℕ)
    → decode_address
        (length (digits_of number))
        (toa_of number)
        (address_bytes (digits_of number) ++ rest)
      ≡ address_of number
unfolding decode_address toa_of address_of
decode_address-address_bytes number rest =
    let ds = digits_of number in
    let read = read_digits-address_bytes ds rest [] 0 (digits_of-IsDigits number) in
    elim (Bool-cases (has_plus number)) [
      | inl e ↦ rw e (ap (λ (t : Str). record { text = 43 ∷ t; ton = 1 }) read)
      | inr e ↦ rw e (ap (λ (t : Str). record { text = t; ton = 0 }) read)
    ]

two_fields_sound :
    (number : Str) (n : ℕ)
    → n < 256
    → pad_start 4 (to_hex n ++ to_hex (toa_of number)) ≡ hex2 n ++ hex2 (toa_of number)
unfolding toa_of
two_fields_sound number n h = elim (Bool-cases (has_plus number)) [
  | inl e ↦ rw e (
      (str_eq_iff _ _).0
        (holds_between_lem (two_fields 0x91) 0 256 n fields_table.0 (omega arith) h))
  | inr e ↦ rw e (
      (str_eq_iff _ _).0
        (holds_between_lem (two_fields 0x81) 0 256 n fields_table.1 (omega arith) h))
]

text_of_ne : (s : Str) → s ≢ [] → is_text s ≡ true
text_of_ne [] h = absurd (h refl)
text_of_ne (c ∷ s) h = refl

encode_address-coded :
    (number : Str) (is_smsc : Bool) (len : ℕ)
    → digits_of number ≢ []
    → len ≡ (
        if is_smsc then length (pad_even (digits_of number)) / 2 + 1 else length (digits_of number))
    → encode_address number is_smsc
      ≡ pad_start 4 (to_hex len ++ to_hex (toa_of number))
        ++ swap_pairs (pad_even (digits_of number))
unfolding encode_address toa_of
encode_address-coded number is_smsc len ne el = rw (text_of_ne (digits_of number) ne, el) refl

toa-lt : (number : Str) → toa_of number < 256
unfolding toa_of
toa-lt number = ground arith

two_octets :
    (a b : ℕ) (s : Str) (bs : List ℕ)
    → a < 256
    → b < 256
    → hex_to_bytes s ≡ some bs
    → hex_to_bytes ((hex2 a ++ hex2 b) ++ s) ≡ some (a ∷ b ∷ bs)
unfolding octets_to_hex
two_octets a b s bs ha hb e =
    ap hex_to_bytes (simp (append_assoc, append-nil))
    ∙ hex_to_bytes-octets_to_hex (a ∷ b ∷ []) s bs (ha, (hb, tt)) e

-- The octets of an address: its length field, its type, and the digits.
encode_address_octets :
    (number s : Str) (bs : List ℕ) (is_smsc : Bool) (len : ℕ)
    → digits_of number ≢ []
    → len ≡ (
        if is_smsc then length (pad_even (digits_of number)) / 2 + 1 else length (digits_of number))
    → len < 256
    → hex_to_bytes s ≡ some bs
    → hex_to_bytes (encode_address number is_smsc ++ s)
      ≡ some (len ∷ toa_of number ∷ (address_bytes (digits_of number) ++ bs))
encode_address_octets number s bs is_smsc len ne el lt e =
    let toa = toa_of number in
    let body = swap_pairs (pad_even (digits_of number)) in
    let after = hex_to_bytes-swap_pairs (digits_of number) s bs (digits_of-IsDigits number) e in
    ap (λ (t : Str). hex_to_bytes (t ++ s)) (encode_address-coded number is_smsc len ne el)
    ∙ ap (λ (t : Str). hex_to_bytes ((t ++ body) ++ s)) (two_fields_sound number len lt)
    ∙ ap hex_to_bytes (append_assoc (hex2 len ++ hex2 toa) body s)
    ∙ two_octets len toa (body ++ s) (address_bytes (digits_of number) ++ bs) lt (toa-lt number)
        after

-- A destination with 1 to 255 digits: the reader of addresses finds the number, its digits alone
-- and a plus sign where the number has one, and stops where the address ends.
pub decode_address-encode_address :
    (number rest : Str) (bs : List ℕ)
    → digits_of number ≢ []
    → length (digits_of number) < 256
    → hex_to_bytes rest ≡ some bs
    → (len toa : ℕ) × (body : List ℕ) × (hex_to_bytes (encode_address number false ++ rest)
        ≡ some (len ∷ toa ∷ (body ++ bs)))
      × (length body ≡ (len + 1) / 2)
      × (decode_address len toa (body ++ bs) ≡ address_of number)
decode_address-encode_address number rest bs ne lt e = (
  length (digits_of number),
  toa_of number,
  address_bytes (digits_of number),
  encode_address_octets number rest bs false (length (digits_of number)) ne refl lt e,
  length-address_bytes (digits_of number),
  decode_address-address_bytes number bs,
)

smsc_length : (ds : Str) → length (pad_even ds) / 2 ≡ (length ds + 1) / 2
unfolding pad_even
smsc_length ds = elim (Bool-cases (length ds % 2 == 0)) [
  | inl e ↦ rw e (ground arith)
  | inr e ↦ rw e (omega (arith, length-append ds (70 ∷ []), odd e))
]
  where
    odd : (length ds % 2 == 0) ≡ false → length ds % 2 ≢ 0
    odd e = ground arith

-- The length of a service centre's address counts the octets behind it, so a reader that skips
-- them is at what follows.
pub drop-encode_address_smsc :
    (number rest : Str) (bs : List ℕ)
    → digits_of number ≢ []
    → length (digits_of number) < 256
    → hex_to_bytes rest ≡ some bs
    → (len : ℕ) × (behind : List ℕ) × (hex_to_bytes (encode_address number true ++ rest)
        ≡ some (len ∷ behind))
      × (drop len behind ≡ bs)
drop-encode_address_smsc number rest bs ne lt e =
    let ds = digits_of number in
    let len = length (pad_even ds) / 2 + 1 in
    let body = address_bytes ds in
    let count : len ≡ suc (length body) = omega (arith, smsc_length ds, length-address_bytes ds) in
    (
      len,
      toa_of number ∷ (body ++ bs),
      encode_address_octets number rest bs true len ne refl
          (omega (arith, count, length-address_bytes ds)) e,
      ap (λ (n : ℕ). drop n (toa_of number ∷ (body ++ bs))) count ∙ drop-length-append body bs,
    )
