-- ===== src/Esim/Utf8/Points.antt =====
-- One code point of UTF-8 through `utf8ToBytes` and the loop of `utf8FromBytes` of euicc.js.
use mt5700_console.Base.{
  ℕ, suc, ◌+◌, ◌-◌, ◌/◌, ◌%◌, ◌≤◌, ◌<◌, ◌≡◌, refl, sym, ap, ◌∙◌, ◌⊎◌, inl, inr, true, false, ◌&&◌,
  List, [], ◌∷◌, ◌++◌, append-nil, arith, ltb, leb, if◌then◌else◌, Bool-cases, length, Str,
}
use mt5700_console.Esim.Utf8.{
  two_bytes, three_bytes, four_bytes, is_high, code_point, single, utf8_to_bytes, octets_at,
  point_of, units_at, utf8_loop,
}

-- A code point that is no surrogate.
pub record IsScalar (p : ℕ) : Type 0 where
  pub bounded : p < 0x110000
  pub no_surrogate : (p < 0xd800) ⊎ (0xe000 ≤ p)

-- The code units of a code point in UTF-16.
unfoldable pub utf16 : ℕ → Str
utf16 p =
    if ltb p 0x10000
    then p ∷ []
    else (0xd800 + (p - 0x10000) / 1024) ∷ (0xdc00 + (p - 0x10000) % 1024) ∷ []

-- Its octets in UTF-8.
unfoldable pub utf8 : ℕ → List ℕ
utf8 p =
    if ltb p 0x80
    then p ∷ []
    else if ltb p 0x800
    then two_bytes p
    else if ltb p 0x10000
    then three_bytes p
    else four_bytes p

not_high : (p : ℕ) → (p < 0xd800) ⊎ (0xe000 ≤ p) → is_high p ≡ false
not_high p (inl h) = ground arith
not_high p (inr h) = ground arith

single-utf8 : (p : ℕ) → ltb p 0x10000 ≡ true → single p ≡ utf8 p
unfolding single utf8
single-utf8 p h = rw h refl

encode_basic :
    (p : ℕ) (s : Str) → is_high p ≡ false → utf8_to_bytes (p ∷ s) ≡ single p ++ utf8_to_bytes s
unfolding utf8_to_bytes
encode_basic p [] h = rw (h, utf8_to_bytes) (sym (append-nil (single p)))
encode_basic p (d ∷ s) h = rw (h, utf8_to_bytes) refl

high_half : (p : ℕ) → 0x10000 ≤ p → p < 0x110000 → is_high (0xd800 + (p - 0x10000) / 1024) ≡ true
high_half p l h = is_between (0xd800 + (p - 0x10000) / 1024) (omega arith) (omega arith)
  where
    is_between : (x : ℕ) → 0xd800 ≤ x → x ≤ 0xdbff → is_high x ≡ true
    is_between x a b = ground arith

halves :
    (p : ℕ)
    → 0x10000 ≤ p
    → p < 0x110000
    → code_point (0xd800 + (p - 0x10000) / 1024) (0xdc00 + (p - 0x10000) % 1024) ≡ p
halves p l h = omega arith

not_below : (p n : ℕ) → ltb p n ≡ false → n ≤ p
not_below p n h = ground arith

above : (p n : ℕ) → n ≤ p → ltb p n ≡ false
above p n h = ground arith

utf8_to_bytes-pair :
    (h d : ℕ) (s : Str)
    → is_high h ≡ true
    → utf8_to_bytes (h ∷ d ∷ s) ≡ four_bytes (code_point h d) ++ utf8_to_bytes s
unfolding utf8_to_bytes
utf8_to_bytes-pair h d s e = rw (e, utf8_to_bytes) refl

utf8-four : (p : ℕ) → 0x10000 ≤ p → utf8 p ≡ four_bytes p
unfolding utf8
utf8-four p l =
    rw (above p 0x80 (omega arith), above p 0x800 (omega arith), above p 0x10000 l, utf8) refl

utf8_to_bytes-astral :
    (p : ℕ) (s : Str)
    → 0x10000 ≤ p
    → p < 0x110000
    → utf8_to_bytes ((0xd800 + (p - 0x10000) / 1024) ∷ (0xdc00 + (p - 0x10000) % 1024) ∷ s)
      ≡ utf8 p ++ utf8_to_bytes s
utf8_to_bytes-astral p s l h =
    utf8_to_bytes-pair (0xd800 + (p - 0x10000) / 1024) (0xdc00 + (p - 0x10000) % 1024) s
      (high_half p l h)
    ∙ ap (λ (x : ℕ). four_bytes x ++ utf8_to_bytes s) (halves p l h)
    ∙ ap (λ (t : List ℕ). t ++ utf8_to_bytes s) (sym (utf8-four p l))

-- A code point in front of a string is encoded in front of it.
pub utf8_to_bytes-utf16 :
    (p : ℕ) (s : Str) → IsScalar p → utf8_to_bytes (utf16 p ++ s) ≡ utf8 p ++ utf8_to_bytes s
unfolding utf16
utf8_to_bytes-utf16 p s i = elim (Bool-cases (ltb p 0x10000)) [
  | inl e ↦
      rw (e, utf16)
        (encode_basic p s (not_high p i.no_surrogate)
          ∙ ap (λ (t : List ℕ). t ++ utf8_to_bytes s) (single-utf8 p e))
  | inr e ↦ rw (e, utf16) (utf8_to_bytes-astral p s (not_below p 0x10000 e) i.bounded)
]

-- The ranges of the first octet.
below : (c n : ℕ) → c < n → ltb c n ≡ true
below c n h = ground arith

within : (c a b : ℕ) → a ≤ c → c < b → (leb a c && ltb c b) ≡ true
within c a b l h = ground arith

beyond : (c a b : ℕ) → b ≤ c → (leb a c && ltb c b) ≡ false
beyond c a b h = ground arith

from : (c a : ℕ) → a ≤ c → leb a c ≡ true
from c a h = ground arith

-- Two numbers are the two units of a list if they are equal one by one.
pair_eq : {x y u v : ℕ} (s : List ℕ) → x ≡ u → y ≡ v → x ∷ y ∷ s ≡ u ∷ v ∷ s
pair_eq s p q = cc

decode_one : (n c : ℕ) (bs : List ℕ) → c < 0x80 → utf8_loop (suc n) (c ∷ bs) ≡ c ∷ utf8_loop n bs
unfolding utf8_loop units_at octets_at
decode_one n c bs h = rw (below c 0x80 h, units_at, octets_at) refl

decode_two :
    (n p : ℕ) (bs : List ℕ)
    → 0x80 ≤ p
    → p < 0x800
    → utf8_loop (suc n) (two_bytes p ++ bs) ≡ p ∷ utf8_loop n bs
unfolding utf8_loop units_at octets_at
decode_two n p bs l h =
    rw
      (
        above (0xc0 + p / 64) 0x80 (omega arith),
        within (0xc0 + p / 64) 0xc0 0xe0 (omega arith) (omega arith),
        units_at,
        octets_at,
      )
      (ap (λ (x : ℕ). x ∷ utf8_loop n bs) (omega arith))

decode_three :
    (n p : ℕ) (bs : List ℕ)
    → 0x800 ≤ p
    → p < 0x10000
    → utf8_loop (suc n) (three_bytes p ++ bs) ≡ p ∷ utf8_loop n bs
unfolding utf8_loop units_at octets_at
decode_three n p bs l h =
    rw
      (
        above (0xe0 + p / 4096) 0x80 (omega arith),
        beyond (0xe0 + p / 4096) 0xc0 0xe0 (omega arith),
        within (0xe0 + p / 4096) 0xe0 0xf0 (omega arith) (omega arith),
        units_at,
        octets_at,
      )
      (ap (λ (x : ℕ). x ∷ utf8_loop n bs) (omega arith))

-- The octets give the code point back.
point_of-four_bytes :
    (p : ℕ) (bs : List ℕ)
    → p < 0x110000
    → point_of
        (0xf0 + p / 262144)
        ((0x80 + p / 4096 % 64) ∷ (0x80 + p / 64 % 64) ∷ (0x80 + p % 64) ∷ bs)
      ≡ p
point_of-four_bytes p bs h = omega arith

decode_four :
    (n p : ℕ) (bs : List ℕ)
    → 0x10000 ≤ p
    → p < 0x110000
    → utf8_loop (suc n) (four_bytes p ++ bs)
      ≡ (0xd800 + (p - 0x10000) / 1024) ∷ (0xdc00 + (p - 0x10000) % 1024) ∷ utf8_loop n bs
unfolding utf8_loop units_at octets_at
decode_four n p bs l h =
    rw
      (
        above (0xf0 + p / 262144) 0x80 (omega arith),
        beyond (0xf0 + p / 262144) 0xc0 0xe0 (omega arith),
        beyond (0xf0 + p / 262144) 0xe0 0xf0 (omega arith),
        from (0xf0 + p / 262144) 0xf0 (omega arith),
        units_at,
        octets_at,
      )
      (pair_eq (utf8_loop n bs) (rw (point_of-four_bytes p bs h) (omega arith))
        (rw (point_of-four_bytes p bs h) (omega arith)))

utf8-one : (p : ℕ) → p < 0x80 → utf8 p ≡ p ∷ []
unfolding utf8
utf8-one p h = rw (below p 0x80 h, utf8) refl

utf8-two : (p : ℕ) → 0x80 ≤ p → p < 0x800 → utf8 p ≡ two_bytes p
unfolding utf8
utf8-two p l h = rw (above p 0x80 l, below p 0x800 h, utf8) refl

utf8-three : (p : ℕ) → 0x800 ≤ p → p < 0x10000 → utf8 p ≡ three_bytes p
unfolding utf8
utf8-three p l h = rw (above p 0x80 (omega arith), above p 0x800 l, below p 0x10000 h, utf8) refl

utf16-basic : (p : ℕ) → p < 0x10000 → utf16 p ≡ p ∷ []
unfolding utf16
utf16-basic p h = rw (below p 0x10000 h, utf16) refl

utf16-astral :
    (p : ℕ)
    → 0x10000 ≤ p
    → utf16 p ≡ (0xd800 + (p - 0x10000) / 1024) ∷ (0xdc00 + (p - 0x10000) % 1024) ∷ []
unfolding utf16
utf16-astral p l = rw (above p 0x10000 l, utf16) refl

split_at : (p n : ℕ) → (p < n) ⊎ (n ≤ p)
split_at p n = ground arith

-- Its octets in front of others are decoded in front of them.
pub utf8_loop-utf8 :
    (n p : ℕ) (bs : List ℕ)
    → IsScalar p
    → utf8_loop (suc n) (utf8 p ++ bs) ≡ utf16 p ++ utf8_loop n bs
utf8_loop-utf8 n p bs i = elim (split_at p 0x10000) [
  | inr l ↦ rw (utf8-four p l, utf16-astral p l) (decode_four n p bs l i.bounded)
  | inl h ↦ elim (split_at p 0x800) [
    | inr l ↦ rw (utf8-three p l h, utf16-basic p h) (decode_three n p bs l h)
    | inl k ↦ elim (split_at p 0x80) [
      | inr l ↦ rw (utf8-two p l k, utf16-basic p h) (decode_two n p bs l k)
      | inl l ↦ rw (utf8-one p l, utf16-basic p h) (decode_one n p bs l)
    ]
  ]
]

-- There is an octet at least.
pub length-utf8 : (p : ℕ) → 1 ≤ length (utf8 p)
length-utf8 p = elim (split_at p 0x10000) [
  | inr l ↦ rw (utf8-four p l) (omega arith)
  | inl h ↦ elim (split_at p 0x800) [
    | inr l ↦ rw (utf8-three p l h) (omega arith)
    | inl k ↦ elim (split_at p 0x80) [
      | inr l ↦ rw (utf8-two p l k) (omega arith)
      | inl l ↦ rw (utf8-one p l) (omega arith)
    ]
  ]
]
