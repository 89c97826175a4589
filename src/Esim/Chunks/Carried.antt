-- ===== src/Esim/Chunks/Carried.antt =====
-- The commands of a segment carry it whole, in order, and a segment that is not hexadecimal is
-- refused.
use mt5700_console.Base.{
  ℕ, zero, suc, ◌+◌, ◌*◌, ◌/◌, ◌%◌, ◌≤◌, ◌≡◌, refl, sym, ap, ◌∙◌, ◌≢◌, ◌⊎◌, inl, inr, Bool, true,
  false, none, some, List, [], ◌∷◌, ◌++◌, map, arith, Bool-cases, ◌==◌, ==_iff, &&-left, &&-right,
  length, take, drop, flatten, all, All, length-append, length-take, length-drop, Str, hex2,
  hex_value,
}
use mt5700_console.Esim.{bad_hex}
use mt5700_console.Esim.Apdus.{bytes_to_hex, hex_to_bytes, octet_values, store_data_apdu}
use mt5700_console.Esim.Chunks.{build_es10b_raw_chunks, each_command}
use mt5700_console.Tlv.{hex_number, is_hex}
use mt5700_console.Tlv.Packages.{plan_chunks, chunk_limit, cut_chunks, number_chunks}
use mt5700_console.Tlv.Packages.Joined.{chunk_limit-bounds, flatten-cut_chunks, length-cut_chunks}

-- STORE DATA on a channel: class, instruction, parameters, the number of octets, the octets.
abbrev pub command : ℕ → ℕ → ℕ → List ℕ → Str
command ch p1 p2 d = bytes_to_hex ((128 + ch % 16) ∷ 0xe2 ∷ p1 ∷ p2 ∷ length d ∷ d)

-- Data in commands that are chained from an index on: only the last is marked so.
abbrev pub chained : ℕ → ℕ → List (List ℕ) → List Str
chained ch idx [] = []
chained ch idx (d ∷ []) = command ch 0x91 (idx % 256) d ∷ []
chained ch idx (d ∷ e ∷ ds) = command ch 0x11 (idx % 256) d ∷ chained ch (idx + 1) (e ∷ ds)

abbrev is_digit : ℕ → Bool
is_digit c = elim (hex_value c) [ none ↦ false | some d ↦ true ]

-- `isHex`, as three conditions.
abbrev Hex : Str → Type 0
Hex s = (1 ≤ length s) × (length s % 2 ≡ 0) × (all is_digit s ≡ true)

is_hex-Hex : (s : Str) → is_hex s ≡ true → Hex s
unfolding is_hex
is_hex-Hex [] h = cc
is_hex-Hex (c ∷ s) h = (
  omega arith,
  (==_iff (length (c ∷ s) % 2) 0).0 (&&-left _ _ h),
  &&-right (length (c ∷ s) % 2 == 0) (all is_digit (c ∷ s)) h,
)

Hex-is_hex : (s : Str) → Hex s → is_hex s ≡ true
unfolding is_hex
Hex-is_hex [] h = absurd (omega (arith, h.0))
Hex-is_hex (c ∷ s) (n, e, d) = rw ((==_iff (length (c ∷ s) % 2) 0).1 e) d

all-take : (n : ℕ) (s : Str) → all is_digit s ≡ true → all is_digit (take n s) ≡ true
all-take zero s h = refl
all-take (suc n) [] h = refl
all-take (suc n) (c ∷ s) h =
    rw (&&-left (is_digit c) (all is_digit s) h)
      (all-take n s (&&-right (is_digit c) (all is_digit s) h))

all-drop : (n : ℕ) (s : Str) → all is_digit s ≡ true → all is_digit (drop n s) ≡ true
all-drop zero s h = h
all-drop (suc n) [] h = refl
all-drop (suc n) (c ∷ s) h = all-drop n s (&&-right (is_digit c) (all is_digit s) h)

all-append :
    (xs ys : Str) → all is_digit xs ≡ true → all is_digit ys ≡ true → all is_digit (xs ++ ys) ≡ true
all-append [] ys h k = k
all-append (x ∷ xs) ys h k =
    rw (&&-left (is_digit x) (all is_digit xs) h)
      (all-append xs ys (&&-right (is_digit x) (all is_digit xs) h) k)

-- The octets of an even number of digits, and of what stands behind them.
octet_values-append :
    (n : ℕ) (xs ys : Str)
    → length xs ≡ n * 2
    → octet_values (xs ++ ys) ≡ octet_values xs ++ octet_values ys
unfolding octet_values
octet_values-append zero [] ys h = refl
octet_values-append zero (x ∷ xs) ys h = absurd (omega (arith, h))
octet_values-append (suc n) [] ys h = refl
octet_values-append (suc n) (a ∷ []) ys h = absurd (omega (arith, h))
octet_values-append (suc n) (a ∷ b ∷ xs) ys h =
    ap (λ (os : List ℕ). hex_number 0 (a ∷ b ∷ []) ∷ os)
      (octet_values-append n xs ys (omega (arith, h)))

length-octet_values : (n : ℕ) (xs : Str) → length xs ≤ n * 2 → length (octet_values xs) ≤ n
unfolding octet_values
length-octet_values zero [] h = omega arith
length-octet_values zero (x ∷ xs) h = absurd (omega (arith, h))
length-octet_values (suc n) [] h = omega arith
length-octet_values (suc n) (a ∷ []) h = omega arith
length-octet_values (suc n) (a ∷ b ∷ xs) h =
    omega (arith, length-octet_values n xs (omega (arith, h)))

abbrev values : List Str → List (List ℕ)
values cs = map (λ c. octet_values c) cs

flatten-values : (cs : List Str) → All Hex cs → flatten (values cs) ≡ octet_values (flatten cs)
unfolding octet_values
flatten-values [] h = refl
flatten-values (c ∷ cs) ((n, e, d), h) =
    ap (◌++◌ (octet_values c)) (flatten-values cs h)
    ∙ sym (octet_values-append (length c / 2) c (flatten cs) (omega (arith, e)))

-- A segment that is hexadecimal is cut into parts that are.
cut_chunks-Hex :
    (fuel limit : ℕ) (hex : Str)
    → 1 ≤ limit
    → length hex % 2 ≡ 0
    → all is_digit hex ≡ true
    → All Hex (cut_chunks fuel limit hex)
unfolding cut_chunks
cut_chunks-Hex zero limit hex l e d = tt
cut_chunks-Hex (suc fuel) limit [] l e d = tt
cut_chunks-Hex (suc fuel) limit (c ∷ hex) l e d = (
  (
    omega (arith, length-take (limit * 2) (c ∷ hex)),
    omega (arith, length-take (limit * 2) (c ∷ hex), e),
    all-take (limit * 2) (c ∷ hex) d,
  ),
  cut_chunks-Hex fuel limit (drop (limit * 2) (c ∷ hex)) l
      (omega (arith, length-drop (limit * 2) (c ∷ hex), e)) (all-drop (limit * 2) (c ∷ hex) d),
)

-- And one that is not has a part that is not.
flatten-Hex :
    (cs : List Str)
    → All Hex cs
    → (length (flatten cs) % 2 ≡ 0) × (all is_digit (flatten cs) ≡ true)
flatten-Hex [] h = (refl, refl)
flatten-Hex (c ∷ cs) ((n, e, d), h) =
    let (e', d') = flatten-Hex cs h in
    (omega (arith, length-append c (flatten cs), e, e'), all-append c (flatten cs) d d')

store_data_apdu-command :
    (ch p1 p2 : ℕ) (d : List ℕ) → store_data_apdu ch d p1 p2 ≡ command ch p1 p2 d
unfolding store_data_apdu bytes_to_hex hex2
store_data_apdu-command ch p1 p2 d = refl

hex_to_bytes-Hex : (s : Str) → Hex s → hex_to_bytes s ≡ inr (octet_values s)
unfolding hex_to_bytes
hex_to_bytes-Hex s h = rw (Hex-is_hex s h) refl

each_command-chained :
    (ch idx : ℕ) (cs : List Str)
    → All Hex cs
    → each_command ch (number_chunks idx cs) ≡ inr (chained ch idx (values cs))
unfolding each_command number_chunks
each_command-chained ch idx [] h = refl
each_command-chained ch idx (c ∷ []) h =
    rw
      (
        hex_to_bytes-Hex c h.0,
        each_command,
        store_data_apdu-command ch 0x91 (idx % 256) (octet_values c),
      )
      refl
each_command-chained ch idx (c ∷ d ∷ cs) h =
    rw
      (
        hex_to_bytes-Hex c h.0,
        each_command-chained ch (idx + 1) (d ∷ cs) h.1,
        each_command,
        store_data_apdu-command ch 0x11 (idx % 256) (octet_values c),
      )
      refl

Hex-cases : (s : Str) → Hex s ⊎ (hex_to_bytes s ≡ inl bad_hex)
unfolding hex_to_bytes
Hex-cases s = elim (Bool-cases (is_hex s)) [
  | inl e ↦ inl (is_hex-Hex s e)
  | inr e ↦ inr (rw e refl)
]

each_command_cases :
    (ch idx : ℕ) (cs : List Str)
    → All Hex cs ⊎ (each_command ch (number_chunks idx cs) ≡ inl bad_hex)
unfolding each_command number_chunks
each_command_cases ch idx [] = inl tt
each_command_cases ch idx (c ∷ []) = elim (Hex-cases c) [
  | inl h ↦ inl (h, tt)
  | inr e ↦ inr (rw (e, each_command) refl)
]
each_command_cases ch idx (c ∷ d ∷ cs) = elim (Hex-cases c) [
  | inr e ↦ inr (rw (e, each_command) refl)
  | inl h ↦ elim (each_command_cases ch (idx + 1) (d ∷ cs)) [
    | inl hs ↦ inl (h, hs)
    | inr e ↦ inr (rw (hex_to_bytes-Hex c h, e, each_command) refl)
  ]
]

values-bound :
    (limit : ℕ) (cs : List Str)
    → limit ≤ 240
    → All (λ c. length c ≤ limit * 2) cs
    → All (λ d. length d ≤ 240) (values cs)
values-bound limit [] l h = tt
values-bound limit (c ∷ cs) l h =
    (length-octet_values 240 c (omega (arith, l, h.0)), values-bound limit cs l h.1)

-- On any channel and for any size that is asked for: a segment that is hexadecimal gives STORE DATA
-- commands whose data are together the octets of the segment, in order and 240 at most in each, with
-- their exact length, and that are chained from 0 on; a segment that has digits and is not
-- hexadecimal, or odd, is refused with EUICC_BAD_HEX.
pub build_es10b_raw_chunks-chained :
    (ch : ℕ) (hex : Str) (mss : ℕ)
    → hex ≢ []
    → ((is_hex hex ≡ true)
        × (datas : List (List ℕ)) × (build_es10b_raw_chunks ch hex mss ≡ inr (chained ch 0 datas))
        × (flatten datas ≡ octet_values hex)
        × All (λ d. length d ≤ 240) datas)
      ⊎ ((is_hex hex ≡ false) × (build_es10b_raw_chunks ch hex mss ≡ inl bad_hex))
unfolding build_es10b_raw_chunks plan_chunks
build_es10b_raw_chunks-chained ch hex mss some_digits =
    let limit = chunk_limit mss in
    let cs = cut_chunks (length hex) limit hex in
    let bounds = chunk_limit-bounds mss in
    let whole : flatten cs ≡ hex =
      flatten-cut_chunks (length hex) limit hex bounds.0 (omega arith) in
    elim (Bool-cases (is_hex hex)) [
      | inl e ↦
          let (n, even, digits) = is_hex-Hex hex e in
          let parts = cut_chunks-Hex (length hex) limit hex bounds.0 even digits in
          inl (
            e,
            values cs,
            each_command-chained ch 0 cs parts,
            flatten-values cs parts ∙ ap octet_values whole,
            values-bound limit cs bounds.1 (length-cut_chunks (length hex) limit hex),
          )
      | inr e ↦ inr (
        e,
        elim (each_command_cases ch 0 cs) [
          | inr refused ↦ refused
          | inl parts ↦
              let (even, digits) = flatten-Hex cs parts in
              let hexadecimal : is_hex hex ≡ true = Hex-is_hex hex (
                not_empty hex some_digits,
                ap (λ (s : Str). length s % 2) (sym whole) ∙ even,
                ap (λ (s : Str). all is_digit s) (sym whole) ∙ digits,
              ) in
              absurd (differ (sym hexadecimal ∙ e))
        ],
      )
    ]
  where
    not_empty : (s : Str) → s ≢ [] → 1 ≤ length s
    not_empty [] h = absurd (h refl)
    not_empty (c ∷ s) h = omega arith

    differ : true ≢ false
    differ h = cc
