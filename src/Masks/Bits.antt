-- ===== src/Masks/Bits.antt =====
-- What the states of a mask say of its bits.
use mt5700_console.Base.{
  ℕ, zero, suc, ◌*◌, ◌/◌, ◌≤◌, ◌<◌, ◌≡◌, refl, sym, ap, ◌∙◌, ◌⊎◌, inl, inr, Bool, true, false, not,
  ◌&&◌, ◌||◌, arith, leb, if◌then◌else◌, Bool-cases, &&-left, &&-right, length, Str, str_eq,
  str_eq_iff, is_text,
}
use mt5700_console.Masks.{
  ApplyState, exact, clipped, rejected, unknown, bitmap_state, bits_within, hex_bit,
  hex_mask_subset, norm_hex_for_compare,
}

bits_within_lem :
    (n : ℕ) (w g : Str) (i : ℕ)
    → bits_within n w g ≡ true
    → i < n
    → hex_bit g i ≡ true
    → hex_bit w i ≡ true
unfolding bits_within
bits_within_lem zero w g i h lt b = absurd (omega arith)
bits_within_lem (suc n) w g i h lt b = elim (at_or_below i n lt) [
  | inr below ↦ bits_within_lem n w g i (&&-right _ _ h) below b
  | inl e ↦ rw e (kept (hex_bit g n) (hex_bit w n) (&&-left _ _ h) (rw e at b))
]
  where
    at_or_below : (x y : ℕ) → x < suc y → (x ≡ y) ⊎ (x < y)
    at_or_below x y l = ground arith

    kept : (p q : Bool) → not (p && not q) ≡ true → p ≡ true → q ≡ true
    kept p true a c = refl
    kept true false a c = cc
    kept false false a c = cc

-- The bits that a mask has beyond its length are not set.
hex_bit_beyond : (g : Str) (i : ℕ) → length g * 4 ≤ i → hex_bit g i ≡ false
unfolding hex_bit
hex_bit_beyond g i h = rw (beyond (length g) (i / 4) (omega (arith, h))) refl
  where
    beyond : (n p : ℕ) → n ≤ p → leb n p ≡ true
    beyond n p le = ground arith

-- Every bit of a mask that `hex_mask_subset` accepts is a bit of the mask that was asked for.
pub hex_mask_subset-hex_bit :
    (want got : Str) (i : ℕ)
    → hex_mask_subset want got ≡ true
    → hex_bit (norm_hex_for_compare got) i ≡ true
    → hex_bit (norm_hex_for_compare want) i ≡ true
unfolding hex_mask_subset
hex_mask_subset-hex_bit want got i h b =
    let g = norm_hex_for_compare got in
    elim (within_or_beyond i (length g * 4)) [
      | inl lt ↦
          bits_within_lem (length g * 4) (norm_hex_for_compare want) g i
            (&&-right _ _ (&&-right _ _ h)) lt b
      | inr le ↦ (let q : true ≡ false = sym b ∙ hex_bit_beyond g i le in cc)
    ]
  where
    within_or_beyond : (x y : ℕ) → (x < y) ⊎ (y ≤ x)
    within_or_beyond x y = ground arith

-- A field that is reported as clipped or as exact was read back as a mask with no bit but those
-- that were written.
pub bitmap_state-hex_bit :
    (want got : Str) (i : ℕ)
    → (bitmap_state want got ≡ clipped) ⊎ (bitmap_state want got ≡ exact)
    → hex_bit (norm_hex_for_compare got) i ≡ true
    → hex_bit (norm_hex_for_compare want) i ≡ true
unfolding bitmap_state
bitmap_state-hex_bit want got i h b =
    elim (Bool-cases (str_eq (norm_hex_for_compare want) (norm_hex_for_compare got))) [
      | inl same ↦ ap (λ (m : Str). hex_bit m i) ((str_eq_iff _ _).0 same) ∙ b
      | inr other ↦ elim (Bool-cases (hex_mask_subset want got)) [
        | inl within ↦ hex_mask_subset-hex_bit want got i within b
        | inr more ↦
            refuted (is_text got)
              (not (is_text (norm_hex_for_compare want))
                || not (is_text (norm_hex_for_compare got)))
              (rw (other, more, bitmap_state) at h)
      ]
    ]
  where
    state : Bool → Bool → ApplyState
    state t u = if not t then unknown else if u then unknown else rejected

    number : ApplyState → ℕ
    number exact = 0
    number clipped = 1
    number rejected = 2
    number unknown = 3

    low : (t u : Bool) → number (state t u) ≡ 2 ⊎ number (state t u) ≡ 3
    low true true = inr refl
    low true false = inl refl
    low false u = inr refl

    refuted :
        (t u : Bool)
        → (state t u ≡ clipped) ⊎ (state t u ≡ exact)
        → hex_bit (norm_hex_for_compare want) i ≡ true
    refuted t u (inl e) = absurd (omega (arith, ap number e, low t u))
    refuted t u (inr e) = absurd (omega (arith, ap number e, low t u))
