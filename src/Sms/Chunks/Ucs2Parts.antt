-- ===== src/Sms/Chunks/Ucs2Parts.antt =====
-- `ucs2Chunks`: the parts are the whole text, in order, each fits, and no character is split.
use mt5700_console.Base.{
  ℕ, zero, suc, ◌-◌, ◌/◌, ◌≤◌, ◌<◌, ◌≡◌, refl, ap, ◌∙◌, inl, inr, true, ◌&&◌, List, [], ◌∷◌, ◌++◌,
  map, arith, Bool-cases, length, get_or, take, drop, flatten, All, take-append-drop, length-take,
  length-drop, Str, is_text,
}
use mt5700_console.Sms.Gsm7.{array_from, is_high_surrogate, is_low_surrogate}
use mt5700_console.Sms.Chunks.{ucs2_max_udh, ucs2_end, ucs2_loop, ucs2_chunks}

-- The cut leaves at least one unit in the part, and at most 67.
ucs2_end_bounds :
    (c : ℕ) (s : Str)
    → (0 < ucs2_end (c ∷ s)) × (ucs2_end (c ∷ s) ≤ 67) × (ucs2_end (c ∷ s) ≤ length (c ∷ s))
unfolding ucs2_end
ucs2_end_bounds c s = ground arith

-- A cut between these would take a pair apart.
abbrev pub SplitsPair : ℕ → ℕ → Type 0
SplitsPair a b = (is_high_surrogate a && is_low_surrogate b) ≡ true

-- Where the part ends before the text does, its last unit and the next are no pair.
ucs2_end-SplitsPair :
    (s : Str)
    → ucs2_end s < length s
    → ¬ SplitsPair (get_or s (ucs2_end s - 1) 0) (get_or s (ucs2_end s) 0)
unfolding ucs2_end
ucs2_end-SplitsPair s h = λ p. ground arith

abbrev CutsNoPair : ℕ → Str → Type 0
CutsNoPair n s =
    (m : ℕ) → n ≡ suc m → n < length s → ¬ SplitsPair (get_or s m 0) (get_or s (suc m) 0)

ucs2_end-CutsNoPair : (s : Str) → CutsNoPair (ucs2_end s) s
ucs2_end-CutsNoPair s m e lt p =
    let before : m ≡ ucs2_end s - 1 = omega arith in ucs2_end-SplitsPair s lt (rw (← before, e) p)

-- Characters are not split by a cut that takes no pair apart.
array_from_cut :
    (n : ℕ) (s : Str)
    → CutsNoPair n s
    → array_from (take n s) ++ array_from (drop n s) ≡ array_from s
unfolding array_from
array_from_cut zero s h = refl
array_from_cut (suc n) [] h = refl
array_from_cut (suc zero) (c ∷ []) h = refl
array_from_cut (suc (suc n)) (c ∷ []) h = refl
array_from_cut (suc zero) (c ∷ d ∷ s) h =
    elim (Bool-cases (is_high_surrogate c && is_low_surrogate d)) [
      | inl e ↦ absurd (h 0 refl (omega arith) e)
      | inr e ↦ rw e
    ]
array_from_cut (suc (suc n)) (c ∷ d ∷ s) h =
    let later = array_from_cut n s (λ m e lt. h (suc (suc m)) (omega arith) (omega arith)) in
    let next = array_from_cut (suc n) (d ∷ s) (λ m e lt. h (suc m) (omega arith) (omega arith)) in
    elim (Bool-cases (is_high_surrogate c && is_low_surrogate d)) [
      | inl e ↦ rw e (ap (◌∷◌ (c ∷ d ∷ [])) later)
      | inr e ↦ rw e (ap (◌∷◌ (c ∷ [])) next)
    ]

-- A part of at most 67 code units, and at least one.
pub record IsPart (part : Str) : Type 0 where
  pub nonempty : is_text part ≡ true
  pub fits : length part ≤ ucs2_max_udh / 2

abbrev Splits : List Str → Str → Type 0
Splits parts s =
    All IsPart parts × (flatten parts ≡ s) × (flatten (map array_from parts) ≡ array_from s)

first-IsPart : (n c : ℕ) (s : Str) → 0 < n → n ≤ 67 → IsPart (take n (c ∷ s))
first-IsPart zero c s h k = absurd (omega arith)
first-IsPart (suc n) c s h k = record {
  nonempty = refl;
  fits = omega (arith, length-take (suc n) (c ∷ s));
}

-- As much fuel as there are code units is enough for the loop.
ucs2_loop-Splits : (fuel : ℕ) (s : Str) → length s ≤ fuel → Splits (ucs2_loop fuel s) s
unfolding ucs2_loop
ucs2_loop-Splits zero [] h = (tt, refl, unfold array_from in refl)
ucs2_loop-Splits zero (c ∷ s) h = absurd (omega arith)
ucs2_loop-Splits (suc fuel) [] h = (tt, refl, unfold array_from in refl)
ucs2_loop-Splits (suc fuel) (c ∷ s) h =
    let (lo, hi, len) = ucs2_end_bounds c s in
    let n = ucs2_end (c ∷ s) in
    let rest = drop n (c ∷ s) in
    let ih = ucs2_loop-Splits fuel rest (omega (arith, length-drop n (c ∷ s))) in
    (
      (first-IsPart n c s lo hi, ih.0),
      ap (◌++◌ (take n (c ∷ s))) ih.1 ∙ take-append-drop n (c ∷ s),
      ap (◌++◌ (array_from (take n (c ∷ s)))) ih.2
          ∙ array_from_cut n (c ∷ s) (ucs2_end-CutsNoPair (c ∷ s)),
    )

-- The parts are the whole text, each fits behind its header, and together they have the
-- characters of the text: no surrogate pair is taken apart.
pub ucs2_chunks-Splits :
    (message : Str)
    → All IsPart (ucs2_chunks message)
      × (flatten (ucs2_chunks message) ≡ message)
      × (flatten (map array_from (ucs2_chunks message)) ≡ array_from message)
unfolding ucs2_chunks
ucs2_chunks-Splits message = ucs2_loop-Splits (length message) message (omega arith)
