-- ===== src/Sms/Chunks/Covered.antt =====
-- Texts that the GSM alphabet covers: each code unit has a code of its own, so they can be cut
-- anywhere.
use mt5700_console.Base.{
  ℕ, ◌+◌, ◌≡◌, refl, ap, ◌∙◌, inl, inr, true, false, ◌&&◌, some, List, [], ◌∷◌, ◌++◌, map, arith,
  Bool-cases, flatten, All, Str,
}
use mt5700_console.Sms.Gsm7.{
  array_from, is_high_surrogate, is_low_surrogate, gsm7_code, needs_ucs2, needs_ucs2_chars,
  septet_cost, total_septets, total_septets_chars,
}
use mt5700_console.Sms.Gsm7.Codes.{gsm7_code_surrogate}
use mt5700_console.Sms.Gsm7.Texts.{needs_ucs2_chars-cons}

abbrev pub HasCode : ℕ → Type 0
HasCode x = (c : ℕ) × (gsm7_code (x ∷ []) ≡ some c)

abbrev pub IsCovered : Str → Type 0
IsCovered = All HasCode

not_surrogate : (x : ℕ) → HasCode x → is_high_surrogate x ≡ false
not_surrogate x (c, e) = elim (Bool-cases (is_high_surrogate x)) [
  | inl h ↦ absurd (cc (gsm7_code_surrogate x [] h))
  | inr h ↦ h
]

array_from-cons :
    (x : ℕ) (s : Str) → is_high_surrogate x ≡ false → array_from (x ∷ s) ≡ (x ∷ []) ∷ array_from s
unfolding array_from
array_from-cons x [] h = refl
array_from-cons x (y ∷ s) h = rw h

pub total_septets-cons :
    (x : ℕ) (s : Str) → HasCode x → total_septets (x ∷ s) ≡ septet_cost (x ∷ []) + total_septets s
unfolding total_septets total_septets_chars
total_septets-cons x s h = rw (array_from-cons x s (not_surrogate x h)) refl

pub total_septets-append :
    (s t : Str) → IsCovered s → total_septets (s ++ t) ≡ total_septets s + total_septets t
total_septets-append [] t h = unfold total_septets total_septets_chars array_from in omega arith
total_septets-append (x ∷ s) t h = omega (
  arith,
  total_septets-cons x (s ++ t) h.0,
  total_septets-cons x s h.0,
  total_septets-append s t h.1,
)

-- `needsUcs2` answers no exactly when each code unit has a code.
pub IsCovered-needs_ucs2 : (s : Str) → IsCovered s → needs_ucs2 s ≡ false
unfolding needs_ucs2 needs_ucs2_chars
IsCovered-needs_ucs2 [] h = unfold array_from in refl
IsCovered-needs_ucs2 (x ∷ s) h =
    rw (array_from-cons x s (not_surrogate x h.0))
      (rw (h.0.1, needs_ucs2_chars) (IsCovered-needs_ucs2 s h.1))

array_from-head :
    (x : ℕ) (s : Str) → (t : Str) × (rest : List Str) × (array_from (x ∷ s) ≡ (x ∷ t) ∷ rest)
unfolding array_from
array_from-head x [] = ([], [], refl)
array_from-head x (y ∷ s) = elim (Bool-cases (is_high_surrogate x && is_low_surrogate y)) [
  | inl e ↦ (y ∷ [], array_from s, rw e)
  | inr e ↦ ([], array_from (y ∷ s), rw e)
]

surrogate_needs_ucs2 : (x : ℕ) (s : Str) → is_high_surrogate x ≡ true → needs_ucs2 (x ∷ s) ≡ true
unfolding needs_ucs2 needs_ucs2_chars
surrogate_needs_ucs2 x s h =
    let (t, rest, e) = array_from-head x s in
    rw e (rw (gsm7_code_surrogate x t h, needs_ucs2_chars) refl)

pub needs_ucs2-IsCovered : (s : Str) → needs_ucs2 s ≡ false → IsCovered s
unfolding needs_ucs2
needs_ucs2-IsCovered [] h = tt
needs_ucs2-IsCovered (x ∷ s) h = elim (Bool-cases (is_high_surrogate x)) [
  | inl e ↦ absurd (cc (surrogate_needs_ucs2 x s e))
  | inr e ↦
      let (c, hc, rest) =
        needs_ucs2_chars-cons (x ∷ []) (array_from s) (rw (array_from-cons x s e) at h) in
      ((c, hc), needs_ucs2-IsCovered s rest)
]

-- A covered text is the string of its characters, one unit each.
pub flatten_singles : (s : Str) → flatten (map (λ x. x ∷ []) s) ≡ s
flatten_singles [] = refl
flatten_singles (x ∷ s) = ap (◌∷◌ x) (flatten_singles s)

pub array_from-IsCovered : (s : Str) → IsCovered s → array_from s ≡ map (λ x. x ∷ []) s
unfolding array_from
array_from-IsCovered [] h = refl
array_from-IsCovered (x ∷ s) h =
    array_from-cons x s (not_surrogate x h.0) ∙ ap (◌∷◌ (x ∷ [])) (array_from-IsCovered s h.1)
