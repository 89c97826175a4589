-- ===== src/Sms/Gsm7/Texts.antt =====
-- Whole texts in the GSM alphabet, from their characters to septets and back.
use mt5700_console.Base.{
  ℕ, ◌<◌, ◌≡◌, refl, sym, ap, ◌∙◌, ◌≢◌, inl, inr, true, false, ◌&&◌, some, List, [], ◌∷◌, ◌++◌,
  arith, Bool-cases, Option-cases, &&-left, length, flatten, All, length-append, All-append, Str,
}
use mathlib.Core.Path.{subst}
use mt5700_console.Sms.Gsm7.{
  is_high_surrogate, is_low_surrogate, array_from, gsm7_code, septets_to_string, needs_ucs2_chars,
  total_septets_chars,
}
use mt5700_console.Sms.Gsm7.Codes.{
  char_septets, gsm7_code_surrogate, septets_to_string-char_septets, char_septets-lt,
  length-char_septets,
}

-- The septets of the characters, in order.
unfoldable pub septets_of : List Str → List ℕ
unfolding char_septets
septets_of [] = []
septets_of (ch ∷ chs) = char_septets ch ++ septets_of chs

-- A character is one code unit, or a pair that begins with a high surrogate.
abbrev pub IsChar : Str → Type 0
IsChar [] = ⊥
IsChar (x ∷ []) = Unit {0}
IsChar (x ∷ y ∷ []) = is_high_surrogate x ≡ true
IsChar (x ∷ y ∷ z ∷ s) = ⊥

pub array_from-IsChar : (s : Str) → All IsChar (array_from s)
unfolding array_from
array_from-IsChar [] = tt
array_from-IsChar (c ∷ []) = (tt, tt)
array_from-IsChar (c ∷ d ∷ s) = elim (Bool-cases (is_high_surrogate c && is_low_surrogate d)) [
  | inl e ↦ rw e (&&-left _ _ e, array_from-IsChar s)
  | inr e ↦ rw e (tt, array_from-IsChar (d ∷ s))
]

-- Nothing of the text is lost.
pub flatten-array_from : (s : Str) → flatten (array_from s) ≡ s
unfolding array_from
flatten-array_from [] = refl
flatten-array_from (c ∷ []) = refl
flatten-array_from (c ∷ d ∷ s) = elim (Bool-cases (is_high_surrogate c && is_low_surrogate d)) [
  | inl e ↦ rw e (ap (λ t. c ∷ d ∷ t) (flatten-array_from s))
  | inr e ↦ rw e (ap (◌∷◌ c) (flatten-array_from (d ∷ s)))
]

-- Where UCS2 is not needed, the head has a code and so has each other character.
pub needs_ucs2_chars-cons :
    (ch : Str) (chs : List Str)
    → needs_ucs2_chars (ch ∷ chs) ≡ false
    → (c : ℕ) × (gsm7_code ch ≡ some c) × (needs_ucs2_chars chs ≡ false)
unfolding needs_ucs2_chars
needs_ucs2_chars-cons ch chs h = elim (Option-cases (gsm7_code ch)) [
  | inl e ↦ absurd (cc (rw (e, needs_ucs2_chars) at h))
  | inr (c, e) ↦ (c, e, rw (e, needs_ucs2_chars) at h)
]

pub length-septets_of :
    (chs : List Str)
    → needs_ucs2_chars chs ≡ false
    → length (septets_of chs) ≡ total_septets_chars chs
unfolding septets_of total_septets_chars
length-septets_of [] h = refl
length-septets_of (ch ∷ chs) h =
    let (c, e, h') = needs_ucs2_chars-cons ch chs h in
    omega (
      arith,
      length-append (char_septets ch) (septets_of chs),
      length-char_septets ch c e,
      length-septets_of chs h',
    )

-- No character that the round trip loses: NUL, which is sent as the septet of `@`, and a bare ESC.
abbrev pub IsClean : Str → Type 0
IsClean = All (λ x. (x ≢ 0) × (x ≢ 0x1b))

-- A character with a code is one code unit.
single_of_code : (ch : Str) (c : ℕ) → IsChar ch → gsm7_code ch ≡ some c → (x : ℕ) × (ch ≡ x ∷ [])
single_of_code [] c h e = absurd h
single_of_code (x ∷ []) c h e = (x, refl)
single_of_code (x ∷ y ∷ []) c h e = absurd (cc (gsm7_code_surrogate x (y ∷ []) h))
single_of_code (x ∷ y ∷ z ∷ s) c h e = absurd h

module _ (P : List ℕ → Str → Type 0) where
  -- Induction over the characters of a text that the alphabet covers.
  covered_induction :
      (base : P [] [])
      → (step : (x c : ℕ) (ss : List ℕ) (s : Str)
          → x ≢ 0
          → x ≢ 0x1b
          → gsm7_code (x ∷ []) ≡ some c
          → P ss s
          → P (char_septets (x ∷ []) ++ ss) (x ∷ s))
      → (chs : List Str) → All IsChar chs
      → IsClean (flatten chs)
      → needs_ucs2_chars chs ≡ false
      → P (septets_of chs) (flatten chs)
  unfolding septets_of
  covered_induction base step [] hc hk hn = base
  covered_induction base step (ch ∷ chs) hc hk hn =
      let (c, e, hn') = needs_ucs2_chars-cons ch chs hn in
      let (x, ex) = single_of_code ch c hc.0 e in
      let clean : IsClean (x ∷ flatten chs) = subst (λ s. IsClean (s ++ flatten chs)) ex hk in
      subst (λ s. P (char_septets s ++ septets_of chs) (s ++ flatten chs)) (sym ex)
        (step x c (septets_of chs) (flatten chs) clean.0.0 clean.0.1
          (subst (λ s. gsm7_code s ≡ some c) ex e)
          (covered_induction base step chs hc.1 clean.1 hn'))

pub septets_of-lt :
    (chs : List Str)
    → All IsChar chs
    → IsClean (flatten chs)
    → needs_ucs2_chars chs ≡ false
    → All (λ s. s < 128) (septets_of chs)
septets_of-lt =
    covered_induction (λ ss s. All (λ v. v < 128) ss) tt
      (λ x c ss s h0 he hc h.
        All-append (λ v. v < 128) (char_septets (x ∷ [])) ss (char_septets-lt x c h0 hc) h)

-- The septets of a text read back as the text.
pub septets_to_string-septets_of :
    (chs : List Str)
    → All IsChar chs
    → IsClean (flatten chs)
    → needs_ucs2_chars chs ≡ false
    → septets_to_string (septets_of chs) ≡ flatten chs
unfolding septets_to_string
septets_to_string-septets_of =
    covered_induction (λ ss s. septets_to_string ss ≡ s) refl
      (λ x c ss s h0 he hc h. septets_to_string-char_septets x c ss h0 he hc ∙ ap (◌∷◌ x) h)
