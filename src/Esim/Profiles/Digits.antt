-- ===== src/Esim/Profiles/Digits.antt =====
-- What is taken for an ICCID out of the answer of a server.
use mt5700_console.Base.{
  ℕ, ◌≤◌, ◌≡◌, ◌⊎◌, refl, inl, inr, true, false, ◌||◌, not, Option, List, [], ◌∷◌, arith, ltb, leb,
  if◌then◌else◌, Bool-cases, Option-cases, &&-left, &&-right, length, take, length-take, All,
  All-take, Str, codes, is_text,
}
use mt5700_console.Sms.Address.{is_digit, digits_of}
use mt5700_console.Esim.Profiles.{
  swap_nibbles, tlv_find_hex, text_or_nothing, base64_to_hex, encoded, iccid_from_encoded,
  iccid_from_profile_metadata,
}

-- The digits 0 to 9.
abbrev pub IsDigits : Str → Type 0
IsDigits s = All (λ c. (48 ≤ c) × (c ≤ 57)) s

digits_of-IsDigits : (s : Str) → IsDigits (digits_of s)
unfolding digits_of
digits_of-IsDigits [] = tt
digits_of-IsDigits (c ∷ s) = elim (Bool-cases (is_digit c)) [
  | inl e ↦ rw e ((bounds_of e, digits_of-IsDigits s))
  | inr e ↦ rw e (digits_of-IsDigits s)
]
  where
    bounds_of : is_digit c ≡ true → (48 ≤ c) × (c ≤ 57)
    bounds_of e = (low (&&-left (leb 48 c) (leb c 57) e), high (&&-right (leb 48 c) (leb c 57) e))
      where
        low : leb 48 c ≡ true → 48 ≤ c
        low a = ground arith

        high : leb c 57 ≡ true → c ≤ 57
        high a = ground arith

-- An ICCID: 18 to 20 digits.
abbrev pub IsIccid : Str → Type 0
IsIccid s = (18 ≤ length s) × (length s ≤ 20) × IsDigits s

iccid_from_encoded-IsIccid :
    (atob : Str → Option (List ℕ)) (pm : Str)
    → (iccid_from_encoded atob pm ≡ []) ⊎ IsIccid (iccid_from_encoded atob pm)
unfolding iccid_from_encoded
iccid_from_encoded-IsIccid atob pm = elim (Option-cases (base64_to_hex atob pm)) [
  | inl e ↦ inl (rw (e, iccid_from_encoded) refl)
  | inr (hex, e) ↦ rw (e, iccid_from_encoded) (found (tlv_find_hex 5 (codes "5A") hex))
]
  where
    long : (s : Str) → ltb (length s) 18 ≡ false → IsDigits s → IsIccid (take 20 s)
    long s short digits = (
      omega (arith, length-take 20 s, not_short short),
      omega (arith, length-take 20 s),
      All-take (λ c. (48 ≤ c) × (c ≤ 57)) 20 s digits,
    )
      where
        not_short : ltb (length s) 18 ≡ false → 18 ≤ length s
        not_short h = ground arith

    found :
        (v : Str)
        → let s = digits_of (text_or_nothing (swap_nibbles v)) in
          let r = if not (is_text v) || ltb (length s) 18 then [] else take 20 s in
          (r ≡ []) ⊎ IsIccid r
    found v = elim (Bool-cases (is_text v)) [
      | inr e ↦ inl (rw e refl)
      | inl e ↦
          let s = digits_of (text_or_nothing (swap_nibbles v)) in
          elim (Bool-cases (ltb (length s) 18)) [
            | inl l ↦ inl (rw (e, l) refl)
            | inr l ↦
                inr (rw (e, l) (long s l (digits_of-IsDigits (text_or_nothing (swap_nibbles v)))))
          ]
    ]

-- Whatever a server answers as text, and whatever the browser's atob makes of it, an ICCID that is
-- found in the text is 18 to 20 digits; otherwise nothing is found.
pub iccid_from_profile_metadata-IsIccid :
    (atob : Str → Option (List ℕ)) (pm : Str)
    → (iccid_from_profile_metadata atob (encoded pm) ≡ [])
      ⊎ IsIccid (iccid_from_profile_metadata atob (encoded pm))
unfolding iccid_from_profile_metadata
iccid_from_profile_metadata-IsIccid atob pm = elim (Bool-cases (is_text pm)) [
  | inr e ↦ inl (rw e refl)
  | inl e ↦ rw e (iccid_from_encoded-IsIccid atob pm)
]
