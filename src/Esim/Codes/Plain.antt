-- ===== src/Esim/Codes/Plain.antt =====
-- Normalizing and splitting of activation codes of euicc.js, on codes of plain characters.
use mt5700_console.Base.{
  ℕ, ◌≡◌, refl, Bool, true, false, not, ◌||◌, [], ◌∷◌, ◌++◌, arith, ◌==◌, ==_iff, not-true, &&-left,
  &&-right, all, Str,
}
use mt5700_console.Esim.Codes.{
  put_first, split_on, is_oid_char, is_blank, is_quote, without_blanks, strip_quotes,
  strip_quotes_end, normalize_activation_code,
}

-- The characters of the codes that are built.
abbrev pub is_plain : ℕ → Bool
is_plain c = is_oid_char c || (c == 58 || c == 36)

not_blank : (c : ℕ) → is_plain c ≡ true → is_blank c ≡ false
not_blank c h = ground arith

not_quote : (c : ℕ) → is_plain c ≡ true → is_quote c ≡ false
not_quote c h = ground arith

without_blanks-plain : (s : Str) → all is_plain s ≡ true → without_blanks s ≡ s
unfolding without_blanks
without_blanks-plain [] h = refl
without_blanks-plain (c ∷ s) h =
    rw
      (
        not_blank c (&&-left (is_plain c) (all is_plain s) h),
        without_blanks-plain s (&&-right (is_plain c) (all is_plain s) h),
        without_blanks,
      )
      refl

strip_quotes-plain : (s : Str) → all is_plain s ≡ true → strip_quotes s ≡ s
unfolding strip_quotes
strip_quotes-plain [] h = refl
strip_quotes-plain (c ∷ s) h =
    rw (not_quote c (&&-left (is_plain c) (all is_plain s) h), strip_quotes) refl

strip_quotes_end-plain : (s : Str) → all is_plain s ≡ true → strip_quotes_end s ≡ s
unfolding strip_quotes_end
strip_quotes_end-plain [] h = refl
strip_quotes_end-plain (c ∷ s) h =
    rw
      (
        not_quote c (&&-left (is_plain c) (all is_plain s) h),
        strip_quotes_end-plain s (&&-right (is_plain c) (all is_plain s) h),
        strip_quotes_end,
      )
      refl

pub normalize-plain : (s : Str) → all is_plain s ≡ true → normalize_activation_code s ≡ s
unfolding normalize_activation_code
normalize-plain s h =
    rw (without_blanks-plain s h, strip_quotes-plain s h, strip_quotes_end-plain s h) refl

-- No separator within.
abbrev pub lacks : ℕ → Str → Bool
lacks sep = all (λ c. not (c == sep))

pub split_on-end : (sep : ℕ) (w : Str) → lacks sep w ≡ true → split_on sep w ≡ w ∷ []
unfolding split_on put_first
split_on-end sep [] h = refl
split_on-end sep (c ∷ w) h =
    rw
      (
        not-true (c == sep) (&&-left (not (c == sep)) (lacks sep w) h),
        split_on-end sep w (&&-right (not (c == sep)) (lacks sep w) h),
        split_on,
      )
      refl

pub split_on-append :
    (sep : ℕ) (w s : Str) → lacks sep w ≡ true → split_on sep (w ++ (sep ∷ s)) ≡ w ∷ split_on sep s
unfolding split_on put_first
split_on-append sep [] s h = rw ((==_iff sep sep).1 refl, split_on) refl
split_on-append sep (c ∷ w) s h =
    rw
      (
        not-true (c == sep) (&&-left (not (c == sep)) (lacks sep w) h),
        split_on-append sep w s (&&-right (not (c == sep)) (lacks sep w) h),
        split_on,
      )
      refl
