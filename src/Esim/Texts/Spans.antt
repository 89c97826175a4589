-- ===== src/Esim/Texts/Spans.antt =====
-- What the readers of Texts do on a text that is put together from their parts.
use mt5700_console.Base.{
  ℕ, ◌≡◌, refl, ap, ◌∙◌, Bool, true, false, not, Option, none, some, [], ◌∷◌, ◌++◌, arith, ◌==◌,
  ==_iff, not-true, &&-left, &&-right, all, Str, is_text, is_text,
}
use mt5700_console.Cache.{is_space}
use mt5700_console.Sms.Address.{is_digit}
use mt5700_console.Esim.Texts.{
  take_while, drop_while, behind, search_text, spaced_digits, behind_comma, quoted_hex,
  maybe_quoted_hex, line_at, is_hex_digit,
}

module _ (p : ℕ → Bool) (c : ℕ) (ys : Str) (stops : p c ≡ false) where
  pub take_while-append : (xs : Str) → all p xs ≡ true → take_while p (xs ++ (c ∷ ys)) ≡ xs
  unfolding take_while
  take_while-append [] h = rw (stops, take_while) refl
  take_while-append (x ∷ xs) h =
      rw (&&-left (p x) (all p xs) h, take_while)
        (ap (◌∷◌ x) (take_while-append xs (&&-right _ _ h)))

  pub drop_while-append : (xs : Str) → all p xs ≡ true → drop_while p (xs ++ (c ∷ ys)) ≡ c ∷ ys
  unfolding drop_while
  drop_while-append [] h = rw (stops, drop_while) refl
  drop_while-append (x ∷ xs) h =
      rw (&&-left (p x) (all p xs) h, drop_while) (drop_while-append xs (&&-right _ _ h))

pub behind-append : (xs ys : Str) → behind xs (xs ++ ys) ≡ some ys
unfolding behind
behind-append [] ys = refl
behind-append (x ∷ xs) ys = rw ((==_iff x x).1 refl, behind) (behind-append xs ys)

-- A text without a plus sign in front is passed over.
pub search_text-append :
    {A : Type 0} (f : Str → Option A) (xs ys : Str)
    → ((x : ℕ) (s : Str) → (x == 43) ≡ false → f (x ∷ s) ≡ none)
    → all (λ x. not (x == 43)) xs ≡ true
    → search_text f (xs ++ ys) ≡ search_text f ys
unfolding search_text
search_text-append f [] ys skips h = refl
search_text-append f (x ∷ xs) ys skips h =
    rw (skips x (xs ++ ys) (not-true _ (&&-left _ _ h)), search_text)
      (search_text-append f xs ys skips (&&-right _ _ h))

digit_is_not_space : (c : ℕ) → is_digit c ≡ true → is_space c ≡ false
digit_is_not_space c h = ground arith

drop_while-digits :
    (n rest : Str)
    → all is_digit n ≡ true
    → is_text n ≡ true
    → drop_while is_space (n ++ rest) ≡ n ++ rest
unfolding drop_while
drop_while-digits [] rest d t = cc
drop_while-digits (x ∷ n) rest d t =
    rw (digit_is_not_space x (&&-left (is_digit x) (all is_digit n) d), drop_while) refl

blank-drop : (s : Str) → drop_while is_space (32 ∷ s) ≡ drop_while is_space s
unfolding drop_while
blank-drop s = refl

-- The number of a line, a blank in front of it and a comma behind.
pub spaced_digits-number :
    (n rest : Str)
    → all is_digit n ≡ true
    → is_text n ≡ true
    → spaced_digits (32 ∷ (n ++ (44 ∷ rest))) ≡ some (n, 44 ∷ rest)
unfolding spaced_digits
spaced_digits-number n rest d t =
    rw
      (
        behind_space,
        take_while-append is_digit 44 rest refl n d,
        drop_while-append is_digit 44 rest refl n d,
        t,
      )
      refl
  where
    behind_space : drop_while is_space (32 ∷ (n ++ (44 ∷ rest))) ≡ n ++ (44 ∷ rest)
    behind_space = blank-drop (n ++ (44 ∷ rest)) ∙ drop_while-digits n (44 ∷ rest) d t

pub quoted_hex-append :
    (hex after : Str)
    → all is_hex_digit hex ≡ true
    → quoted_hex (34 ∷ (hex ++ (34 ∷ after))) ≡ some hex
unfolding quoted_hex behind
quoted_hex-append hex after h =
    rw
      (
        drop_while-append is_hex_digit 34 after refl hex h,
        take_while-append is_hex_digit 34 after refl hex h,
        quoted_hex,
      )
      refl

pub maybe_quoted_hex-append :
    (hex after : Str)
    → all is_hex_digit hex ≡ true
    → maybe_quoted_hex (34 ∷ (hex ++ (34 ∷ after))) ≡ some hex
unfolding maybe_quoted_hex behind
maybe_quoted_hex-append hex after h =
    rw (take_while-append is_hex_digit 34 after refl hex h, maybe_quoted_hex) refl

behind_comma-quote : (s : Str) → behind_comma (44 ∷ 34 ∷ s) ≡ some (34 ∷ s)
unfolding behind_comma drop_while behind
behind_comma-quote s = refl

-- A line with a number and something in quotes.
unfoldable pub quoted_line : Str → Str → Str → Str → Str
quoted_line name n hex after = name ++ (32 ∷ (n ++ (44 ∷ 34 ∷ (hex ++ (34 ∷ after)))))

line_at-quoted_line :
    (name n hex after : Str) (read : Str → Option Str)
    → all is_digit n ≡ true
    → is_text n ≡ true
    → read (34 ∷ (hex ++ (34 ∷ after))) ≡ some hex
    → line_at name read (quoted_line name n hex after) ≡ some hex
unfolding line_at quoted_line
line_at-quoted_line name n hex after read d t r =
    rw
      (
        behind-append name (32 ∷ (n ++ (44 ∷ 34 ∷ (hex ++ (34 ∷ after))))),
        spaced_digits-number n (34 ∷ (hex ++ (34 ∷ after))) d t,
        behind_comma-quote (hex ++ (34 ∷ after)),
        r,
        line_at,
      )
      refl

behind-other :
    (name : Str) (x : ℕ) (s : Str) → (x == 43) ≡ false → behind (43 ∷ name) (x ∷ s) ≡ none
unfolding behind
behind-other name x s h = rw (turned x h, behind) refl
  where
    turned : (x : ℕ) → (x == 43) ≡ false → (43 == x) ≡ false
    turned x h = ground arith

line_at-skips :
    (name : Str) (read : Str → Option Str) (x : ℕ) (s : Str)
    → (x == 43) ≡ false
    → line_at (43 ∷ name) read (x ∷ s) ≡ none
unfolding line_at
line_at-skips name read x s h = rw (behind-other name x s h, line_at) refl

pub search_text-line :
    (name before n hex after : Str) (read : Str → Option Str)
    → all (λ x. not (x == 43)) before ≡ true
    → all is_digit n ≡ true
    → is_text n ≡ true
    → read (34 ∷ (hex ++ (34 ∷ after))) ≡ some hex
    → search_text (line_at (43 ∷ name) read) (before ++ quoted_line (43 ∷ name) n hex after)
      ≡ some hex
unfolding search_text quoted_line
search_text-line name before n hex after read b d t r =
    search_text-append (line_at (43 ∷ name) read) before (quoted_line (43 ∷ name) n hex after)
      (line_at-skips name read) b
    ∙ found
  where
    found : search_text (line_at (43 ∷ name) read) (quoted_line (43 ∷ name) n hex after) ≡ some hex
    found = rw (line_at-quoted_line (43 ∷ name) n hex after read d t r, search_text) refl
