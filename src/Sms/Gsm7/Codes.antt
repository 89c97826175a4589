-- ===== src/Sms/Gsm7/Codes.antt =====
-- One character in the GSM alphabet: what `gsm7Code` gives and what `septetsToString` reads back.
use mt5700_console.Base.{
  ℕ, zero, suc, ◌<◌, Bool, true, false, not, ◌&&◌, ◌⊎◌, inl, inr, ◌≢◌, none, some, List, [], ◌∷◌,
  ◌++◌, ◌≡◌, refl, sym, ap, ◌∙◌, arith, ◌==◌, if◌then◌else◌, Str, length, get_or, all, All,
  index_of, starts_with, Option-cases, Bool-cases, some_inj,
}
use mt5700_console.Sms.Gsm7.{
  gsm7_alphabet, is_high_surrogate, ext_map, is_ext_char, control_code, gsm7_code, gsm7_extension,
  basic_char, septets_to_string, septet_cost,
}

-- What a character of the alphabet, or of the extension table, becomes; nothing for another.
unfoldable pub char_septets : Str → List ℕ
char_septets ch = elim (gsm7_code ch) [
  | none ↦ []
  | some c ↦ if is_ext_char ch then 0x1b ∷ c ∷ [] else c ∷ []
]

pub index_of_char :
    (s : Str) (x : ℕ) (t : Str) (i : ℕ)
    → index_of s (x ∷ t) ≡ some i
    → (i < length s) × (get_or s i 0x3f ≡ x)
unfolding index_of starts_with
index_of_char [] x t i h = ground arith
index_of_char (c ∷ s) x t zero h = ground arith
index_of_char (c ∷ s) x t (suc i) h = ground (arith, index_of_char s x t i)

all-get_or :
    (p : ℕ → Bool) (s : Str) (i d : ℕ) → all p s ≡ true → i < length s → p (get_or s i d) ≡ true
all-get_or p [] i d h lt = absurd (omega arith)
all-get_or p (x ∷ s) zero d h lt = ground arith
all-get_or p (x ∷ s) (suc i) d h lt = ground (arith, all-get_or p s i d)

-- No character of the alphabet is a surrogate, and none is in the extension table.
abbrev is_plain : ℕ → Bool
is_plain x = not (is_ext_char (x ∷ [])) && not (is_high_surrogate x)

alphabet_is_plain : all is_plain gsm7_alphabet ≡ true
unfolding is_ext_char ext_map
alphabet_is_plain = refl

found_is_plain :
    (x : ℕ) (t : Str) (i : ℕ) → index_of gsm7_alphabet (x ∷ t) ≡ some i → is_plain x ≡ true
found_is_plain x t i h =
    let (lt, e) = index_of_char gsm7_alphabet x t i h in
    rw e at (all-get_or is_plain gsm7_alphabet i 0x3f alphabet_is_plain lt)

-- A high surrogate has no code, alone or with its other half.
pub gsm7_code_surrogate : (x : ℕ) (t : Str) → is_high_surrogate x ≡ true → gsm7_code (x ∷ t) ≡ none
unfolding gsm7_code ext_map control_code
gsm7_code_surrogate x [] h = elim (Option-cases (index_of gsm7_alphabet (x ∷ []))) [
  | inl e ↦ rw (e, gsm7_code) (ground arith)
  | inr (i, e) ↦ absurd (ground (arith, found_is_plain x [] i e))
]
gsm7_code_surrogate x (y ∷ t) h = elim (Option-cases (index_of gsm7_alphabet (x ∷ y ∷ t))) [
  | inl e ↦ rw (e, gsm7_code) (ground arith)
  | inr (i, e) ↦ absurd (ground (arith, found_is_plain x (y ∷ t) i e))
]

-- A character with a code is in the alphabet at that place, or in the extension table.
record InAlphabet (x c : ℕ) : Type 0 where
  is_septet : c < 128
  reads : get_or gsm7_alphabet c 0x3f ≡ x
  not_ext : is_ext_char (x ∷ []) ≡ false

record InExtension (x c : ℕ) : Type 0 where
  is_septet : c < 128
  reads : gsm7_extension c ≡ some x
  ext : is_ext_char (x ∷ []) ≡ true

ext_map_reads : (x e : ℕ) → ext_map (x ∷ []) ≡ some e → (e < 128) × (gsm7_extension e ≡ some x)
unfolding ext_map gsm7_extension
ext_map_reads x e h = ground arith

not_in_alphabet : (x : ℕ) → index_of gsm7_alphabet (x ∷ []) ≡ none → (x ≢ 0x0d) × (x ≢ 0x0a)
unfolding index_of starts_with
not_in_alphabet x h = (λ e. cc (rw e at h), λ e. cc (rw e at h))

gsm7_code_found :
    (x c i : ℕ)
    → gsm7_code (x ∷ []) ≡ some c
    → index_of gsm7_alphabet (x ∷ []) ≡ some i
    → InAlphabet x c
unfolding gsm7_code
gsm7_code_found x c i h e =
    let same : i ≡ c = some_inj (rw (e, gsm7_code) at h) in
    let (lt, reads) = index_of_char gsm7_alphabet x [] i e in
    rw (← same)
      (record { is_septet = lt; reads = reads; not_ext = ground (arith, found_is_plain x [] i e) })

gsm7_code_ext :
    (x c : ℕ)
    → x ≢ 0
    → gsm7_code (x ∷ []) ≡ some c
    → index_of gsm7_alphabet (x ∷ []) ≡ none
    → InExtension x c
unfolding gsm7_code is_ext_char
gsm7_code_ext x c hx h e = elim (Option-cases (ext_map (x ∷ []))) [
  | inl f ↦ absurd (control (not_in_alphabet x e) (rw (e, f, gsm7_code) at h))
  | inr (v, f) ↦
      let same : v ≡ c = some_inj (rw (e, f, gsm7_code) at h) in
      let (lt, reads) = ext_map_reads x v f in
      rw (← same) (record { is_septet = lt; reads = reads; ext = rw (f, is_ext_char) })
]
  where
    control : (x ≢ 0x0d) × (x ≢ 0x0a) → control_code (some x) ≡ some c → ⊥
    control n k = unfold control_code in ground arith

gsm7_code-cases : (x c : ℕ) → x ≢ 0 → gsm7_code (x ∷ []) ≡ some c → InAlphabet x c ⊎ InExtension x c
gsm7_code-cases x c hx h = elim (Option-cases (index_of gsm7_alphabet (x ∷ []))) [
  | inl e ↦ inr (gsm7_code_ext x c hx h e)
  | inr (i, e) ↦ inl (gsm7_code_found x c i h e)
]

septets_to_string_basic :
    (x c : ℕ) (rest : List ℕ)
    → x ≢ 0x1b
    → InAlphabet x c
    → septets_to_string (c ∷ rest) ≡ x ∷ septets_to_string rest
unfolding septets_to_string basic_char
septets_to_string_basic x c [] hx a = rw a.reads
septets_to_string_basic x c (d ∷ rest) hx a = elim (Bool-cases (c == 0x1b)) [
  | inl e ↦
      let esc : c ≡ 0x1b = ground arith in
      absurd (hx (sym a.reads ∙ ap (λ k. get_or gsm7_alphabet k 0x3f) esc))
  | inr e ↦ rw (e, a.reads)
]

septets_to_string_ext :
    (x c : ℕ) (rest : List ℕ)
    → InExtension x c
    → septets_to_string (0x1b ∷ c ∷ rest) ≡ x ∷ septets_to_string rest
unfolding septets_to_string
septets_to_string_ext x c rest a = rw a.reads

-- A character other than NUL and ESC is read back from its septets, whatever follows them.
pub septets_to_string-char_septets :
    (x c : ℕ) (rest : List ℕ)
    → x ≢ 0
    → x ≢ 0x1b
    → gsm7_code (x ∷ []) ≡ some c
    → septets_to_string (char_septets (x ∷ []) ++ rest) ≡ x ∷ septets_to_string rest
unfolding char_septets
septets_to_string-char_septets x c rest h0 he hc = elim (gsm7_code-cases x c h0 hc) [
  | inl a ↦ rw (hc, a.not_ext, char_septets) (septets_to_string_basic x c rest he a)
  | inr a ↦ rw (hc, a.ext, char_septets) (septets_to_string_ext x c rest a)
]

pub char_septets-lt :
    (x c : ℕ) → x ≢ 0 → gsm7_code (x ∷ []) ≡ some c → All (λ s. s < 128) (char_septets (x ∷ []))
unfolding char_septets
char_septets-lt x c h0 hc = elim (gsm7_code-cases x c h0 hc) [
  | inl a ↦ rw (hc, a.not_ext, char_septets) (a.is_septet, tt)
  | inr a ↦ rw (hc, a.ext, char_septets) (omega arith, (a.is_septet, tt))
]

pub length-char_septets :
    (ch : Str) (c : ℕ) → gsm7_code ch ≡ some c → length (char_septets ch) ≡ septet_cost ch
unfolding char_septets
length-char_septets ch c hc = elim (Bool-cases (is_ext_char ch)) [
  | inl e ↦ rw (hc, e, char_septets)
  | inr e ↦ rw (hc, e, char_septets)
]
