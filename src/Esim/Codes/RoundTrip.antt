-- ===== src/Esim/Codes/RoundTrip.antt =====
-- `parseActivationCode` of euicc.js on what `buildActivationCode` writes.
use mt5700_console.Base.{
  ℕ, ◌≡◌, refl, ap, ◌∙◌, ◌⊎◌, inl, inr, Bool, true, false, not, ◌&&◌, Option, none, some, List, [],
  ◌∷◌, ◌++◌, arith, leb, ◌==◌, if◌then◌else◌, &&-left, &&-right, length, all, All, Str, codes,
  str_eq, starts_with, is_text,
}
use mt5700_console.Esim.Codes.{
  split_on, join_on, is_id_char, is_oid_char, is_field, is_fqdn, read_flag, check_fields,
  read_fields, without_lpa, parse_activation_code, flag_text, optional_field, code_fields,
  build_activation_code,
}
use mt5700_console.Esim.Codes.Plain.{is_plain, normalize-plain, split_on-end, split_on-append}

all-implies :
    (p q : ℕ → Bool) (s : Str)
    → ((c : ℕ) → p c ≡ true → q c ≡ true)
    → all p s ≡ true
    → all q s ≡ true
all-implies p q [] i h = refl
all-implies p q (c ∷ s) i h =
    rw (i c (&&-left (p c) (all p s) h)) (all-implies p q s i (&&-right (p c) (all p s) h))

all-append : (p : ℕ → Bool) (s t : Str) → all p s ≡ true → all p t ≡ true → all p (s ++ t) ≡ true
all-append p [] t h k = k
all-append p (c ∷ s) t h k =
    rw (&&-left (p c) (all p s) h) (all-append p s t (&&-right (p c) (all p s) h) k)

oid_is_plain : (c : ℕ) → is_oid_char c ≡ true → is_plain c ≡ true
oid_is_plain c h = ground arith

oid_is_no_separator : (c : ℕ) → is_oid_char c ≡ true → not (c == 36) ≡ true
oid_is_no_separator c h = ground arith

id_is_oid : (c : ℕ) → is_id_char c ≡ true → is_oid_char c ≡ true
id_is_oid c h = ground arith

-- Fields of the characters that an object identifier may have.
AreFields : List Str → Type 0
AreFields ws = All (λ w. all is_oid_char w ≡ true) ws

join_on-plain : (ws : List Str) → AreFields ws → all is_plain (join_on 36 ws) ≡ true
unfolding join_on AreFields
join_on-plain [] h = refl
join_on-plain (w ∷ []) h = all-implies is_oid_char is_plain w oid_is_plain h.0
join_on-plain (w ∷ v ∷ ws) h =
    all-append is_plain w (36 ∷ join_on 36 (v ∷ ws))
      (all-implies is_oid_char is_plain w oid_is_plain h.0) (join_on-plain (v ∷ ws) h.1)

split_on-join_on :
    (w : Str) (ws : List Str) → AreFields (w ∷ ws) → split_on 36 (join_on 36 (w ∷ ws)) ≡ w ∷ ws
unfolding join_on AreFields
split_on-join_on w [] h =
    split_on-end 36 w (all-implies is_oid_char (λ c. not (c == 36)) w oid_is_no_separator h.0)
split_on-join_on w (v ∷ ws) h =
    split_on-append 36 w (join_on 36 (v ∷ ws))
      (all-implies is_oid_char (λ c. not (c == 36)) w oid_is_no_separator h.0)
    ∙ ap (◌∷◌ w) (split_on-join_on v ws h.1)

without_lpa-front : (s : Str) → without_lpa (codes "LPA:" ++ s) ≡ s
unfolding without_lpa starts_with
without_lpa-front s = refl

parse-fields :
    (w : Str) (ws : List Str)
    → AreFields (w ∷ ws)
    → parse_activation_code (codes "LPA:" ++ join_on 36 (w ∷ ws))
      ≡ read_fields (codes "LPA:" ++ join_on 36 (w ∷ ws)) (w ∷ ws)
unfolding parse_activation_code
parse-fields w ws h =
    let raw = codes "LPA:" ++ join_on 36 (w ∷ ws) in
    rw (normalize-plain raw (join_on-plain (w ∷ ws) h), parse_activation_code)
      (ap (read_fields raw)
        (ap (split_on 36) (without_lpa-front (join_on 36 (w ∷ ws))) ∙ split_on-join_on w ws h))

optional_field-AreFields : (flag : Option Bool) → AreFields (optional_field flag)
unfolding AreFields
optional_field-AreFields none = tt
optional_field-AreFields (some true) = (refl, tt)
optional_field-AreFields (some false) = (refl, tt)

-- The server and the matching code are ones that the reader takes.
pub record IsNamed (smdp mid : Str) : Type 0 where
  pub domain : is_fqdn smdp ≡ true
  pub domain_chars : all is_oid_char smdp ≡ true
  pub matching : is_field is_id_char mid ≡ true

matching_chars : (mid : Str) → is_field is_id_char mid ≡ true → all is_oid_char mid ≡ true
matching_chars mid h = all-implies is_id_char is_oid_char mid id_is_oid (
    &&-right (leb (length mid) 255) (all is_id_char mid)
      (&&-right (is_text mid) (leb (length mid) 255 && all is_id_char mid) h))

oid_chars : (oid : Str) → is_field is_oid_char oid ≡ true → all is_oid_char oid ≡ true
oid_chars oid h =
    &&-right (leb (length oid) 255) (all is_oid_char oid)
      (&&-right (is_text oid) (leb (length oid) 255 && all is_oid_char oid) h)

-- What is read where the flag is none, or is one.
check_fields-named :
    (raw smdp mid oid : Str) (field : Option Str) (flag : Option Bool)
    → IsNamed smdp mid
    → (is_text oid && not (is_field is_oid_char oid)) ≡ false
    → read_flag field ≡ inr flag
    → check_fields raw (codes "1") smdp mid oid field
      ≡ inr (record {
        code = raw;
        smdp = smdp;
        matching_id = mid;
        oid = oid;
        confirmation_code_required = flag;
      })
unfolding check_fields str_eq
check_fields-named raw smdp mid oid field flag n o f =
    rw (n.domain, n.matching, o, f, check_fields) refl

read_flag-flag_text : (b : Bool) → read_flag (some (flag_text b)) ≡ inr (some b)
unfolding read_flag str_eq
read_flag-flag_text true = refl
read_flag-flag_text false = refl

read_flag-none : read_flag none ≡ inr none
unfolding read_flag
read_flag-none = refl

read_back :
    (smdp mid oid : Str) (flag : Option Bool) (ws : List Str)
    → code_fields smdp mid oid flag ≡ codes "1" ∷ ws
    → AreFields ws
    → parse_activation_code (build_activation_code smdp mid oid flag)
      ≡ read_fields (build_activation_code smdp mid oid flag) (codes "1" ∷ ws)
unfolding build_activation_code AreFields
read_back smdp mid oid flag ws e h = rw e (parse-fields (codes "1") ws (refl, h))

accepted_oid :
    (oid : Str)
    → is_field is_oid_char oid ≡ true
    → (is_text oid && not (is_field is_oid_char oid)) ≡ false
accepted_oid [] h = refl
accepted_oid (c ∷ oid) h = ap (λ b. true && not b) h

fields_with_oid :
    (smdp mid oid : Str) (flag : Option Bool)
    → is_text oid ≡ true
    → code_fields smdp mid oid flag ≡ codes "1" ∷ smdp ∷ mid ∷ oid ∷ optional_field flag
unfolding code_fields
fields_with_oid smdp mid oid flag h =
    ap (λ b. codes "1" ∷ smdp ∷ mid ∷ ((if b then oid ∷ [] else []) ++ optional_field flag)) h

named_fields :
    (smdp mid : Str) (ws : List Str) → IsNamed smdp mid → AreFields ws → AreFields (smdp ∷ mid ∷ ws)
unfolding AreFields
named_fields smdp mid ws n h = (n.domain_chars, (matching_chars mid n.matching, h))

with_oid :
    (raw smdp mid oid : Str) (flag : Option Bool)
    → IsNamed smdp mid
    → is_field is_oid_char oid ≡ true
    → read_fields raw (codes "1" ∷ smdp ∷ mid ∷ oid ∷ optional_field flag)
      ≡ inr (record {
        code = raw;
        smdp = smdp;
        matching_id = mid;
        oid = oid;
        confirmation_code_required = flag;
      })
unfolding read_fields
with_oid raw smdp mid oid none n o =
    check_fields-named raw smdp mid oid none none n (accepted_oid oid o) read_flag-none
with_oid raw smdp mid oid (some b) n o =
    check_fields-named raw smdp mid oid (some (flag_text b)) (some b) n (accepted_oid oid o)
      (read_flag-flag_text b)

-- A code that is built from a domain name, a matching code, an object identifier and, if one is
-- given, a flag, all of which the reader takes, is read back as these four. The identifier may be
-- missing if the flag is missing too.
pub parse-build_activation_code :
    (smdp mid oid : Str) (flag : Option Bool)
    → IsNamed smdp mid
    → (is_field is_oid_char oid ≡ true) ⊎ ((oid ≡ []) × (flag ≡ none))
    → parse_activation_code (build_activation_code smdp mid oid flag)
      ≡ inr (record {
        code = build_activation_code smdp mid oid flag;
        smdp = smdp;
        matching_id = mid;
        oid = oid;
        confirmation_code_required = flag;
      })
unfolding code_fields read_fields AreFields
parse-build_activation_code smdp mid oid flag n (inl o) =
    read_back smdp mid oid flag (smdp ∷ mid ∷ oid ∷ optional_field flag)
      (fields_with_oid smdp mid oid flag (&&-left _ _ o))
      (named_fields smdp mid (oid ∷ optional_field flag) n
        (oid_chars oid o, optional_field-AreFields flag))
    ∙ with_oid (build_activation_code smdp mid oid flag) smdp mid oid flag n o
parse-build_activation_code smdp mid oid flag n (inr (o, f)) =
    rw (o, f)
      (read_back smdp mid [] none (smdp ∷ mid ∷ []) refl (named_fields smdp mid [] n tt)
        ∙ check_fields-named (build_activation_code smdp mid [] none) smdp mid [] none none n refl
            read_flag-none)

-- Without an object identifier, the flag of a built code is read as the identifier: the identifier
-- is then 0 or 1, and no flag is read.
pub parse-build_no_oid :
    (smdp mid : Str) (b : Bool)
    → IsNamed smdp mid
    → parse_activation_code (build_activation_code smdp mid [] (some b))
      ≡ inr (record {
        code = build_activation_code smdp mid [] (some b);
        smdp = smdp;
        matching_id = mid;
        oid = flag_text b;
        confirmation_code_required = none;
      })
unfolding code_fields read_fields AreFields
parse-build_no_oid smdp mid b n =
    read_back smdp mid [] (some b) (smdp ∷ mid ∷ flag_text b ∷ []) refl
      (named_fields smdp mid (flag_text b ∷ []) n (optional_field-AreFields (some b)))
    ∙ check_fields-named (build_activation_code smdp mid [] (some b)) smdp mid (flag_text b) none
        none n (digit b) read_flag-none
  where
    digit : (b : Bool) → (is_text (flag_text b) && not (is_field is_oid_char (flag_text b))) ≡ false
    digit true = refl
    digit false = refl
