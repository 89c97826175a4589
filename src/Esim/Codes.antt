-- ===== src/Esim/Codes.antt =====
-- Activation codes: `isFqdn`, `normalizeActivationCode`, `parseActivationCode` and
-- `buildActivationCode` of euicc.js.
pub mod Plain
pub mod RoundTrip
use mt5700_console.Base.{
  ℕ, zero, suc, ◌+◌, ◌-◌, ◌*◌, ◌/◌, ◌%◌, ◌^◌, ◌≤◌, ◌<◌, min, max, ◌≡◌, refl, sym, ap, ap₂, ◌∙◌, ◌≢◌,
  ◌↔◌, ◌⊎◌, inl, inr, Bool, true, false, not, ◌&&◌, ◌||◌, Option, none, some, List, [], ◌∷◌, ◌++◌,
  map, append-nil, append_assoc, arith, ltb, leb, ◌==◌, if◌then◌else◌, ltb→lt, ==_iff, Bool-cases,
  Option-cases, Sum-cases, inr_inj, &&-left, &&-right, some_inj, length, get_elem?, get_or, take,
  drop, replicate, flatten, all, All, length-append, take-length-append, drop-length-append,
  take-append-drop, length-take, length-drop, flatten-append, All-append, All-take, All-drop, Str,
  codes, str_eq, str_eq_iff, starts_with, index_of, hex_digit, hex_value, hex_value-hex_digit, hex2,
  IsByte, IsUnit16, is_text,
}
use mt5700_console.Cache.{trim, last_char}

unfoldable pub put_first : ℕ → List Str → List Str
put_first c [] = (c ∷ []) ∷ []
put_first c (w ∷ ws) = (c ∷ w) ∷ ws

-- `s.split(sep)` at a character.
unfoldable pub split_on : ℕ → Str → List Str
split_on sep [] = [] ∷ []
split_on sep (c ∷ s) = let rest = split_on sep s in if c == sep then [] ∷ rest else put_first c rest

-- `fields.join(sep)`, with a character.
unfoldable pub join_on : ℕ → List Str → Str
join_on sep [] = []
join_on sep (w ∷ []) = w
join_on sep (w ∷ v ∷ ws) = w ++ (sep ∷ join_on sep (v ∷ ws))

-- `[A-Za-z0-9]`.
abbrev pub is_alphanumeric : ℕ → Bool
is_alphanumeric c = (leb 48 c && leb c 57) || ((leb 65 c && leb c 90) || (leb 97 c && leb c 122))

-- `[A-Za-z0-9-]`.
abbrev pub is_id_char : ℕ → Bool
is_id_char c = is_alphanumeric c || c == 45

-- `[0-9A-Za-z.\-]`.
abbrev pub is_oid_char : ℕ → Bool
is_oid_char c = is_id_char c || c == 46

unfoldable pub is_label : Str → Bool
is_label [] = false
is_label (c ∷ s) =
    leb (length (c ∷ s)) 63
    && (is_alphanumeric c && (is_alphanumeric (last_char s c) && all is_id_char (c ∷ s)))

-- Without the dot at the end, where there is one.
unfoldable pub without_dot : Str → Str
without_dot s = if last_char s 0 == 46 then take (length s - 1) s else s

abbrev pub lower : ℕ → ℕ
lower c = if leb 65 c && leb c 90 then c + 32 else c

unfoldable pub is_fqdn : Str → Bool
is_fqdn v =
    let s = without_dot (trim v) in
    let labels = split_on 46 s in
    if ltb (length s) 4 || ltb 253 (length s)
    then false
    else if all (λ c. (leb 48 c && leb c 57) || c == 46) s
    then false
    else if not (all (λ c. not (c == 58)) s)
    then false
    else if str_eq (map lower s) (codes "localhost")
    then false
    else leb 2 (length labels) && all is_label labels

-- `[\r\n\t\v\f ]`.
abbrev pub is_blank : ℕ → Bool
is_blank c = (leb 9 c && leb c 13) || c == 32

-- The quotes that are taken off.
abbrev pub is_quote : ℕ → Bool
is_quote c =
    c == 34
    || (c == 39 || (c == 0x201c || (c == 0x201d || (c == 0x2018 || (c == 0x2019 || c == 96)))))

unfoldable pub without_blanks : Str → Str
without_blanks [] = []
without_blanks (c ∷ s) = let rest = without_blanks s in if is_blank c then rest else c ∷ rest

unfoldable pub strip_quotes : Str → Str
strip_quotes [] = []
strip_quotes (c ∷ s) = if is_quote c then strip_quotes s else c ∷ s

unfoldable pub strip_quotes_end : Str → Str
strip_quotes_end [] = []
strip_quotes_end (c ∷ s) =
    let rest = strip_quotes_end s in if is_quote c && not (is_text rest) then [] else c ∷ rest

unfoldable pub normalize_activation_code : Str → Str
normalize_activation_code text = strip_quotes_end (strip_quotes (without_blanks text))

-- Which part of a code is at fault.
pub data CodeError : Type 0 where
  no_code bad_shape bad_version bad_smdp bad_matching_id bad_oid bad_flag : CodeError

pub record ActivationCode : Type 0 where
  pub code : Str
  pub smdp : Str
  pub matching_id : Str
  pub oid : Str
  pub confirmation_code_required : Option Bool

-- `/^[...]{1,255}$/`.
abbrev pub is_field : (ℕ → Bool) → Str → Bool
is_field p s = is_text s && (leb (length s) 255 && all p s)

unfoldable pub read_flag : Option Str → CodeError ⊎ Option Bool
read_flag none = inr none
read_flag (some f) =
    if str_eq f (codes "0")
    then inr (some false)
    else if str_eq f (codes "1")
    then inr (some true)
    else inl bad_flag

unfoldable pub check_fields : Str → Str → Str → Str → Str → Option Str → CodeError ⊎ ActivationCode
check_fields raw version smdp mid oid flag =
    if not (str_eq version (codes "1"))
    then inl bad_version
    else if not (is_fqdn smdp)
    then inl bad_smdp
    else if not (is_field is_id_char mid)
    then inl bad_matching_id
    else if is_text oid && not (is_field is_oid_char oid)
    then inl bad_oid
    else elim (read_flag flag) [
      | inl e ↦ inl e
      | inr required ↦ inr (record {
        code = raw;
        smdp = smdp;
        matching_id = mid;
        oid = oid;
        confirmation_code_required = required;
      })
    ]

-- Three to five fields.
unfoldable pub read_fields : Str → List Str → CodeError ⊎ ActivationCode
read_fields raw (v ∷ s ∷ m ∷ []) = check_fields raw v s m [] none
read_fields raw (v ∷ s ∷ m ∷ o ∷ []) = check_fields raw v s m o none
read_fields raw (v ∷ s ∷ m ∷ o ∷ f ∷ []) = check_fields raw v s m o (some f)
read_fields raw _ = inl bad_shape

unfoldable pub without_lpa : Str → Str
without_lpa raw = if starts_with (codes "lpa:") (map lower raw) then drop 4 raw else raw

unfoldable pub parse_activation_code : Str → CodeError ⊎ ActivationCode
parse_activation_code text =
    let raw = normalize_activation_code text in
    if is_text raw then read_fields raw (split_on 36 (without_lpa raw)) else inl no_code

abbrev pub flag_text : Bool → Str
flag_text b = if b then codes "1" else codes "0"

abbrev pub optional_field : Option Bool → List Str
optional_field none = []
optional_field (some b) = flag_text b ∷ []

unfoldable pub code_fields : Str → Str → Str → Option Bool → List Str
code_fields smdp mid oid flag =
    codes "1" ∷ smdp ∷ mid ∷ ((if is_text oid then oid ∷ [] else []) ++ optional_field flag)

unfoldable pub build_activation_code : Str → Str → Str → Option Bool → Str
build_activation_code smdp mid oid flag = codes "LPA:" ++ join_on 36 (code_fields smdp mid oid flag)
