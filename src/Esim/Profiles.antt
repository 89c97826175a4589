-- ===== src/Esim/Profiles.antt =====
-- The profiles of a card: `parseGetProfiles`, `parseProfile`, `swapNibbles`, and the ICCID in the
-- answers of a server: `tlvFindHex`, `normalizeIccid`, `iccidFromProfileMetadata` of euicc.js.
pub mod Digits
use mt5700_console.Base.{
  ℕ, zero, suc, ◌-◌, ◌*◌, ◌/◌, ◌%◌, ◌⊎◌, inl, inr, Bool, false, not, ◌&&◌, ◌||◌, Option, none, some,
  List, [], ◌∷◌, map, ltb, leb, ◌==◌, if◌then◌else◌, length, get_elem?, get_or, take, drop, all,
  Str, codes, str_eq, is_text,
}
use mt5700_console.Cache.{trim, is_space}
use mt5700_console.Sms.Address.{is_digit, digits_of, swap_pairs}
use mt5700_console.Esim.{Code, bad_hex, bad_apdu, tlv_truncated, unsupported_tag, op_failed}
use mt5700_console.Esim.Apdus.{upper_digit, hex_to_bytes, bytes_to_hex, octet_values}
use mt5700_console.Tlv as Octets
use mt5700_console.Tlv.{
  TlvError, Head, Node, is_hex, read_tlv_head, parse_tlv_children, read_tlv_at, number_at,
}

unfoldable pub tlv_code : TlvError → Code
tlv_code Octets.truncated = tlv_truncated
tlv_code Octets.unsupported_tag = unsupported_tag
tlv_code Octets.bad_apdu = bad_apdu
tlv_code Octets.bad_hex = bad_hex

-- `swapNibbles`; `isHex` refuses an odd length as well.
unfoldable pub swap_nibbles : Str → Code ⊎ Str
swap_nibbles hex = if is_hex hex then inr (map upper_digit (swap_pairs hex)) else inl bad_hex

pub record Profile : Type 0 where
  pub iccid : Str
  pub iccid_raw : Str
  pub aid : Str
  pub is_enabled : Bool
  pub nickname : Str
  pub sp_name : Str
  pub profile_name : Str
  pub profile_class : Option ℕ

abbrev pub no_profile : Profile
no_profile = record {
  iccid = [];
  iccid_raw = [];
  aid = [];
  is_enabled = false;
  nickname = [];
  sp_name = [];
  profile_name = [];
  profile_class = none;
}

-- `TAG_FIELD`; `decode` is `utf8FromBytes`, where the browser has a TextDecoder.
unfoldable pub set_field : (List ℕ → Str) → Str → List ℕ → Profile → Code ⊎ Profile
set_field decode tag v p =
    if str_eq tag (codes "5A")
    then elim (swap_nibbles (bytes_to_hex v)) [
      | inl e ↦ inl e
      | inr s ↦ inr (record p { iccid_raw = bytes_to_hex v; iccid = s })
    ]
    else if str_eq tag (codes "4F")
    then inr (record p { aid = bytes_to_hex v })
    else if str_eq tag (codes "9F70")
    then inr (record p { is_enabled = get_or v 0 0 == 1 })
    else if str_eq tag (codes "90")
    then inr (record p { nickname = decode v })
    else if str_eq tag (codes "91")
    then inr (record p { sp_name = decode v })
    else if str_eq tag (codes "92")
    then inr (record p { profile_name = decode v })
    else if str_eq tag (codes "95")
    then inr (record p { profile_class = get_elem? v 0 })
    else inr p

unfoldable pub set_fields : (List ℕ → Str) → List (Str × List ℕ) → Profile → Code ⊎ Profile
set_fields decode [] p = inr p
set_fields decode ((tag, v) ∷ fields) p = elim (set_field decode tag v p) [
  | inl e ↦ inl e
  | inr q ↦ set_fields decode fields q
]

unfoldable pub children_of : List ℕ → Code ⊎ List (Str × List ℕ)
children_of bytes = elim (parse_tlv_children bytes) [ inl e ↦ inl (tlv_code e) | inr c ↦ inr c ]

unfoldable pub parse_profile : (List ℕ → Str) → List ℕ → Code ⊎ Profile
parse_profile decode value = elim (children_of value) [
  | inl e ↦ inl e
  | inr fields ↦ set_fields decode fields no_profile
]

-- The value of the last child with a tag.
unfoldable pub last_child : Str → List (Str × List ℕ) → Option (List ℕ)
last_child tag [] = none
last_child tag ((name, v) ∷ rest) = elim (last_child tag rest) [
  | some w ↦ some w
  | none ↦ if str_eq name tag then some v else none
]

unfoldable pub each_profile : (List ℕ → Str) → List (Str × List ℕ) → Code ⊎ List Profile
each_profile decode [] = inr []
each_profile decode ((tag, v) ∷ rest) =
    let others = each_profile decode rest in
    if not (str_eq tag (codes "E3")) then others else elim (parse_profile decode v) [
      | inl e ↦ inl e
      | inr p ↦ elim others [ inl e ↦ inl e | inr ps ↦ inr (p ∷ ps) ]
    ]

-- `{ list, errorCode }`.
pub record ProfileList : Type 0 where
  pub profiles : List Profile
  pub error_code : Option ℕ

unfoldable pub profiles_in : (List ℕ → Str) → List (Str × List ℕ) → Option ℕ → Code ⊎ ProfileList
profiles_in decode children code = elim (last_child (codes "A0") children) [
  | none ↦ inr (record { profiles = []; error_code = code })
  | some a0 ↦ elim (children_of a0) [
    | inl e ↦ inl e
    | inr found ↦ elim (each_profile decode found) [
      | inl e ↦ inl e
      | inr ps ↦ inr (record { profiles = ps; error_code = code })
    ]
  ]
]

abbrev pub is_refusal : Option ℕ → Bool
is_refusal none = false
is_refusal (some n) = n == 1 || n == 127

abbrev pub refusal_code : Option (List ℕ) → Option ℕ
refusal_code none = none
refusal_code (some v) = get_elem? v 0

unfoldable pub profiles_of : (List ℕ → Str) → List (Str × List ℕ) → Code ⊎ ProfileList
profiles_of decode children =
    let code = refusal_code (last_child (codes "81") children) in
    if is_refusal code then inl op_failed else profiles_in decode children code

unfoldable pub no_profiles : Code ⊎ ProfileList
no_profiles = inr (record { profiles = []; error_code = none })

-- Behind the root, which has to be BF2D.
unfoldable pub profiles_behind : (List ℕ → Str) → List ℕ → Head → Code ⊎ ProfileList
profiles_behind decode bytes root =
    if not (str_eq root.tag (codes "BF2D"))
    then no_profiles
    else elim (children_of
        (take (root.value_end - root.value_start) (drop root.value_start bytes))) [
          | inl e ↦ inl e
          | inr children ↦ profiles_of decode children
        ]

unfoldable pub parse_get_profiles : (List ℕ → Str) → Str → Code ⊎ ProfileList
parse_get_profiles decode content =
    if not (is_text content) then no_profiles else elim (hex_to_bytes content) [
      | inl e ↦ inl e
      | inr bytes ↦ elim (read_tlv_head bytes 0) [
        | inl e ↦ inl (tlv_code e)
        | inr root ↦ elim root [ none ↦ no_profiles | some h ↦ profiles_behind decode bytes h ]
      ]
    ]

-- `iccidKey`.
unfoldable pub iccid_key : Str → Str
iccid_key s = take 19 (digits_of s)

-- The loop of `tlvFindHex` on one level, from a digit on; each element has four digits at least.
-- `inner` searches a value one level down. The elements are read as `readTlvAt` reads them.
unfoldable pub find_loop : (Str → Str) → Str → Str → ℕ → ℕ → Str
find_loop inner want hex zero i = []
find_loop inner want hex (suc fuel) i = elim (read_tlv_at hex i) [
  | none ↦ []
  | some n ↦
      let value = take (2 * n.value_len) (drop n.value_start hex) in
      let rest = find_loop inner want hex fuel n.stop in
      let sub = inner value in
      if str_eq n.tag want
      then value
      else if number_at hex i 2 / 32 % 2 == 1 && is_text sub
      then sub
      else rest
]

-- `tlvFindHex`, with so many levels left; it starts with 5.
unfoldable pub tlv_find_hex : ℕ → Str → Str → Str
tlv_find_hex zero want hex = []
tlv_find_hex (suc levels) want hex =
    let found = find_loop (tlv_find_hex levels want) want hex (length hex) 0 in
    if not (is_hex hex) || ltb (length hex) 4 then [] else found

abbrev pub text_or_nothing : Code ⊎ Str → Str
text_or_nothing (inl e) = []
text_or_nothing (inr s) = s

-- `base64ToHex`; `atob` is that of the browser, and none where it throws.
unfoldable pub base64_to_hex : (Str → Option (List ℕ)) → Str → Option Str
base64_to_hex atob b64 = elim (atob (without_space b64)) [
  | none ↦ none
  | some bytes ↦ some (bytes_to_hex bytes)
]
  where
    without_space : Str → Str
    without_space [] = []
    without_space (c ∷ s) = let rest = without_space s in if is_space c then rest else c ∷ rest

-- The octets as characters, where all of them are decimal digits.
unfoldable pub ascii_digits : List ℕ → Str
ascii_digits bytes = if all is_digit bytes then bytes else []

unfoldable pub normalize_iccid : (Str → Option (List ℕ)) → Str → Str
normalize_iccid atob v =
    let s = trim v in
    let hex = elim (base64_to_hex atob s) as (λ x. Str) [ none ↦ [] | some h ↦ h ] in
    let ascii = ascii_digits (octet_values hex) in
    if not (is_text s)
    then []
    else if all is_digit s && (leb 18 (length s) && leb (length s) 20)
    then s
    else if not (is_hex hex)
    then []
    else if is_text ascii
    then ascii
    else if length hex == 20
    then text_or_nothing (swap_nibbles hex)
    else []

-- `profileMetadata` of a server: a string, or an object with its `iccid`, or what is neither.
pub data Metadata : Type 0 where
  missing : Metadata
  encoded : Str → Metadata
  fields : Str → Metadata

-- The part of `iccidFromProfileMetadata` on a string.
unfoldable pub iccid_from_encoded : (Str → Option (List ℕ)) → Str → Str
iccid_from_encoded atob pm = elim (base64_to_hex atob pm) [
  | none ↦ []
  | some hex ↦
      let v = tlv_find_hex 5 (codes "5A") hex in
      let s = digits_of (text_or_nothing (swap_nibbles v)) in
      if not (is_text v) || ltb (length s) 18 then [] else take 20 s
]

unfoldable pub iccid_from_profile_metadata : (Str → Option (List ℕ)) → Metadata → Str
unfolding iccid_from_encoded
iccid_from_profile_metadata atob missing = []
iccid_from_profile_metadata atob (encoded pm) =
    if not (is_text pm) then [] else iccid_from_encoded atob pm
iccid_from_profile_metadata atob (fields iccid) = normalize_iccid atob iccid
