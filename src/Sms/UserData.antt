-- ===== src/Sms/UserData.antt =====
-- TP-UD: `buildUserData` of smsEncode.js, and the part of `decodeIncomingPdu` of parse.js that
-- reads it back.
pub mod Header
pub mod Reads
pub mod Bounds
use mt5700_console.Base.{
  ℕ, zero, suc, ◌+◌, ◌-◌, ◌*◌, ◌/◌, ◌%◌, ◌^◌, ◌≤◌, ◌<◌, min, max, ◌≡◌, refl, sym, ap, ap₂, ◌∙◌, ◌≢◌,
  ◌↔◌, ◌⊎◌, inl, inr, Bool, true, false, not, ◌&&◌, ◌||◌, Option, none, some, List, [], ◌∷◌, ◌++◌,
  map, append-nil, append_assoc, arith, ltb, leb, ◌==◌, if◌then◌else◌, ltb→lt, ==_iff, Bool-cases,
  Option-cases, &&-left, &&-right, some_inj, length, get_elem?, get_or, take, drop, replicate,
  flatten, all, All, length-append, take-length-append, drop-length-append, take-append-drop,
  length-take, length-drop, flatten-append, All-append, All-take, All-drop, Str, codes, str_eq,
  str_eq_iff, starts_with, index_of, hex_digit, hex_value, hex_value-hex_digit, hex2, IsByte,
  IsUnit16, is_text,
}
use mt5700_console.Base.Bits.{bits_of}
use mt5700_console.Sms.Gsm7.{array_from, total_septets, septets_to_string}
use mt5700_console.Sms.Septets.{push_bits, pack_septets, bits_to_octets, unpack_septets}

pub data Encoding : Type 0 where
  gsm7 ucs2 : Encoding

-- The concatenation header of one part.
pub record Udh : Type 0 where
  pub ref : ℕ
  pub total : ℕ
  pub seq : ℕ

pub record UserData : Type 0 where
  pub octets : List ℕ
  pub udl : ℕ

abbrev pub concat_header : Option Udh → List ℕ
concat_header none = []
concat_header (some h) = 0x05 ∷ 0x00 ∷ 0x03 ∷ h.ref % 256 ∷ h.total % 256 ∷ h.seq % 256 ∷ []

unfoldable pub push_octets : List ℕ → List ℕ → List ℕ
push_octets bits [] = bits
push_octets bits (b ∷ bs) = push_octets (push_bits bits b 8) bs

-- `while (bits.length % 7 !== 0) bits.push(0)`; seven rounds are always enough.
unfoldable pub pad_septet : ℕ → List ℕ → List ℕ
pad_septet zero bits = bits
pad_septet (suc fuel) bits = elim (length bits % 7 == 0) [
  | true ↦ bits
  | false ↦ pad_septet fuel (bits ++ (0 ∷ []))
]

abbrev pub header_bits : Option Udh → List ℕ
header_bits none = []
header_bits (some h) = pad_septet 7 (push_octets [] (concat_header (some h)))

unfoldable pub ucs2_bytes : Str → List ℕ
ucs2_bytes [] = []
ucs2_bytes (c ∷ s) = c / 256 % 256 ∷ c % 256 ∷ ucs2_bytes s

-- `none` is the `return null` for a text that the GSM alphabet does not cover.
unfoldable pub build_user_data : Str → Option Udh → Encoding → Option UserData
build_user_data message udhi ucs2 =
    let bytes = concat_header udhi ++ ucs2_bytes message in
    some (record { octets = bytes; udl = length bytes })
build_user_data message udhi gsm7 = elim (pack_septets (array_from message)) [
  | none ↦ none
  | some packed ↦ some (record {
    octets = bits_to_octets (header_bits udhi ++ packed);
    udl = (length (concat_header udhi) * 8 + 6) / 7 + total_septets message;
  })
]

-- `{ reference, parts_count, part_number }`.
pub record Partial : Type 0 where
  pub reference : ℕ
  pub parts_count : ℕ
  pub part_number : ℕ

-- The variables `partial` and `wapPort`.
pub record HeaderInfo : Type 0 where
  pub partial : Option Partial
  pub wap_port : Option ℕ

abbrev pub no_info : HeaderInfo
no_info = record { partial = none; wap_port = none }

abbrev byte_at : List ℕ → ℕ → ℕ
byte_at d i = get_or d i 0

-- The table `UDH_IEI` with its test `iel >= need`; another element changes nothing.
unfoldable pub take_element : ℕ → ℕ → List ℕ → HeaderInfo → HeaderInfo
take_element iei iel d info =
    if iei == 0x00 && leb 3 iel
    then record info {
      partial = some (record {
        reference = byte_at d 0;
        parts_count = byte_at d 1;
        part_number = byte_at d 2;
      });
    }
    else if iei == 0x08 && leb 4 iel
    then record info {
      partial = some (record {
        reference = byte_at d 0 * 256 + byte_at d 1;
        parts_count = byte_at d 2;
        part_number = byte_at d 3;
      });
    }
    else if iei == 0x05 && leb 2 iel
    then record info { wap_port = some (byte_at d 0 * 256 + byte_at d 1) }
    else info

-- The loop over the header's elements, on `hdr.slice(p)`. Each round takes two bytes at least.
unfoldable pub read_header : ℕ → List ℕ → HeaderInfo → HeaderInfo
unfolding take_element
read_header zero hdr info = info
read_header (suc fuel) (iei ∷ iel ∷ rest) info =
    let next = read_header fuel (drop iel rest) (take_element iei iel (take iel rest) info) in
    if ltb (length rest) iel then info else next
read_header (suc fuel) hdr info = info

unfoldable pub decode_ucs2_bytes : List ℕ → Str
decode_ucs2_bytes (a ∷ b ∷ r) = (a * 256 + b) ∷ decode_ucs2_bytes r
decode_ucs2_bytes _ = []

abbrev pub mms_notice : Str
mms_notice = codes "[彩信通知] 本机不支持彩信，请用手机查看该条内容"

abbrev is_mms_port : Option ℕ → Bool
is_mms_port none = false
is_mms_port (some p) = p == 2948 || p == 2949

-- The seven-bit branch: the header's septets are skipped after unpacking.
unfoldable pub decode_gsm7 : ℕ → ℕ → List ℕ → Str
decode_gsm7 udh_septets udl ud =
    let septets = unpack_septets ud (max udl udh_septets) in
    if leb udh_septets (length septets) then septets_to_string (drop udh_septets septets) else []

-- The content and the header of a user data field. The flag is the UDHI bit of the first octet,
-- `enc` is what `dcsEncoding` says.
unfoldable pub decode_user_data : Bool → ℕ → ℕ → List ℕ → Str × HeaderInfo
unfolding read_header decode_ucs2_bytes decode_gsm7
decode_user_data udhi enc udl ud =
    let has_header = udhi && is_text ud in
    let header_len = get_or ud 0 0 in
    let hdr = take header_len (drop 1 ud) in
    let info = if has_header then read_header (length hdr) hdr no_info else no_info in
    let user_data = if has_header then drop (1 + header_len) ud else ud in
    let udh_septets = if has_header then ((header_len + 1) * 8 + 6) / 7 else 0 in
    let content =
      if enc == 2
      then decode_ucs2_bytes user_data
      else if enc == 1
      then (if is_mms_port info.wap_port then mms_notice else user_data)
      else decode_gsm7 udh_septets udl ud in
    (content, info)
