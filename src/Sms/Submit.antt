-- ===== src/Sms/Submit.antt =====
-- The messages that are sent: `buildTpdu`, `buildSubmitParts` and the commands of smsEncode.js.
pub mod Parts
pub mod Stats
pub mod Delivery
pub mod Reader
use mt5700_console.Base.{
  ℕ, zero, suc, ◌+◌, ◌-◌, ◌*◌, ◌/◌, ◌%◌, ◌^◌, ◌≤◌, ◌<◌, min, max, ◌≡◌, refl, sym, ap, ap₂, ◌∙◌, ◌≢◌,
  ◌↔◌, ◌⊎◌, inl, inr, Bool, true, false, not, ◌&&◌, ◌||◌, Option, none, some, List, [], ◌∷◌, ◌++◌,
  map, append-nil, append_assoc, arith, ltb, leb, ◌==◌, if◌then◌else◌, ltb→lt, ==_iff, Bool-cases,
  Option-cases, &&-left, &&-right, some_inj, length, get_elem?, get_or, take, drop, replicate,
  flatten, all, All, length-append, take-length-append, drop-length-append, take-append-drop,
  length-take, length-drop, flatten-append, All-append, All-take, All-drop, Str, codes, str_eq,
  str_eq_iff, starts_with, index_of, hex_digit, hex_value, hex_value-hex_digit, hex2, IsByte,
  IsUnit16, is_text,
}
use mt5700_console.Sms.Gsm7.{needs_ucs2, total_septets}
use mt5700_console.Sms.UserData.{Udh, UserData, Encoding, gsm7, ucs2, build_user_data}
use mt5700_console.Sms.Chunks.{gsm7_max, ucs2_max, gsm7_chunks, ucs2_chunks}
use mt5700_console.Sms.Address.{is_digit, to_hex, pad_start, encode_address}
use mt5700_console.Sms.Address.Hex.{octets_to_hex}

-- MTI 01, the UDHI bit where there is a header, and VPF 10; the bits do not overlap.
abbrev pub first_octet : Option Udh → ℕ
first_octet none = 0x01 + 0x10
first_octet (some h) = 0x01 + 0x40 + 0x10

abbrev pub dcs_octet : Encoding → ℕ
dcs_octet gsm7 = 0x00
dcs_octet ucs2 = 0x08

-- One part before it is encoded.
pub record Planned : Type 0 where
  pub text : Str
  pub encoding : Encoding
  pub udhi : Option Udh

-- `buildTpdu`, in hexadecimal: the first octet, the message reference, the destination, the
-- protocol, the coding scheme, the validity period and the user data.
unfoldable pub tpdu_of : Str → Planned → UserData → Str
tpdu_of destination p ud =
    hex2 (first_octet p.udhi)
    ++ (hex2 0x00
        ++ (encode_address destination false
            ++ (hex2 0x00
                ++ (hex2 (dcs_octet p.encoding)
                    ++ (hex2 0xaa ++ (pad_start 2 (to_hex ud.udl) ++ octets_to_hex ud.octets))))))

unfoldable pub build_tpdu : Str → Planned → Option Str
build_tpdu destination p = elim (build_user_data p.text p.udhi p.encoding) [
  | none ↦ none
  | some ud ↦ some (tpdu_of destination p ud)
]

-- `chunks.forEach`, from the index `i` on.
unfoldable pub number_parts : Encoding → ℕ → ℕ → ℕ → List Str → List Planned
number_parts encoding ref total i [] = []
number_parts encoding ref total i (seg ∷ chunks) =
    record {
      text = seg;
      encoding = encoding;
      udhi = some (record { ref = ref; total = total; seq = i + 1 });
    }
    ∷ number_parts encoding ref total (i + 1) chunks

abbrev pub whole : Encoding → Str → List Planned
whole encoding message = record { text = message; encoding = encoding; udhi = none } ∷ []

-- The variable `parts` of `buildSubmitParts`; `ref` is the random reference number.
unfoldable pub plan_parts : Str → ℕ → List Planned
unfolding number_parts
plan_parts message ref =
    let chunks = gsm7_chunks message in
    let chunks_u = ucs2_chunks message in
    if not (needs_ucs2 message)
    then (if leb (total_septets message) gsm7_max
        then whole gsm7 message
        else number_parts gsm7 ref (length chunks) 0 chunks)
    else (if leb (length message) (ucs2_max / 2)
        then whole ucs2 message
        else number_parts ucs2 ref (length chunks_u) 0 chunks_u)

pub record SubmitPart : Type 0 where
  pub pdu : Str
  pub tpdu_length : ℕ

-- `opts.smsc ? encodeAddress(opts.smsc, true) : '00'`.
abbrev pub sca_of : Str → Str
sca_of smsc = if is_text smsc then encode_address smsc true else 48 ∷ 48 ∷ []

-- `tpduLength` is half the number of digits. A destination of 256 digits or more makes that number
-- odd, and the half in the source has a fraction, which is left out here.
abbrev pub part_of : Str → Str → SubmitPart
part_of smsc pdu = record { pdu = sca_of smsc ++ pdu; tpdu_length = length pdu / 2 }

-- The function of `parts.map`; `none` is the exception of `null.length`.
unfoldable pub submit_part : Str → Str → Planned → Option SubmitPart
submit_part destination smsc p = elim (build_tpdu destination p) [
  | none ↦ none
  | some pdu ↦ some (part_of smsc pdu)
]

unfoldable pub submit_each : Str → Str → List Planned → Option (List SubmitPart)
submit_each destination smsc [] = some []
submit_each destination smsc (p ∷ ps) = elim (submit_part destination smsc p) [
  | none ↦ none
  | some part ↦ elim (submit_each destination smsc ps) [
    | none ↦ none
    | some parts ↦ some (part ∷ parts)
  ]
]

unfoldable pub build_submit_parts : Str → Str → Str → ℕ → Option (List SubmitPart)
unfolding submit_each plan_parts
build_submit_parts destination smsc message ref =
    submit_each destination smsc (plan_parts message ref)
