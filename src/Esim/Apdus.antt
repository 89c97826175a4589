-- ===== src/Esim/Apdus.antt =====
-- The commands that go to the card: `hexToBytes`, `bytesToHex`, `csimCommand`, `cglaCommand`, and
-- the APDUs of channels, profiles and responses.

use mt5700_console.Base.{
  ℕ, ◌+◌, ◌-◌, ◌/◌, ◌%◌, ◌⊎◌, inl, inr, Bool, not, ◌&&◌, ◌||◌, List, [], ◌∷◌, ◌++◌, map, ltb, leb,
  ◌==◌, if◌then◌else◌, length, take, flatten, Str, codes, str_eq, hex2,
}
use mt5700_console.Esim.{Code, bad_hex, bad_apdu, Transport, csim, cgla}
use mt5700_console.Tlv.{is_hex, hex_number}
use mt5700_console.Cache.{includes}
use mt5700_console.Sms.Commands.{decimal}

-- `toUpperCase` on hexadecimal digits.
abbrev pub upper_digit : ℕ → ℕ
upper_digit c = if leb 97 c && leb c 122 then c - 32 else c

unfoldable pub octet_values : Str → List ℕ
octet_values [] = []
octet_values (a ∷ []) = []
octet_values (a ∷ b ∷ s) = hex_number 0 (a ∷ b ∷ []) ∷ octet_values s

unfoldable pub hex_to_bytes : Str → Code ⊎ List ℕ
hex_to_bytes hex = if is_hex hex then inr (octet_values hex) else inl bad_hex

unfoldable pub bytes_to_hex : List ℕ → Str
bytes_to_hex [] = []
bytes_to_hex (b ∷ bs) = hex2 (b % 256) ++ bytes_to_hex bs

-- A command with an APDU in quotes, behind the front that the transport has.
unfoldable pub quoted_command : Str → Str → Code ⊎ Str
quoted_command front apdu =
    if not (is_hex apdu)
    then inl bad_apdu
    else if ltb (length apdu) 4 || ltb 520 (length apdu)
    then inl bad_apdu
    else inr
        (front ++ (decimal (length apdu) ++ (codes ",\"" ++ (map upper_digit apdu ++ codes "\""))))

unfoldable pub csim_command : Str → Code ⊎ Str
unfolding quoted_command
csim_command apdu = quoted_command (codes "AT+CSIM=") apdu

unfoldable pub cgla_command : Str → Code ⊎ Str
unfolding quoted_command
cgla_command apdu = quoted_command (codes "AT+CGLA=0,") apdu

unfoldable pub apdu_command : Transport → Str → Code ⊎ Str
unfolding csim_command cgla_command
apdu_command csim apdu = csim_command apdu
apdu_command cgla apdu = cgla_command apdu

abbrev pub isdr_aid : Str
isdr_aid = codes "A0000005591010FFFFFFFF8900000100"

unfoldable pub open_channel_apdu : Str
open_channel_apdu = codes "0070000001"

unfoldable pub close_channel_apdu : ℕ → Str
close_channel_apdu ch = codes "007080" ++ (hex2 (ch % 256) ++ codes "00")

unfoldable pub select_isdr_apdu : ℕ → Str
select_isdr_apdu ch = hex2 (ch % 256) ++ (codes "A4040C10" ++ isdr_aid)

-- `p1` and `p2` are 0x91 and 0 where the options do not say otherwise.
unfoldable pub store_data_apdu : ℕ → List ℕ → ℕ → ℕ → Str
store_data_apdu ch tlv p1 p2 =
    bytes_to_hex ((128 + ch % 16) ∷ 0xe2 ∷ p1 ∷ p2 ∷ [])
    ++ (hex2 (length tlv % 256) ++ bytes_to_hex tlv)

unfoldable pub get_response_apdu : ℕ → ℕ → Str
get_response_apdu ch le =
    bytes_to_hex ((128 + ch % 16) ∷ 0xc0 ∷ 0 ∷ 0 ∷ [])
    ++ (if le == 0 then codes "00" else hex2 (le % 256))

-- `storeDataApdu(ch, hexToBytes(payload))`.
unfoldable pub store_data_of : ℕ → Str → Code ⊎ Str
store_data_of ch payload = elim (hex_to_bytes payload) [
  | inl e ↦ inl e
  | inr tlv ↦ inr (store_data_apdu ch tlv 0x91 0)
]

unfoldable pub build_get_eid : ℕ → Code ⊎ Str
build_get_eid ch = store_data_of ch (codes "BF3E035C015A")

abbrev pub default_tags : List Str
default_tags = codes "5A" ∷ codes "4F" ∷ codes "9F70" ∷ codes "90" ∷ codes "91" ∷ []

unfoldable pub build_get_profiles : ℕ → List Str → Code ⊎ Str
build_get_profiles ch tags =
    let t = if ltb 0 (length tags) then take 5 tags else default_tags in
    store_data_of ch (
      codes "BF2D"
      ++ (hex2 ((2 + length (flatten t) / 2) % 256)
          ++ (codes "5C" ++ (hex2 (length t % 256) ++ flatten t))))

-- How a profile is named: `kind` and `hex`.
pub record Ident : Type 0 where
  pub kind : Str
  pub hex : Str

abbrev pub is_iccid : Ident → Bool
is_iccid i = str_eq i.kind (codes "iccid")

unfoldable pub operation_tag : Str → Str
operation_tag op =
    if str_eq op (codes "enable")
    then codes "BF31"
    else if str_eq op (codes "disable")
    then codes "BF32"
    else codes "BF33"

unfoldable pub operation_body : Str → Ident → Bool → Str
operation_body op ident refresh =
    let id_tag = (if is_iccid ident then codes "5A0A" else codes "4F10") ++ ident.hex in
    if str_eq op (codes "delete")
    then id_tag
    else codes "A0"
      ++ (hex2 ((length id_tag / 2) % 256)
          ++ (id_tag ++ (codes "8101" ++ (if refresh then codes "FF" else codes "00"))))

unfoldable pub build_profile_operation : ℕ → Str → Ident → Bool → Code ⊎ Str
unfolding operation_tag operation_body
build_profile_operation ch op ident refresh =
    let body = operation_body op ident refresh in
    if not (includes (codes "enable" ∷ codes "disable" ∷ codes "delete" ∷ []) op)
    then inl bad_apdu
    else if not (is_hex ident.hex)
    then inl bad_apdu
    else if not (length ident.hex == (if is_iccid ident then 20 else 32))
    then inl bad_apdu
    else store_data_of ch (operation_tag op ++ (hex2 ((length body / 2) % 256) ++ body))
