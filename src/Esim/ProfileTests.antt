-- ===== src/Esim/ProfileTests.antt =====
-- A list with one profile, and the ICCID within an answer of a server.
use mt5700_console.Base.{
  ℕ, ◌≡◌, refl, ◌⊎◌, inr, true, Option, none, some, List, [], ◌∷◌, Str, codes, str_eq, hex_digit,
  hex_value, hex2,
}
use mt5700_console.Sms.Address.{swap_pairs}
use mt5700_console.Esim.Apdus.{hex_to_bytes, octet_values, bytes_to_hex}
use mt5700_console.Sms.Address.{digits_of}
use mt5700_console.Esim.Profiles.Digits.{IsIccid, iccid_from_profile_metadata-IsIccid}
use mt5700_console.Esim.Profiles.{
  encoded, iccid_from_encoded, iccid_from_profile_metadata, base64_to_hex, no_profile,
  parse_get_profiles, profiles_behind, profiles_of, profiles_in, each_profile, last_child,
  parse_profile, children_of, set_fields, set_field, swap_nibbles, tlv_find_hex, find_loop,
}
use mt5700_console.Tlv.{
  is_hex, hex_number, read_tlv_head, read_tag, read_len, head_at, parse_tlv_children,
  parse_tlv_loop, read_tlv_at, read_behind_tag, read_length, node_at,
}

abbrev keep : List ℕ → Str
keep bytes = bytes

lists_one :
    parse_get_profiles keep (codes "BF2D19A017E3155A0A980010325476981032149F7001019003616263")
    ≡ inr (record {
      profiles =
          (record no_profile {
            iccid_raw = codes "98001032547698103214";
            iccid = codes "89000123456789012341";
            is_enabled = true;
            nickname = codes "abc";
          })
          ∷ [];
      error_code = none;
    })
unfolding parse_get_profiles profiles_behind profiles_of profiles_in each_profile last_child
    parse_profile children_of set_fields set_field swap_nibbles swap_pairs hex_to_bytes octet_values
    bytes_to_hex hex_number hex_value hex2 hex_digit is_hex read_tlv_head read_tag read_len head_at
    parse_tlv_children parse_tlv_loop str_eq
lists_one = refl

-- The value is not reached at the top, but within the container.
finds_iccid : tlv_find_hex 5 (codes "5A") (codes "BF250AA0085A03980010800101") ≡ codes "980010"
unfolding tlv_find_hex find_loop read_tlv_at read_behind_tag read_length node_at hex_number
    hex_value is_hex str_eq
finds_iccid = refl

-- The browser's atob on the text `metadata`.
abbrev octets : Str → Option (List ℕ)
octets s = some (
    0xbf ∷ 0x25 ∷ 0x0c ∷ 0x5a ∷ 0x0a ∷ 0x98 ∷ 0x00 ∷ 0x10 ∷ 0x32 ∷ 0x54 ∷ 0x76 ∷ 0x98 ∷ 0x10 ∷ 0x32
    ∷ 0xf1 ∷ [])

abbrev metadata : Str
metadata = codes "vyUMWgqYABAyVHaYEDLx"

metadata_iccid : iccid_from_profile_metadata octets (encoded metadata) ≡ codes "8900012345678901231"
unfolding iccid_from_profile_metadata iccid_from_encoded base64_to_hex digits_of tlv_find_hex
    find_loop read_tlv_at read_behind_tag read_length node_at hex_number hex_value is_hex str_eq
    swap_nibbles swap_pairs bytes_to_hex hex2 hex_digit
metadata_iccid = refl

iccid_from_profile_metadata-IsIccid_example :
    (iccid_from_profile_metadata octets (encoded metadata) ≡ [])
    ⊎ IsIccid (iccid_from_profile_metadata octets (encoded metadata))
iccid_from_profile_metadata-IsIccid_example = iccid_from_profile_metadata-IsIccid octets metadata
