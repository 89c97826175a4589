-- ===== src/Sms/Tests.antt =====
-- Concrete messages, numbers and octets: what the encoder and the reader do with them.
use mt5700_console.Base.{
  ℕ, ◌+◌, ◌/◌, ◌≤◌, ◌<◌, ◌≡◌, refl, ◌≢◌, true, false, not, ◌&&◌, some, List, [], ◌∷◌, ◌++◌, map,
  arith, ltb, ◌==◌, ltb→lt, &&-left, &&-right, length, drop, replicate, flatten, all, All, Str,
  codes, starts_with, index_of, hex_value, IsUnit16,
}
use mt5700_console.Sms.Gsm7.{
  array_from, needs_ucs2, needs_ucs2_chars, total_septets, total_septets_chars, gsm7_code, ext_map,
  is_ext_char,
}
use mt5700_console.Sms.Gsm7.Texts.{IsClean}
use mt5700_console.Sms.UserData.{gsm7, Udh, UserData, build_user_data, decode_user_data}
use mt5700_console.Sms.UserData.Reads.{
  decode_user_data-build_user_data, encoding_code, has_header, header_info,
}
use mt5700_console.Sms.UserData.Bounds.{build_user_data-Fits, Fits}
use mt5700_console.Sms.Chunks.{gsm7_chunks, ucs2_chunks, message_stats}
use mt5700_console.Sms.Chunks.Gsm7Parts
use mt5700_console.Sms.Chunks.Ucs2Parts
use mt5700_console.Sms.Address.{hex_to_bytes, encode_address, decode_address, digits_of}
use mt5700_console.Sms.Address.RoundTrip.{decode_address-encode_address, address_of}
use mt5700_console.Sms.Submit.{Planned, SubmitPart, plan_parts, submit_part, build_submit_parts}
use mt5700_console.Sms.Submit.Parts.{IsPlan, plan_parts-IsPlan, texts}
use mt5700_console.Sms.Submit.Stats.{message_stats-plan_parts}
use mt5700_console.Sms.Submit.Delivery.{
  plan_parts-IsDelivered, IsDelivered, build_submit_parts_total,
}
use mt5700_console.Sms.Submit.Reader.{submit_part-read_submit, read_submit, submit_of}

abbrev hello : Str
hello = codes "Hi {1}"

abbrev hanzi : Str
hanzi = codes "你好"

abbrev second_part : Udh
second_part = record { ref = 7; total = 2; seq = 2 }

abbrev long_text : Str
long_text = replicate 100 97 ++ (123 ∷ replicate 99 98)

abbrev number : Str
number = codes "+8613800"

abbrev centre : Str
centre = codes "+8613010888500"

all_units : (s : Str) → all (λ c. ltb c 65536) s ≡ true → All IsUnit16 s
all_units [] h = tt
all_units (c ∷ s) h = (ltb→lt c 65536 (&&-left _ _ h), all_units s (&&-right _ _ h))

IsClean-text : (s : Str) → all (λ c. ltb 0 c && not (c == 27)) s ≡ true → IsClean s
IsClean-text [] h = tt
IsClean-text (c ∷ s) h = ((ground arith, ground arith), IsClean-text s (&&-right _ _ h))

hello_covered : needs_ucs2 hello ≡ false
unfolding needs_ucs2 needs_ucs2_chars array_from gsm7_code index_of starts_with ext_map
hello_covered = refl

hello_short : total_septets hello ≤ 153
unfolding total_septets total_septets_chars array_from is_ext_char ext_map
hello_short = omega arith

long_covered : needs_ucs2 long_text ≡ false
unfolding needs_ucs2 needs_ucs2_chars array_from gsm7_code index_of starts_with ext_map
long_covered = refl

has_digits : digits_of number ≢ []
unfolding digits_of
has_digits e = cc

few_digits : length (digits_of number) < 256
unfolding digits_of
few_digits = omega arith

centre_few : length (digits_of centre) < 256
unfolding digits_of
centre_few = omega arith

zero_octet : hex_to_bytes (codes "00") ≡ some (0 ∷ [])
unfolding hex_to_bytes hex_value
zero_octet = refl

decode_user_data-build_user_data_example :
    (ud : UserData) × (build_user_data hello (some second_part) gsm7 ≡ some ud)
    × (decode_user_data (has_header (some second_part)) (encoding_code gsm7) ud.udl ud.octets
        ≡ (hello, header_info (some second_part)))
decode_user_data-build_user_data_example =
    decode_user_data-build_user_data hello (some second_part) gsm7
      (IsClean-text hello refl, hello_covered)

build_user_data-Fits_example :
    (ud : UserData) × (build_user_data hello (some second_part) gsm7 ≡ some ud) × Fits ud
build_user_data-Fits_example =
    build_user_data-Fits hello (some second_part) gsm7 (hello_covered, hello_short)

gsm7_chunks-Splits_example :
    All Gsm7Parts.IsPart (gsm7_chunks long_text) × (flatten (gsm7_chunks long_text) ≡ long_text)
gsm7_chunks-Splits_example = Gsm7Parts.gsm7_chunks-Splits long_text long_covered

ucs2_chunks-Splits_example :
    All Ucs2Parts.IsPart (ucs2_chunks hanzi)
    × (flatten (ucs2_chunks hanzi) ≡ hanzi)
    × (flatten (map array_from (ucs2_chunks hanzi)) ≡ array_from hanzi)
ucs2_chunks-Splits_example = Ucs2Parts.ucs2_chunks-Splits hanzi

decode_address-encode_address_example :
    (len toa : ℕ) × (body : List ℕ) × (hex_to_bytes (encode_address number false ++ codes "00")
      ≡ some (len ∷ toa ∷ (body ++ (0 ∷ []))))
    × (length body ≡ (len + 1) / 2)
    × (decode_address len toa (body ++ (0 ∷ [])) ≡ address_of number)
decode_address-encode_address_example =
    decode_address-encode_address number (codes "00") (0 ∷ []) has_digits few_digits zero_octet

plan_parts-IsPlan_example : IsPlan long_text 9 (plan_parts long_text 9)
plan_parts-IsPlan_example = plan_parts-IsPlan long_text 9

message_stats-plan_parts_example :
    ((message_stats long_text).parts ≡ length (plan_parts long_text 9))
    × All (λ p. p.encoding ≡ (message_stats long_text).encoding) (plan_parts long_text 9)
message_stats-plan_parts_example = message_stats-plan_parts long_text 9 (λ e. cc)

plan_parts-IsDelivered_example :
    All IsDelivered (plan_parts long_text 9)
    × (flatten (texts (plan_parts long_text 9)) ≡ long_text)
plan_parts-IsDelivered_example =
    plan_parts-IsDelivered long_text 9 (all_units long_text refl, λ e. IsClean-text long_text refl)

build_submit_parts_total_example :
    (parts : List SubmitPart) × (build_submit_parts number centre long_text 9 ≡ some parts)
    × (length parts ≡ length (plan_parts long_text 9))
build_submit_parts_total_example = build_submit_parts_total number centre long_text 9

abbrev planned : Planned
planned = record { text = hello; encoding = gsm7; udhi = some second_part }

submit_part-read_submit_example :
    (ud : UserData) × (part : SubmitPart) × (len : ℕ) × (behind : List ℕ) × (build_user_data hello
        (some second_part)
        gsm7
      ≡ some ud)
    × (submit_part number centre planned ≡ some part)
    × (hex_to_bytes part.pdu ≡ some (len ∷ behind))
    × (read_submit (drop len behind) ≡ some (submit_of number planned ud))
    × (length (drop len behind) ≡ part.tpdu_length)
submit_part-read_submit_example =
    submit_part-read_submit number centre planned has_digits few_digits centre_few
      (hello_covered, hello_short)
