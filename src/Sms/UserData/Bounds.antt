-- ===== src/Sms/UserData/Bounds.antt =====
-- The size of a user data field: 140 octets at most, and 160 septets.
use mt5700_console.Base.{
  ℕ, ◌+◌, ◌*◌, ◌/◌, ◌≤◌, ◌≡◌, refl, ◌∙◌, false, Option, none, some, List, [], ◌∷◌, ◌++◌, arith,
  length, All, length-append, All-append, Str, IsByte,
}
use mt5700_console.Base.Bits.{IsBit}
use mt5700_console.Sms.Septets.{bits_to_octets}
use mt5700_console.Sms.Septets.Stream.{
  stream, stream-IsBit, length-bits_to_octets, length-stream, bits_to_octets-IsByte,
}
use mt5700_console.Sms.Gsm7.{array_from, needs_ucs2, total_septets}
use mt5700_console.Sms.Gsm7.Texts.{septets_of, length-septets_of}
use mt5700_console.Sms.UserData.{
  Udh, UserData, Encoding, gsm7, ucs2, concat_header, header_bits, ucs2_bytes, build_user_data,
}
use mt5700_console.Sms.UserData.Header.{length-header_bits, header_bits-IsBit, pack_septets-stream}

-- What a part may hold: less where it has a header.
abbrev pub IsShort : Encoding → Option Udh → Str → Type 0
IsShort gsm7 none s = (needs_ucs2 s ≡ false) × (total_septets s ≤ 160)
IsShort gsm7 (some h) s = (needs_ucs2 s ≡ false) × (total_septets s ≤ 153)
IsShort ucs2 none s = length s ≤ 70
IsShort ucs2 (some h) s = length s ≤ 67

abbrev pub Fits : UserData → Type 0
Fits ud = (length ud.octets ≤ 140) × (ud.udl ≤ 160) × All IsByte ud.octets

length-ucs2_bytes : (s : Str) → length (ucs2_bytes s) ≡ 2 * length s
unfolding ucs2_bytes
length-ucs2_bytes [] = refl
length-ucs2_bytes (c ∷ s) = omega (arith, length-ucs2_bytes s)

pub length_bits :
    (front : List ℕ) (message : Str)
    → needs_ucs2 message ≡ false
    → length (bits_to_octets (front ++ stream 7 (septets_of (array_from message))))
      ≡ (length front + 7 * total_septets message + 7) / 8
unfolding needs_ucs2 total_septets
length_bits front message h =
    let ss = septets_of (array_from message) in
    length-bits_to_octets (front ++ stream 7 ss)
    ∙ omega (
      arith,
      length-append front (stream 7 ss),
      length-stream 7 ss,
      length-septets_of (array_from message) h,
    )

ucs2_bytes-IsByte : (s : Str) → All IsByte (ucs2_bytes s)
unfolding ucs2_bytes
ucs2_bytes-IsByte [] = tt
ucs2_bytes-IsByte (c ∷ s) = (omega arith, (omega arith, ucs2_bytes-IsByte s))

headed_bytes : (h : Udh) (s : Str) → All IsByte (concat_header (some h) ++ ucs2_bytes s)
headed_bytes h s =
    All-append IsByte (concat_header (some h)) (ucs2_bytes s) (omega arith) (ucs2_bytes-IsByte s)

gsm7_bytes :
    (udhi : Option Udh) (s : Str)
    → All IsByte (bits_to_octets (header_bits udhi ++ stream 7 (septets_of (array_from s))))
gsm7_bytes udhi s =
    let body = stream 7 (septets_of (array_from s)) in
    bits_to_octets-IsByte (header_bits udhi ++ body) (
      All-append IsBit (header_bits udhi) body (header_bits-IsBit udhi)
        (stream-IsBit 7 (septets_of (array_from s))))

gsm7_Fits :
    (message : Str) (udhi : Option Udh)
    → IsShort gsm7 udhi message
    → (ud : UserData) × (build_user_data message udhi gsm7 ≡ some ud) × Fits ud
unfolding build_user_data
gsm7_Fits message none (hn, hs) =
    let packed = stream 7 (septets_of (array_from message)) in
    (
      record { octets = bits_to_octets packed; udl = 0 + total_septets message },
      rw (pack_septets-stream (array_from message) (unfold needs_ucs2 in hn), build_user_data) refl,
      (omega (arith, length_bits [] message hn), omega arith, gsm7_bytes none message),
    )
gsm7_Fits message (some h) (hn, hs) =
    let packed = stream 7 (septets_of (array_from message)) in
    (
      record {
        octets = bits_to_octets (header_bits (some h) ++ packed);
        udl = 7 + total_septets message;
      },
      rw (pack_septets-stream (array_from message) (unfold needs_ucs2 in hn), build_user_data) refl,
      (
        omega (arith, length_bits (header_bits (some h)) message hn, length-header_bits h),
        omega arith,
        gsm7_bytes (some h) message,
      ),
    )

ucs2_Fits :
    (message : Str) (udhi : Option Udh)
    → IsShort ucs2 udhi message
    → (ud : UserData) × (build_user_data message udhi ucs2 ≡ some ud) × Fits ud
unfolding build_user_data
ucs2_Fits message none h = (
  record { octets = ucs2_bytes message; udl = length (ucs2_bytes message) },
  refl,
  (
    omega (arith, length-ucs2_bytes message),
    omega (arith, length-ucs2_bytes message),
    ucs2_bytes-IsByte message,
  ),
)
ucs2_Fits message (some u) h =
    let octets = concat_header (some u) ++ ucs2_bytes message in
    (
      record { octets = octets; udl = length octets },
      refl,
      (
        omega (arith, length-ucs2_bytes message),
        omega (arith, length-ucs2_bytes message),
        headed_bytes u message,
      ),
    )

-- A text that is short enough for its place gives a user data field, and the field fits.
pub build_user_data-Fits :
    (message : Str) (udhi : Option Udh) (encoding : Encoding)
    → IsShort encoding udhi message
    → (ud : UserData) × (build_user_data message udhi encoding ≡ some ud) × Fits ud
build_user_data-Fits message udhi gsm7 h = gsm7_Fits message udhi h
build_user_data-Fits message udhi ucs2 h = ucs2_Fits message udhi h
