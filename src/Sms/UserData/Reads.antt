-- ===== src/Sms/UserData/Reads.antt =====
-- `decode_user_data` reads back what `build_user_data` wrote.
use mt5700_console.Base.{
  ℕ, ◌+◌, ◌*◌, ◌%◌, ◌≤◌, ◌<◌, max, ◌≡◌, refl, sym, ap, ap₂, ◌∙◌, inl, inr, Bool, true, false,
  Option, none, some, List, [], ◌∷◌, ◌++◌, arith, leb, if◌then◌else◌, Bool-cases, length, drop,
  flatten, All, length-drop, Str, IsUnit16,
}
use mt5700_console.Sms.Septets.{bits_to_octets, unpack_septets}
use mt5700_console.Sms.Septets.Stream.{stream}
use mt5700_console.Sms.Septets.RoundTrip.{drop-unpack_septets}
use mt5700_console.Sms.Gsm7.{array_from, needs_ucs2, total_septets, septets_to_string}
use mt5700_console.Sms.Gsm7.Texts.{
  septets_of, IsClean, array_from-IsChar, flatten-array_from, length-septets_of, septets_of-lt,
  septets_to_string-septets_of,
}
use mt5700_console.Sms.UserData.{
  Udh, UserData, Encoding, gsm7, ucs2, HeaderInfo, no_info, concat_header, header_bits, ucs2_bytes,
  build_user_data, decode_ucs2_bytes, decode_gsm7, decode_user_data,
}
use mt5700_console.Sms.UserData.Header.{
  length-header_bits, header_bits-IsBit, pack_septets-stream, header_octets,
}

-- What `dcsEncoding` gives for the data coding schemes 00 and 08 that the encoder writes.
abbrev pub encoding_code : Encoding → ℕ
encoding_code gsm7 = 0
encoding_code ucs2 = 2

abbrev pub has_header : Option Udh → Bool
has_header none = false
has_header (some h) = true

-- What a reader knows of the part from its header.
abbrev pub header_info : Option Udh → HeaderInfo
header_info none = no_info
header_info (some h) = record {
  partial =
      some (record {
        reference = h.ref % 256;
        parts_count = h.total % 256;
        part_number = h.seq % 256;
      });
  wap_port = none;
}

abbrev header_septets : Option Udh → ℕ
header_septets none = 0
header_septets (some h) = 7

-- A text that its encoding can carry: code units, and none that the alphabet would lose.
abbrev pub IsCarried : Encoding → Str → Type 0
IsCarried ucs2 s = All IsUnit16 s
IsCarried gsm7 s = IsClean s × (needs_ucs2 s ≡ false)

pub decode_ucs2_bytes-ucs2_bytes : (s : Str) → All IsUnit16 s → decode_ucs2_bytes (ucs2_bytes s) ≡ s
unfolding decode_ucs2_bytes ucs2_bytes
decode_ucs2_bytes-ucs2_bytes [] h = refl
decode_ucs2_bytes-ucs2_bytes (c ∷ s) h = ap₂ ◌∷◌ (omega arith) (decode_ucs2_bytes-ucs2_bytes s h.1)

-- `septets.slice(k)` behind the test that there are as many is the slice without it.
read_behind :
    (k : ℕ) (xs : List ℕ)
    → (if leb k (length xs) then septets_to_string (drop k xs) else [])
      ≡ septets_to_string (drop k xs)
unfolding septets_to_string
read_behind k xs = elim (Bool-cases (leb k (length xs))) [
  | inl e ↦ rw e
  | inr e ↦
      rw e
        (sym (ap septets_to_string (empty (drop k xs) (omega (arith, length-drop k xs, short e)))))
]
  where
    short : leb k (length xs) ≡ false → length xs < k
    short e = ground arith

    empty : (ys : List ℕ) → length ys ≡ 0 → ys ≡ []
    empty [] h = refl
    empty (y ∷ ys) h = absurd (omega arith)

decode_gsm7_lem :
    (k udl : ℕ) (ud ss : List ℕ)
    → k ≤ udl
    → drop k (unpack_septets ud udl) ≡ ss
    → decode_gsm7 k udl ud ≡ septets_to_string ss
unfolding decode_gsm7
decode_gsm7_lem k udl ud ss h e =
    let same : max udl k ≡ udl = omega arith in
    rw same (read_behind k (unpack_septets ud udl) ∙ ap septets_to_string e)

length_front : (udhi : Option Udh) → length (header_bits udhi) ≡ 7 * header_septets udhi
length_front none = refl
length_front (some h) = length-header_bits h

-- The septets of a part come back behind those of its header.
decode_gsm7-bits_to_octets :
    (message : Str) (udhi : Option Udh)
    → IsClean message
    → needs_ucs2 message ≡ false
    → decode_gsm7
        (header_septets udhi)
        (header_septets udhi + total_septets message)
        (bits_to_octets (header_bits udhi ++ stream 7 (septets_of (array_from message))))
      ≡ message
unfolding needs_ucs2 total_septets
decode_gsm7-bits_to_octets message udhi hc hn =
    let chs = array_from message in
    let k = header_septets udhi in
    let clean : IsClean (flatten chs) = rw flatten-array_from hc in
    let ss = septets_of chs in
    let octets = bits_to_octets (header_bits udhi ++ stream 7 ss) in
    rw (← length-septets_of chs hn) (
      decode_gsm7_lem k (k + length ss) octets ss (omega arith) (
        drop-unpack_septets k (header_bits udhi) ss (header_bits-IsBit udhi) (length_front udhi)
          (septets_of-lt chs (array_from-IsChar message) clean hn))
      ∙ septets_to_string-septets_of chs (array_from-IsChar message) clean hn
      ∙ flatten-array_from message)

-- A text without a header is read back.
plain_part :
    (message : Str)
    → IsClean message
    → needs_ucs2 message ≡ false
    → (ud : UserData) × (build_user_data message none gsm7 ≡ some ud)
      × (decode_user_data false 0 ud.udl ud.octets ≡ (message, no_info))
unfolding build_user_data decode_user_data
plain_part message hc hn = (
  record {
    octets = bits_to_octets (stream 7 (septets_of (array_from message)));
    udl = 0 + total_septets message;
  },
  rw (pack_septets-stream (array_from message) (unfold needs_ucs2 in hn), build_user_data) refl,
  ap (λ (s : Str). (s, no_info)) (decode_gsm7-bits_to_octets message none hc hn),
)

-- The reader finds the elements of the header, and what stands behind it.
decode_headed :
    (h : Udh) (udl : ℕ) (rest : List ℕ)
    → (decode_user_data true 0 udl (concat_header (some h) ++ rest)
        ≡ (decode_gsm7 7 udl (concat_header (some h) ++ rest), header_info (some h)))
      × (decode_user_data true 2 udl (concat_header (some h) ++ rest)
          ≡ (decode_ucs2_bytes rest, header_info (some h)))
unfolding decode_user_data
decode_headed h udl rest = (refl, refl)

-- A part with a header is read back, and so is its place among the parts.
headed_part :
    (message : Str) (h : Udh)
    → IsClean message
    → needs_ucs2 message ≡ false
    → (ud : UserData) × (build_user_data message (some h) gsm7 ≡ some ud)
      × (decode_user_data true 0 ud.udl ud.octets ≡ (message, header_info (some h)))
unfolding build_user_data decode_user_data
headed_part message h hc hn =
    let packed = stream 7 (septets_of (array_from message)) in
    (
      record {
        octets = bits_to_octets (header_bits (some h) ++ packed);
        udl = 7 + total_septets message;
      },
      rw (pack_septets-stream (array_from message) (unfold needs_ucs2 in hn), build_user_data) refl,
      ap (decode_user_data true 0 (7 + total_septets message)) (header_octets h packed)
          ∙ (decode_headed h (7 + total_septets message) (bits_to_octets (0 ∷ packed))).0
          ∙ ap (λ (s : Str). (s, header_info (some h)))
              (ap (decode_gsm7 7 (7 + total_septets message)) (sym (header_octets h packed))
                ∙ decode_gsm7-bits_to_octets message (some h) hc hn),
    )

ucs2_part :
    (message : Str) (udhi : Option Udh)
    → All IsUnit16 message
    → (ud : UserData) × (build_user_data message udhi ucs2 ≡ some ud)
      × (decode_user_data (has_header udhi) 2 ud.udl ud.octets ≡ (message, header_info udhi))
unfolding build_user_data decode_user_data
ucs2_part message none hu = (
  record { octets = ucs2_bytes message; udl = length (ucs2_bytes message) },
  refl,
  ap (λ (s : Str). (s, no_info)) (decode_ucs2_bytes-ucs2_bytes message hu),
)
ucs2_part message (some h) hu =
    let octets = concat_header (some h) ++ ucs2_bytes message in
    (
      record { octets = octets; udl = length octets },
      refl,
      (decode_headed h (length octets) (ucs2_bytes message)).1
          ∙ ap (λ (s : Str). (s, header_info (some h))) (decode_ucs2_bytes-ucs2_bytes message hu),
    )

-- For every text that its encoding carries, `build_user_data` gives a user data field, and the
-- reader makes of that field the text and the header that were put in.
pub decode_user_data-build_user_data :
    (message : Str) (udhi : Option Udh) (encoding : Encoding)
    → IsCarried encoding message
    → (ud : UserData) × (build_user_data message udhi encoding ≡ some ud)
      × (decode_user_data (has_header udhi) (encoding_code encoding) ud.udl ud.octets
          ≡ (message, header_info udhi))
decode_user_data-build_user_data message none gsm7 h = plain_part message h.0 h.1
decode_user_data-build_user_data message (some u) gsm7 h = headed_part message u h.0 h.1
decode_user_data-build_user_data message udhi ucs2 h = ucs2_part message udhi h
