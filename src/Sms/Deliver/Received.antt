-- ===== src/Sms/Deliver/Received.antt =====
-- Messages that come in, from their hexadecimal to what `decodeIncomingPdu` returns.
use mt5700_console.Base.{
  ℕ, ◌/◌, ◌%◌, ◌≤◌, ◌<◌, ◌≡◌, refl, sym, ap, ap₂, ◌∙◌, ◌≢◌, false, Option, some, List, [], ◌∷◌,
  ◌++◌, append-nil, append_assoc, arith, ◌==◌, some_inj, length, drop, All, drop-length-append,
  All-append, Str, IsByte,
}
use mt5700_console.Sms.UserData.{
  UserData, Udh, Encoding, build_user_data, decode_user_data, HeaderInfo,
}
use mt5700_console.Sms.UserData.Bounds.{IsShort, Fits, build_user_data-Fits}
use mt5700_console.Sms.UserData.Reads.{
  has_header, header_info, IsCarried, decode_user_data-build_user_data,
}
use mt5700_console.Sms.Address.{Address, digits_of, encode_address, hex_to_bytes}
use mt5700_console.Sms.Address.Hex.{octets_to_hex, hex_to_bytes-octets_to_hex}
use mt5700_console.Sms.Address.RoundTrip.{address_of, decode_address-encode_address}
use mt5700_console.Sms.Submit.{dcs_octet}
use mt5700_console.Sms.Deliver.{
  Clock, Incoming, dcs_encoding, decode_incoming, decode_incoming_pdu, decode_timestamp,
  read_deliver, ud_len,
}
use mt5700_console.Sms.Deliver.Frame.{
  dcs_encoding-dcs_octet, read_deliver_frame, ud_len-build_user_data,
}

-- The octets behind the address of the sender.
abbrev pub tail_of : ℕ → Encoding → List ℕ → UserData → List ℕ
tail_of pid encoding ts ud = pid ∷ dcs_octet encoding ∷ (ts ++ (ud.udl ∷ ud.octets))

-- The address of the service centre, with its length, and the first octet.
abbrev pub front_of : List ℕ → ℕ → List ℕ
front_of sca first = length sca ∷ (sca ++ (first ∷ []))

-- The hexadecimal of an SMS-DELIVER.
abbrev pub deliver_hex : List ℕ → ℕ → Str → ℕ → Encoding → List ℕ → UserData → Str
deliver_hex sca first number pid encoding ts ud =
    octets_to_hex (front_of sca first)
    ++ (encode_address number false ++ octets_to_hex (tail_of pid encoding ts ud))

hex_octets : (os : List ℕ) → All IsByte os → hex_to_bytes (octets_to_hex os) ≡ some os
hex_octets os h =
    ap hex_to_bytes (sym (append-nil (octets_to_hex os)))
    ∙ hex_to_bytes-octets_to_hex os [] [] h (unfold hex_to_bytes in refl)
    ∙ ap some (append-nil os)

tail-IsByte :
    (pid : ℕ) (e : Encoding) (ts : List ℕ) (ud : UserData)
    → pid < 256
    → All IsByte ts
    → Fits ud
    → All IsByte (tail_of pid e ts ud)
tail-IsByte pid e ts ud hp ht (ho, hu, hb) =
    (hp, (coding e, All-append IsByte ts (ud.udl ∷ ud.octets) ht (omega (arith, hu), hb)))
  where
    coding : (c : Encoding) → dcs_octet c < 256
    coding Encoding.gsm7 = omega arith
    coding Encoding.ucs2 = omega arith

front-IsByte :
    (sca : List ℕ) (first : ℕ)
    → All IsByte sca
    → length sca < 256
    → first < 256
    → All IsByte (front_of sca first)
front-IsByte sca first hs hl hf = (hl, All-append IsByte sca (first ∷ []) hs (hf, tt))

module _ {Date : Type 0} (clock : Clock Date) where
  pub skip_centre :
      (sca : List ℕ) (first : ℕ) (rest : List ℕ)
      → decode_incoming clock (front_of sca first ++ rest) ≡ read_deliver clock (first ∷ rest)
  unfolding decode_incoming
  skip_centre [] first rest = refl
  skip_centre (a ∷ sca) first rest =
      ap (λ (t : List ℕ). read_deliver clock (drop (length sca) t))
        (append_assoc sca (first ∷ []) rest)
      ∙ ap (read_deliver clock) (drop-length-append sca (first ∷ rest))

  decoded :
      (hex : Str) (raw : List ℕ) (m : Option (Incoming Date))
      → hex_to_bytes hex ≡ some raw
      → decode_incoming clock raw ≡ m
      → decode_incoming_pdu clock hex ≡ some m
  unfolding decode_incoming_pdu
  decoded hex raw m e d = rw (e, d, decode_incoming_pdu) refl

  -- From any service centre, with any protocol and timestamp, a message that is put together from
  -- the sender's number, and from a text and a header that fit, is read as that number, that text,
  -- the date of the timestamp and the three numbers of the header, each modulo 256.
  pub decode_incoming_pdu-deliver_hex :
      (sca : List ℕ) (first : ℕ) (number : Str) (pid : ℕ) (ts : List ℕ) (message : Str)
      (udhi : Option Udh) (encoding : Encoding)
      → All IsByte sca
      → length sca < 256
      → first < 256
      → first % 4 ≡ 0
      → (first / 64 % 2 == 1) ≡ has_header udhi
      → digits_of number ≢ []
      → length (digits_of number) < 256
      → pid < 256
      → All IsByte ts
      → length ts ≡ 7
      → IsShort encoding udhi message
      → IsCarried encoding message
      → (ud : UserData) × (build_user_data message udhi encoding ≡ some ud)
        × (decode_incoming_pdu clock (deliver_hex sca first number pid encoding ts ud)
            ≡ some (
                some (record {
                  sender = (address_of number).text;
                  content = message;
                  date = decode_timestamp clock ts;
                  partial = (header_info udhi).partial;
                })))
  decode_incoming_pdu-deliver_hex sca first number pid ts message udhi encoding hs hl hf hm hh hn hd
        hp ht h7 short carried =
      let (ud, built, fits) = build_user_data-Fits message udhi encoding short in
      let (ud', built', reads') = decode_user_data-build_user_data message udhi encoding carried in
      let same : ud' ≡ ud = some_inj (sym built' ∙ built) in
      let tail = tail_of pid encoding ts ud in
      let (len, toa, body, hex, count, address) =
        decode_address-encode_address number (octets_to_hex tail) tail hn hd
          (hex_octets tail (tail-IsByte pid encoding ts ud hp ht fits)) in
      let hu : length ud.octets ≤ ud_len (dcs_encoding (dcs_octet encoding)) ud.udl =
        rw (dcs_encoding-dcs_octet encoding)
          (ud_len-build_user_data message udhi encoding ud built carried) in
      let bytes : hex_to_bytes (deliver_hex sca first number pid encoding ts ud)
          ≡ some (front_of sca first ++ (len ∷ toa ∷ (body ++ tail))) =
        hex_to_bytes-octets_to_hex (front_of sca first) _ (len ∷ toa ∷ (body ++ tail))
          (front-IsByte sca first hs hl hf) hex in
      let reads : decode_user_data (first / 64 % 2 == 1) (dcs_encoding (dcs_octet encoding)) ud.udl
            ud.octets
          ≡ (message, header_info udhi) =
        rw (hh, dcs_encoding-dcs_octet encoding) (rw same at reads') in
      (
        ud,
        built,
        decoded _ _ _ bytes (
            skip_centre sca first (len ∷ toa ∷ (body ++ tail))
            ∙ read_deliver_frame clock first len toa body pid (dcs_octet encoding) ts ud.udl
                ud.octets hm count h7 hu
            ∙ ap₂
                (λ (a : Address) (c : Str × HeaderInfo). some (record {
                  sender = a.text;
                  content = c.0;
                  date = decode_timestamp clock ts;
                  partial = c.1.partial;
                }))
                address reads),
      )
