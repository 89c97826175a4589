-- ===== src/Sms/Submit/Reader.antt =====
-- The PDU of a part against the layout of an SMS-SUBMIT in 3GPP TS 23.040.
use mt5700_console.Base.{
  ℕ, ◌+◌, ◌*◌, ◌/◌, ◌<◌, ◌≡◌, refl, sym, ap, ap₂, ◌∙◌, ◌≢◌, ◌⊎◌, inl, inr, true, Option, none, some,
  List, [], ◌∷◌, ◌++◌, append-nil, append_assoc, arith, Option-cases, some_inj, length, drop, All,
  drop-length-append, Str, str_eq, str_eq_iff, hex_digit, hex_value, hex2, IsByte,
}
use mt5700_console.Base.Table.{holds_between, holds_between_lem}
use mt5700_console.Sms.UserData.{Udh, UserData, Encoding, gsm7, ucs2, build_user_data}
use mt5700_console.Sms.UserData.Bounds.{Fits, build_user_data-Fits}
use mt5700_console.Sms.Address.{
  digits_of, to_hex, pad_start, encode_address, hex_to_bytes, Address, decode_address,
}
use mt5700_console.Sms.Address.Hex.{octets_to_hex, hex_to_bytes-octets_to_hex}
use mt5700_console.Sms.Address.RoundTrip.{
  address_of, decode_address-encode_address, drop-encode_address_smsc,
}
use mt5700_console.Sms.Submit.{
  Planned, first_octet, dcs_octet, tpdu_of, sca_of, part_of, SubmitPart, submit_part,
}
use mt5700_console.Sms.Submit.Parts.{IsShortPart}
use mt5700_console.Sms.Submit.Delivery.{submit_part_built}

-- The fields of an SMS-SUBMIT with a relative validity period.
pub record Submit : Type 0 where
  pub first : ℕ
  pub reference : ℕ
  pub destination : Address
  pub protocol : ℕ
  pub coding : ℕ
  pub validity : ℕ
  pub udl : ℕ
  pub user_data : List ℕ

read_tail : ℕ → ℕ → Address → List ℕ → Option Submit
read_tail first mr destination (pid ∷ dcs ∷ vp ∷ udl ∷ ud) = some (record {
  first = first;
  reference = mr;
  destination = destination;
  protocol = pid;
  coding = dcs;
  validity = vp;
  udl = udl;
  user_data = ud;
})
read_tail first mr destination _ = none

-- The reader: the address takes half as many octets as it has digits, rounded up.
unfoldable pub read_submit : List ℕ → Option Submit
unfolding read_tail
read_submit (first ∷ mr ∷ len ∷ toa ∷ rest) =
    read_tail first mr (decode_address len toa rest) (drop ((len + 1) / 2) rest)
read_submit _ = none

udl_table : holds_between 0 256 (λ n. str_eq (pad_start 2 (to_hex n)) (hex2 n)) ≡ true
unfolding holds_between str_eq pad_start to_hex hex2 hex_digit
udl_table = refl

udl_field : (n : ℕ) → n < 256 → pad_start 2 (to_hex n) ≡ hex2 n
udl_field n h = (str_eq_iff (pad_start 2 (to_hex n)) (hex2 n)).0 (
    holds_between_lem (λ k. str_eq (pad_start 2 (to_hex k)) (hex2 k)) 0 256 n udl_table
      (omega arith) h)

octets_back : (os : List ℕ) → All IsByte os → hex_to_bytes (octets_to_hex os) ≡ some os
octets_back os h =
    ap hex_to_bytes (sym (append-nil (octets_to_hex os)))
    ∙ hex_to_bytes-octets_to_hex os [] [] h (unfold hex_to_bytes in refl)
    ∙ ap some (append-nil os)

-- The first octet and the message reference, in front of what follows them.
two_in_front :
    (first : ℕ) (s : Str) (bs : List ℕ)
    → first < 256
    → hex_to_bytes s ≡ some bs
    → hex_to_bytes (hex2 first ++ (hex2 0x00 ++ s)) ≡ some (first ∷ 0x00 ∷ bs)
unfolding octets_to_hex
two_in_front first s bs h e =
    ap hex_to_bytes (simp (append_assoc, append-nil))
    ∙ hex_to_bytes-octets_to_hex (first ∷ 0x00 ∷ []) s bs (h, (omega arith, tt)) e

-- The octets behind the destination.
tail_octets :
    (p : Planned) (ud : UserData)
    → Fits ud
    → hex_to_bytes (
        hex2 0x00
        ++ (hex2 (dcs_octet p.encoding)
            ++ (hex2 0xaa ++ (pad_start 2 (to_hex ud.udl) ++ octets_to_hex ud.octets))))
      ≡ some (0x00 ∷ dcs_octet p.encoding ∷ 0xaa ∷ ud.udl ∷ ud.octets)
unfolding octets_to_hex
tail_octets p ud fits =
    let octets = 0x00 ∷ dcs_octet p.encoding ∷ 0xaa ∷ ud.udl ∷ ud.octets in
    ap
      (λ (t : Str). hex_to_bytes (
        hex2 0x00
        ++ (hex2 (dcs_octet p.encoding) ++ (hex2 0xaa ++ (t ++ octets_to_hex ud.octets)))))
      (udl_field ud.udl (omega (arith, fits.1)))
    ∙ octets_back octets
        (omega arith, (dcs-lt p.encoding, (omega arith, (omega (arith, fits.1), fits.2))))
  where
    dcs-lt : (e : Encoding) → dcs_octet e < 256
    dcs-lt gsm7 = omega arith
    dcs-lt ucs2 = omega arith

-- What the reader should find in the TPDU of a part.
abbrev pub submit_of : Str → Planned → UserData → Submit
submit_of destination p ud = record {
  first = first_octet p.udhi;
  reference = 0x00;
  destination = address_of destination;
  protocol = 0x00;
  coding = dcs_octet p.encoding;
  validity = 0xaa;
  udl = ud.udl;
  user_data = ud.octets;
}

first-lt : (u : Option Udh) → first_octet u < 256
first-lt none = omega arith
first-lt (some h) = omega arith

read_body :
    (first mr len toa : ℕ) (body : List ℕ) (a : Address) (pid dcs vp udl : ℕ) (ud : List ℕ)
    → length body ≡ (len + 1) / 2
    → decode_address len toa (body ++ (pid ∷ dcs ∷ vp ∷ udl ∷ ud)) ≡ a
    → read_submit (first ∷ mr ∷ len ∷ toa ∷ (body ++ (pid ∷ dcs ∷ vp ∷ udl ∷ ud)))
      ≡ some (record {
        first = first;
        reference = mr;
        destination = a;
        protocol = pid;
        coding = dcs;
        validity = vp;
        udl = udl;
        user_data = ud;
      })
unfolding read_submit
read_body first mr len toa body a pid dcs vp udl ud hl ha =
    let tail = pid ∷ dcs ∷ vp ∷ udl ∷ ud in
    ap₂ (λ (x : Address) (t : List ℕ). read_tail first mr x t) ha
      (ap (λ (n : ℕ). drop n (body ++ tail)) (sym hl) ∙ drop-length-append body tail)

-- The TPDU of a part, read as an SMS-SUBMIT.
tpdu_read :
    (destination : Str) (p : Planned) (ud : UserData)
    → digits_of destination ≢ []
    → length (digits_of destination) < 256
    → Fits ud
    → (octets : List ℕ) × (hex_to_bytes (tpdu_of destination p ud) ≡ some octets)
      × (read_submit octets ≡ some (submit_of destination p ud))
unfolding tpdu_of
tpdu_read destination p ud ne lt fits =
    let tail = 0x00 ∷ dcs_octet p.encoding ∷ 0xaa ∷ ud.udl ∷ ud.octets in
    let (len, toa, body, hex, count, address) =
      decode_address-encode_address destination _ tail ne lt (tail_octets p ud fits) in
    (
      first_octet p.udhi ∷ 0x00 ∷ len ∷ toa ∷ (body ++ tail),
      two_in_front (first_octet p.udhi) _ _ (first-lt p.udhi) hex,
      read_body (first_octet p.udhi) 0x00 len toa body (address_of destination) 0x00
          (dcs_octet p.encoding) 0xaa ud.udl ud.octets count address,
    )

two_zeros :
    (s : Str) (bs : List ℕ) → hex_to_bytes s ≡ some bs → hex_to_bytes (48 ∷ 48 ∷ s) ≡ some (0 ∷ bs)
unfolding hex_to_bytes hex_value
two_zeros s bs e = rw (e, hex_to_bytes) refl

encode_address_empty :
    (number : Str) → digits_of number ≡ [] → encode_address number true ≡ 48 ∷ 48 ∷ []
unfolding encode_address
encode_address_empty number e = rw e refl

bytes_of_pair :
    (a b : ℕ) (s : Str) (bs : List ℕ)
    → hex_to_bytes (a ∷ b ∷ s) ≡ some bs
    → (v : ℕ) × (rest : List ℕ) × (hex_to_bytes s ≡ some rest) × (bs ≡ v ∷ rest)
unfolding hex_to_bytes
bytes_of_pair a b s bs h = elim (Option-cases (hex_value a)) [
  | inl ea ↦ (let q : none ≡ some bs = rw (ea, hex_to_bytes) at h in cc)
  | inr (x, ea) ↦ elim (Option-cases (hex_value b)) [
    | inl eb ↦ (let q : none ≡ some bs = rw (ea, eb, hex_to_bytes) at h in cc)
    | inr (y, eb) ↦ elim (Option-cases (hex_to_bytes s)) [
      | inl er ↦ (let q : none ≡ some bs = rw (ea, eb, er, hex_to_bytes) at h in cc)
      | inr (rest, er) ↦ (x * 16 + y, rest, er, sym (some_inj (rw (ea, eb, er, hex_to_bytes) at h)))
    ]
  ]
]

length-hex_to_bytes : (s : Str) (bs : List ℕ) → hex_to_bytes s ≡ some bs → length bs ≡ length s / 2
length-hex_to_bytes [] bs h = unfold hex_to_bytes in ap length (sym (some_inj h))
length-hex_to_bytes (a ∷ []) bs h = unfold hex_to_bytes in ap length (sym (some_inj h))
length-hex_to_bytes (a ∷ b ∷ s) bs h =
    let (v, rest, er, e) = bytes_of_pair a b s bs h in
    ap length e ∙ omega (arith, length-hex_to_bytes s rest er)

-- The service centre's address in front: `00`, or one whose length counts what to skip.
sca_octets :
    (smsc s : Str) (bs : List ℕ)
    → length (digits_of smsc) < 256
    → hex_to_bytes s ≡ some bs
    → (len : ℕ) × (behind : List ℕ) × (hex_to_bytes (sca_of smsc ++ s) ≡ some (len ∷ behind))
      × (drop len behind ≡ bs)
sca_octets [] s bs lt e = (0, bs, two_zeros s bs e, refl)
sca_octets (c ∷ smsc) s bs lt e = elim (empty_or_not (digits_of (c ∷ smsc))) [
  | inl none_left ↦ (0, bs, no_digits none_left, refl)
  | inr ne ↦ drop-encode_address_smsc (c ∷ smsc) s bs ne lt e
]
  where
    empty_or_not : (t : Str) → (t ≡ []) ⊎ (t ≢ [])
    empty_or_not [] = inl refl
    empty_or_not (x ∷ t) = inr (λ z. cc)

    no_digits :
        digits_of (c ∷ smsc) ≡ []
        → hex_to_bytes (encode_address (c ∷ smsc) true ++ s) ≡ some (0 ∷ bs)
    no_digits z =
        ap (λ (t : Str). hex_to_bytes (t ++ s)) (encode_address_empty (c ∷ smsc) z)
        ∙ two_zeros s bs e

-- A part of a plan to a number with 1 to 255 digits: its PDU is hexadecimal, and behind the
-- service centre's address it is an SMS-SUBMIT with the destination, the coding scheme and the
-- user data of the part; `tpduLength` counts its octets.
pub submit_part-read_submit :
    (destination smsc : Str) (p : Planned)
    → digits_of destination ≢ []
    → length (digits_of destination) < 256
    → length (digits_of smsc) < 256
    → IsShortPart p
    → (ud : UserData) × (part : SubmitPart) × (len : ℕ) × (behind : List ℕ) × (build_user_data
          p.text p.udhi p.encoding
        ≡ some ud)
      × (submit_part destination smsc p ≡ some part)
      × (hex_to_bytes part.pdu ≡ some (len ∷ behind))
      × (read_submit (drop len behind) ≡ some (submit_of destination p ud))
      × (length (drop len behind) ≡ part.tpdu_length)
submit_part-read_submit destination smsc p ne lt lts h =
    let (ud, built, fits) = build_user_data-Fits p.text p.udhi p.encoding h in
    let tpdu = tpdu_of destination p ud in
    let (octets, hex, reads) = tpdu_read destination p ud ne lt fits in
    let (len, behind, whole, skip) = sca_octets smsc tpdu octets lts hex in
    (
      ud,
      part_of smsc tpdu,
      len,
      behind,
      built,
      submit_part_built destination smsc p ud built,
      whole,
      ap read_submit skip ∙ reads,
      ap length skip ∙ length-hex_to_bytes tpdu octets hex,
    )
