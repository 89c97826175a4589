-- ===== src/Sms/Commands/PduFraming.antt =====
-- The same of the commands that send the parts of a message in PDU mode.
use mt5700_console.Base.{
  ℕ, zero, suc, ◌+◌, ◌/◌, ◌%◌, ◌≤◌, ◌≡◌, refl, inl, inr, Bool, true, false, none, some, List, [],
  ◌∷◌, ◌++◌, arith, ltb, ◌==◌, if◌then◌else◌, Bool-cases, Option-cases, some_inj, length, All, Str,
  codes, hex2, is_text,
}
use mt5700_console.Sms.Address.{
  is_digit, to_hex, pad_start, pad_even, swap_pairs, encode_address, digits_of, has_plus,
}
use mt5700_console.Sms.Address.Hex.{octets_to_hex}
use mt5700_console.Sms.UserData.{UserData, build_user_data}
use mt5700_console.Sms.Submit.{
  Planned, SubmitPart, tpdu_of, build_tpdu, sca_of, part_of, submit_part, submit_each,
  build_submit_parts, plan_parts, first_octet, dcs_octet,
}
use mt5700_console.Sms.Submit.Delivery.{build_submit_parts_total}
use mt5700_console.Sms.Commands.{build_pdu_send_command, decimal, decimal_loop}
use mt5700_console.Sms.Commands.Framing.{
  IsFramed, IsFramed-append, printable, hex_digit_printable, pad_start-IsFramed, to_hex-IsFramed,
  literal,
}

hex2-IsFramed : (n : ℕ) → IsFramed (hex2 n)
unfolding hex2
hex2-IsFramed n =
    (printable _ (hex_digit_printable (n / 16)), (printable _ (hex_digit_printable (n % 16)), tt))

octets_to_hex-IsFramed : (os : List ℕ) → IsFramed (octets_to_hex os)
unfolding octets_to_hex
octets_to_hex-IsFramed [] = tt
octets_to_hex-IsFramed (o ∷ os) =
    IsFramed-append (hex2 o) (octets_to_hex os) (hex2-IsFramed o) (octets_to_hex-IsFramed os)

digits_of-IsFramed : (s : Str) → IsFramed (digits_of s)
unfolding digits_of
digits_of-IsFramed [] = tt
digits_of-IsFramed (c ∷ s) = elim (Bool-cases (is_digit c)) [
  | inl e ↦ rw e (printable c (digit c e), digits_of-IsFramed s)
  | inr e ↦ rw e (digits_of-IsFramed s)
]
  where
    digit : (x : ℕ) → is_digit x ≡ true → 32 ≤ x
    digit x h = ground arith

pad_even-IsFramed : (s : Str) → IsFramed s → IsFramed (pad_even s)
unfolding pad_even
pad_even-IsFramed s h = elim (Bool-cases (length s % 2 == 0)) [
  | inl e ↦ rw e h
  | inr e ↦ rw e (IsFramed-append s (70 ∷ []) h (printable 70 (omega arith), tt))
]

swap_pairs-IsFramed : (s : Str) → IsFramed s → IsFramed (swap_pairs s)
unfolding swap_pairs
swap_pairs-IsFramed [] h = tt
swap_pairs-IsFramed (a ∷ []) h = tt
swap_pairs-IsFramed (a ∷ b ∷ s) h = (h.1.0, (h.0, swap_pairs-IsFramed s h.1.1))

encode_address-IsFramed : (number : Str) (is_smsc : Bool) → IsFramed (encode_address number is_smsc)
unfolding encode_address
encode_address-IsFramed number is_smsc = elim (Bool-cases (is_text (digits_of number))) [
  | inl e ↦ rw e (
      let len =
        if is_smsc
        then length (pad_even (digits_of number)) / 2 + 1
        else length (digits_of number) in
      let toa = if has_plus number then 0x91 else 0x81 in
      IsFramed-append (pad_start 4 (to_hex len ++ to_hex toa))
        (swap_pairs (pad_even (digits_of number)))
        (pad_start-IsFramed 4 (to_hex len ++ to_hex toa)
          (IsFramed-append (to_hex len) (to_hex toa) (to_hex-IsFramed len) (to_hex-IsFramed toa)))
        (swap_pairs-IsFramed (pad_even (digits_of number))
          (pad_even-IsFramed (digits_of number) (digits_of-IsFramed number))))
  | inr e ↦ rw e (nothing is_smsc)
]
  where
    nothing : (b : Bool) → IsFramed (if b then 48 ∷ 48 ∷ [] else [])
    nothing true = literal (48 ∷ 48 ∷ []) refl
    nothing false = tt

tpdu_of-IsFramed :
    (destination : Str) (p : Planned) (ud : UserData) → IsFramed (tpdu_of destination p ud)
unfolding tpdu_of
tpdu_of-IsFramed destination p ud =
    IsFramed-append (hex2 (first_octet p.udhi)) _ (hex2-IsFramed _) (
      IsFramed-append (hex2 0) _ (hex2-IsFramed 0) (
        IsFramed-append (encode_address destination false) _
          (encode_address-IsFramed destination false)
          (IsFramed-append (hex2 0) _ (hex2-IsFramed 0) (
            IsFramed-append (hex2 (dcs_octet p.encoding)) _ (hex2-IsFramed _) (
              IsFramed-append (hex2 0xaa) _ (hex2-IsFramed 0xaa) (
                IsFramed-append (pad_start 2 (to_hex ud.udl)) _
                  (pad_start-IsFramed 2 _ (to_hex-IsFramed ud.udl))
                  (octets_to_hex-IsFramed ud.octets)))))))

sca_of-IsFramed : (smsc : Str) → IsFramed (sca_of smsc)
sca_of-IsFramed [] = literal (48 ∷ 48 ∷ []) refl
sca_of-IsFramed (c ∷ smsc) = encode_address-IsFramed (c ∷ smsc) true

decimal-IsFramed : (fuel n : ℕ) → IsFramed (decimal_loop fuel n)
unfolding decimal_loop
decimal-IsFramed zero n = (printable (48 + n % 10) (omega arith), tt)
decimal-IsFramed (suc fuel) n = elim (Bool-cases (ltb n 10)) [
  | inl e ↦ rw e (printable (48 + n) (omega arith), tt)
  | inr e ↦ rw e (
      IsFramed-append (decimal_loop fuel (n / 10)) _ (decimal-IsFramed fuel (n / 10))
        (printable (48 + n % 10) (omega arith), tt))
]

part_of-IsFramed :
    (smsc pdu : Str) → IsFramed pdu → IsFramed (build_pdu_send_command (part_of smsc pdu))
unfolding build_pdu_send_command decimal
part_of-IsFramed smsc pdu h =
    IsFramed-append (codes "AT+CMGS=") _ (literal (codes "AT+CMGS=") refl) (
      IsFramed-append _ _ (decimal-IsFramed (length pdu / 2) (length pdu / 2)) (
        IsFramed-append (codes "\\r") (sca_of smsc ++ pdu) (literal (codes "\\r") refl)
          (IsFramed-append (sca_of smsc) pdu (sca_of-IsFramed smsc) h)))

submit_part-IsFramed :
    (destination smsc : Str) (p : Planned) (part : SubmitPart)
    → submit_part destination smsc p ≡ some part
    → IsFramed (build_pdu_send_command part)
unfolding submit_part build_tpdu
submit_part-IsFramed destination smsc p part h =
    elim (Option-cases (build_user_data p.text p.udhi p.encoding)) [
      | inl e ↦ (let q : none ≡ some part = rw (e, submit_part) at h in cc)
      | inr (ud, e) ↦
          (let q : some (part_of smsc (tpdu_of destination p ud)) ≡ some part =
              rw (e, submit_part) at h in
            rw (← some_inj q) (part_of-IsFramed smsc _ (tpdu_of-IsFramed destination p ud)))
    ]

submit_each-IsFramed :
    (destination smsc : Str) (ps : List Planned) (parts : List SubmitPart)
    → submit_each destination smsc ps ≡ some parts
    → All (λ part. IsFramed (build_pdu_send_command part)) parts
unfolding submit_each
submit_each-IsFramed destination smsc [] parts h = rw (← some_inj h) tt
submit_each-IsFramed destination smsc (p ∷ ps) parts h =
    elim (Option-cases (submit_part destination smsc p)) [
      | inl e ↦ (let q : none ≡ some parts = rw (e, submit_each) at h in cc)
      | inr (part, e) ↦ elim (Option-cases (submit_each destination smsc ps)) [
        | inl er ↦ (let q : none ≡ some parts = rw (e, er, submit_each) at h in cc)
        | inr (rest, er) ↦
            (let q : some (part ∷ rest) ≡ some parts = rw (e, er, submit_each) at h in
              rw (← some_inj q) (
                submit_part-IsFramed destination smsc p part e,
                submit_each-IsFramed destination smsc ps rest er,
              ))
      ]
    ]

-- Whatever the destination, the service centre and the message, the parts that are sent give
-- commands without a carriage return, a line feed, a NUL or a Ctrl-Z.
pub build_submit_parts-IsFramed :
    (destination smsc message : Str) (ref : ℕ)
    → (parts : List SubmitPart) × (build_submit_parts destination smsc message ref ≡ some parts)
      × All (λ part. IsFramed (build_pdu_send_command part)) parts
unfolding build_submit_parts
build_submit_parts-IsFramed destination smsc message ref =
    let (parts, e, n) = build_submit_parts_total destination smsc message ref in
    (parts, e, submit_each-IsFramed destination smsc (plan_parts message ref) parts e)
