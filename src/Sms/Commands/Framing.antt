-- ===== src/Sms/Commands/Framing.antt =====
-- No command that sends a message can be cut in two by what it carries.
use mt5700_console.Base.{
  ℕ, zero, suc, ◌-◌, ◌/◌, ◌%◌, ◌≤◌, ◌≡◌, ◌≢◌, refl, inl, inr, true, false, ◌||◌, [], ◌∷◌, ◌++◌,
  arith, ltb, ◌==◌, Bool-cases, &&-left, &&-right, length, replicate, all, All, All-append, Str,
  codes, hex_digit,
}
use mt5700_console.Sms.Gsm7.{needs_ucs2}
use mt5700_console.Sms.Address.{is_digit, to_hex, hex_loop, pad_start}
use mt5700_console.Sms.Commands.{
  breaks_frame, build_text_send_command, dialled, sanitize_sms_text, to_ucs2_hex, without_plus,
  cmgs,
}

-- No carriage return, no line feed, no NUL and no Ctrl-Z.
abbrev pub IsPlain : ℕ → Type 0
IsPlain c = (c ≢ 13) × (c ≢ 10) × (c ≢ 0) × (c ≢ 26)

abbrev pub IsFramed : Str → Type 0
IsFramed = All IsPlain

pub IsFramed-append : (s t : Str) → IsFramed s → IsFramed t → IsFramed (s ++ t)
IsFramed-append s t hs ht = All-append IsPlain s t hs ht

pub printable : (c : ℕ) → 32 ≤ c → IsPlain c
printable c h = (omega arith, omega arith, omega arith, omega arith)

breaks_frame-IsPlain : (c : ℕ) → breaks_frame c ≡ false → IsPlain c
breaks_frame-IsPlain c h = (ground arith, ground arith, ground arith, ground arith)

pub hex_digit_printable : (d : ℕ) → 32 ≤ hex_digit d
unfolding hex_digit
hex_digit_printable d = ground arith

sanitize_sms_text-IsFramed : (s : Str) → IsFramed (sanitize_sms_text s)
unfolding sanitize_sms_text
sanitize_sms_text-IsFramed [] = tt
sanitize_sms_text-IsFramed (c ∷ s) = elim (Bool-cases (breaks_frame c)) [
  | inl e ↦ rw e (sanitize_sms_text-IsFramed s)
  | inr e ↦ rw e (breaks_frame-IsPlain c e, sanitize_sms_text-IsFramed s)
]

dialled-IsFramed : (s : Str) → IsFramed (dialled s)
unfolding dialled
dialled-IsFramed [] = tt
dialled-IsFramed (c ∷ s) = elim (Bool-cases (is_digit c || c == 43)) [
  | inl e ↦ rw e (printable c (sign c e), dialled-IsFramed s)
  | inr e ↦ rw e (dialled-IsFramed s)
]
  where
    sign : (x : ℕ) → (is_digit x || x == 43) ≡ true → 32 ≤ x
    sign x h = ground arith

pub hex_loop-IsFramed : (fuel n : ℕ) → IsFramed (hex_loop fuel n)
unfolding hex_loop
hex_loop-IsFramed zero n = (printable (hex_digit n) (hex_digit_printable n), tt)
hex_loop-IsFramed (suc fuel) n = elim (Bool-cases (ltb n 16)) [
  | inl e ↦ rw e (printable (hex_digit n) (hex_digit_printable n), tt)
  | inr e ↦ rw e (
      IsFramed-append (hex_loop fuel (n / 16)) _ (hex_loop-IsFramed fuel (n / 16))
        (printable _ (hex_digit_printable (n % 16)), tt))
]

zeros-IsFramed : (n : ℕ) → IsFramed (replicate n 48)
zeros-IsFramed zero = tt
zeros-IsFramed (suc n) = (printable 48 (omega arith), zeros-IsFramed n)

pub pad_start-IsFramed : (n : ℕ) (s : Str) → IsFramed s → IsFramed (pad_start n s)
unfolding pad_start
pad_start-IsFramed n s h =
    IsFramed-append (replicate (n - length s) 48) s (zeros-IsFramed (n - length s)) h

pub to_hex-IsFramed : (n : ℕ) → IsFramed (to_hex n)
unfolding to_hex
to_hex-IsFramed n = hex_loop-IsFramed n n

to_ucs2_hex-IsFramed : (s : Str) → IsFramed (to_ucs2_hex s)
unfolding to_ucs2_hex
to_ucs2_hex-IsFramed [] = tt
to_ucs2_hex-IsFramed (c ∷ s) =
    IsFramed-append (pad_start 4 (to_hex c)) (to_ucs2_hex s)
      (pad_start-IsFramed 4 (to_hex c) (to_hex-IsFramed c)) (to_ucs2_hex-IsFramed s)

pub literal : (s : Str) → all (λ c. ltb 31 c) s ≡ true → IsFramed s
literal [] h = tt
literal (c ∷ s) h = (printable c (shown c (&&-left _ _ h)), literal s (&&-right _ _ h))
  where
    shown : (x : ℕ) → ltb 31 x ≡ true → 32 ≤ x
    shown x e = ground arith

cmgs-IsFramed : (number text : Str) → IsFramed number → IsFramed text → IsFramed (cmgs number text)
cmgs-IsFramed number text hn ht =
    IsFramed-append (codes "AT+CMGS=\"") _ (literal (codes "AT+CMGS=\"") refl) (
      IsFramed-append number _ hn
        (IsFramed-append (codes "\"\\r") text (literal (codes "\"\\r") refl) ht))

-- Whatever the destination and the message, each of the commands that send it in text mode has no
-- carriage return, no line feed, no NUL and no Ctrl-Z: the modem reads one command each.
pub build_text_send_command-IsFramed :
    (destination message : Str)
    → All IsFramed (build_text_send_command destination message).pre
      × IsFramed (build_text_send_command destination message).cmd
      × All IsFramed (build_text_send_command destination message).post
unfolding build_text_send_command
build_text_send_command-IsFramed destination message = elim (Bool-cases (needs_ucs2 message)) [
  | inl e ↦ rw e (
    (literal (codes "AT+CSCS=\"UCS2\"") refl, (literal (codes "AT+CSMP=17,167,0,8") refl, tt)),
    cmgs-IsFramed _ _ (to_ucs2_hex-IsFramed (without_plus (dialled destination)))
        (to_ucs2_hex-IsFramed message),
    (literal (codes "AT+CSCS=\"IRA\"") refl, (literal (codes "AT+CSMP=17,167,0,0") refl, tt)),
  )
  | inr e ↦ rw e (
    tt,
    cmgs-IsFramed _ _ (dialled-IsFramed destination) (sanitize_sms_text-IsFramed message),
    tt,
  )
]
