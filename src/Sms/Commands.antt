-- ===== src/Sms/Commands.antt =====
-- The commands that send a message: `buildPduSendCommand`, `toUcs2Hex`, `sanitizeSmsText` and
-- `buildTextSendCommand` of smsEncode.js.
pub mod Framing
pub mod PduFraming
use mt5700_console.Base.{
  ℕ, zero, suc, ◌+◌, ◌-◌, ◌*◌, ◌/◌, ◌%◌, ◌^◌, ◌≤◌, ◌<◌, min, max, ◌≡◌, refl, sym, ap, ap₂, ◌∙◌, ◌≢◌,
  ◌↔◌, ◌⊎◌, inl, inr, Bool, true, false, not, ◌&&◌, ◌||◌, Option, none, some, List, [], ◌∷◌, ◌++◌,
  map, append-nil, append_assoc, arith, ltb, leb, ◌==◌, if◌then◌else◌, ltb→lt, ==_iff, Bool-cases,
  Option-cases, &&-left, &&-right, some_inj, length, get_elem?, get_or, take, drop, replicate,
  flatten, all, All, length-append, take-length-append, drop-length-append, take-append-drop,
  length-take, length-drop, flatten-append, All-append, All-take, All-drop, Str, codes, str_eq,
  str_eq_iff, starts_with, index_of, hex_digit, hex_value, hex_value-hex_digit, hex2, IsByte,
  IsUnit16, is_text,
}
use mt5700_console.Sms.Gsm7.{needs_ucs2}
use mt5700_console.Sms.Address.{is_digit, to_hex, pad_start}
use mt5700_console.Sms.Submit.{SubmitPart}

-- A backslash and an `r`, not a carriage return.
abbrev pub data_sep : Str
data_sep = 92 ∷ 114 ∷ []

-- `String(n)`, on fuel; `n` rounds are enough.
unfoldable pub decimal_loop : ℕ → ℕ → Str
decimal_loop zero n = (48 + n % 10) ∷ []
decimal_loop (suc fuel) n =
    let rest = decimal_loop fuel (n / 10) in
    if ltb n 10 then (48 + n) ∷ [] else rest ++ ((48 + n % 10) ∷ [])

unfoldable pub decimal : ℕ → Str
unfolding decimal_loop
decimal n = decimal_loop n n

unfoldable pub build_pdu_send_command : SubmitPart → Str
build_pdu_send_command part =
    codes "AT+CMGS=" ++ (decimal part.tpdu_length ++ (data_sep ++ part.pdu))

unfoldable pub to_ucs2_hex : Str → Str
to_ucs2_hex [] = []
to_ucs2_hex (c ∷ s) = pad_start 4 (to_hex c) ++ to_ucs2_hex s

-- `/[\r\n\x00\x1a]/`.
abbrev pub breaks_frame : ℕ → Bool
breaks_frame c = c == 13 || (c == 10 || (c == 0 || c == 26))

unfoldable pub sanitize_sms_text : Str → Str
sanitize_sms_text [] = []
sanitize_sms_text (c ∷ s) =
    let rest = sanitize_sms_text s in if breaks_frame c then rest else c ∷ rest

-- `.replace(/[^\d+]/g, '')`; `trim` before it removes no digit and no plus sign.
unfoldable pub dialled : Str → Str
dialled [] = []
dialled (c ∷ s) = let rest = dialled s in if is_digit c || c == 43 then c ∷ rest else rest

-- `.replace(/^\+/, '')`.
unfoldable pub without_plus : Str → Str
without_plus [] = []
without_plus (c ∷ s) = if c == 43 then s else c ∷ s

-- `{ pre, cmd, post }`.
pub record TextSend : Type 0 where
  pub pre : List Str
  pub cmd : Str
  pub post : List Str

abbrev quote : Str
quote = 34 ∷ []

abbrev pub cmgs : Str → Str → Str
cmgs number text = codes "AT+CMGS=\"" ++ (number ++ (quote ++ (data_sep ++ text)))

unfoldable pub build_text_send_command : Str → Str → TextSend
build_text_send_command destination message =
    let da = dialled destination in
    if not (needs_ucs2 message)
    then record { pre = []; cmd = cmgs da (sanitize_sms_text message); post = [] }
    else record {
      pre = codes "AT+CSCS=\"UCS2\"" ∷ codes "AT+CSMP=17,167,0,8" ∷ [];
      cmd = cmgs (to_ucs2_hex (without_plus da)) (to_ucs2_hex message);
      post = codes "AT+CSCS=\"IRA\"" ∷ codes "AT+CSMP=17,167,0,0" ∷ [];
    }
