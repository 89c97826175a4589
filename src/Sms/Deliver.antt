-- ===== src/Sms/Deliver.antt =====
-- The messages that come in: `dcsEncoding`, `bcdDigit`, `decodeTimestamp` and
-- `decodeIncomingPdu` of parse.js.
pub mod Frame
pub mod Received
pub mod Dates
use mt5700_console.Base.{
  ℕ, zero, suc, ◌+◌, ◌-◌, ◌*◌, ◌/◌, ◌%◌, ◌^◌, ◌≤◌, ◌<◌, min, max, ◌≡◌, refl, sym, ap, ap₂, ◌∙◌, ◌≢◌,
  ◌↔◌, ◌⊎◌, inl, inr, Bool, true, false, not, ◌&&◌, ◌||◌, Option, none, some, List, [], ◌∷◌, ◌++◌,
  map, append-nil, append_assoc, arith, ltb, leb, ◌==◌, if◌then◌else◌, ltb→lt, ==_iff, Bool-cases,
  Option-cases, &&-left, &&-right, some_inj, length, get_elem?, get_or, take, drop, replicate,
  flatten, all, All, length-append, take-length-append, drop-length-append, take-append-drop,
  length-take, length-drop, flatten-append, All-append, All-take, All-drop, Str, codes, str_eq,
  str_eq_iff, starts_with, index_of, hex_digit, hex_value, hex_value-hex_digit, hex2, IsByte,
  IsUnit16, is_text,
}
use mt5700_console.Sms.UserData.{Partial, decode_user_data}
use mt5700_console.Sms.Address.{hex_to_bytes, decode_address}

-- 0 is the GSM alphabet, 1 is 8-bit data, 2 is UCS2.
unfoldable pub dcs_encoding : ℕ → ℕ
dcs_encoding dcs =
    let group = dcs / 16 in
    if group == 12 || (group == 13 || group == 14)
    then (if dcs / 8 % 2 == 1 then 2 else 0)
    else if group == 15
    then 0
    else dcs / 4 % 4

unfoldable pub bcd_digit : ℕ → ℕ
bcd_digit b = b % 16 * 10 + b / 16

-- What the code uses of JavaScript's `Date`, in local time.
pub record Clock (Date : Type 0) : Type 0 where
  pub now : Date
  pub make : ℕ → ℕ → ℕ → ℕ → ℕ → ℕ → Date
  pub full_year : Date → ℕ
  pub month : Date → ℕ
  pub date : Date → ℕ

-- What `decodeIncomingPdu` returns.
pub record Incoming (Date : Type 0) : Type 0 where
  pub sender : Str
  pub content : Str
  pub date : Date
  pub partial : Option Partial

-- `Math.ceil(udl * 7 / 8)`, or the octets that are counted.
unfoldable pub ud_len : ℕ → ℕ → ℕ
ud_len enc udl = if enc == 1 || enc == 2 then udl else (udl * 7 + 7) / 8

-- The octets from `pos` on; none where `pos` is NaN.
abbrev pub Place : Type 0
Place = Option (List ℕ)

-- `pos + n > raw.length`: a comparison with NaN is false.
abbrev pub is_short : ℕ → Place → Bool
is_short n none = false
is_short n (some octets) = ltb (length octets) n

-- `raw[pos]` where bits of it are taken, which is 0 for `undefined`.
abbrev pub octet_at : Place → ℕ
octet_at none = 0
octet_at (some octets) = get_or octets 0 0

-- `pos += n`.
abbrev pub advance : ℕ → Place → Place
advance n none = none
advance n (some octets) = some (drop n octets)

-- `raw.slice(pos, Math.min(pos + n, raw.length))`, which takes NaN for 0 at both ends.
abbrev pub slice_at : ℕ → Place → List ℕ
slice_at n none = []
slice_at n (some octets) = take n octets

-- `Math.ceil(oaLen / 2)`: NaN where `oaLen` is `undefined`.
abbrev pub half_up : Option ℕ → Option ℕ
half_up none = none
half_up (some len) = some ((len + 1) / 2)

-- `pos + 1 + n > raw.length`, and `pos += 2 + n`, where `n` may be NaN.
abbrev pub exceeds : Option ℕ → List ℕ → Bool
exceeds none octets = false
exceeds (some n) octets = ltb (length octets) (1 + n)

abbrev pub place_behind : Option ℕ → List ℕ → Place
place_behind none octets = none
place_behind (some n) octets = some (drop n (drop 2 octets))

unfoldable pub out_of_range : ℕ → ℕ → ℕ → ℕ → ℕ → Bool
out_of_range month day hour minute second =
    ltb month 1
    || (ltb 12 month
        || (ltb day 1 || (ltb 31 day || (ltb 23 hour || (ltb 59 minute || ltb 60 second)))))

module _ {Date : Type 0} (clock : Clock Date) where
  -- The date is read back: JavaScript carries a day that the month does not have into the next.
  unfoldable pub checked_date : ℕ → ℕ → ℕ → ℕ → ℕ → ℕ → Date
  checked_date year month day hour minute second =
      let d = clock.make year (month - 1) day hour minute second in
      if not (clock.full_year d == year)
        || (not (clock.month d == month - 1) || not (clock.date d == day))
      then clock.now
      else d

  unfoldable pub decode_timestamp : List ℕ → Date
  unfolding checked_date
  decode_timestamp (t0 ∷ t1 ∷ t2 ∷ t3 ∷ t4 ∷ t5 ∷ t6 ∷ ts) =
      let year = 2000 + bcd_digit t0 in
      let month = bcd_digit t1 in
      let day = bcd_digit t2 in
      let hour = bcd_digit t3 in
      let minute = bcd_digit t4 in
      let second = bcd_digit t5 in
      if out_of_range month day hour minute second
      then clock.now
      else checked_date year month day hour minute second
  decode_timestamp _ = clock.now

  -- From the length of the user data on.
  unfoldable pub read_content : ℕ → Str → ℕ → Date → Place → Option (Incoming Date)
  read_content first sender dcs date place =
      let enc = dcs_encoding dcs in
      let udl = octet_at place in
      let ud = slice_at (ud_len enc udl) (advance 1 place) in
      let (content, info) = decode_user_data (first / 64 % 2 == 1) enc udl ud in
      if is_short 1 place
      then none
      else some (record { sender = sender; content = content; date = date; partial = info.partial })

  -- From the protocol identifier on.
  unfoldable pub read_scheme : ℕ → Str → Place → Option (Incoming Date)
  unfolding read_content decode_timestamp
  read_scheme first sender place =
      let dcs = octet_at (advance 1 place) in
      let stamp = advance 2 place in
      if is_short 2 place
      then none
      else if is_short 7 stamp
      then none
      else read_content first sender dcs (decode_timestamp (slice_at 7 stamp)) (advance 7 stamp)

  -- From the first octet on. Where it is the last one, `oaLen` is `undefined`, and `decodeAddress`
  -- reads no octet there.
  unfoldable pub read_deliver : List ℕ → Option (Incoming Date)
  unfolding read_scheme
  read_deliver [] = none
  read_deliver (first ∷ octets) =
      let half = half_up (get_elem? octets 0) in
      let addr = decode_address (get_or octets 0 0) (get_or octets 1 0) (drop 2 octets) in
      if not (first % 4 == 0)
      then none
      else if exceeds half octets
      then none
      else read_scheme first addr.text (place_behind half octets)

  unfoldable pub decode_incoming : List ℕ → Option (Incoming Date)
  unfolding read_deliver
  decode_incoming (smsc_len ∷ a ∷ rest) = read_deliver (drop smsc_len (a ∷ rest))
  decode_incoming _ = none

  -- The outer `none` is for a string that has another character than hexadecimal digits, which
  -- the callers do not pass on.
  unfoldable pub decode_incoming_pdu : Str → Option (Option (Incoming Date))
  unfolding decode_incoming
  decode_incoming_pdu hex = elim (hex_to_bytes hex) [
    | none ↦ none
    | some raw ↦ some (decode_incoming raw)
  ]
