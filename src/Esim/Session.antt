-- ===== src/Esim/Session.antt =====
-- A session with the ISD-R of the card: `selectAndPing`, `withIsdrSession`, `runOperation` and
-- `setNickname` of euicc.js.
pub mod Closed
pub mod NoNumber
pub mod Operations
pub mod Served
use mt5700_console.Base.{
  ℕ, zero, suc, ◌+◌, ◌-◌, ◌*◌, ◌/◌, ◌%◌, ◌^◌, ◌≤◌, ◌<◌, min, max, ◌≡◌, refl, sym, ap, ap₂, ◌∙◌, ◌≢◌,
  ◌↔◌, ◌⊎◌, inl, inr, Bool, true, false, not, ◌&&◌, ◌||◌, Option, none, some, List, [], ◌∷◌, ◌++◌,
  map, append-nil, append_assoc, arith, ltb, leb, ◌==◌, if◌then◌else◌, ltb→lt, ==_iff, Bool-cases,
  Option-cases, &&-left, &&-right, some_inj, length, get_elem?, get_or, take, drop, replicate,
  flatten, all, All, length-append, take-length-append, drop-length-append, take-append-drop,
  length-take, length-drop, flatten-append, All-append, All-take, All-drop, Str, codes, str_eq,
  str_eq_iff, starts_with, index_of, hex_digit, hex_value, hex_value-hex_digit, hex2, IsByte,
  IsUnit16, is_text,
}
use mt5700_console.Esim.{
  Code, bad_hex, no_channel, no_euicc, op_failed, policy_denied, busy, Failure, failure, Transport,
  csim, cgla, Modem, Client, M, pure, throw, ◌>>=◌, ◌>>◌, catch, lift,
}
use mt5700_console.Esim.Answers.{sw_level}
use mt5700_console.Esim.Apdus.{
  Ident, hex_to_bytes, open_channel_apdu, select_isdr_apdu, build_get_eid, build_profile_operation,
}
use mt5700_console.Esim.Exchange.{Collected, send_and_collect, do_close}
use mt5700_console.Esim.Texts.{is_hex_digit}
use mt5700_console.Tlv.{Head, hex_number, read_tlv_head, parse_tlv_children}

-- `parseEid`.
unfoldable pub parse_eid : Str → Str
parse_eid content = elim (index_of content (codes "5A10")) [
  | none ↦ []
  | some i ↦ take 32 (drop (i + 4) content)
]

-- `{ sw, eid }`.
pub record Ping : Type 0 where
  pub sw : Str
  pub eid : Str

abbrev pub failing : {A : Type 0} → Code ⊎ A → Failure ⊎ A
failing (inl e) = inl (failure e)
failing (inr a) = inr a

-- The test of `selectAndPing` on what SELECT gives.
unfoldable pub selected : Collected → Failure ⊎ Collected
selected s =
    if str_eq s.sw (codes "6A82")
    then inl (record (failure no_euicc) { maybe_no_euicc = true })
    else inr s

unfoldable pub select_and_ping : Modem → Transport → ℕ → M Ping
unfolding selected parse_eid
select_and_ping modem t ch = do
  s ← send_and_collect modem t ch (select_isdr_apdu ch)
  _ ← lift (selected s)
  apdu ← lift (failing (build_get_eid ch))
  r ← send_and_collect modem t ch apdu
  pure (record { sw = r.sw; eid = parse_eid r.content })

unfoldable pub first_channel : List ℕ → Failure ⊎ ℕ
first_channel [] = inl (failure no_channel)
first_channel (ch ∷ b) = if leb 1 ch && leb ch 19 then inr ch else inl (failure no_channel)

-- The number of the channel that MANAGE CHANNEL gave.
unfoldable pub channel_of : Collected → Failure ⊎ ℕ
unfolding first_channel
channel_of o =
    if not (str_eq o.sw (codes "9000"))
    then inl (failure no_channel)
    else elim (hex_to_bytes o.content) [ inl e ↦ inl (failure e) | inr b ↦ first_channel b ]

-- `lastChannel`, and the note where the number grew.
unfoldable pub note_channel : ℕ → Client → Client
note_channel ch c = record c {
  last_channel = ch;
  channel_leak_note =
      if ltb c.last_channel ch && ltb 0 c.last_channel
      then some (ch, c.last_channel)
      else c.channel_leak_note;
}

unfoldable pub open_channel : Modem → M ℕ
unfolding channel_of note_channel
open_channel modem = do
  o ← send_and_collect modem csim 0 open_channel_apdu
  ch ← lift (channel_of o)
  λ c. (note_channel ch c, inr ch)

abbrev pub is_no_channel : Code → Bool
is_no_channel no_channel = true
is_no_channel _ = false

-- The channel that is in use and its ping, or the value of `channel` when it fails and the error.
abbrev pub Entered : Type 0
Entered = (Option ℕ × Failure) ⊎ (ℕ × Ping)

abbrev pub entered : ℕ → Failure ⊎ Ping → Entered
entered ch (inl e) = inl (some ch, e)
entered ch (inr p) = inr (ch, p)

unfoldable pub ping_basic : Modem → Transport → Client → Client × Entered
ping_basic modem t c = let r = select_and_ping modem t 0 c in (r.0, entered 0 r.1)

abbrev pub is_unusable : Failure → Bool
is_unusable e = is_no_channel e.code || (e.channel_unsupported || e.maybe_no_euicc)

-- `doClose` of the channel that is given up, with the note of a leak.
unfoldable pub give_up : Modem → Transport → ℕ → Client → Client
unfolding do_close
give_up modem t ch c = record (do_close modem t (some ch) c) { channel_leak_note = none }

-- `pingOn`: on the channel, or on the basic channel where the other is of no use.
unfoldable pub ping_on : Modem → Transport → ℕ → Client → Client × Entered
unfolding select_and_ping ping_basic give_up
ping_on modem t ch c =
    let r = select_and_ping modem t ch c in
    elim r.1 [
      | inr p ↦ (r.0, inr (ch, p))
      | inl e ↦
          if not (ch == 0) && is_unusable e
          then ping_basic modem t (give_up modem t ch r.0)
          else (r.0, inl (some ch, e))
    ]

-- What the caller does in a session: it sends APDUs, and goes on by their results.
pub data Script (A : Type 0) : Type 0 where
  finish : A → Script A
  fail : Failure → Script A
  ask : Str → (Failure ⊎ Collected → Script A) → Script A

unfoldable pub run_script : {A : Type 0} → Modem → Transport → ℕ → Script A → M A
run_script modem t ch (finish a) c = (c, inr a)
run_script modem t ch (fail e) c = (c, inl e)
run_script modem t ch (ask apdu k) c =
    let r = send_and_collect modem t ch apdu c in run_script modem t ch (k r.1) r.0

-- The channel of a session: the nominal channel 1 on CGLA, else the one that the card opens, else
-- the basic channel.
unfoldable pub enter_session : Modem → Transport → Client → Client × Entered
unfolding ping_on open_channel ping_basic
enter_session modem cgla c = ping_on modem cgla 1 c
enter_session modem csim c =
    let o = open_channel modem c in
    elim o.1 [
      | inr ch ↦ ping_on modem csim ch o.0
      | inl e ↦
          if is_no_channel e.code || e.channel_unsupported
          then ping_basic modem csim o.0
          else (o.0, inl (none, e))
    ]

-- What the caller does, where there is a channel, and then the close, whether it fails or not.
unfoldable pub leave_session :
    {A : Type 0}
    → Modem
    → Transport
    → (ℕ → Ping → Script A)
    → Client × Entered
    → Client × (Failure ⊎ A)
leave_session modem t fn (c, inl (channel, e)) = (do_close modem t channel c, inl e)
leave_session modem t fn (c, inr (ch, ping)) =
    let r = run_script modem t ch (fn ch ping) c in (do_close modem t (some ch) r.0, r.1)

-- `withIsdrSession`.
unfoldable pub with_isdr_session : {A : Type 0} → Modem → Transport → (ℕ → Ping → Script A) → M A
with_isdr_session modem t fn c = leave_session modem t fn (enter_session modem t c)

-- The value of the first field `80` with an octet in it.
unfoldable pub result_field : List (Str × List ℕ) → Option ℕ
result_field [] = none
result_field ((tag, []) ∷ rest) = result_field rest
result_field ((tag, v ∷ vs) ∷ rest) =
    let later = result_field rest in if str_eq tag (codes "80") then some v else later

-- The fields of an envelope.
unfoldable pub envelope_result : List ℕ → Head → Option ℕ
unfolding result_field
envelope_result bytes root =
    if str_eq root.tag (codes "BF31")
      || (str_eq root.tag (codes "BF32")
          || (str_eq root.tag (codes "BF33") || str_eq root.tag (codes "BF29")))
    then elim (parse_tlv_children
        (take (root.value_end - root.value_start) (drop root.value_start bytes))) [
          | inl e ↦ none
          | inr children ↦ result_field children
        ]
    else none

-- `es10Result`, on the hexadecimal digits that the answers are.
unfoldable pub es10_result : Str → Option ℕ
unfolding envelope_result
es10_result content =
    if ltb (length content) 6
    then none
    else if starts_with (codes "80") content
    then some (hex_number 0 (take 2 (drop 4 content)))
    else elim (hex_to_bytes content) [
      | inl e ↦ none
      | inr bytes ↦ elim (read_tlv_head bytes 0) [
        | inl e ↦ none
        | inr root ↦ elim root [ none ↦ none | some h ↦ envelope_result bytes h ]
      ]
    ]

unfoldable pub es10_code_to_err : ℕ → Code
es10_code_to_err n = if n == 3 then policy_denied else if n == 5 then busy else op_failed

-- `/^9[0-9A-Fa-f]{3}$/`.
unfoldable pub is_accepted : Str → Bool
is_accepted sw = starts_with (codes "9") sw && (length sw == 4 && all is_hex_digit (drop 1 sw))

-- `{ sw, result, refreshPending }`.
pub record Outcome : Type 0 where
  pub sw : Str
  pub result : Option ℕ
  pub refresh_pending : Bool

-- By the result code of the card: none and 0 are a success.
unfoldable pub by_result : Collected → Failure ⊎ Outcome
unfolding es10_result es10_code_to_err
by_result r = elim (es10_result r.content) [
  | none ↦
      inr (record {
        sw = r.sw;
        result = none;
        refresh_pending = starts_with (codes "1") (drop 1 r.sw);
      })
  | some n ↦
      if n == 0
      then inr (record {
        sw = r.sw;
        result = some n;
        refresh_pending = starts_with (codes "1") (drop 1 r.sw);
      })
      else inl (record (failure (es10_code_to_err n)) { result = some n })
]

unfoldable pub operation_outcome : Collected → Failure ⊎ Outcome
unfolding is_accepted by_result
operation_outcome r =
    if is_accepted r.sw then by_result r else inl (record (failure op_failed) { sw = some r.sw })

abbrev pub to_script : {A : Type 0} → Failure ⊎ A → Script A
to_script (inl e) = fail e
to_script (inr a) = finish a

-- The rest of a script behind an answer.
abbrev pub then_with : {A : Type 0} → (Collected → Failure ⊎ A) → Failure ⊎ Collected → Script A
then_with f (inl e) = fail e
then_with f (inr r) = to_script (f r)

unfoldable pub operation_script : Str → Ident → Bool → ℕ → Ping → Script Outcome
unfolding operation_outcome
operation_script op ident refresh ch ping = elim (build_profile_operation ch op ident refresh) [
  | inl e ↦ fail (failure e)
  | inr apdu ↦ ask apdu (then_with operation_outcome)
]

unfoldable pub run_operation : Modem → Transport → Str → Ident → Bool → M Outcome
unfolding with_isdr_session operation_script
run_operation modem t op ident refresh =
    with_isdr_session modem t (operation_script op ident refresh)
