-- ===== src/Esim/Exchange.antt =====
-- `sendAndCollect` and `doClose` of euicc.js: a command to the card, and the GET RESPONSE rounds
-- that fetch the rest of its answer.

pub mod Relation
pub mod Rounds
pub mod Bounds
use mt5700_console.Base.{
  ℕ, zero, suc, ◌+◌, ◌-◌, ◌*◌, ◌/◌, ◌%◌, ◌^◌, ◌≤◌, ◌<◌, min, max, ◌≡◌, refl, sym, ap, ap₂, ◌∙◌, ◌≢◌,
  ◌↔◌, ◌⊎◌, inl, inr, Bool, true, false, not, ◌&&◌, ◌||◌, Option, none, some, List, [], ◌∷◌, ◌++◌,
  map, append-nil, append_assoc, arith, ltb, leb, ◌==◌, if◌then◌else◌, ltb→lt, ==_iff, Bool-cases,
  Option-cases, &&-left, &&-right, some_inj, length, get_elem?, get_or, take, drop, replicate,
  flatten, all, All, length-append, take-length-append, drop-length-append, take-append-drop,
  length-take, length-drop, flatten-append, All-append, All-take, All-drop, Str, codes, str_eq,
  str_eq_iff, starts_with, index_of, hex_digit, hex_value, hex_value-hex_digit, hex2, IsByte,
  IsUnit16, is_text,
}
use mt5700_console.Esim.{
  Code, at_error, busy, no_card, tlv_truncated, csim_truncated, no_euicc, op_failed, send_rejected,
  Failure, failure, Transport, csim, cgla, is_csim, Reply, Modem, Client, M, pure, throw, ◌>>=◌,
  ◌>>◌, lift,
}
use mt5700_console.Esim.Answers
use mt5700_console.Esim.Answers.{
  Apdu, parse_apdu_answer, text_of, AtFailure, at_failure, Level, sw_level,
  is_channel_unsupported_sw,
}
use mt5700_console.Esim.Apdus.{apdu_command, get_response_apdu, close_channel_apdu}
use mt5700_console.Tlv.{tlv_total_bytes}

-- `{ data, sw }`.
pub record Collected : Type 0 where
  pub content : Str
  pub sw : Str

-- `maxRounds()`.
unfoldable pub max_rounds : Transport → ℕ
max_rounds csim = 8
max_rounds cgla = 64

unfoldable pub csim_max_response_bytes : ℕ
csim_max_response_bytes = 256

-- `send(command)`.
unfoldable pub send : Modem → Str → M Reply
send modem command c = elim (modem (command ∷ c.sent)) [
  | none ↦ (record c { sent = command ∷ c.sent }, inl (failure send_rejected))
  | some r ↦ (record c { sent = command ∷ c.sent }, inr r)
]

unfoldable pub command_of : Transport → Str → Failure ⊎ Str
command_of t apdu = elim (apdu_command t apdu) [ inl e ↦ inl (failure e) | inr s ↦ inr s ]

-- What a reply without a failure at the AT level says.
unfoldable pub read_answer : Transport → Reply → Failure ⊎ Apdu
read_answer t r = elim (parse_apdu_answer t (text_of r)) [
  | none ↦ inl (failure at_error)
  | some a ↦ inr a
]

unfoldable pub answer_of : Transport → Reply → Failure ⊎ Apdu
unfolding read_answer
answer_of t r = elim (at_failure r) [
  | Answers.failed ↦ inl (failure at_error)
  | Answers.busy ↦ inl (failure busy)
  | Answers.no_card ↦ inl (failure no_card)
  | Answers.empty ↦ inl (failure at_error)
  | Answers.transport ↦ inl (failure at_error)
  | Answers.fine ↦ read_answer t r
  | Answers.cme code ↦ read_answer t r
]

-- One APDU: the command, the reply, and what it says.
unfoldable pub exchange : Modem → Transport → Str → M Apdu
unfolding send command_of answer_of
exchange modem t apdu = do
  command ← lift (command_of t apdu)
  r ← send modem command
  lift (answer_of t r)

-- A response that AT+CSIM has cut off at its buffer: shorter than it says, and a multiple of 256.
unfoldable pub is_cut : Transport → Str → Bool
is_cut t content = elim (tlv_total_bytes content) [
  | none ↦ false
  | some want ↦
      is_csim t
      && (ltb 0 want
          && (ltb (length content) (2 * want)
              && length content % (2 * csim_max_response_bytes) == 0))
]

unfoldable pub sw_failure : Code → ℕ → Str → Failure
sw_failure code ch sw = record {
  code = code;
  sw = some sw;
  channel_unsupported = is_channel_unsupported_sw sw;
  maybe_no_euicc = str_eq sw (codes "6A82") && not (ch == 0);
  result = none;
}

-- By the level of the status word: the response, or the error.
unfoldable pub judge : ℕ → Str → Str → Failure ⊎ Collected
unfolding sw_failure
judge ch sw content = elim (sw_level sw) [
  | Answers.fatal ↦ inl (sw_failure no_euicc ch sw)
  | Answers.error ↦ inl (sw_failure op_failed ch sw)
  | Answers.ok ↦ inr (record { content = content; sw = sw })
  | Answers.warn ↦ inr (record { content = content; sw = sw })
  | Answers.more ↦ inr (record { content = content; sw = sw })
]

unfoldable pub conclude : Transport → ℕ → Str → Str → Failure ⊎ Collected
unfolding is_cut judge
conclude t ch sw content =
    if is_cut t content then inl (failure csim_truncated) else judge ch sw content

-- Behind the last answer, or where no round is left.
unfoldable pub end_rounds : Transport → ℕ → Str → Apdu → M Collected
end_rounds t ch acc a =
    if a.has_more
    then throw (failure tlv_truncated)
    else lift (conclude t ch a.sw (acc ++ a.content))

-- `sendAndCollect`: `left` is how many rounds of GET RESPONSE may follow, which is
-- `maxRounds() - 1 - round`, and `acc` is the parts so far, joined.
unfoldable pub collect_rounds : Modem → Transport → ℕ → ℕ → Str → Str → M Collected
collect_rounds modem t ch zero apdu acc = do a ← exchange modem t apdu; end_rounds t ch acc a
collect_rounds modem t ch (suc left) apdu acc = do
  a ← exchange modem t apdu
  elim a.has_more [
    | true ↦ collect_rounds modem t ch left (get_response_apdu ch a.le) (acc ++ a.content)
    | false ↦ end_rounds t ch acc a
  ]

-- `sendAndCollect(send, ch, apdu, 0, '')`.
unfoldable pub send_and_collect : Modem → Transport → ℕ → Str → M Collected
unfolding collect_rounds
send_and_collect modem t ch apdu = collect_rounds modem t ch (max_rounds t - 1) apdu []

-- `doClose`, which fails never; `none` is a channel that is not set.
unfoldable pub do_close : Modem → Transport → Option ℕ → Client → Client
unfolding send command_of
do_close modem t none c = c
do_close modem t (some ch) c =
    if ch == 0 || not (is_csim t) then c else elim (command_of t (close_channel_apdu ch)) [
      | inl e ↦ c
      | inr command ↦ (send modem command c).0
    ]
