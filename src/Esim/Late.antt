-- ===== src/Esim/Late.antt =====
-- The answers that come late: `lateAnswerOf` and `recoverAfterTimeout` of euicc.js, which send plain
-- AT commands until the modem gives out what the card has answered.
pub mod Found
use mt5700_console.Base.{
  ℕ, zero, suc, ◌+◌, ◌-◌, ◌*◌, ◌/◌, ◌%◌, ◌^◌, ◌≤◌, ◌<◌, min, max, ◌≡◌, refl, sym, ap, ap₂, ◌∙◌, ◌≢◌,
  ◌↔◌, ◌⊎◌, inl, inr, Bool, true, false, not, ◌&&◌, ◌||◌, Option, none, some, List, [], ◌∷◌, ◌++◌,
  map, append-nil, append_assoc, arith, ltb, leb, ◌==◌, if◌then◌else◌, ltb→lt, ==_iff, Bool-cases,
  Option-cases, Sum-cases, inr_inj, not-true, &&-left, &&-right, some_inj, length, get_elem?,
  get_or, take, drop, replicate, flatten, all, All, length-append, take-length-append,
  drop-length-append, take-append-drop, length-take, length-drop, flatten-append, All-append,
  All-take, All-drop, Str, codes, str_eq, str_eq_iff, starts_with, index_of, hex_digit, hex_value,
  hex_value-hex_digit, hex2, IsByte, IsUnit16, is_text,
}
use mt5700_console.Esim.{at_error, Failure, failure, Transport, Reply, Modem, Client, M}
use mt5700_console.Esim.Answers.{Apdu, parse_apdu_answer, text_of}
use mt5700_console.Esim.Apdus.{get_response_apdu}
use mt5700_console.Esim.Exchange.{Collected, collect_rounds, max_rounds}

-- `/[+]C(GLA|SIM):/`.
unfoldable pub has_late_line : Str → Bool
has_late_line t = elim (index_of t (codes "+CGLA:")) [
  | some i ↦ true
  | none ↦ elim (index_of t (codes "+CSIM:")) [ some i ↦ true | none ↦ false ]
]

unfoldable pub late_answer_of : Transport → Str → Option Apdu
late_answer_of t text = if not (has_late_line text) then none else elim (parse_apdu_answer t text) [
  | none ↦ none
  | some a ↦ if is_text a.sw then some a else none
]

-- `send('AT', { fresh: true })`, so many times; none is a reply that is rejected.
abbrev pub plain_at : Str
plain_at = codes "AT"

unfoldable pub poll_burst : Modem → ℕ → Client → Client × List (Option Reply)
poll_burst modem zero c = (c, [])
poll_burst modem (suc n) c =
    let rest = poll_burst modem n (record c { sent = plain_at ∷ c.sent }) in
    (rest.0, modem (plain_at ∷ c.sent) ∷ rest.1)

unfoldable pub late_in : Transport → Option Reply → Option Apdu
late_in t none = none
late_in t (some r) = late_answer_of t (text_of r)

unfoldable pub first_late : Transport → List (Option Reply) → Option Apdu
first_late t [] = none
first_late t (r ∷ rs) =
    let rest = first_late t rs in elim (late_in t r) [ none ↦ rest | some a ↦ some a ]

-- `{ data, sw, latePolls }`; `recovered` is always true.
pub record Recovered : Type 0 where
  pub content : Str
  pub sw : Str
  pub late_polls : ℕ

abbrev pub recovered : ℕ → Failure ⊎ Collected → Failure ⊎ Recovered
recovered attempt (inl e) = inl e
recovered attempt (inr r) = inr (record { content = r.content; sw = r.sw; late_polls = attempt })

-- With an answer in hand: the rest of it, or itself.
unfoldable pub finish_late : Modem → Transport → ℕ → ℕ → Apdu → M Recovered
finish_late modem t ch attempt a c = elim a.has_more [
  | true ↦
      (let r =
          collect_rounds modem t ch (max_rounds t - 2) (get_response_apdu ch a.le) a.content c in
        (r.0, recovered attempt r.1))
  | false ↦ (c, inr (record { content = a.content; sw = a.sw; late_polls = attempt }))
]

-- The rounds: `left` is `maxPolls + 1 - attempt`, and `clock` is `Date.now()`, by what was sent.
unfoldable pub recover_rounds : Modem → Transport → (List Str → ℕ) → ℕ → ℕ → ℕ → ℕ → ℕ → M Recovered
recover_rounds modem t clock deadline burst ch zero attempt c = (c, inl (failure at_error))
recover_rounds modem t clock deadline burst ch (suc left) attempt c =
    let b = poll_burst modem burst c in
    let again = recover_rounds modem t clock deadline burst ch left (suc attempt) b.0 in
    if leb deadline (clock c.sent)
    then (c, inl (failure at_error))
    else elim (first_late t b.1) [ none ↦ again | some a ↦ finish_late modem t ch attempt a b.0 ]

-- `recoverAfterTimeout` from its first attempt on.
unfoldable pub recover_after_timeout :
    Modem → Transport → (List Str → ℕ) → ℕ → ℕ → ℕ → ℕ → M Recovered
recover_after_timeout modem t clock window_ms burst max_polls ch c =
    recover_rounds modem t clock (clock c.sent + window_ms) burst ch max_polls 1 c

unfoldable pub late_max_polls : ℕ
late_max_polls = 400

unfoldable pub late_burst : ℕ
late_burst = 4

unfoldable pub late_window_ms : ℕ
late_window_ms = 30000

unfoldable pub late_final_window_ms : ℕ
late_final_window_ms = 90000
