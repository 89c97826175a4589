-- ===== src/Esim/Session/Operations.antt =====
-- What a profile operation of euicc.js that succeeds says about the card.
use mt5700_console.Base.{
  ℕ, ◌≡◌, refl, sym, ap, ◌∙◌, ◌⊎◌, inl, inr, Bool, true, none, some, ◌==◌, ==_iff, Bool-cases,
  Option-cases, Sum-cases, &&-left, &&-right, length, Str, codes, starts_with,
}
use mt5700_console.Esim.{op_failed, Failure, failure, Transport, Modem, Client}
use mt5700_console.Esim.Apdus.{Ident, build_profile_operation}
use mt5700_console.Esim.Exchange.{Collected, send_and_collect}
use mt5700_console.Esim.Session.{
  Ping, select_and_ping, ask, then_with, to_script, run_script, es10_result, es10_code_to_err,
  is_accepted, by_result, operation_outcome, operation_script, run_operation, Outcome,
}
use mt5700_console.Esim.Growth.{Later}
use mt5700_console.Esim.Session.Served.{with_isdr_session-Serves}

-- The card answered the operation: in this session, on a channel on which the ISD-R had answered, with a status word
-- of the class 9, and with no result code but 0.
pub record Succeeds (modem : Modem) (t : Transport) (op : Str) (ident : Ident) (refresh : Bool)
    (c : Client) : Type 0 where
  pub channel : ℕ
  pub start : Client
  pub begun : Later c start
  pub ping : Ping
  pub pinged : (select_and_ping modem t channel start).1 ≡ inr ping
  pub apdu : Str
  pub built : build_profile_operation channel op ident refresh ≡ inr apdu
  pub response : Collected
  pub answered :
      (send_and_collect modem t channel apdu (select_and_ping modem t channel start).0).1
      ≡ inr response
  pub accepted : starts_with (codes "9") response.sw ≡ true
  pub whole : length response.sw ≡ 4
  pub no_error : (es10_result response.content ≡ none) ⊎ (es10_result response.content ≡ some 0)

by_result-inr :
    (r : Collected) (out : Outcome)
    → by_result r ≡ inr out
    → (es10_result r.content ≡ none) ⊎ (es10_result r.content ≡ some 0)
unfolding by_result
by_result-inr r out h = elim (Option-cases (es10_result r.content)) [
  | inl e ↦ inl e
  | inr (n, e) ↦ elim (Bool-cases (n == 0)) [
    | inl z ↦ inr (e ∙ ap some ((==_iff n 0).0 z))
    | inr z ↦
        (let q : inl (record (failure (es10_code_to_err n)) { result = some n }) ≡ inr out =
            rw (e, z, by_result) at h in
          cc)
  ]
]

operation_outcome-inr :
    (r : Collected) (out : Outcome)
    → operation_outcome r ≡ inr out
    → (is_accepted r.sw ≡ true) × (by_result r ≡ inr out)
unfolding operation_outcome
operation_outcome-inr r out h = elim (Bool-cases (is_accepted r.sw)) [
  | inl e ↦ (e, rw (e, operation_outcome) at h)
  | inr e ↦
      (let q : inl (record (failure op_failed) { sw = some r.sw }) ≡ inr out =
          rw (e, operation_outcome) at h in
        cc)
]

is_accepted-class :
    (sw : Str) → is_accepted sw ≡ true → (starts_with (codes "9") sw ≡ true) × (length sw ≡ 4)
unfolding is_accepted
is_accepted-class sw h = (&&-left _ _ h, (==_iff (length sw) 4).0 (&&-left _ _ (&&-right _ _ h)))

failed_inr : {B C : Type 0} (e : B) (a : C) → Path (B ⊎ C) (inl e) (inr a) → ⊥
failed_inr e a h = cc

to_script-end :
    {A : Type 0} (modem : Modem) (t : Transport) (ch : ℕ) (y : Failure ⊎ A) (c : Client)
    → (run_script modem t ch (to_script y) c).1 ≡ y
unfolding run_script
to_script-end modem t ch (inl e) c = refl
to_script-end modem t ch (inr a) c = refl

once_answered :
    {A : Type 0} (modem : Modem) (t : Transport) (ch : ℕ) (f : Collected → Failure ⊎ A)
    (r : Client × (Failure ⊎ Collected)) (a : A)
    → (run_script modem t ch (then_with f r.1) r.0).1 ≡ inr a
    → (x : Collected) × (r.1 ≡ inr x) × (f x ≡ inr a)
unfolding run_script
once_answered modem t ch f (d, inl e) a h = cc
once_answered modem t ch f (d, inr x) a h = (x, refl, sym (to_script-end modem t ch (f x) d) ∙ h)

-- A script that asks one APDU and looks at the response.
asks_once :
    {A : Type 0} (modem : Modem) (t : Transport) (ch : ℕ) (apdu : Str) (f : Collected → Failure ⊎ A)
    (c : Client) (a : A)
    → (run_script modem t ch (ask apdu (then_with f)) c).1 ≡ inr a
    → (r : Collected) × ((send_and_collect modem t ch apdu c).1 ≡ inr r) × (f r ≡ inr a)
unfolding run_script
asks_once modem t ch apdu f c a h =
    once_answered modem t ch f (send_and_collect modem t ch apdu c) a h

-- What a script of an operation that succeeds has asked.
record Asked (modem : Modem) (t : Transport) (op : Str) (ident : Ident) (refresh : Bool) (ch : ℕ)
    (c : Client) (out : Outcome) : Type 0 where
  apdu : Str
  built : build_profile_operation ch op ident refresh ≡ inr apdu
  response : Collected
  answered : (send_and_collect modem t ch apdu c).1 ≡ inr response
  judged : operation_outcome response ≡ inr out

operation_script-Asked :
    (modem : Modem) (t : Transport) (op : Str) (ident : Ident) (refresh : Bool) (ch : ℕ)
    (ping : Ping) (c : Client) (out : Outcome)
    → (run_script modem t ch (operation_script op ident refresh ch ping) c).1 ≡ inr out
    → Asked modem t op ident refresh ch c out
unfolding operation_script
operation_script-Asked modem t op ident refresh ch ping c out h =
    elim (Sum-cases (build_profile_operation ch op ident refresh)) [
      | inl (e, b) ↦ absurd (fails (failure e) (rw (b, operation_script) at h))
      | inr (apdu, b) ↦
          (let (r, q, j) =
              asks_once modem t ch apdu operation_outcome c out (rw (b, operation_script) at h) in
            record { apdu = apdu; built = b; response = r; answered = q; judged = j })
    ]
  where
    fails : (e : Failure) → (run_script modem t ch (to_script (inl e)) c).1 ≡ inr out → ⊥
    fails e q = failed_inr e out (sym (to_script-end modem t ch (inl e) c) ∙ q)

-- A profile operation that is reported as done was answered by the card: in this session, on a channel on which the
-- ISD-R had answered, with a status word of four digits that starts with 9, and without a result
-- code, or with the result code 0.
pub run_operation-Succeeds :
    (modem : Modem) (t : Transport) (op : Str) (ident : Ident) (refresh : Bool) (c : Client)
    (out : Outcome)
    → (run_operation modem t op ident refresh c).1 ≡ inr out
    → Succeeds modem t op ident refresh c
unfolding run_operation
run_operation-Succeeds modem t op ident refresh c out h =
    let s = with_isdr_session-Serves modem t (operation_script op ident refresh) c out h in
    let k =
      operation_script-Asked modem t op ident refresh s.channel s.ping
        (select_and_ping modem t s.channel s.start).0 out s.served in
    let (accepted, judged) = operation_outcome-inr k.response out k.judged in
    let (class, whole) = is_accepted-class k.response.sw accepted in
    record {
      channel = s.channel;
      start = s.start;
      begun = s.begun;
      ping = s.ping;
      pinged = s.pinged;
      apdu = k.apdu;
      built = k.built;
      response = k.response;
      answered = k.answered;
      accepted = class;
      whole = whole;
      no_error = by_result-inr k.response out judged;
    }
