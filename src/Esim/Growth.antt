-- ===== src/Esim/Growth.antt =====
-- The chains of promises of euicc.js only ever add to the commands that were sent.
use mt5700_console.Base.{
  ℕ, zero, suc, ◌-◌, ◌≡◌, refl, sym, ap, ◌∙◌, ◌⊎◌, inl, inr, not, ◌||◌, Option, none, some, List,
  [], ◌∷◌, ◌++◌, append_assoc, ◌==◌, Bool-cases, Option-cases, Sum-cases, Str,
}
use mt5700_console.Esim.{is_csim, Failure, Transport, Modem, Client, M, pure, ◌>>=◌, lift}
use mt5700_console.Esim.Binds.{next_of}
use mt5700_console.Esim.Exchange.Rounds.{
  collect_rounds-zero, collect_rounds-suc, round_step, next_round,
}
use mt5700_console.Esim.Answers.{Apdu}
use mt5700_console.Esim.Apdus.{
  get_response_apdu, close_channel_apdu, select_isdr_apdu, build_get_eid,
}
use mt5700_console.Esim.Exchange.{
  Collected, send, command_of, answer_of, exchange, conclude, end_rounds, collect_rounds,
  send_and_collect, max_rounds, do_close,
}
use mt5700_console.Esim.Session.{
  Ping, selected, parse_eid, failing, select_and_ping, Script, finish, fail, ask, run_script,
}

-- The commands of the later state are new ones in front of those of the earlier.
pub record Later (c c' : Client) : Type 0 where
  pub new : List Str
  pub joins : c'.sent ≡ new ++ c.sent

pub Later-same : {c c' : Client} → c'.sent ≡ c.sent → Later c c'
Later-same e = record { new = []; joins = e }

pub Later-trans : {a b c : Client} → Later a b → Later b c → Later a c
Later-trans {a} {b} {c} p q = record {
  new = q.new ++ p.new;
  joins = q.joins ∙ ap (◌++◌ q.new) p.joins ∙ sym (append_assoc q.new p.new a.sent);
}

abbrev pub Grows : {A : Type 0} → M A → Type 0
Grows m = (c : Client) → Later c (m c).0

pub lift-Grows : {A : Type 0} (r : Failure ⊎ A) → Grows (lift r)
lift-Grows r c = Later-same refl

next_of-Later :
    {A B : Type 0} (f : A → M B) (r : Client × (Failure ⊎ A))
    → ((a : A) → Grows (f a))
    → Later r.0 (next_of f r).0
unfolding next_of
next_of-Later f (c, inl e) h = Later-same refl
next_of-Later f (c, inr a) h = h a c

pub >>=-Grows :
    {A B : Type 0} (m : M A) (f : A → M B) → Grows m → ((a : A) → Grows (f a)) → Grows (m >>= f)
unfolding next_of
>>=-Grows m f hm hf c = Later-trans (hm c) (next_of-Later f (m c) hf)

pub sent-send :
    (modem : Modem) (command : Str) (c : Client) → (send modem command c).0.sent ≡ command ∷ c.sent
unfolding send
sent-send modem command c = elim (Option-cases (modem (command ∷ c.sent))) [
  | inl e ↦ rw (e, send) refl
  | inr (r, e) ↦ rw (e, send) refl
]

pub send-Grows : (modem : Modem) (command : Str) → Grows (send modem command)
send-Grows modem command c = record { new = command ∷ []; joins = sent-send modem command c }

pub exchange-Grows : (modem : Modem) (t : Transport) (apdu : Str) → Grows (exchange modem t apdu)
unfolding exchange
exchange-Grows modem t apdu =
    >>=-Grows (lift (command_of t apdu))
      (λ command. send modem command >>= λ r. lift (answer_of t r)) (lift-Grows (command_of t apdu))
      (λ command.
        >>=-Grows (send modem command) (λ r. lift (answer_of t r)) (send-Grows modem command)
          (λ r. lift-Grows (answer_of t r)))

end_rounds-Grows : (t : Transport) (ch : ℕ) (acc : Str) (a : Apdu) → Grows (end_rounds t ch acc a)
unfolding end_rounds
end_rounds-Grows t ch acc a = elim (Bool-cases a.has_more) [
  | inl h ↦ rw h (λ c. Later-same refl)
  | inr h ↦ rw h (lift-Grows (conclude t ch a.sw (acc ++ a.content)))
]

round_step-Grows :
    (next : Apdu → M Collected) (t : Transport) (ch : ℕ) (acc : Str) (a : Apdu)
    → Grows (next a)
    → Grows (round_step next t ch acc a)
unfolding round_step
round_step-Grows next t ch acc a n = elim (Bool-cases a.has_more) [
  | inl h ↦ rw (h, round_step) n
  | inr h ↦ rw (h, round_step) (end_rounds-Grows t ch acc a)
]

pub collect_rounds-Grows :
    (modem : Modem) (t : Transport) (ch left : ℕ) (apdu acc : Str)
    → Grows (collect_rounds modem t ch left apdu acc)
unfolding next_round
collect_rounds-Grows modem t ch zero apdu acc c = rw collect_rounds-zero (
    >>=-Grows (exchange modem t apdu) (end_rounds t ch acc) (exchange-Grows modem t apdu)
      (end_rounds-Grows t ch acc) c)
collect_rounds-Grows modem t ch (suc left) apdu acc c = rw collect_rounds-suc (
    >>=-Grows (exchange modem t apdu) (round_step (next_round modem t ch left acc) t ch acc)
      (exchange-Grows modem t apdu)
      (λ a.
        round_step-Grows (next_round modem t ch left acc) t ch acc a
          (collect_rounds-Grows modem t ch left (get_response_apdu ch a.le) (acc ++ a.content)))
      c)

pub send_and_collect-Grows :
    (modem : Modem) (t : Transport) (ch : ℕ) (apdu : Str) → Grows (send_and_collect modem t ch apdu)
unfolding send_and_collect
send_and_collect-Grows modem t ch apdu = collect_rounds-Grows modem t ch (max_rounds t - 1) apdu []

ping_of : Collected → M Ping
ping_of r = pure (record { sw = r.sw; eid = parse_eid r.content })

ask_eid : Modem → Transport → ℕ → M Ping
unfolding ping_of
ask_eid modem t ch =
    lift (failing (build_get_eid ch)) >>= λ apdu. send_and_collect modem t ch apdu >>= ping_of

ask_eid-Grows : (modem : Modem) (t : Transport) (ch : ℕ) → Grows (ask_eid modem t ch)
unfolding ask_eid ping_of
ask_eid-Grows modem t ch =
    >>=-Grows (lift (failing (build_get_eid ch)))
      (λ apdu. send_and_collect modem t ch apdu >>= ping_of)
      (lift-Grows (failing (build_get_eid ch)))
      (λ apdu.
        >>=-Grows (send_and_collect modem t ch apdu) ping_of
          (send_and_collect-Grows modem t ch apdu) (λ r c. Later-same refl))

pub select_and_ping-Grows :
    (modem : Modem) (t : Transport) (ch : ℕ) → Grows (select_and_ping modem t ch)
unfolding select_and_ping ask_eid ping_of
select_and_ping-Grows modem t ch =
    >>=-Grows (send_and_collect modem t ch (select_isdr_apdu ch))
      (λ s. lift (selected s) >>= λ x. ask_eid modem t ch)
      (send_and_collect-Grows modem t ch (select_isdr_apdu ch))
      (λ s.
        >>=-Grows (lift (selected s)) (λ x. ask_eid modem t ch) (lift-Grows (selected s))
          (λ x. ask_eid-Grows modem t ch))

pub run_script-Grows :
    {A : Type 0} (modem : Modem) (t : Transport) (ch : ℕ) (s : Script A)
    → Grows (run_script modem t ch s)
unfolding run_script
run_script-Grows modem t ch (finish a) c = Later-same refl
run_script-Grows modem t ch (fail e) c = Later-same refl
run_script-Grows modem t ch (ask apdu k) c =
    let r = send_and_collect modem t ch apdu c in
    Later-trans (send_and_collect-Grows modem t ch apdu c) (run_script-Grows modem t ch (k r.1) r.0)

-- Closing adds one command at most.
pub do_close-Later :
    (modem : Modem) (t : Transport) (ch : Option ℕ) (c : Client) → Later c (do_close modem t ch c)
unfolding do_close
do_close-Later modem t none c = Later-same refl
do_close-Later modem t (some ch) c = elim (Bool-cases (ch == 0 || not (is_csim t))) [
  | inl e ↦ rw (e, do_close) (Later-same refl)
  | inr e ↦ elim (Sum-cases (command_of t (close_channel_apdu ch))) [
    | inl (f, h) ↦ rw (e, h, do_close) (Later-same refl)
    | inr (command, h) ↦ rw (e, h, do_close) (send-Grows modem command c)
  ]
]
