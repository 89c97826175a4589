-- ===== src/Esim/Exchange/Bounds.antt =====
-- How many commands `sendAndCollect` of euicc.js sends.
use mt5700_console.Base.{
  ℕ, zero, suc, ◌+◌, ◌≤◌, ◌⊎◌, inl, inr, [], ◌++◌, arith, Bool-cases, length, Str,
}
use mt5700_console.Esim.{Failure, Transport, csim, cgla, Modem, Client, M, lift, ◌>>=◌}
use mt5700_console.Esim.Answers.{Apdu}
use mt5700_console.Esim.Apdus.{get_response_apdu}
use mt5700_console.Esim.Binds.{next_of}
use mt5700_console.Esim.Growth.{sent-send}
use mt5700_console.Esim.Exchange.{
  Collected, send, command_of, answer_of, exchange, end_rounds, collect_rounds, send_and_collect,
  max_rounds,
}
use mt5700_console.Esim.Exchange.Rounds.{
  collect_rounds-zero, collect_rounds-suc, round_step, next_round,
}

-- At most so many commands more.
abbrev IsBounded : {A : Type 0} → ℕ → M A → Type 0
IsBounded n m = (c : Client) → length (m c).0.sent ≤ length c.sent + n

next_of-bound :
    {A B : Type 0} (n : ℕ) (f : A → M B) (r : Client × (Failure ⊎ A))
    → ((a : A) → IsBounded n (f a))
    → length (next_of f r).0.sent ≤ length r.0.sent + n
unfolding next_of
next_of-bound n f (c, inl e) h = omega arith
next_of-bound n f (c, inr a) h = h a c

>>=-IsBounded :
    {A B : Type 0} (n k : ℕ) (m : M A) (f : A → M B)
    → IsBounded n m
    → ((a : A) → IsBounded k (f a))
    → IsBounded (n + k) (m >>= f)
unfolding next_of
>>=-IsBounded n k m f hm hf c = omega (arith, hm c, next_of-bound k f (m c) hf)

send-IsBounded : (modem : Modem) (command : Str) → IsBounded 1 (send modem command)
send-IsBounded modem command c = rw sent-send (omega arith)

exchange-IsBounded :
    (modem : Modem) (t : Transport) (apdu : Str) → IsBounded 1 (exchange modem t apdu)
unfolding exchange
exchange-IsBounded modem t apdu =
    >>=-IsBounded 0 1 (lift (command_of t apdu))
      (λ command. send modem command >>= λ r. lift (answer_of t r)) (λ c. omega arith)
      (λ command.
        >>=-IsBounded 1 0 (send modem command) (λ r. lift (answer_of t r))
          (send-IsBounded modem command) (λ r c. omega arith))

end_rounds-IsBounded :
    (t : Transport) (ch : ℕ) (acc : Str) (a : Apdu) → IsBounded 0 (end_rounds t ch acc a)
unfolding end_rounds
end_rounds-IsBounded t ch acc a c = elim (Bool-cases a.has_more) [
  | inl h ↦ rw (h, end_rounds) (omega arith)
  | inr h ↦ rw (h, end_rounds) (omega arith)
]

round_step-IsBounded :
    (n : ℕ) (next : Apdu → M Collected) (t : Transport) (ch : ℕ) (acc : Str) (a : Apdu)
    → IsBounded n (next a)
    → IsBounded n (round_step next t ch acc a)
unfolding round_step
round_step-IsBounded n next t ch acc a h c = elim (Bool-cases a.has_more) [
  | inl m ↦ rw (m, round_step) (h c)
  | inr m ↦ rw (m, round_step) (omega (arith, end_rounds-IsBounded t ch acc a c))
]

collect_rounds-IsBounded :
    (modem : Modem) (t : Transport) (ch left : ℕ) (apdu acc : Str)
    → IsBounded (suc left) (collect_rounds modem t ch left apdu acc)
unfolding next_round
collect_rounds-IsBounded modem t ch zero apdu acc c = rw collect_rounds-zero (
    >>=-IsBounded 1 0 (exchange modem t apdu) (end_rounds t ch acc)
      (exchange-IsBounded modem t apdu) (end_rounds-IsBounded t ch acc) c)
collect_rounds-IsBounded modem t ch (suc left) apdu acc c = rw collect_rounds-suc (
    omega (
      arith,
      >>=-IsBounded 1 (suc left) (exchange modem t apdu)
          (round_step (next_round modem t ch left acc) t ch acc) (exchange-IsBounded modem t apdu)
          (λ a. round_step-IsBounded (suc left) (next_round modem t ch left acc) t ch acc a (
            collect_rounds-IsBounded modem t ch left (get_response_apdu ch a.le)
              (acc ++ a.content)))
          c,
    ))

-- However the modem answers, fetching a response takes 8 commands at most on CSIM, and 64 on CGLA.
pub send_and_collect-bound :
    (modem : Modem) (t : Transport) (ch : ℕ) (apdu : Str) (c : Client)
    → length (send_and_collect modem t ch apdu c).0.sent
      ≤ length c.sent + elim t [ csim ↦ 8 | cgla ↦ 64 ]
unfolding send_and_collect max_rounds
send_and_collect-bound modem csim ch apdu c = collect_rounds-IsBounded modem csim ch 7 apdu [] c
send_and_collect-bound modem cgla ch apdu c = collect_rounds-IsBounded modem cgla ch 63 apdu [] c
