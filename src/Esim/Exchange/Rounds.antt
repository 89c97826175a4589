-- ===== src/Esim/Exchange/Rounds.antt =====
-- The rounds of `sendAndCollect` of euicc.js, one at a time.
use mt5700_console.Base.{
  ℕ, zero, suc, ◌≡◌, refl, ap, inl, inr, Bool, true, false, ◌++◌, if◌then◌else◌, Str,
}
use mt5700_console.Esim.{tlv_truncated, failure, Transport, Modem, Client, M, throw, lift, ◌>>=◌}
use mt5700_console.Esim.Answers.{Apdu}
use mt5700_console.Esim.Apdus.{get_response_apdu}
use mt5700_console.Esim.Binds.{>>=-to}
use mt5700_console.Esim.Exchange.{Collected, exchange, end_rounds, conclude, collect_rounds}

-- One round, and what follows it.
unfoldable pub round_step : (Apdu → M Collected) → Transport → ℕ → Str → Apdu → M Collected
round_step next t ch acc a = elim a.has_more [ true ↦ next a | false ↦ end_rounds t ch acc a ]

unfoldable pub next_round : Modem → Transport → ℕ → ℕ → Str → Apdu → M Collected
next_round modem t ch left acc a =
    collect_rounds modem t ch left (get_response_apdu ch a.le) (acc ++ a.content)

pub collect_rounds-zero :
    (modem : Modem) (t : Transport) (ch : ℕ) (apdu acc : Str) (c : Client)
    → collect_rounds modem t ch zero apdu acc c ≡ (exchange modem t apdu >>= end_rounds t ch acc) c
unfolding collect_rounds
collect_rounds-zero modem t ch apdu acc c = refl

pub collect_rounds-suc :
    (modem : Modem) (t : Transport) (ch left : ℕ) (apdu acc : Str) (c : Client)
    → collect_rounds modem t ch (suc left) apdu acc c
      ≡ (exchange modem t apdu >>= round_step (next_round modem t ch left acc) t ch acc) c
unfolding collect_rounds round_step next_round
collect_rounds-suc modem t ch left apdu acc c = refl

end_rounds-last :
    (t : Transport) (ch : ℕ) (acc : Str) (a : Apdu) (c : Client)
    → a.has_more ≡ false
    → end_rounds t ch acc a c ≡ (c, conclude t ch a.sw (acc ++ a.content))
unfolding end_rounds
end_rounds-last t ch acc a c h =
    ap
      (λ (b : Bool).
        (if b then throw (failure tlv_truncated) else lift (conclude t ch a.sw (acc ++ a.content)))
          c)
      h

end_rounds-more :
    (t : Transport) (ch : ℕ) (acc : Str) (a : Apdu) (c : Client)
    → a.has_more ≡ true
    → end_rounds t ch acc a c ≡ (c, inl (failure tlv_truncated))
unfolding end_rounds
end_rounds-more t ch acc a c h =
    ap
      (λ (b : Bool).
        (if b then throw (failure tlv_truncated) else lift (conclude t ch a.sw (acc ++ a.content)))
          c)
      h

pub collect-last :
    (modem : Modem) (t : Transport) (ch left : ℕ) (apdu acc : Str) (c c' : Client) (a : Apdu)
    → exchange modem t apdu c ≡ (c', inr a)
    → a.has_more ≡ false
    → collect_rounds modem t ch left apdu acc c ≡ (c', conclude t ch a.sw (acc ++ a.content))
unfolding round_step
collect-last modem t ch zero apdu acc c c' a e h =
    rw (collect_rounds-zero, >>=-to _ (end_rounds t ch acc) c c' a e)
      (end_rounds-last t ch acc a c' h)
collect-last modem t ch (suc left) apdu acc c c' a e h =
    rw
      (
        collect_rounds-suc,
        >>=-to _ (round_step (next_round modem t ch left acc) t ch acc) c c' a e,
        h,
        round_step,
      )
      (end_rounds-last t ch acc a c' h)

pub collect-part :
    (modem : Modem) (t : Transport) (ch left : ℕ) (apdu acc : Str) (c c' : Client) (a : Apdu)
    → exchange modem t apdu c ≡ (c', inr a)
    → a.has_more ≡ true
    → collect_rounds modem t ch (suc left) apdu acc c
      ≡ collect_rounds modem t ch left (get_response_apdu ch a.le) (acc ++ a.content) c'
unfolding round_step next_round
collect-part modem t ch left apdu acc c c' a e h =
    rw
      (
        collect_rounds-suc,
        >>=-to _ (round_step (next_round modem t ch left acc) t ch acc) c c' a e,
        h,
        round_step,
      )
      refl

pub collect_rounds-zero-more :
    (modem : Modem) (t : Transport) (ch : ℕ) (apdu acc : Str) (c c₁ : Client) (a : Apdu)
    → exchange modem t apdu c ≡ (c₁, inr a)
    → a.has_more ≡ true
    → collect_rounds modem t ch zero apdu acc c ≡ (c₁, inl (failure tlv_truncated))
collect_rounds-zero-more modem t ch apdu acc c c₁ a e h =
    rw (collect_rounds-zero, >>=-to _ (end_rounds t ch acc) c c₁ a e)
      (end_rounds-more t ch acc a c₁ h)
