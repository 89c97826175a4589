-- ===== src/Esim/Late/Found.antt =====
-- The recovery of euicc.js finds an answer that comes in time, and leaves the card alone until then.
use mt5700_console.Base.{
  ℕ, zero, suc, ◌+◌, ◌*◌, ◌<◌, ◌≡◌, refl, ap, ap₂, ◌∙◌, ◌⊎◌, inr, false, none, some, List, ◌∷◌,
  ◌++◌, arith, leb, replicate, Str,
}
use mt5700_console.Esim.{Failure, Transport, Modem, Client}
use mt5700_console.Esim.Answers.{Apdu}
use mt5700_console.Esim.Late.{
  plain_at, poll_burst, first_late, Recovered, finish_late, recover_rounds, recover_after_timeout,
}

-- The client after so many plain commands more.
unfoldable pub after_polls : ℕ → Client → Client
after_polls n c = record c { sent = replicate n plain_at ++ c.sent }

replicate-cons :
    (n : ℕ) (s : List Str)
    → replicate n plain_at ++ (plain_at ∷ s) ≡ plain_at ∷ (replicate n plain_at ++ s)
replicate-cons zero s = refl
replicate-cons (suc n) s = ap (◌∷◌ plain_at) (replicate-cons n s)

replicate-add :
    (n m : ℕ) (s : List Str)
    → replicate n plain_at ++ (replicate m plain_at ++ s) ≡ replicate (n + m) plain_at ++ s
replicate-add zero m s = ap (λ (k : ℕ). replicate k plain_at ++ s) (zero_add m)
  where
    zero_add : (m : ℕ) → m ≡ 0 + m
    zero_add m = omega arith
replicate-add (suc n) m s =
    ap (◌∷◌ plain_at) (replicate-add n m s) ∙ ap (λ k. replicate k plain_at ++ s) (suc_add n m)
  where
    suc_add : (n m : ℕ) → suc (n + m) ≡ suc n + m
    suc_add n m = omega arith

poll_burst-after_polls :
    (modem : Modem) (n : ℕ) (c : Client) → (poll_burst modem n c).0 ≡ after_polls n c
unfolding poll_burst after_polls
poll_burst-after_polls modem zero c = refl
poll_burst-after_polls modem (suc n) c =
    poll_burst-after_polls modem n (record c { sent = plain_at ∷ c.sent })
    ∙ ap (λ s. record c { sent = s }) (replicate-cons n c.sent)

-- Before the deadline, so many rounds bring nothing, and the next one an answer that is whole.
unfoldable pub IsAnswered : Modem → Transport → (List Str → ℕ) → ℕ → ℕ → ℕ → Apdu → Client → Type 0
IsAnswered modem t clock deadline burst zero a c =
    (clock c.sent < deadline)
    × (first_late t (poll_burst modem burst c).1 ≡ some a)
    × (a.has_more ≡ false)
IsAnswered modem t clock deadline burst (suc quiet) a c =
    (clock c.sent < deadline)
    × (first_late t (poll_burst modem burst c).1 ≡ none)
    × IsAnswered modem t clock deadline burst quiet a (after_polls burst c)

in_time : (n d : ℕ) → n < d → leb d n ≡ false
in_time n d h = ground arith

after_polls-add :
    (n m k : ℕ) (c : Client) → n + m ≡ k → after_polls n (after_polls m c) ≡ after_polls k c
unfolding after_polls
after_polls-add n m k c e =
    ap (λ s. record c { sent = s })
      (replicate-add n m c.sent ∙ ap (λ i. replicate i plain_at ++ c.sent) e)

-- A result, by the client, the answer and the attempt.
found_at : Apdu → Client → ℕ → Client × (Failure ⊎ Recovered)
found_at a c n = (c, inr (record { content = a.content; sw = a.sw; late_polls = n }))

one_more : (n burst : ℕ) → suc n * burst + burst ≡ suc (suc n) * burst
one_more n burst = omega arith

recover_rounds-finds :
    (modem : Modem) (t : Transport) (clock : List Str → ℕ)
    (deadline burst ch left attempt quiet : ℕ) (a : Apdu) (c : Client)
    → quiet < left
    → IsAnswered modem t clock deadline burst quiet a c
    → recover_rounds modem t clock deadline burst ch left attempt c ≡ (
      after_polls (suc quiet * burst) c,
      inr (record { content = a.content; sw = a.sw; late_polls = attempt + quiet }),
    )
unfolding recover_rounds IsAnswered finish_late found_at
recover_rounds-finds modem t clock deadline burst ch zero attempt quiet a c l h =
    absurd (omega arith)
recover_rounds-finds modem t clock deadline burst ch (suc left) attempt zero a c l
      (time, found, whole) =
    rw (in_time (clock c.sent) deadline time, found, whole, finish_late, recover_rounds)
      (ap₂ (found_at a)
        (poll_burst-after_polls modem burst c ∙ ap (λ k. after_polls k c) (one_burst burst))
        (plus_zero attempt))
  where
    one_burst : (n : ℕ) → n ≡ 1 * n
    one_burst n = omega arith

    plus_zero : (n : ℕ) → n ≡ n + 0
    plus_zero n = omega arith
recover_rounds-finds modem t clock deadline burst ch (suc left) attempt (suc quiet) a c l
      (time, none_yet, h) =
    rw (in_time (clock c.sent) deadline time, none_yet, recover_rounds)
      (ap (recover_rounds modem t clock deadline burst ch left (suc attempt))
          (poll_burst-after_polls modem burst c)
        ∙ recover_rounds-finds modem t clock deadline burst ch left (suc attempt) quiet a
            (after_polls burst c) (omega arith) h
        ∙ ap₂ (found_at a)
            (after_polls-add (suc quiet * burst) burst (suc (suc quiet) * burst) c
              (one_more quiet burst))
            (next_attempt attempt quiet))
  where
    next_attempt : (n m : ℕ) → suc n + m ≡ n + suc m
    next_attempt n m = omega arith

-- Where the clock stays before the deadline and the modem gives out the whole answer of the card in
-- the round behind some quiet ones, fewer than are allowed, the recovery gives this answer and the
-- number of the round, and until then it has sent plain AT commands only, a burst in each round.
pub recover_after_timeout-finds :
    (modem : Modem) (t : Transport) (clock : List Str → ℕ) (window_ms burst max_polls ch quiet : ℕ)
    (a : Apdu) (c : Client)
    → quiet < max_polls
    → IsAnswered modem t clock (clock c.sent + window_ms) burst quiet a c
    → recover_after_timeout modem t clock window_ms burst max_polls ch c ≡ (
      after_polls (suc quiet * burst) c,
      inr (record { content = a.content; sw = a.sw; late_polls = 1 + quiet }),
    )
unfolding recover_after_timeout
recover_after_timeout-finds modem t clock window_ms burst max_polls ch quiet a c l h =
    recover_rounds-finds modem t clock (clock c.sent + window_ms) burst ch max_polls 1 quiet a c l h
