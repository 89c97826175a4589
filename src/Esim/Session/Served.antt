-- ===== src/Esim/Session/Served.antt =====
-- What the caller of `withIsdrSession` of euicc.js can rely on.
use mt5700_console.Base.{
  ℕ, ◌≡◌, refl, ap, ◌∙◌, ◌⊎◌, inl, inr, not, ◌&&◌, ◌||◌, some, ◌==◌, Bool-cases, Sum-cases,
}
use mt5700_console.Esim.Apdus.{open_channel_apdu}
use mt5700_console.Esim.Growth.{
  Later, Later-same, Later-trans, Grows, lift-Grows, >>=-Grows, send_and_collect-Grows,
  select_and_ping-Grows, do_close-Later,
}
use mt5700_console.Esim.{lift, ◌>>=◌, Failure, Transport, csim, cgla, Modem, Client, M}
use mt5700_console.Esim.Exchange.{send_and_collect}
use mt5700_console.Esim.Session.{
  channel_of, note_channel, Ping, Entered, entered, ping_basic, is_unusable, give_up, ping_on,
  is_no_channel, select_and_ping, open_channel, enter_session, leave_session, Script, run_script,
  with_isdr_session,
}

-- In a state of this session, on a channel, the ISD-R was selected and gave its EID, and behind it
-- the script ended with the value.
pub record Serves {A : Type 0} (modem : Modem) (t : Transport) (fn : ℕ → Ping → Script A)
    (c : Client) (a : A) : Type 0 where
  pub channel : ℕ
  pub start : Client
  pub ping : Ping
  pub begun : Later c start
  pub pinged : (select_and_ping modem t channel start).1 ≡ inr ping
  pub served :
      (run_script modem t channel (fn channel ping) (select_and_ping modem t channel start).0).1
      ≡ inr a

-- An entry that succeeds is a ping.
record Pinged (modem : Modem) (t : Transport) (c s : Client) (ch : ℕ) (p : Ping) : Type 0 where
  start : Client
  begun : Later c start
  pings : select_and_ping modem t ch start ≡ (s, inr p)

IsPinged : Modem → Transport → Client → Client × Entered → Type 0
IsPinged modem t c (s, inl e) = Unit {0}
IsPinged modem t c (s, inr (ch, p)) = Pinged modem t c s ch p

ping_basic-IsPinged :
    (modem : Modem) (t : Transport) (b c : Client)
    → Later b c
    → IsPinged modem t b (ping_basic modem t c)
unfolding ping_basic IsPinged
ping_basic-IsPinged modem t b c l = from_result (select_and_ping modem t 0 c) refl
  where
    from_result :
        (r : Client × (Failure ⊎ Ping))
        → select_and_ping modem t 0 c ≡ r
        → IsPinged modem t b (r.0, entered 0 r.1)
    from_result (s, inl e) q = tt
    from_result (s, inr p) q = record { start = c; begun = l; pings = q }

give_up-Later :
    (modem : Modem) (t : Transport) (ch : ℕ) (c : Client) → Later c (give_up modem t ch c)
unfolding give_up
give_up-Later modem t ch c =
    let l = do_close-Later modem t (some ch) c in record { new = l.new; joins = l.joins }

ping_on-IsPinged :
    (modem : Modem) (t : Transport) (ch : ℕ) (b c : Client)
    → Later b c
    → IsPinged modem t b (ping_on modem t ch c)
unfolding ping_on IsPinged
ping_on-IsPinged modem t ch b c l = elim (Sum-cases (select_and_ping modem t ch c).1) [
  | inr (p, e) ↦
      rw (e, ping_on)
        (record {
          start = c;
          begun = l;
          pings = ap (λ (x : Failure ⊎ Ping). ((select_and_ping modem t ch c).0, x)) e;
        })
  | inl (x, e) ↦ elim (Bool-cases (not (ch == 0) && is_unusable x)) [
    | inl u ↦
        (let m = (select_and_ping modem t ch c).0 in
          rw (e, u, ping_on)
            (ping_basic-IsPinged modem t b (give_up modem t ch m) (
              Later-trans (Later-trans l (select_and_ping-Grows modem t ch c))
                (give_up-Later modem t ch m))))
    | inr u ↦ rw (e, u, ping_on) tt
  ]
]

noted : ℕ → M ℕ
noted ch c = (note_channel ch c, inr ch)

open_channel-Grows : (modem : Modem) → Grows (open_channel modem)
unfolding open_channel noted note_channel
open_channel-Grows modem =
    >>=-Grows (send_and_collect modem csim 0 open_channel_apdu) (λ o. lift (channel_of o) >>= noted)
      (send_and_collect-Grows modem csim 0 open_channel_apdu)
      (λ o.
        >>=-Grows (lift (channel_of o)) noted (lift-Grows (channel_of o)) (λ ch c. Later-same refl))

enter_session-IsPinged :
    (modem : Modem) (t : Transport) (c : Client) → IsPinged modem t c (enter_session modem t c)
unfolding enter_session IsPinged
enter_session-IsPinged modem cgla c = ping_on-IsPinged modem cgla 1 c c (Later-same refl)
enter_session-IsPinged modem csim c =
    let l = open_channel-Grows modem c in
    elim (Sum-cases (open_channel modem c).1) [
      | inr (ch, e) ↦
          rw (e, enter_session) (ping_on-IsPinged modem csim ch c (open_channel modem c).0 l)
      | inl (x, e) ↦ elim (Bool-cases (is_no_channel x.code || x.channel_unsupported)) [
        | inl u ↦
            rw (e, u, enter_session) (ping_basic-IsPinged modem csim c (open_channel modem c).0 l)
        | inr u ↦ rw (e, u, enter_session) tt
      ]
    ]

leave_session-Serves :
    {A : Type 0} (modem : Modem) (t : Transport) (fn : ℕ → Ping → Script A) (b : Client) (a : A)
    (s : Client × Entered)
    → IsPinged modem t b s
    → (leave_session modem t fn s).1 ≡ inr a
    → Serves modem t fn b a
unfolding IsPinged leave_session
leave_session-Serves modem t fn b a (c, inl (o, e)) p h = cc
leave_session-Serves modem t fn b a (c, inr (ch, ping)) p h = record {
  channel = ch;
  start = p.start;
  ping = ping;
  begun = p.begun;
  pinged = ap (λ (r : Client × (Failure ⊎ Ping)). r.1) p.pings;
  served =
      ap (λ (r : Client × (Failure ⊎ Ping)). (run_script modem t ch (fn ch ping) r.0).1) p.pings
      ∙ h;
}

-- A session that gives a value has run what the caller does on a channel on which, in this session
-- and right before, the ISD-R was selected and answered for its EID; the caller was given that
-- channel and that EID, and the value is what it ended with.
pub with_isdr_session-Serves :
    {A : Type 0} (modem : Modem) (t : Transport) (fn : ℕ → Ping → Script A) (c : Client) (a : A)
    → (with_isdr_session modem t fn c).1 ≡ inr a
    → Serves modem t fn c a
unfolding with_isdr_session
with_isdr_session-Serves modem t fn c a h =
    leave_session-Serves modem t fn c a (enter_session modem t c) (enter_session-IsPinged modem t c)
      h
