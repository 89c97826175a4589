-- ===== src/Esim/Session/Closed.antt =====
-- `withIsdrSession` of euicc.js closes the channel that it opens.
use mt5700_console.Base.{
  ℕ, ◌≤◌, ◌≡◌, refl, sym, ap, ◌∙◌, ◌⊎◌, inl, inr, Bool, true, false, not, ◌&&◌, none, some, List,
  [], ◌∷◌, ◌++◌, append_assoc, arith, leb, ◌==◌, Bool-cases, Sum-cases, inr_inj, Str, codes, str_eq,
  str_eq_iff, hex_digit, hex_value, hex2,
}
use mt5700_console.Base.Table.{holds_between, holds_between_lem}
use mt5700_console.Sms.Commands.{decimal}
use mt5700_console.Tlv.{is_hex}
use mt5700_console.Esim.{no_channel, failure, Transport, csim, Modem, Client, lift, ◌>>=◌}
use mt5700_console.Esim.Apdus.{apdu_command, close_channel_apdu, open_channel_apdu, hex_to_bytes}
use mt5700_console.Esim.Exchange.{Collected, command_of, do_close, send_and_collect}
use mt5700_console.Esim.Binds.{>>=-inr}
use mt5700_console.Esim.Growth.{
  Later, Later-trans, select_and_ping-Grows, run_script-Grows, do_close-Later, sent-send,
}
use mt5700_console.Esim.Session.{
  first_channel, Ping, Entered, ping_basic, is_unusable, give_up, ping_on, select_and_ping,
  channel_of, note_channel, open_channel, enter_session, leave_session, Script, run_script,
  with_isdr_session,
}

-- Between two states a command is sent.
pub record Closes (command : Str) (c c' : Client) : Type 0 where
  pub after : List Str
  pub before : List Str
  pub joins : c'.sent ≡ after ++ (command ∷ (before ++ c.sent))

Later-Closes :
    {command : Str} {a b c : Client} → Later a b → Closes command b c → Closes command a c
Later-Closes {command} {a} {b} {c} l k = record {
  after = k.after;
  before = k.before ++ l.new;
  joins =
      k.joins
      ∙ ap (λ s. k.after ++ (command ∷ s))
          (ap (◌++◌ k.before) l.joins ∙ sym (append_assoc k.before l.new a.sent));
}

Closes-Later :
    {command : Str} {a b c : Client} → Closes command a b → Later b c → Closes command a c
Closes-Later {command} {a} {b} {c} k l = record {
  after = l.new ++ k.after;
  before = k.before;
  joins =
      l.joins
      ∙ ap (◌++◌ l.new) k.joins
      ∙ sym (append_assoc l.new k.after (command ∷ (k.before ++ a.sent)));
}

-- The command that closes a channel, as it is written out.
pub close_command : ℕ → Str
close_command ch = codes "AT+CSIM=10,\"007080" ++ (hex2 ch ++ codes "00\"")

is_closing : ℕ → Bool
unfolding close_command
is_closing ch = elim (command_of csim (close_channel_apdu ch)) [
  | inl e ↦ false
  | inr s ↦ str_eq s (close_command ch)
]

closing_table : holds_between 1 19 is_closing ≡ true
unfolding holds_between is_closing close_command command_of str_eq apdu_command is_hex
    close_channel_apdu hex2 hex_value hex_digit decimal
closing_table = refl

command_of-close :
    (ch : ℕ) → 1 ≤ ch → ch ≤ 19 → command_of csim (close_channel_apdu ch) ≡ inr (close_command ch)
unfolding is_closing
command_of-close ch low high =
    let h = holds_between_lem is_closing 1 19 ch closing_table low (omega arith) in
    elim (Sum-cases (command_of csim (close_channel_apdu ch))) [
      | inl (e, q) ↦ (let x : false ≡ true = rw (q, is_closing) at h in cc)
      | inr (s, q) ↦ q ∙ ap inr ((str_eq_iff s (close_command ch)).0 (rw (q, is_closing) at h))
    ]

do_close-Closes :
    (modem : Modem) (ch : ℕ) (c : Client)
    → 1 ≤ ch
    → ch ≤ 19
    → Closes (close_command ch) c (do_close modem csim (some ch) c)
unfolding do_close
do_close-Closes modem ch c low high =
    rw (not_zero, command_of-close ch low high, do_close)
      (record { after = []; before = []; joins = sent-send modem (close_command ch) c })
  where
    not_zero : (ch == 0) ≡ false
    not_zero = ground arith

within : (b ch : ℕ) → (leb 1 b && leb b 19) ≡ true → b ≡ ch → (1 ≤ ch) × (ch ≤ 19)
within b ch t e = ground arith

first_octet-bounds : (bytes : List ℕ) (ch : ℕ) → first_channel bytes ≡ inr ch → (1 ≤ ch) × (ch ≤ 19)
unfolding first_channel
first_octet-bounds [] ch e = cc
first_octet-bounds (b ∷ bs) ch e = elim (Bool-cases (leb 1 b && leb b 19)) [
  | inr t ↦ (let q : inl (failure no_channel) ≡ inr ch = rw (t, first_channel) at e in cc)
  | inl t ↦ within b ch t (inr_inj (rw (t, first_channel) at e))
]

channel_of-bounds : (o : Collected) (ch : ℕ) → channel_of o ≡ inr ch → (1 ≤ ch) × (ch ≤ 19)
unfolding channel_of
channel_of-bounds o ch h = elim (Bool-cases (str_eq o.sw (codes "9000"))) [
  | inr e ↦ (let q : inl (failure no_channel) ≡ inr ch = rw (e, channel_of) at h in cc)
  | inl e ↦ elim (Sum-cases (hex_to_bytes o.content)) [
    | inl (x, q) ↦ (let z : inl (failure x) ≡ inr ch = rw (e, q, channel_of) at h in cc)
    | inr (bytes, q) ↦ first_octet-bounds bytes ch (rw (e, q, channel_of) at h)
  ]
]

open_channel-bounds :
    (modem : Modem) (c : Client) (ch : ℕ) → (open_channel modem c).1 ≡ inr ch → (1 ≤ ch) × (ch ≤ 19)
unfolding open_channel
open_channel-bounds modem c ch h =
    let (o, _, h') =
      >>=-inr (send_and_collect modem csim 0 open_channel_apdu)
        (λ o. lift (channel_of o) >>= λ n c. (note_channel n c, inr n)) c ch h in
    let (n, e, h'') =
      >>=-inr (lift (channel_of o)) (λ n c. (note_channel n c, inr n))
        (send_and_collect modem csim 0 open_channel_apdu c).0 ch h' in
    channel_of-bounds o ch (e ∙ h'')

-- The channel that an entered session holds.
HoldsChannel : ℕ → Entered → Type 0
HoldsChannel ch (inl (o, e)) = o ≡ some ch
HoldsChannel ch (inr (k, p)) = k ≡ ch

leave_session-Later :
    {A : Type 0} (modem : Modem) (t : Transport) (fn : ℕ → Ping → Script A) (s : Client × Entered)
    → Later s.0 (leave_session modem t fn s).0
unfolding leave_session
leave_session-Later modem t fn (c, inl (o, e)) = do_close-Later modem t o c
leave_session-Later modem t fn (c, inr (k, p)) =
    Later-trans (run_script-Grows modem t k (fn k p) c)
      (do_close-Later modem t (some k) (run_script modem t k (fn k p) c).0)

leave_session-Closes :
    {A : Type 0} (modem : Modem) (fn : ℕ → Ping → Script A) (ch : ℕ) (s : Client × Entered)
    → 1 ≤ ch
    → ch ≤ 19
    → HoldsChannel ch s.1
    → Closes (close_command ch) s.0 (leave_session modem csim fn s).0
unfolding leave_session HoldsChannel
leave_session-Closes modem fn ch (c, inl (o, e)) low high h =
    rw h (do_close-Closes modem ch c low high)
leave_session-Closes modem fn ch (c, inr (k, p)) low high h = rw h (
    Later-Closes (run_script-Grows modem csim ch (fn ch p) c)
      (do_close-Closes modem ch (run_script modem csim ch (fn ch p) c).0 low high))

ping_basic-Later : (modem : Modem) (t : Transport) (c : Client) → Later c (ping_basic modem t c).0
unfolding ping_basic
ping_basic-Later modem t c = select_and_ping-Grows modem t 0 c

-- Behind `pingOn` the channel is closed, or it is the one that is held.
ping_on-cases :
    (modem : Modem) (ch : ℕ) (c : Client)
    → 1 ≤ ch
    → ch ≤ 19
    → Closes (close_command ch) c (ping_on modem csim ch c).0
      ⊎ (Later c (ping_on modem csim ch c).0 × HoldsChannel ch (ping_on modem csim ch c).1)
unfolding ping_on HoldsChannel give_up
ping_on-cases modem ch c low high =
    let r = select_and_ping modem csim ch c in
    let l = select_and_ping-Grows modem csim ch c in
    elim (Sum-cases r.1) [
      | inr (p, e) ↦ rw (e, ping_on) (inr (l, refl))
      | inl (x, e) ↦ elim (Bool-cases (not (ch == 0) && is_unusable x)) [
        | inr u ↦ rw (e, u, ping_on) (inr (l, refl))
        | inl u ↦
            rw (e, u, ping_on)
              (inl (
                Closes-Later (Later-Closes l (closed (do_close-Closes modem ch r.0 low high)))
                  (ping_basic-Later modem csim (give_up modem csim ch r.0))))
      ]
    ]
  where
    closed :
        {a b : Client}
        → Closes (close_command ch) a b
        → Closes (close_command ch) a (record b { channel_leak_note = none })
    closed k = record { after = k.after; before = k.before; joins = k.joins }

enter_session-opened :
    (modem : Modem) (c : Client) (ch : ℕ)
    → (open_channel modem c).1 ≡ inr ch
    → enter_session modem csim c ≡ ping_on modem csim ch (open_channel modem c).0
unfolding enter_session
enter_session-opened modem c ch opened = rw (opened, enter_session) refl

-- On CSIM, where MANAGE CHANNEL gives a channel, the command that closes this channel is sent
-- before the session is over, whatever the modem answers and the caller does.
pub with_isdr_session-Closes :
    {A : Type 0} (modem : Modem) (fn : ℕ → Ping → Script A) (c : Client) (ch : ℕ)
    → (open_channel modem c).1 ≡ inr ch
    → Closes (close_command ch) (open_channel modem c).0 (with_isdr_session modem csim fn c).0
unfolding with_isdr_session
with_isdr_session-Closes modem fn c ch opened =
    let (low, high) = open_channel-bounds modem c ch opened in
    let start = (open_channel modem c).0 in
    rw (enter_session-opened modem c ch opened) (elim (ping_on-cases modem ch start low high) [
      | inl k ↦ Closes-Later k (leave_session-Later modem csim fn (ping_on modem csim ch start))
      | inr (l, h) ↦
          Later-Closes l (leave_session-Closes modem fn ch (ping_on modem csim ch start) low high h)
    ])
