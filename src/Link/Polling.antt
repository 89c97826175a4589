-- ===== src/Link/Polling.antt =====
-- When the client of rpc.js polls for events, whatever happens and in whatever order.
use mt5700_console.Base.{
  ℕ, ◌≡◌, refl, sym, ap₂, ◌∙◌, Bool, true, false, not, ◌&&◌, List, [], ◌∷◌, ◌++◌, arith,
  if◌then◌else◌, Str,
}
use mt5700_console.Link.{
  Event, Link, connect, config_ready, disconnect, reconnect, subscribe, unsubscribe, emit_push,
  emit_each, handle_push, handle_each, pushes_of, take_events, poll_failed, new_link,
  has_subscribers, remove_first, set_connection_state, start_polling, stop_polling,
}

-- Anything that may happen to the client: a call of the pages, a promise that is resolved at any
-- time, a response that comes in, or a call that fails.
pub data Step (raw : Str → List Event) : Link → Link → Type 0 where
  connects : (l : Link) → Step raw l (connect l)
  readies : (l : Link) → Step raw l (config_ready l)
  disconnects : (l : Link) → Step raw l (disconnect l)
  reconnects : (l : Link) → Step raw l (reconnect l)
  subscribes : (cb : ℕ) (l : Link) → Step raw l (subscribe cb l)
  unsubscribes : (cb : ℕ) (l : Link) → Step raw l (unsubscribe cb l)
  takes : (seq : ℕ) (events : List Event) (l : Link) → Step raw l (take_events raw seq events l)
  fails : (timed_out : Bool) (l : Link) → Step raw l (poll_failed timed_out l)

-- The states of a client that starts with a number of the browser.
pub data Reached (raw : Str → List Event) (seq : ℕ) : Link → Type 0 where
  starts : Reached raw seq (new_link seq)
  goes : {l l' : Link} → Reached raw seq l → Step raw l l' → Reached raw seq l'

-- It polls if and only if it is connected and has a subscriber.
pub IsAligned : Link → Type 0
IsAligned l = l.polling ≡ (l.is_connected && has_subscribers l.subscribers)

connect-IsAligned : (l : Link) → IsAligned l → IsAligned (connect l)
unfolding IsAligned connect set_connection_state
connect-IsAligned l h = ground arith

config_ready-IsAligned : (l : Link) → IsAligned l → IsAligned (config_ready l)
unfolding IsAligned config_ready start_polling
config_ready-IsAligned l h = ground arith

disconnect-IsAligned : (l : Link) → IsAligned (disconnect l)
unfolding IsAligned disconnect set_connection_state stop_polling
disconnect-IsAligned l = refl

reconnect-IsAligned : (l : Link) → IsAligned l → IsAligned (reconnect l)
unfolding IsAligned reconnect set_connection_state connect
reconnect-IsAligned l h = ground arith

has_one_more : (ss : List ℕ) (cb : ℕ) → has_subscribers (ss ++ (cb ∷ [])) ≡ true
has_one_more [] cb = refl
has_one_more (s ∷ ss) cb = refl

subscribe-IsAligned : (cb : ℕ) (l : Link) → IsAligned l → IsAligned (subscribe cb l)
unfolding IsAligned subscribe start_polling
subscribe-IsAligned cb l h = ground (arith, has_one_more l.subscribers cb)

unsubscribe-IsAligned : (cb : ℕ) (l : Link) → IsAligned l → IsAligned (unsubscribe cb l)
unfolding IsAligned unsubscribe stop_polling
unsubscribe-IsAligned cb l h = ground (arith, fewer_has l.subscribers cb)
  where
    fewer_has :
        (ss : List ℕ) (cb : ℕ)
        → has_subscribers (remove_first ss cb) ≡ true
        → has_subscribers ss ≡ true
    fewer_has [] cb e = e
    fewer_has (s ∷ ss) cb e = refl

-- The fields that the polling depends on, and handling events leaves alone.
abbrev AreSame : Link → Link → Type 0
AreSame l l' =
    (l'.polling ≡ l.polling) × (l'.is_connected ≡ l.is_connected) × (l'.subscribers ≡ l.subscribers)

emit_each-AreSame : (es : List Event) (l : Link) → AreSame l (emit_each es l)
unfolding emit_each emit_push
emit_each-AreSame [] l = (refl, refl, refl)
emit_each-AreSame (e ∷ es) l = emit_each-AreSame es (emit_push e l)

handle_each-AreSame :
    (raw : Str → List Event) (es : List Event) (l : Link) → AreSame l (handle_each raw es l)
unfolding handle_each handle_push
handle_each-AreSame raw [] l = (refl, refl, refl)
handle_each-AreSame raw (e ∷ es) l =
    let (a, b, c) = emit_each-AreSame (pushes_of raw e) l in
    let (x, y, z) = handle_each-AreSame raw es (handle_push raw e l) in (x ∙ a, y ∙ b, z ∙ c)

AreSame-IsAligned : (l l' : Link) → AreSame l l' → IsAligned l → IsAligned l'
unfolding IsAligned
AreSame-IsAligned l l' (a, b, c) h = a ∙ h ∙ ap₂ (λ x y. x && has_subscribers y) (sym b) (sym c)

either-IsAligned :
    (b : Bool) (l l' : Link) → IsAligned l → IsAligned l' → IsAligned (if b then l else l')
either-IsAligned true l l' h h' = h
either-IsAligned false l l' h h' = h'

take_events-IsAligned :
    (raw : Str → List Event) (seq : ℕ) (events : List Event) (l : Link)
    → IsAligned l
    → IsAligned (take_events raw seq events l)
unfolding IsAligned take_events
take_events-IsAligned raw seq events l h = either-IsAligned (not l.is_connected) l _ h (
    either-IsAligned l.first_poll (record l { event_seq = seq; first_poll = false }) _ h
      (AreSame-IsAligned (record l { event_seq = seq })
        (handle_each raw events (record l { event_seq = seq }))
        (handle_each-AreSame raw events (record l { event_seq = seq })) h))

poll_failed-IsAligned :
    (timed_out : Bool) (l : Link) → IsAligned l → IsAligned (poll_failed timed_out l)
unfolding IsAligned poll_failed stop_polling set_connection_state
poll_failed-IsAligned timed_out l h = ground arith

Step-IsAligned : {raw : Str → List Event} {l l' : Link} → Step raw l l' → IsAligned l → IsAligned l'
Step-IsAligned (connects l) h = connect-IsAligned l h
Step-IsAligned (readies l) h = config_ready-IsAligned l h
Step-IsAligned (disconnects l) h = disconnect-IsAligned l
Step-IsAligned (reconnects l) h = reconnect-IsAligned l h
Step-IsAligned (subscribes cb l) h = subscribe-IsAligned cb l h
Step-IsAligned (unsubscribes cb l) h = unsubscribe-IsAligned cb l h
Step-IsAligned {raw} (takes seq events l) h = take_events-IsAligned raw seq events l h
Step-IsAligned (fails timed_out l) h = poll_failed-IsAligned timed_out l h

-- In every state that is reached, by whatever calls, responses and failures in whatever order, the
-- client polls for events if and only if it is connected and has a subscriber.
pub Reached-IsAligned :
    {raw : Str → List Event} {seq : ℕ} {l : Link} → Reached raw seq l → IsAligned l
unfolding IsAligned new_link
Reached-IsAligned starts = refl
Reached-IsAligned (goes r s) = Step-IsAligned s (Reached-IsAligned r)
