-- ===== src/Link.antt =====
-- The connection of the command client of rpc.js: `connect`, `disconnect`, `reconnect`, the polling
-- of events, and the subscribers.
mod Tests
pub mod Polling
pub mod Bus
use mt5700_console.Base.{
  ℕ, zero, suc, ◌+◌, ◌-◌, ◌*◌, ◌/◌, ◌%◌, ◌^◌, ◌≤◌, ◌<◌, min, max, ◌≡◌, refl, sym, ap, ap₂, ◌∙◌, ◌≢◌,
  ◌↔◌, ◌⊎◌, inl, inr, Bool, true, false, not, ◌&&◌, ◌||◌, Option, none, some, List, [], ◌∷◌, ◌++◌,
  map, append-nil, append_assoc, arith, ltb, leb, ◌==◌, if◌then◌else◌, ltb→lt, ==_iff, Bool-cases,
  Option-cases, Sum-cases, inr_inj, not-true, &&-left, &&-right, some_inj, length, get_elem?,
  get_or, take, drop, replicate, flatten, all, All, length-append, take-length-append,
  drop-length-append, take-append-drop, length-take, length-drop, flatten-append, All-append,
  All-take, All-drop, Str, codes, str_eq, str_eq_iff, starts_with, index_of, hex_digit, hex_value,
  hex_value-hex_digit, hex2, IsByte, IsUnit16, is_text,
}
use mt5700_console.Cache.{includes}

pub data LinkState : Type 0 where
  idle disconnected connecting connected reconnecting error : LinkState

-- An event of the backend, and what a subscriber is given: its `type` and its `data`.
pub record Event : Type 0 where
  pub kind : Str
  pub content : Str

-- The fields of the client that the connection is about. A subscriber is a number, `polling` is
-- whether `pollTimer` is set, and `emitted` is what the subscribers were given, in order.
pub record Link : Type 0 where
  pub is_connected : Bool
  pub authenticated : Bool
  pub state : LinkState
  pub first_poll : Bool
  pub polling : Bool
  pub event_seq : ℕ
  pub subscribers : List ℕ
  pub emitted : List (ℕ × Event)

unfoldable pub set_connection_state : LinkState → Link → Link
set_connection_state s l = record l { state = s }

unfoldable pub start_polling : Link → Link
start_polling l = record l { polling = true }

unfoldable pub stop_polling : Link → Link
stop_polling l = record l { polling = false }

abbrev pub has_subscribers : List ℕ → Bool
has_subscribers [] = false
has_subscribers (s ∷ ss) = true

-- `connect` as far as it goes at once.
unfoldable pub connect : Link → Link
unfolding set_connection_state
connect l =
    if l.is_connected then set_connection_state connected l else set_connection_state connecting l

-- What `connect` does when the configuration is there.
unfoldable pub config_ready : Link → Link
unfolding start_polling
config_ready l =
    let up = record l {
      is_connected = true;
      authenticated = true;
      first_poll = true;
      state = connected;
    } in
    if has_subscribers l.subscribers then start_polling up else up

unfoldable pub disconnect : Link → Link
unfolding stop_polling set_connection_state
disconnect l =
    set_connection_state disconnected
      (record (stop_polling l) { is_connected = false; authenticated = false })

-- `reconnect` as far as it goes at once.
unfoldable pub reconnect : Link → Link
unfolding connect set_connection_state
reconnect l = if l.is_connected then l else connect (set_connection_state reconnecting l)

unfoldable pub is_subscribed : List ℕ → ℕ → Bool
is_subscribed [] cb = false
is_subscribed (s ∷ ss) cb = s == cb || is_subscribed ss cb

unfoldable pub remove_first : List ℕ → ℕ → List ℕ
remove_first [] cb = []
remove_first (s ∷ ss) cb = let rest = remove_first ss cb in if s == cb then ss else s ∷ rest

unfoldable pub subscribe : ℕ → Link → Link
unfolding is_subscribed start_polling
subscribe cb l =
    let more = record l { subscribers = l.subscribers ++ (cb ∷ []) } in
    if is_subscribed l.subscribers cb
    then l
    else if l.is_connected
    then start_polling more
    else more

unfoldable pub unsubscribe : ℕ → Link → Link
unfolding remove_first stop_polling
unsubscribe cb l =
    let fewer = record l { subscribers = remove_first l.subscribers cb } in
    if has_subscribers fewer.subscribers then fewer else stop_polling fewer

-- `emitPush`, to callbacks that only take what they are given.
unfoldable pub emit_push : Event → Link → Link
emit_push e l = record l { emitted = l.emitted ++ map (λ s. (s, e)) l.subscribers }

unfoldable pub emit_each : List Event → Link → Link
unfolding emit_push
emit_each [] l = l
emit_each (e ∷ es) l = emit_each es (emit_push e l)

abbrev pub push_kinds : List Str
push_kinds = codes "incoming_call" ∷ codes "new_sms" ∷ codes "pdcp_data" ∷ codes "urc_data" ∷ []

-- What `handlePush` gives out for an event. `raw` is what `parseRawData` makes of a text, which is
-- not modelled.
unfoldable pub pushes_of : (Str → List Event) → Event → List Event
pushes_of raw e =
    if str_eq e.kind (codes "raw_data")
    then raw e.content
    else if includes push_kinds e.kind
    then e ∷ []
    else []

unfoldable pub handle_push : (Str → List Event) → Event → Link → Link
unfolding pushes_of emit_each
handle_push raw e l = emit_each (pushes_of raw e) l

unfoldable pub handle_each : (Str → List Event) → List Event → Link → Link
unfolding handle_push
handle_each raw [] l = l
handle_each raw (e ∷ es) l = handle_each raw es (handle_push raw e l)

-- A response of `rpcEvents` that comes in: the number and the events.
unfoldable pub take_events : (Str → List Event) → ℕ → List Event → Link → Link
unfolding handle_each
take_events raw seq events l =
    if not l.is_connected
    then l
    else if l.first_poll
    then record l { event_seq = seq; first_poll = false }
    else handle_each raw events (record l { event_seq = seq })

-- A call of `rpcEvents` that fails; `timed_out` is the message of its own time limit.
unfoldable pub poll_failed : Bool → Link → Link
unfolding stop_polling set_connection_state
poll_failed timed_out l =
    if l.is_connected && not timed_out
    then stop_polling (record (set_connection_state error l) { is_connected = false })
    else l

-- The state behind the constructor; `seq` is the number that the browser kept.
unfoldable pub new_link : ℕ → Link
new_link seq = record {
  is_connected = false;
  authenticated = true;
  state = idle;
  first_poll = true;
  polling = false;
  event_seq = seq;
  subscribers = [];
  emitted = [];
}
