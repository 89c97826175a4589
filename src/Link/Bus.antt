-- ===== src/Link/Bus.antt =====
-- The events of the backend as `EventBus` of src/rust/src/rpcserver.rs keeps and gives them out,
-- and the polls of the client, one after the other.
pub mod Deliveries
pub mod Fronts
pub mod Given
pub mod Delivered
use mt5700_console.Base.{
  ℕ, zero, suc, ◌+◌, ◌-◌, ◌*◌, ◌/◌, ◌%◌, ◌^◌, ◌≤◌, ◌<◌, min, max, ◌≡◌, refl, sym, ap, ap₂, ◌∙◌, ◌≢◌,
  ◌↔◌, ◌⊎◌, inl, inr, Bool, true, false, not, ◌&&◌, ◌||◌, Option, none, some, List, [], ◌∷◌, ◌++◌,
  map, append-nil, append_assoc, arith, ltb, leb, ◌==◌, if◌then◌else◌, ltb→lt, ==_iff, Bool-cases,
  Option-cases, Sum-cases, inr_inj, not-true, &&-left, &&-right, some_inj, length, get_elem?,
  get_or, take, drop, replicate, flatten, all, All, length-append, take-length-append,
  drop-length-append, take-append-drop, length-take, length-drop, flatten-append, All-append,
  All-take, All-drop, Str, codes, str_eq, str_eq_iff, starts_with, index_of, hex_digit, hex_value,
  hex_value-hex_digit, hex2, IsByte, IsUnit16,
}
use mt5700_console.Link.{Event, Link, take_events}

-- The events of the queue with their numbers, from the one behind a number on: `push` numbers them
-- in order, and a queue that is not full drops none.
unfoldable pub queue_from : ℕ → List Event → List (ℕ × Event)
queue_from j [] = []
queue_from j (e ∷ es) = (suc j, e) ∷ queue_from (suc j) es

-- The loop of `since`; `size` is the length of an event as JSON, with its line feed, `some_out`
-- whether there is one in the answer, and `last` its number.
unfoldable pub since_loop : (Event → ℕ) → ℕ → ℕ → ℕ → Bool → ℕ → List (ℕ × Event) → ℕ × List Event
since_loop size budget since bytes some_out last [] = (last, [])
since_loop size budget since bytes some_out last ((s, v) ∷ q) =
    let skipped = since_loop size budget since bytes some_out last q in
    let taken = since_loop size budget since (bytes + size v) true s q in
    if leb s since
    then skipped
    else if ltb budget (bytes + size v) && some_out
    then (last, [])
    else (taken.0, v ∷ taken.1)

unfoldable pub since : (Event → ℕ) → ℕ → ℕ → List (ℕ × Event) → ℕ × List Event
since size budget from q = since_loop size budget from 0 false from q

-- The client with its calls of `rpcEvents` that wait for an answer, the oldest first; a call is the
-- number that it asks behind.
pub record Wire : Type 0 where
  pub link : Link
  pub calls : List ℕ

-- `pollEvents` as far as it goes at once.
unfoldable pub call_events : Wire → Wire
call_events w =
    if w.link.is_connected then record w { calls = w.calls ++ (w.link.event_seq ∷ []) } else w

-- The bus answers the oldest call.
unfoldable pub answer_call : (Str → List Event) → (Event → ℕ) → ℕ → List Event → Wire → Wire
answer_call raw size budget log w = elim w.calls [
  | [] ↦ w
  | from ∷ later ↦
      let r = since size budget from (queue_from 0 log) in
      record { link = take_events raw r.0 r.1 w.link; calls = later }
]

-- A poll whose answer comes before anything else happens.
unfoldable pub poll_events : (Str → List Event) → (Event → ℕ) → ℕ → List Event → Link → Link
unfolding call_events answer_call
poll_events raw size budget log l =
    (answer_call raw size budget log (call_events (record { link = l; calls = [] }))).link

unfoldable pub poll_times : (Str → List Event) → (Event → ℕ) → ℕ → List Event → ℕ → Link → Link
poll_times raw size budget log zero l = l
poll_times raw size budget log (suc n) l =
    poll_times raw size budget log n (poll_events raw size budget log l)
