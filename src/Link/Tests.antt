-- ===== src/Link/Tests.antt =====
-- A page that subscribes, a connection, and three events in two answers.
use mt5700_console.Base.{
  ℕ, ◌+◌, ◌≤◌, ◌⊎◌, take, ◌≡◌, refl, true, false, List, [], ◌∷◌, ◌++◌, arith, Str, codes,
}
use mt5700_console.Link.{
  Event, Link, connected, new_link, connect, config_ready, subscribe, set_connection_state,
  start_polling, is_subscribed, take_events,
}
use mt5700_console.Link.Polling.{
  Reached, starts, goes, connects, readies, subscribes, takes, IsAligned, Reached-IsAligned,
}
use mt5700_console.Link.Bus.{call_events, answer_call, poll_times}
use mt5700_console.Link.Bus.Given.{Given}
use mt5700_console.Link.Bus.Delivered.{poll_times-delivers, quiet, answer_call-call_events}

abbrev no_lines : Str → List Event
no_lines text = []

abbrev message : ℕ → Event
message n = record { kind = codes "new_sms"; content = n ∷ [] }

abbrev running : Link
running = record {
  is_connected = true;
  authenticated = true;
  state = connected;
  first_poll = false;
  polling = true;
  event_seq = 1;
  subscribers = 7 ∷ [];
  emitted = [];
}

running-Reached : Reached no_lines 0 running
unfolding new_link connect config_ready subscribe set_connection_state start_polling is_subscribed
    take_events
running-Reached =
    goes
      (goes (goes (goes starts (subscribes 7 (new_link 0))) (connects (subscribe 7 (new_link 0))))
        (readies (connect (subscribe 7 (new_link 0)))))
      (takes 1 [] (config_ready (connect (subscribe 7 (new_link 0)))))

Reached-IsAligned_example : IsAligned running
Reached-IsAligned_example = Reached-IsAligned running-Reached

abbrev eight : Event → ℕ
eight e = 8

poll_times-delivers_example :
    (ds : List (ℕ × Event)) × Given no_lines (7 ∷ []) (message 2 ∷ message 3 ∷ []) ds
    × (poll_times no_lines eight 10 (message 1 ∷ message 2 ∷ message 3 ∷ []) 2 running
        ≡ record running { event_seq = 3; emitted = ds })
poll_times-delivers_example =
    poll_times-delivers no_lines eight 10 2 (message 1 ∷ []) (message 2 ∷ message 3 ∷ []) running
      refl refl refl (omega arith)

answer_call-call_events_example :
    (let w = call_events (call_events (quiet running)) in
      (w.calls ≡ 1 ∷ 1 ∷ [])
      × (n : ℕ) × ((1 ≤ n) ⊎ ((message 2 ∷ []) ≡ []))
      × (ds : List (ℕ × Event)) × Given no_lines (7 ∷ []) (take n (message 2 ∷ [])) ds
      × ((answer_call no_lines eight 10
            (message 1 ∷ message 2 ∷ [])
            (answer_call no_lines eight 10 (message 1 ∷ message 2 ∷ []) w)).link
          ≡ record running { event_seq = 1 + n; emitted = ([] ++ ds) ++ ds }))
answer_call-call_events_example =
    answer_call-call_events no_lines eight 10 (message 1 ∷ []) (message 2 ∷ []) running refl refl
      refl
