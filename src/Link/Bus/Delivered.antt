-- ===== src/Link/Bus/Delivered.antt =====
-- Every event of the bus reaches every subscriber of rpc.js once, in order, and twice where polls
-- overlap.
use mt5700_console.Base.{
  ℕ, zero, suc, ◌+◌, ◌≤◌, ◌≡◌, refl, sym, ap, ap₂, ◌∙◌, ◌⊎◌, inl, inr, true, false, List, [], ◌∷◌,
  ◌++◌, append-nil, append_assoc, arith, length, take, drop, length-append, take-append-drop,
  length-take, length-drop, Str,
}
use mt5700_console.Link.{Event, Link, take_events}
use mt5700_console.Link.Bus.{
  Wire, queue_from, since, call_events, answer_call, poll_events, poll_times,
}
use mt5700_console.Link.Bus.Fronts.{Front, since-Front}
use mt5700_console.Link.Bus.Given.{Given, deliveries-Given}
use mt5700_console.Link.Bus.Deliveries.{
  deliveries, at_number, handle_each-deliveries, deliveries-append,
}

module _ (size : Event → ℕ) (budget : ℕ) (raw : Str → List Event) (l : Link)
    (up : l.is_connected ≡ true) (later : l.first_poll ≡ false) where
  taken :
      (k seq : ℕ) (em : List (ℕ × Event)) (es : List Event)
      → take_events raw seq es (at_number l k em)
        ≡ at_number l seq (em ++ deliveries raw l.subscribers es)
  unfolding take_events at_number
  taken k seq em es =
      rw (up, later, take_events)
        (handle_each-deliveries raw es
          (record l { is_connected = true; first_poll = false; event_seq = seq; emitted = em }))

  answered :
      (k j : ℕ) (em : List (ℕ × Event)) (log : List Event) (calls : List ℕ)
      → (let r = since size budget k (queue_from 0 log) in
          answer_call raw size budget log (record { link = at_number l j em; calls = k ∷ calls })
          ≡ record {
            link = at_number l r.0 (em ++ deliveries raw l.subscribers r.1);
            calls = calls;
          })
  unfolding answer_call at_number
  answered k j em log calls =
      let r = since size budget k (queue_from 0 log) in
      ap (λ (x : Link). record { link = x; calls = calls }) (taken j r.0 em r.1)

  poll_events-take_events :
      (k : ℕ) (em : List (ℕ × Event)) (log : List Event)
      → poll_events raw size budget log (at_number l k em)
        ≡ take_events raw
            (since size budget k (queue_from 0 log)).0
            (since size budget k (queue_from 0 log)).1
            (at_number l k em)
  unfolding poll_events call_events answer_call at_number
  poll_events-take_events k em log = rw up refl

  poll_events-Front :
      (xs ys : List Event) (em : List (ℕ × Event))
      (f : Front size budget
        (length xs)
        false
        ys
        (since size budget (length xs) (queue_from 0 (xs ++ ys))))
      → poll_events raw size budget (xs ++ ys) (at_number l (length xs) em)
        ≡ at_number l
            (length (xs ++ take f.count ys))
            (em ++ deliveries raw l.subscribers (take f.count ys))
  poll_events-Front xs ys em f =
      poll_events-take_events (length xs) em (xs ++ ys)
      ∙ ap (λ (r : ℕ × List Event). take_events raw r.0 r.1 (at_number l (length xs) em)) f.result
      ∙ taken (length xs) (length xs + f.count) em (take f.count ys)
      ∙ ap (λ (n : ℕ). at_number l n (em ++ deliveries raw l.subscribers (take f.count ys)))
          (omega (arith, f.within, length-append xs (take f.count ys), length-take f.count ys))

  poll_times-deliveries :
      (m : ℕ) (xs ys : List Event) (em : List (ℕ × Event))
      → length ys ≤ m
      → poll_times raw size budget (xs ++ ys) m (at_number l (length xs) em)
        ≡ at_number l (length (xs ++ ys)) (em ++ deliveries raw l.subscribers ys)
  unfolding poll_times deliveries
  poll_times-deliveries zero xs [] em h =
      ap₂ (at_number l) (ap length (sym (append-nil xs))) (sym (append-nil em))
  poll_times-deliveries zero xs (y ∷ ys) em h = absurd (omega arith)
  poll_times-deliveries (suc m) xs ys em h =
      let f = since-Front size budget xs ys in
      let n = f.count in
      let whole : (xs ++ take n ys) ++ drop n ys ≡ xs ++ ys =
        append_assoc xs (take n ys) (drop n ys) ∙ ap (◌++◌ xs) (take-append-drop n ys) in
      ap (poll_times raw size budget (xs ++ ys) m) (poll_events-Front xs ys em f)
      ∙ ap
          (λ log. poll_times raw size budget log m (
            at_number l (length (xs ++ take n ys))
              (em ++ deliveries raw l.subscribers (take n ys))))
          (sym whole)
      ∙ poll_times-deliveries m (xs ++ take n ys) (drop n ys)
          (em ++ deliveries raw l.subscribers (take n ys)) (shorter m n ys h f.within f.progress)
      ∙ ap₂ (at_number l) (ap length whole) (
          append_assoc em (deliveries raw l.subscribers (take n ys))
            (deliveries raw l.subscribers (drop n ys))
          ∙ ap (◌++◌ em) (
              sym (deliveries-append raw l.subscribers (take n ys) (drop n ys))
              ∙ ap (deliveries raw l.subscribers) (take-append-drop n ys)))
    where
      shorter :
          (m n : ℕ) (ys : List Event)
          → length ys ≤ suc m
          → n ≤ length ys
          → (false ≡ true) ⊎ ((1 ≤ n) ⊎ (ys ≡ []))
          → length (drop n ys) ≤ m
      shorter m n ys h w (inl e) = cc
      shorter m n ys h w (inr (inl p)) = omega (arith, length-drop n ys)
      shorter m n ys h w (inr (inr e)) = omega (arith, length-drop n ys, ap length e)

-- A client that is connected and has polled before, and has seen all events up to the first of the
-- later ones, polls as often as there are later events or more, each answer coming before the next
-- poll: of the later events of the bus every subscriber was given, once and in order, what is to be
-- given of them (the four kinds of pushes as they are, what is read in a text of the modem, nothing
-- of the others), whatever the budget of an answer, and the client has seen all. The bus has dropped
-- none of its events.
pub poll_times-delivers :
    (raw : Str → List Event) (size : Event → ℕ) (budget m : ℕ) (seen later : List Event) (l : Link)
    → l.is_connected ≡ true
    → l.first_poll ≡ false
    → l.event_seq ≡ length seen
    → length later ≤ m
    → (ds : List (ℕ × Event)) × Given raw l.subscribers later ds
      × (poll_times raw size budget (seen ++ later) m l
          ≡ record l { event_seq = length (seen ++ later); emitted = l.emitted ++ ds })
unfolding at_number
poll_times-delivers raw size budget m seen later l up first k h = (
  deliveries raw l.subscribers later,
  deliveries-Given raw l.subscribers later,
  ap (λ n. poll_times raw size budget (seen ++ later) m (record l { event_seq = n })) k
      ∙ poll_times-deliveries size budget raw l up first m seen later l.emitted h,
)

-- The client with no call that waits.
abbrev pub quiet : Link → Wire
quiet l = record { link = l; calls = [] }

called_twice :
    (l : Link) (k : ℕ) (em : List (ℕ × Event))
    → l.is_connected ≡ true
    → call_events (call_events (quiet (at_number l k em)))
      ≡ record { link = at_number l k em; calls = k ∷ k ∷ [] }
unfolding call_events at_number
called_twice l k em up = rw up refl

-- A client that is connected and has polled before, and has seen all events up to the first of the
-- later ones, polls a second time before the first answer comes. Both polls ask behind the same
-- number, and when both are answered, every subscriber has been given twice what is to be given of
-- the next of the later events, one at least where there is one.
pub answer_call-call_events :
    (raw : Str → List Event) (size : Event → ℕ) (budget : ℕ) (seen later : List Event) (l : Link)
    → l.is_connected ≡ true
    → l.first_poll ≡ false
    → l.event_seq ≡ length seen
    → (let w = call_events (call_events (quiet l)) in
        (w.calls ≡ length seen ∷ length seen ∷ [])
        × (n : ℕ) × ((1 ≤ n) ⊎ (later ≡ []))
        × (ds : List (ℕ × Event)) × Given raw l.subscribers (take n later) ds
        × ((answer_call raw size budget
              (seen ++ later)
              (answer_call raw size budget (seen ++ later) w)).link
            ≡ record l { event_seq = length seen + n; emitted = (l.emitted ++ ds) ++ ds }))
unfolding at_number
answer_call-call_events raw size budget seen later l up first k =
    let f = since-Front size budget seen later in
    let log = seen ++ later in
    let n = length seen in
    let r = since size budget n (queue_from 0 log) in
    let ds = deliveries raw l.subscribers r.1 in
    let start : call_events (call_events (quiet l))
        ≡ record { link = at_number l l.event_seq l.emitted; calls = n ∷ n ∷ [] } =
      called_twice l l.event_seq l.emitted up
      ∙ ap (λ (x : ℕ). record { link = at_number l l.event_seq l.emitted; calls = x ∷ x ∷ [] }) k in
    (
      ap (λ (w : Wire). w.calls) start,
      f.count,
      some_progress f.progress,
      ds,
      rw (ap (λ (q : ℕ × List Event). q.1) f.result)
          (deliveries-Given raw l.subscribers (take f.count later)),
      ap (λ (w : Wire). (answer_call raw size budget log (answer_call raw size budget log w)).link)
            start
          ∙ ap (λ (w : Wire). (answer_call raw size budget log w).link)
              (answered size budget raw l up first n l.event_seq l.emitted log (n ∷ []))
          ∙ ap (λ (w : Wire). w.link)
              (answered size budget raw l up first n r.0 (l.emitted ++ ds) log [])
          ∙ ap (λ (x : ℕ). at_number l x ((l.emitted ++ ds) ++ ds))
              (ap (λ (q : ℕ × List Event). q.0) f.result),
    )
  where
    some_progress : {m : ℕ} → (false ≡ true) ⊎ ((1 ≤ m) ⊎ (later ≡ [])) → (1 ≤ m) ⊎ (later ≡ [])
    some_progress (inl e) = cc
    some_progress (inr p) = p
