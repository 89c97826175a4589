-- ===== src/Link/Bus/Deliveries.antt =====
-- What the subscribers of rpc.js are given, as a list.
use mt5700_console.Base.{
  ℕ, ◌≡◌, refl, sym, ap, ◌∙◌, List, [], ◌∷◌, ◌++◌, map, append-nil, append_assoc, Str,
}
use mt5700_console.Link.{Event, Link, emit_push, emit_each, pushes_of, handle_push, handle_each}

-- What the subscribers are given for some events.
unfoldable pub pushed : List ℕ → List Event → List (ℕ × Event)
pushed ss [] = []
pushed ss (p ∷ ps) = map (λ s. (s, p)) ss ++ pushed ss ps

unfoldable pub deliveries : (Str → List Event) → List ℕ → List Event → List (ℕ × Event)
deliveries raw ss [] = []
deliveries raw ss (e ∷ es) = pushed ss (pushes_of raw e) ++ deliveries raw ss es

-- A client with another number and other deliveries.
unfoldable pub at_number : Link → ℕ → List (ℕ × Event) → Link
at_number l k em = record l { event_seq = k; emitted = em }

emit_each-pushed :
    (ps : List Event) (l : Link)
    → emit_each ps l ≡ at_number l l.event_seq (l.emitted ++ pushed l.subscribers ps)
unfolding emit_each emit_push pushed at_number
emit_each-pushed [] l = ap (at_number l l.event_seq) (sym (append-nil l.emitted))
emit_each-pushed (p ∷ ps) l =
    emit_each-pushed ps (emit_push p l)
    ∙ ap (at_number l l.event_seq)
        (append_assoc l.emitted (map (λ s. (s, p)) l.subscribers) (pushed l.subscribers ps))

pub handle_each-deliveries :
    (raw : Str → List Event) (es : List Event) (l : Link)
    → handle_each raw es l ≡ at_number l l.event_seq (l.emitted ++ deliveries raw l.subscribers es)
unfolding handle_each handle_push deliveries at_number
handle_each-deliveries raw [] l = ap (at_number l l.event_seq) (sym (append-nil l.emitted))
handle_each-deliveries raw (e ∷ es) l =
    ap (handle_each raw es) (emit_each-pushed (pushes_of raw e) l)
    ∙ handle_each-deliveries raw es
        (at_number l l.event_seq (l.emitted ++ pushed l.subscribers (pushes_of raw e)))
    ∙ ap (at_number l l.event_seq) (
        append_assoc l.emitted (pushed l.subscribers (pushes_of raw e))
          (deliveries raw l.subscribers es))

pub deliveries-append :
    (raw : Str → List Event) (ss : List ℕ) (xs ys : List Event)
    → deliveries raw ss (xs ++ ys) ≡ deliveries raw ss xs ++ deliveries raw ss ys
unfolding deliveries
deliveries-append raw ss [] ys = refl
deliveries-append raw ss (x ∷ xs) ys =
    ap (◌++◌ (pushed ss (pushes_of raw x))) (deliveries-append raw ss xs ys)
    ∙ sym (append_assoc (pushed ss (pushes_of raw x)) (deliveries raw ss xs) (deliveries raw ss ys))
