-- ===== src/Link/Bus/Given.antt =====
-- What the subscribers have to be given for some events, without a look at `handlePush`.
use mt5700_console.Base.{
  sym, ◌∙◌, false, ℕ, ◌≡◌, refl, ◌⊎◌, inl, inr, ◌≢◌, true, List, [], ◌∷◌, ◌++◌, Bool-cases, Str,
  codes, str_eq, str_eq_iff,
}
use mt5700_console.Cache.{includes}
use mt5700_console.Link.{Event, push_kinds, pushes_of}
use mt5700_console.Link.Bus.Deliveries.{deliveries, pushed}

-- The kinds of events that are passed on as they are.
abbrev pub IsPush : Str → Type 0
IsPush kind =
    (kind ≡ codes "incoming_call")
    ⊎ ((kind ≡ codes "new_sms") ⊎ ((kind ≡ codes "pdcp_data") ⊎ (kind ≡ codes "urc_data")))

-- Of the events, in order: a text of the modem is given as what is read in it, a push as it is, and
-- any other event to nobody.
pub data Given (raw : Str → List Event) (ss : List ℕ) : List Event → List (ℕ × Event) → Type 0 where
  nothing : Given raw ss [] []
  text :
      {e : Event} {es : List Event} {ds : List (ℕ × Event)}
      → e.kind ≡ codes "raw_data"
      → Given raw ss es ds
      → Given raw ss (e ∷ es) (pushed ss (raw e.content) ++ ds)
  push :
      {e : Event} {es : List Event} {ds : List (ℕ × Event)}
      → IsPush e.kind
      → Given raw ss es ds
      → Given raw ss (e ∷ es) (pushed ss (e ∷ []) ++ ds)
  other :
      {e : Event} {es : List Event} {ds : List (ℕ × Event)}
      → e.kind ≢ codes "raw_data"
      → ¬ IsPush e.kind
      → Given raw ss es ds
      → Given raw ss (e ∷ es) ds

IsPush-cases :
    (kind : Str)
    → (includes push_kinds kind ≡ true × IsPush kind)
      ⊎ ((includes push_kinds kind ≡ false) × ¬ IsPush kind)
unfolding includes
IsPush-cases kind = elim (Bool-cases (str_eq (codes "incoming_call") kind)) [
  | inl a ↦ inl (rw a refl, inl (sym (same a)))
  | inr a ↦ elim (Bool-cases (str_eq (codes "new_sms") kind)) [
    | inl b ↦ inl (rw (a, b) refl, inr (inl (sym (same b))))
    | inr b ↦ elim (Bool-cases (str_eq (codes "pdcp_data") kind)) [
      | inl c ↦ inl (rw (a, b, c) refl, inr (inr (inl (sym (same c)))))
      | inr c ↦ elim (Bool-cases (str_eq (codes "urc_data") kind)) [
        | inl d ↦ inl (rw (a, b, c, d) refl, inr (inr (inr (sym (same d)))))
        | inr d ↦ inr (rw (a, b, c, d) refl, none_of a b c d)
      ]
    ]
  ]
]
  where
    same : {x : Str} → str_eq x kind ≡ true → x ≡ kind
    same {x} h = (str_eq_iff x kind).0 h

    differ : (x : Str) → str_eq x kind ≡ false → kind ≢ x
    differ x h e = let q : true ≡ false = sym ((str_eq_iff x kind).1 (sym e)) ∙ h in cc

    none_of :
        str_eq (codes "incoming_call") kind ≡ false
        → str_eq (codes "new_sms") kind ≡ false
        → str_eq (codes "pdcp_data") kind ≡ false
        → str_eq (codes "urc_data") kind ≡ false
        → ¬ IsPush kind
    none_of a b c d (inl e) = differ (codes "incoming_call") a e
    none_of a b c d (inr (inl e)) = differ (codes "new_sms") b e
    none_of a b c d (inr (inr (inl e))) = differ (codes "pdcp_data") c e
    none_of a b c d (inr (inr (inr e))) = differ (codes "urc_data") d e

-- The deliveries that the code makes are those that are to be made.
pub deliveries-Given :
    (raw : Str → List Event) (ss : List ℕ) (es : List Event)
    → Given raw ss es (deliveries raw ss es)
unfolding deliveries pushes_of pushed
deliveries-Given raw ss [] = nothing
deliveries-Given raw ss (e ∷ es) =
    let rest = deliveries-Given raw ss es in
    elim (Bool-cases (str_eq e.kind (codes "raw_data"))) [
      | inl t ↦ rw t (text ((str_eq_iff e.kind (codes "raw_data")).0 t) rest)
      | inr f ↦ elim (IsPush-cases e.kind) [
        | inl (i, p) ↦ rw (f, i) (push p rest)
        | inr (i, p) ↦ rw (f, i) (other (unlike f) p rest)
      ]
    ]
  where
    unlike : {kind : Str} → str_eq kind (codes "raw_data") ≡ false → kind ≢ codes "raw_data"
    unlike {kind} h e =
        let q : true ≡ false = sym ((str_eq_iff kind (codes "raw_data")).1 e) ∙ h in cc
