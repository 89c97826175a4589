-- ===== src/Cache/Store/Bounded.antt =====
-- The invariant of the cache, and every state that its operations reach.
use mt5700_console.Base.{
  ℕ, ◌+◌, ◌-◌, ◌≤◌, ◌≡◌, refl, ◌∙◌, inl, inr, true, false, none, some, List, [], ◌∷◌, ◌++◌, arith,
  ltb, Bool-cases, Option-cases, some_inj, length, All, Str, str_eq, str_eq_iff,
}
use mt5700_console.Cache.{includes}
use mt5700_console.Cache.Store.{
  Answer, Entry, Store, assign, delete, evict, get_key, lookup, put_key, read_cache_max, without,
}
use mt5700_console.Cache.Store.Keys.{
  Distinct, Fresh, Listed, Listed-without, delete-All, delete-Distinct, delete-Fresh, str_eq_comm,
  str_eq_refl,
}

abbrev pub HasSuccess : Str × Entry → Type 0
HasSuccess kv = kv.1.value.success ≡ true

pub record IsStore (c : Store) : Type 0 where
  pub distinct : Distinct c.entries
  pub listed : Listed c.order c.entries
  pub bounded : length c.order ≤ read_cache_max
  pub successes : All HasSuccess c.entries

includes-append : (xs ys : List Str) (x : Str) → includes xs x ≡ true → includes (xs ++ ys) x ≡ true
unfolding includes
includes-append [] ys x h = cc
includes-append (y ∷ xs) ys x h = elim (Bool-cases (str_eq y x)) [
  | inl e ↦ rw e refl
  | inr e ↦ rw e (includes-append xs ys x (rw (e, includes) at h))
]

pub includes_last : (xs : List Str) (k : Str) → includes (xs ++ (k ∷ [])) k ≡ true
unfolding includes
includes_last [] k = rw (str_eq_refl k) refl
includes_last (y ∷ xs) k = elim (Bool-cases (str_eq y k)) [
  | inl e ↦ rw e refl
  | inr e ↦ rw e (includes_last xs k)
]

Listed-append :
    (order ys : List Str) (es : List (Str × Entry)) → Listed order es → Listed (order ++ ys) es
Listed-append order ys [] h = tt
Listed-append order ys (kv ∷ es) h =
    (includes-append order ys kv.0 h.0, Listed-append order ys es h.1)

Listed-tail :
    (k : Str) (order : List Str) (es : List (Str × Entry))
    → Fresh k es
    → Listed (k ∷ order) es
    → Listed order es
unfolding includes
Listed-tail k order [] f h = tt
Listed-tail k order (kv ∷ es) f h =
    (rw (str_eq_comm k kv.0 ∙ f.0, includes) at h.0, Listed-tail k order es f.1 h.1)

-- Evicting ends within the limit.
evict-IsStore :
    (es : List (Str × Entry)) (order : List Str)
    → Distinct es
    → Listed order es
    → All HasSuccess es
    → IsStore (evict es order)
unfolding evict
evict-IsStore es [] d l s = record {
  distinct = d;
  listed = l;
  bounded = omega arith;
  successes = s;
}
evict-IsStore es (k ∷ order) d l s = elim (Bool-cases (ltb read_cache_max (length (k ∷ order)))) [
  | inl e ↦ rw e (
      evict-IsStore (delete k es) order (delete-Distinct k es d)
        (Listed-tail k order (delete k es) (delete-Fresh k es)
          (delete-All (λ kv. includes (k ∷ order) kv.0 ≡ true) k es l))
        (delete-All HasSuccess k es s))
  | inr e ↦ rw e (record { distinct = d; listed = l; bounded = within e; successes = s })
]
  where
    within : ltb read_cache_max (length (k ∷ order)) ≡ false → length (k ∷ order) ≤ read_cache_max
    within h = ground arith

lookup-Listed :
    (k : Str) (e : Entry) (order : List Str) (es : List (Str × Entry))
    → lookup k es ≡ some e
    → Listed order es
    → includes order k ≡ true
unfolding lookup
lookup-Listed k e order [] h l = (let q : none ≡ some e = h in cc)
lookup-Listed k e order (kv ∷ es) h l = elim (Bool-cases (str_eq kv.0 k)) [
  | inl eq ↦ rw (← (str_eq_iff kv.0 k).0 eq) l.0
  | inr ne ↦ lookup-Listed k e order es (rw (ne, lookup) at h) l.1
]

lookup_success :
    (k : Str) (e : Entry) (es : List (Str × Entry))
    → lookup k es ≡ some e
    → All HasSuccess es
    → e.value.success ≡ true
unfolding lookup
lookup_success k e [] h s = (let q : none ≡ some e = h in cc)
lookup_success k e (kv ∷ es) h s = elim (Bool-cases (str_eq kv.0 k)) [
  | inl eq ↦ (let q : some kv.1 ≡ some e = rw (eq, lookup) at h in rw (← some_inj q) s.0)
  | inr ne ↦ lookup_success k e es (rw (ne, lookup) at h) s.1
]

assign-IsStore :
    (k : Str) (e : Entry) (c : Store)
    → IsStore c
    → includes c.order k ≡ true
    → e.value.success ≡ true
    → IsStore (record c { entries = assign k e c.entries })
assign-IsStore k e c v l s = record {
  distinct = (delete-Fresh k c.entries, delete-Distinct k c.entries v.distinct);
  listed = (l, delete-All (λ kv. includes c.order kv.0 ≡ true) k c.entries v.listed);
  bounded = v.bounded;
  successes = (s, delete-All HasSuccess k c.entries v.successes);
}

pub put_key-IsStore :
    (now : ℕ) (k : Str) (value : Answer) (c : Store)
    → IsStore c
    → value.success ≡ true
    → IsStore (put_key now k value c)
unfolding put_key
put_key-IsStore now k value c v s = elim (Option-cases (lookup k c.entries)) [
  | inr (old, e) ↦
      rw (e, put_key)
        (assign-IsStore k (record { t = now; value = value; hits = 0 }) c v
          (lookup-Listed k old c.order c.entries e v.listed) s)
  | inl e ↦
      rw (e, put_key)
        (evict-IsStore _ (without k c.order ++ (k ∷ []))
          (delete-Fresh k c.entries, delete-Distinct k c.entries v.distinct)
          (
            includes_last (without k c.order) k,
            Listed-append (without k c.order) (k ∷ []) (delete k c.entries) (
                Listed-without k c.order (delete k c.entries) (delete-Fresh k c.entries)
                  (delete-All (λ kv. includes c.order kv.0 ≡ true) k c.entries v.listed)),
          )
          (s, delete-All HasSuccess k c.entries v.successes))
]

pub get_key-IsStore :
    (now ttl : ℕ) (k : Str) (c : Store) → IsStore c → IsStore (get_key now ttl k c).1
unfolding get_key
get_key-IsStore now ttl k c v = elim (Option-cases (lookup k c.entries)) [
  | inl e ↦ rw (e, get_key) v
  | inr (hit, e) ↦ elim (Bool-cases (ltb ttl (now - hit.t))) [
    | inl old ↦
        rw (e, old, get_key)
          (record {
            distinct = delete-Distinct k c.entries v.distinct;
            listed = delete-All (λ kv. includes c.order kv.0 ≡ true) k c.entries v.listed;
            bounded = v.bounded;
            successes = delete-All HasSuccess k c.entries v.successes;
          })
    | inr young ↦
        rw (e, young, get_key)
          (assign-IsStore k (record hit { hits = hit.hits + 1 }) c v
            (lookup-Listed k hit c.order c.entries e v.listed)
            (lookup_success k hit c.entries e v.successes))
  ]
]
