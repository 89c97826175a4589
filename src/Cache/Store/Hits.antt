-- ===== src/Cache/Store/Hits.antt =====
-- What the cache gives back.
use mt5700_console.Base.{
  ℕ, ◌-◌, ◌≤◌, ◌≡◌, refl, sym, ap, ap₂, ◌∙◌, inl, inr, Bool, true, false, ◌&&◌, ◌||◌, Option, none,
  some, List, [], ◌∷◌, ◌++◌, arith, ltb, leb, if◌then◌else◌, Bool-cases, Option-cases, length, Str,
  str_eq, str_eq_iff,
}
use mt5700_console.Cache.{
  cache_ttl_for, includes, is_space, normalize_command, upper, state_commands,
}
use mt5700_console.Cache.Store.{
  Answer, Entry, Store, assign, cache_get, cache_put, created, delete, drop_state_cache,
  drop_state_entries, evict, get_key, lookup, put_key, read_cache_max, without,
}
use mt5700_console.Cache.Store.Keys.{length-without, str_eq_refl}
use mt5700_console.Cache.Store.Bounded.{IsStore}
use mt5700_console.Cache.Store.Reached.{Reached, Reached-IsStore}

lookup-assign : (k : Str) (e : Entry) (es : List (Str × Entry)) → lookup k (assign k e es) ≡ some e
unfolding lookup
lookup-assign k e es = rw (str_eq_refl k) refl

lookup-delete :
    (a k : Str) (es : List (Str × Entry))
    → str_eq a k ≡ false
    → lookup k (delete a es) ≡ lookup k es
unfolding lookup delete
lookup-delete a k [] h = refl
lookup-delete a k (kv ∷ es) h = elim (Bool-cases (str_eq kv.0 a)) [
  | inl e ↦ rw (e, other e) (lookup-delete a k es h)
  | inr e ↦ rw (e, lookup-delete a k es h) refl
]
  where
    other : str_eq kv.0 a ≡ true → str_eq kv.0 k ≡ false
    other e = ap (λ (x : Str). str_eq x k) ((str_eq_iff kv.0 a).0 e) ∙ h

-- Evicting from one key too many leaves the last one alone.
evict_last :
    (es : List (Str × Entry)) (order : List Str) (k : Str) (e : Entry)
    → lookup k es ≡ some e
    → includes order k ≡ false
    → length order ≤ read_cache_max
    → lookup k (evict es (order ++ (k ∷ []))).entries ≡ some e
unfolding evict includes
evict_last es [] k e h i b = h
evict_last es (a ∷ order) k e h i b =
    elim (Bool-cases (ltb read_cache_max (length (a ∷ (order ++ (k ∷ [])))))) [
      | inr small ↦ rw small h
      | inl large ↦ elim (Bool-cases (str_eq a k)) [
        | inl same ↦ (let q : true ≡ false = rw (same, includes) at i in cc)
        | inr ne ↦ rw large (
            evict_last (delete a es) order k e (lookup-delete a k es ne ∙ h)
              (rw (ne, includes) at i) (omega (arith, b)))
      ]
    ]

includes-without_same : (k : Str) (order : List Str) → includes (without k order) k ≡ false
unfolding includes without
includes-without_same k [] = refl
includes-without_same k (x ∷ order) = elim (Bool-cases (str_eq x k)) [
  | inl e ↦ rw e (includes-without_same k order)
  | inr e ↦ rw e (
      ap (λ (b : Bool). str_eq x k || b) (includes-without_same k order)
      ∙ ap (λ (b : Bool). b || false) e)
]

lookup-put_key :
    (now : ℕ) (k : Str) (value : Answer) (c : Store)
    → IsStore c
    → lookup k (put_key now k value c).entries ≡ some (record { t = now; value = value; hits = 0 })
unfolding put_key
lookup-put_key now k value c v =
    let e : Entry = record { t = now; value = value; hits = 0 } in
    elim (Option-cases (lookup k c.entries)) [
      | inr (old, h) ↦ rw (h, put_key) (lookup-assign k e c.entries)
      | inl h ↦
          rw (h, put_key)
            (evict_last (assign k e c.entries) (without k c.order) k e (lookup-assign k e c.entries)
              (includes-without_same k c.order)
              (omega (arith, length-without k c.order, v.bounded)))
    ]

get_key_lem :
    (now ttl : ℕ) (k : Str) (c : Store) (e : Entry)
    → lookup k c.entries ≡ some e
    → (get_key now ttl k c).0 ≡ (if ltb ttl (now - e.t) then none else some e.value)
unfolding get_key
get_key_lem now ttl k c e h = elim (Bool-cases (ltb ttl (now - e.t))) [
  | inl old ↦ rw (h, old, get_key) refl
  | inr young ↦ rw (h, young, get_key) refl
]

cache_put_success :
    (now : ℕ) (command : Str) (value : Answer) (cache : Option Store)
    → value.success ≡ true
    → cache_put now command value cache
      ≡ some (put_key now (normalize_command command) value (created cache))
unfolding cache_put
cache_put_success now command value cache s = go value.success s
  where
    go :
        (b : Bool)
        → b ≡ true
        → (if b
            then some (put_key now (normalize_command command) value (created cache))
            else cache)
          ≡ some (put_key now (normalize_command command) value (created cache))
    go true h = refl
    go false h = cc

-- In every state of the cache: once the success of a command is put in, a command that is written
-- the same way, up to case and white space, gets it back as long as it is not older than its time
-- to live, and nothing afterwards.
pub cache_get-cache_put :
    (now later : ℕ) (command again : Str) (value : Answer) (cache : Option Store)
    → Reached cache
    → value.success ≡ true
    → normalize_command again ≡ normalize_command command
    → (cache_get later again (cache_put now command value cache)).0
      ≡ (if ltb (cache_ttl_for again) (later - now) then none else some value)
unfolding cache_get
cache_get-cache_put now later command again value cache r s n =
    rw (cache_put_success now command value cache s, n, cache_get)
      (get_key_lem later (cache_ttl_for again) (normalize_command command) _ _ (
        lookup-put_key now (normalize_command command) value (created cache)
          (Reached-IsStore cache r)))

upper_twice : (c : ℕ) → upper (upper c) ≡ upper c
upper_twice c = ground arith

upper_not_space : (c : ℕ) → is_space c ≡ false → is_space (upper c) ≡ false
upper_not_space c h = elim (Bool-cases (leb 97 c && leb c 122)) [
  | inl e ↦ rw e (letter c e)
  | inr e ↦ rw e h
]
  where
    letter : (x : ℕ) → (leb 97 x && leb x 122) ≡ true → is_space (x - 32) ≡ false
    letter x l = ground arith

normalize_command_twice : (s : Str) → normalize_command (normalize_command s) ≡ normalize_command s
unfolding normalize_command
normalize_command_twice [] = refl
normalize_command_twice (c ∷ s) = elim (Bool-cases (is_space c)) [
  | inl e ↦ rw e (normalize_command_twice s)
  | inr e ↦
      rw (e, normalize_command)
        (rw (upper_not_space c e) (ap₂ ◌∷◌ (upper_twice c) (normalize_command_twice s)))
]

lookup-drop_state_entries :
    (k : Str) (es : List (Str × Entry))
    → includes state_commands (normalize_command k) ≡ true
    → lookup k (drop_state_entries es) ≡ none
unfolding drop_state_entries lookup
lookup-drop_state_entries k [] h = refl
lookup-drop_state_entries k (kv ∷ es) h =
    elim (Bool-cases (includes state_commands (normalize_command kv.0))) [
      | inl e ↦ rw e (lookup-drop_state_entries k es h)
      | inr e ↦ elim (Bool-cases (str_eq kv.0 k)) [
        | inl same ↦
            (let q : true ≡ false =
                sym h
                ∙ ap (λ (x : Str). includes state_commands (normalize_command x))
                    (sym ((str_eq_iff kv.0 k).0 same))
                ∙ e in
              cc)
        | inr ne ↦ rw (e, ne) (lookup-drop_state_entries k es h)
      ]
    ]

-- Once the state entries are dropped, no command that asks for a state is answered from the cache.
pub cache_get-drop_state_cache :
    (now : ℕ) (command : Str) (cache : Option Store)
    → includes state_commands (normalize_command command) ≡ true
    → (cache_get now command (drop_state_cache cache)).0 ≡ none
unfolding cache_get drop_state_cache get_key
cache_get-drop_state_cache now command none h = refl
cache_get-drop_state_cache now command (some c) h =
    rw
      (
        lookup-drop_state_entries (normalize_command command) c.entries
            (rw (normalize_command_twice command) h),
        get_key,
      )
      refl
