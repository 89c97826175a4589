-- ===== src/Cache/Store/Reached.antt =====
-- Every state that the operations of the cache reach, and what a hit gives.
use mt5700_console.Base.{
  ℕ, ◌≤◌, ◌≡◌, refl, inl, inr, Bool, true, false, Option, none, some, List, [], ◌∷◌, arith,
  if◌then◌else◌, Bool-cases, All, Str, str_eq,
}
use mt5700_console.Cache.{cache_ttl_for, includes, normalize_command, state_commands}
use mt5700_console.Cache.Store.{
  Answer, Entry, Store, cache_get, cache_put, cache_stats, clear_read_cache, created,
  drop_state_cache, drop_state_entries, empty_store, put_key, read_cache_max,
}
use mt5700_console.Cache.Store.Keys.{Distinct, length-Listed}
use mt5700_console.Cache.Store.Bounded.{IsStore, HasSuccess, put_key-IsStore, get_key-IsStore}

-- The states of `_readCache` and `_cacheOrder`.
pub data Reached : Option Store → Type 0 where
  start : Reached none
  put :
      (now : ℕ) (command : Str) (value : Answer) (cache : Option Store)
      → Reached cache
      → Reached (cache_put now command value cache)
  get :
      (now : ℕ) (command : Str) (cache : Option Store)
      → Reached cache
      → Reached (cache_get now command cache).1
  dropped : (cache : Option Store) → Reached cache → Reached (drop_state_cache cache)
  cleared : (cache : Option Store) → Reached cache → Reached (clear_read_cache cache)

drop_state_entries-All :
    (P : Str × Entry → Type 0) (es : List (Str × Entry)) → All P es → All P (drop_state_entries es)
unfolding drop_state_entries
drop_state_entries-All P [] h = tt
drop_state_entries-All P (kv ∷ es) h =
    elim (Bool-cases (includes state_commands (normalize_command kv.0))) [
      | inl e ↦ rw e (drop_state_entries-All P es h.1)
      | inr e ↦ rw e (h.0, drop_state_entries-All P es h.1)
    ]

drop_state_entries-Distinct :
    (es : List (Str × Entry)) → Distinct es → Distinct (drop_state_entries es)
unfolding drop_state_entries
drop_state_entries-Distinct [] h = tt
drop_state_entries-Distinct (kv ∷ es) h =
    elim (Bool-cases (includes state_commands (normalize_command kv.0))) [
      | inl e ↦ rw e (drop_state_entries-Distinct es h.1)
      | inr e ↦ rw e (
        drop_state_entries-All (λ x. str_eq x.0 kv.0 ≡ false) es h.0,
        drop_state_entries-Distinct es h.1,
      )
    ]

empty-IsStore : IsStore empty_store
empty-IsStore = record { distinct = tt; listed = tt; bounded = omega arith; successes = tt }

created_if-IsStore :
    (b : Bool) (x : Store) (cache : Option Store)
    → (b ≡ true → IsStore x)
    → IsStore (created cache)
    → IsStore (created (if b then some x else cache))
created_if-IsStore true x cache h v = h refl
created_if-IsStore false x cache h v = v

created-put :
    (now : ℕ) (command : Str) (value : Answer) (cache : Option Store)
    → IsStore (created cache)
    → IsStore (created (cache_put now command value cache))
unfolding cache_put
created-put now command value cache v =
    created_if-IsStore value.success (put_key now (normalize_command command) value (created cache))
      cache (put_key-IsStore now (normalize_command command) value (created cache) v) v

created-get :
    (now : ℕ) (command : Str) (cache : Option Store)
    → IsStore (created cache)
    → IsStore (created (cache_get now command cache).1)
unfolding cache_get
created-get now command none v = v
created-get now command (some c) v =
    get_key-IsStore now (cache_ttl_for command) (normalize_command command) c v

created-drop :
    (cache : Option Store) → IsStore (created cache) → IsStore (created (drop_state_cache cache))
unfolding drop_state_cache
created-drop none v = v
created-drop (some c) v = record {
  distinct = drop_state_entries-Distinct c.entries v.distinct;
  listed = drop_state_entries-All (λ kv. includes c.order kv.0 ≡ true) c.entries v.listed;
  bounded = v.bounded;
  successes = drop_state_entries-All HasSuccess c.entries v.successes;
}

-- In every state of the cache, the keys are different and stand in the order of insertion, which
-- has 64 at most, and every entry is a success.
pub Reached-IsStore : (cache : Option Store) → Reached cache → IsStore (created cache)
Reached-IsStore _ start = empty-IsStore
Reached-IsStore _ (put now command value cache r) =
    created-put now command value cache (Reached-IsStore cache r)
Reached-IsStore _ (get now command cache r) =
    created-get now command cache (Reached-IsStore cache r)
Reached-IsStore _ (dropped cache r) = created-drop cache (Reached-IsStore cache r)
Reached-IsStore _ (cleared cache r) = empty-IsStore

-- In every state of the cache, `cache_stats` counts 64 entries at most.
pub Reached-cache_stats :
    (cache : Option Store) → Reached cache → (cache_stats cache).entries ≤ read_cache_max
Reached-cache_stats cache r =
    let v = Reached-IsStore cache r in
    omega (
      arith,
      length-Listed (created cache).order (created cache).entries v.distinct v.listed,
      v.bounded,
    )
