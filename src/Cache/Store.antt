-- ===== src/Cache/Store.antt =====
-- `_readCache` with `_cacheOrder`: `_cacheGet`, `_cachePut`, `cacheStats`, `clearReadCache` and
-- `_dropStateCache`.
pub mod Keys
pub mod Bounded
pub mod Reached
pub mod Hits
use mt5700_console.Base.{
  ℕ, zero, suc, ◌+◌, ◌-◌, ◌*◌, ◌/◌, ◌%◌, ◌^◌, ◌≤◌, ◌<◌, min, max, ◌≡◌, refl, sym, ap, ap₂, ◌∙◌, ◌≢◌,
  ◌↔◌, ◌⊎◌, inl, inr, Bool, true, false, not, ◌&&◌, ◌||◌, Option, none, some, List, [], ◌∷◌, ◌++◌,
  map, append-nil, append_assoc, arith, ltb, leb, ◌==◌, if◌then◌else◌, ltb→lt, ==_iff, Bool-cases,
  Option-cases, &&-left, &&-right, some_inj, length, get_elem?, get_or, take, drop, replicate,
  flatten, all, All, length-append, take-length-append, drop-length-append, take-append-drop,
  length-take, length-drop, flatten-append, All-append, All-take, All-drop, Str, codes, str_eq,
  str_eq_iff, starts_with, index_of, hex_digit, hex_value, hex_value-hex_digit, hex2, IsByte,
  IsUnit16, is_text,
}
use mt5700_console.Cache.{cache_ttl_for, includes, normalize_command, state_commands}

-- What a command comes back with.
pub record Answer : Type 0 where
  pub success : Bool
  pub content : Option Str
  pub error : Str
  pub busy : Bool
  pub quick_fail : Bool

pub record Entry : Type 0 where
  pub t : ℕ
  pub value : Answer
  pub hits : ℕ

-- `_readCache`, its keys in no particular order, and `_cacheOrder`.
pub record Store : Type 0 where
  pub entries : List (Str × Entry)
  pub order : List Str

abbrev pub read_cache_max : ℕ
read_cache_max = 64

unfoldable pub lookup : Str → List (Str × Entry) → Option Entry
lookup k [] = none
lookup k (kv ∷ es) = let rest = lookup k es in if str_eq kv.0 k then some kv.1 else rest

-- `delete c[k]`.
unfoldable pub delete : Str → List (Str × Entry) → List (Str × Entry)
delete k [] = []
delete k (kv ∷ es) = let rest = delete k es in if str_eq kv.0 k then rest else kv ∷ rest

-- `c[k] = e`.
abbrev pub assign : Str → Entry → List (Str × Entry) → List (Str × Entry)
assign k e es = (k, e) ∷ delete k es

-- The loop over `indexOf` and `splice`: every occurrence goes.
unfoldable pub without : Str → List Str → List Str
without k [] = []
without k (x ∷ xs) = let rest = without k xs in if str_eq x k then rest else x ∷ rest

-- `while (order.length > READ_CACHE_MAX) delete entries[order.shift()]`.
unfoldable pub evict : List (Str × Entry) → List Str → Store
evict es [] = record { entries = es; order = [] }
evict es (k ∷ order) =
    if ltb read_cache_max (length (k ∷ order))
    then evict (delete k es) order
    else record { entries = es; order = k ∷ order }

-- The key is normalized by the callers below.
unfoldable pub put_key : ℕ → Str → Answer → Store → Store
unfolding evict
put_key now k value c =
    let e : Entry = record { t = now; value = value; hits = 0 } in
    elim (lookup k c.entries) [
      | some old ↦ record c { entries = assign k e c.entries }
      | none ↦ evict (assign k e c.entries) (without k c.order ++ (k ∷ []))
    ]

abbrev pub empty_store : Store
empty_store = record { entries = []; order = [] }

abbrev pub created : Option Store → Store
created none = empty_store
created (some c) = c

-- `_cachePut`; `none` is a cache that is `null`.
unfoldable pub cache_put : ℕ → Str → Answer → Option Store → Option Store
unfolding put_key
cache_put now command value cache =
    if value.success
    then some (put_key now (normalize_command command) value (created cache))
    else cache

-- A hit that is not too old, with its count of hits, or the cache without the entry.
unfoldable pub get_key : ℕ → ℕ → Str → Store → Option Answer × Store
get_key now ttl k c = elim (lookup k c.entries) [
  | none ↦ (none, c)
  | some hit ↦
      if ltb ttl (now - hit.t) then (none, record c { entries = delete k c.entries }) else (
        some hit.value,
        record c { entries = assign k (record hit { hits = hit.hits + 1 }) c.entries },
      )
]

-- `_cacheGet`.
unfoldable pub cache_get : ℕ → Str → Option Store → Option Answer × Option Store
unfolding get_key
cache_get now command none = (none, none)
cache_get now command (some c) =
    let (answer, c') = get_key now (cache_ttl_for command) (normalize_command command) c in
    (answer, some c')

unfoldable pub drop_state_entries : List (Str × Entry) → List (Str × Entry)
drop_state_entries [] = []
drop_state_entries (kv ∷ es) =
    let rest = drop_state_entries es in
    if includes state_commands (normalize_command kv.0) then rest else kv ∷ rest

-- `_dropStateCache`.
unfoldable pub drop_state_cache : Option Store → Option Store
unfolding drop_state_entries
drop_state_cache none = none
drop_state_cache (some c) = some (record c { entries = drop_state_entries c.entries })

-- `clearReadCache`.
abbrev pub clear_read_cache : Option Store → Option Store
clear_read_cache cache = none

pub record CacheStats : Type 0 where
  pub entries : ℕ
  pub hits : ℕ

unfoldable pub sum_hits : List (Str × Entry) → ℕ
sum_hits [] = 0
sum_hits (kv ∷ es) = kv.1.hits + sum_hits es

abbrev pub cache_stats : Option Store → CacheStats
cache_stats cache =
    let es = (created cache).entries in record { entries = length es; hits = sum_hits es }
