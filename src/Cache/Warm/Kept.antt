-- ===== src/Cache/Warm/Kept.antt =====
-- What is in the cache behind a batch.
use mt5700_console.Base.{
  ℕ, ◌+◌, ◌≡◌, refl, ◌⊎◌, inl, inr, Bool, true, false, ◌&&◌, &&-left, Option, List, [], ◌∷◌, ◌++◌,
  ltb, Bool-cases, Option-cases, All, length, Str, is_text,
}
use mt5700_console.Cache.{normalize_command}
use mt5700_console.Cache.Store.{
  Answer, Entry, Store, assign, cache_put, created, delete, evict, lookup, put_key, read_cache_max,
  without,
}
use mt5700_console.Cache.Store.Keys.{delete-All}
use mt5700_console.Cache.Sends.{Client, success_of}
use mt5700_console.Cache.Warm.{
  BatchItem, BatchReply, results, rejected, Warm, ask_batch, batch_of, keep_results, take_reply,
  warm_cache, with_results,
}

abbrev pub Occurs : {A : Type 0} → A → List A → Type 0
Occurs x [] = ⊥
Occurs x (y ∷ ys) = (x ≡ y) ⊎ Occurs x ys

-- The results of a reply; a batch that failed has none.
abbrev pub items_of : BatchReply → List BatchItem
items_of (results busy reason items) = items
items_of (rejected e) = []

-- A result that the backend reported as a success, in the cache as of the time `done`.
abbrev pub IsResult : ℕ → List BatchItem → Str × Entry → Type 0
IsResult done items kv =
    (it : BatchItem) × Occurs it items
    × (it.success ≡ true)
    × (kv
        ≡ (normalize_command it.cmd, record { t = done; value = success_of it.content; hits = 0 }))

module _ (P : Str × Entry → Type 0) where
  -- What stands for the successes among some results has the property.
  abbrev ArePut : ℕ → List BatchItem → Type 0
  ArePut now items =
      (it : BatchItem)
      → Occurs it items
      → it.success ≡ true
      → P (normalize_command it.cmd, record { t = now; value = success_of it.content; hits = 0 })

  evict-All :
      (es : List (Str × Entry)) (order : List Str) → All P es → All P (evict es order).entries
  unfolding evict
  evict-All es [] h = h
  evict-All es (k ∷ order) h = elim (Bool-cases (ltb read_cache_max (length (k ∷ order)))) [
    | inl e ↦ rw e (evict-All (delete k es) order (delete-All P k es h))
    | inr e ↦ rw e h
  ]

  put_key-All :
      (now : ℕ) (k : Str) (value : Answer) (c : Store)
      → All P c.entries
      → P (k, record { t = now; value = value; hits = 0 })
      → All P (put_key now k value c).entries
  unfolding put_key
  put_key-All now k value c h p =
      let e : Entry = record { t = now; value = value; hits = 0 } in
      elim (Option-cases (lookup k c.entries)) [
        | inl n ↦
            rw (n, put_key)
              (evict-All (assign k e c.entries) (without k c.order ++ (k ∷ []))
                (p, delete-All P k c.entries h))
        | inr (old, n) ↦ rw (n, put_key) ((p, delete-All P k c.entries h))
      ]

  keep_results-All :
      (now : ℕ) (items : List BatchItem) (cache : Option Store) (n : ℕ)
      → All P (created cache).entries
      → ArePut now items
      → All P (created (keep_results now items cache n).0).entries
  unfolding keep_results cache_put
  keep_results-All now [] cache n h put = h
  keep_results-All now (it ∷ items) cache n h put =
      elim (Bool-cases (it.success && is_text it.cmd)) [
        | inl e ↦ rw e (
            keep_results-All now items (cache_put now it.cmd (success_of it.content) cache) (n + 1)
              (put_key-All now (normalize_command it.cmd) (success_of it.content) (created cache) h
                (put it (inl refl) (&&-left it.success (is_text it.cmd) e)))
              (λ x o. put x (inr o)))
        | inr e ↦ rw e (keep_results-All now items cache n h (λ x o. put x (inr o)))
      ]

  with_results-All :
      (now : ℕ) (busy : Bool) (reason : Str) (items : List BatchItem) (c : Client)
      → All P (created c.cache).entries
      → ArePut now items
      → All P (created (with_results now busy reason items c).0.cache).entries
  with_results-All now true reason items c h put = keep_results-All now items c.cache 0 h put
  with_results-All now false reason items c h put = keep_results-All now items c.cache 0 h put

  take_reply-All :
      (done : ℕ) (reply : BatchReply) (w : Warm)
      → All P (created w.client.cache).entries
      → ArePut done (items_of reply)
      → All P (created (take_reply done reply w).0.client.cache).entries
  unfolding take_reply
  take_reply-All done (rejected e) w h put = h
  take_reply-All done (results busy reason items) w h put =
      with_results-All done busy reason items w.client h put

  ask_batch-All :
      (now done : ℕ) (commands : List Str) (reply : BatchReply) (w : Warm)
      → All P (created w.client.cache).entries
      → ArePut done (items_of reply)
      → All P (created (ask_batch now done commands reply w).0.client.cache).entries
  unfolding ask_batch
  ask_batch-All now done [] reply w h put = h
  ask_batch-All now done (c ∷ cs) reply w h put = elim (Bool-cases (ltb now w.client.busy_until)) [
    | inl e ↦ rw e h
    | inr e ↦ rw e (take_reply-All done reply w h put)
  ]

All-Occurs :
    (Q : Str × Entry → Type 0) (es : List (Str × Entry))
    → ((kv : Str × Entry) → Occurs kv es → Q kv)
    → All Q es
All-Occurs Q [] h = tt
All-Occurs Q (kv ∷ es) h = (h kv (inl refl), All-Occurs Q es (λ x o. h x (inr o)))

-- An entry of before, or a result.
abbrev pub IsKept : ℕ → BatchReply → Warm → Str × Entry → Type 0
IsKept done reply w kv =
    Occurs kv (created w.client.cache).entries ⊎ IsResult done (items_of reply) kv

-- Whatever the commands, the reply and the state: an entry of the cache behind a batch was in it
-- before, or is a result that the backend reported as a success, under the command that it names
-- itself and as of the time of the reply.
pub warm_cache-IsKept :
    (now done : ℕ) (commands : List Str) (reply : BatchReply) (w : Warm)
    → All
        (IsKept done reply w)
        (created (warm_cache now done commands reply w).0.client.cache).entries
unfolding warm_cache
warm_cache-IsKept now done commands reply w =
    let before = (created w.client.cache).entries in
    ask_batch-All (IsKept done reply w) now done (batch_of commands) reply w
      (All-Occurs (IsKept done reply w) before (λ kv o. inl o)) (λ it o s. inr (it, o, s, refl))
