-- ===== src/Cache/Warm.antt =====
-- `warmCache` and `warmStats` of rpc.js: the reads of a page asked in one batch.
pub mod Kept
use mt5700_console.Base.{
  ℕ, zero, suc, ◌+◌, ◌-◌, ◌*◌, ◌/◌, ◌%◌, ◌^◌, ◌≤◌, ◌<◌, min, max, ◌≡◌, refl, sym, ap, ap₂, ◌∙◌, ◌≢◌,
  ◌↔◌, ◌⊎◌, inl, inr, Bool, true, false, not, ◌&&◌, ◌||◌, Option, none, some, List, [], ◌∷◌, ◌++◌,
  map, append-nil, append_assoc, arith, ltb, leb, ◌==◌, if◌then◌else◌, ltb→lt, ==_iff, Bool-cases,
  Option-cases, &&-left, &&-right, some_inj, length, get_elem?, get_or, take, drop, replicate,
  flatten, all, All, length-append, take-length-append, drop-length-append, take-append-drop,
  length-take, length-drop, flatten-append, All-append, All-take, All-drop, Str, codes, str_eq,
  str_eq_iff, starts_with, index_of, hex_digit, hex_value, hex_value-hex_digit, hex2, IsByte,
  IsUnit16, is_text,
}
use mt5700_console.Cache.{is_retryable_read}
use mt5700_console.Cache.Store.{Answer, Store, cache_put}
use mt5700_console.Cache.Sends.{Client, note_busy, success_of}

abbrev pub warm_cache_max : ℕ
warm_cache_max = 40

-- One result of a batch: its `success === true`, its `cmd`, empty where it has none, and its data.
pub record BatchItem : Type 0 where
  pub success : Bool
  pub cmd : Str
  pub content : Option Str

-- What `rpcAtBatch` under `withTimeout` comes to: an answer with its `busy === true`, its
-- `busy_reason` and its results, or an exception with its message.
pub data BatchReply : Type 0 where
  results : Bool → Str → List BatchItem → BatchReply
  rejected : Str → BatchReply

-- A client with `_warmFailures` and `_warmError`.
pub record Warm : Type 0 where
  pub client : Client
  pub warm_failures : ℕ
  pub warm_error : Option Str

unfoldable pub only_reads : List Str → List Str
only_reads [] = []
only_reads (c ∷ cs) = let rest = only_reads cs in if is_retryable_read c then c ∷ rest else rest

-- The commands of the batch.
unfoldable pub batch_of : List Str → List Str
unfolding only_reads
batch_of commands = take warm_cache_max (only_reads commands)

abbrev or_text : Str → Str → Str
or_text s d = if is_text s then s else d

-- The loop over the results: each is put under the command that it names itself.
unfoldable pub keep_results : ℕ → List BatchItem → Option Store → ℕ → Option Store × ℕ
keep_results now [] cache n = (cache, n)
keep_results now (it ∷ items) cache n =
    if it.success && is_text it.cmd
    then keep_results now items (cache_put now it.cmd (success_of it.content) cache) (n + 1)
    else keep_results now items cache n

abbrev warm_failed : Str → Warm → Warm
warm_failed e w = record w { warm_failures = w.warm_failures + 1; warm_error = some e }

abbrev pub with_results : ℕ → Bool → Str → List BatchItem → Client → Client × ℕ
with_results now busy reason items c =
    let d = if busy then note_busy now (or_text reason (codes "模组正忙，请稍后重试")) c else c in
    let (cache, n) = keep_results now items d.cache 0 in (record d { cache = cache }, n)

-- The callbacks of the batch, at the time of its reply.
unfoldable pub take_reply : ℕ → BatchReply → Warm → Warm × ℕ
take_reply done (rejected e) w = (warm_failed (or_text e (codes "批量预热失败")) w, 0)
take_reply done (results busy reason items) w =
    let (c, n) = with_results done busy reason items w.client in (record w { client = c }, n)

-- With the commands that are left to ask.
unfoldable pub ask_batch : ℕ → ℕ → List Str → BatchReply → Warm → Warm × ℕ
unfolding take_reply
ask_batch now done [] reply w = (w, 0)
ask_batch now done (c ∷ cs) reply w =
    if ltb now w.client.busy_until
    then (warm_failed (or_text w.client.busy_reason (codes "模组正忙，跳过本轮预热")) w, 0)
    else take_reply done reply w

-- `warmCache` at the time `now`, with the reply at the time `done`: the state and the number of
-- results that went into the cache.
unfoldable pub warm_cache : ℕ → ℕ → List Str → BatchReply → Warm → Warm × ℕ
unfolding batch_of ask_batch
warm_cache now done commands reply w = ask_batch now done (batch_of commands) reply w
