-- ===== src/Cache/Tests.antt =====
-- A read, a write and a query, against a modem that fails and one that is busy.
use mt5700_console.Base.{
  All, ℕ, zero, suc, ◌+◌, ◌≤◌, ◌≡◌, refl, true, false, Option, none, some, [], ◌∷◌, arith, Str,
  codes, str_eq, starts_with, index_of,
}
use mt5700_console.Cache.{
  cache_ttl_for, includes, is_busy_error, is_error_text, is_retryable_read, last_char,
  normalize_command, state_commands, trim, trim_start, trim_end, has_prefix_in, lines_of,
  error_line, ends_error,
}
use mt5700_console.Cache.Store.{Answer, Store, cache_get, cache_put, created}
use mt5700_console.Cache.Store.Bounded.{IsStore}
use mt5700_console.Cache.Store.Reached.{Reached, start, put, Reached-IsStore}
use mt5700_console.Cache.Sends.{
  Client, at_once, queued, Job, Options, resolved, rejected, Round, attempt_once, enqueue, finish,
  max_attempts, outcome, run_job, success_of, failure,
}
use mt5700_console.Cache.Sends.Runs.{
  attempt_once-IsBusyEnd, IsBusyEnd, cache_get-finish, enqueue-finish, enqueue-run_job,
}
use mt5700_console.Cache.Warm.{BatchReply, results, Warm, warm_cache}
use mt5700_console.Cache.Warm.Kept.{IsKept, warm_cache-IsKept}
use mt5700_console.Cache.Sends.Streaks.{max_attempts-finish}

abbrev read : Str
read = codes "at+csq"

abbrev write : Str
write = codes "AT+CFUN=1"

abbrev query : Str
query = codes " at+cfun? "

abbrev done_well : Answer
done_well = success_of (some (codes "OK"))

abbrev idle : Client
idle = record { cache = none; busy_until = 0; busy_reason = []; fail_streak = λ k. 0 }

abbrev plain : Options
plain = record { fresh = false; attempts = none; budget_ms = none }

abbrev stored : Option Store
stored = cache_put 100 query done_well none

abbrev read_job : Job
read_job = record {
  command = read;
  read_only = true;
  fresh = false;
  max_attempts = 3;
  budget = 20000;
  t0 = 0;
}

abbrev write_job : Job
write_job = record {
  command = write;
  read_only = false;
  fresh = false;
  max_attempts = 1;
  budget = 20000;
  t0 = 0;
}

-- The first attempt fails, the second finds the modem busy.
abbrev rounds : ℕ → Round
rounds zero = record { connected = true; start = 0; reply = rejected []; done = 0 }
rounds (suc zero) = record {
  connected = true;
  start = 10;
  reply = resolved true (some (codes "\r\nERROR\r\n")) [];
  done = 200;
}
rounds (suc (suc n)) = record {
  connected = true;
  start = 400;
  reply = resolved false none (codes "等待空闲通道超时（8s）");
  done = 900;
}

is_read : is_retryable_read read ≡ true
unfolding is_retryable_read trim trim_start trim_end normalize_command includes has_prefix_in str_eq
    last_char
is_read = refl

within : 900 ≤ 200 + cache_ttl_for read
unfolding cache_ttl_for includes normalize_command str_eq
within = omega arith

is_write : is_retryable_read write ≡ false
unfolding is_retryable_read trim trim_start trim_end normalize_command includes has_prefix_in str_eq
    last_char starts_with
is_write = refl

asks_state : includes state_commands (normalize_command query) ≡ true
unfolding includes normalize_command str_eq
asks_state = refl

ends_busy : (attempt_once 2 1 20000 0 rounds idle).answer.busy ≡ true
unfolding attempt_once outcome is_error_text lines_of error_line ends_error starts_with
    is_busy_error index_of
ends_busy = refl

was_put : Reached stored
was_put = put 100 query done_well none start

Reached-IsStore_example : IsStore (created stored)
Reached-IsStore_example = Reached-IsStore stored was_put

enqueue-run_job_example :
    (job : Job) × (enqueue 0 write plain idle ≡ queued job idle)
    × ((run_job 5 rounds job idle).sent ≤ 1)
enqueue-run_job_example = enqueue-run_job 0 5 write plain idle idle rounds is_write refl

attempt_once-IsBusyEnd_example : IsBusyEnd rounds 1 2 (attempt_once 2 1 20000 0 rounds idle)
attempt_once-IsBusyEnd_example = attempt_once-IsBusyEnd 2 1 20000 0 rounds idle ends_busy

enqueue-finish_example :
    (cache : Option Store) × (enqueue 900 read plain (finish 200 read_job done_well idle)
      ≡ at_once done_well (record (finish 200 read_job done_well idle) { cache = cache }))
enqueue-finish_example =
    enqueue-finish 200 900 read_job plain done_well idle start refl refl is_read refl refl within

cache_get-finish_example :
    (cache_get 300 query (finish 200 write_job done_well (record idle { cache = stored })).cache).0
    ≡ none
cache_get-finish_example =
    cache_get-finish 200 300 write_job query done_well (record idle { cache = stored }) refl refl
      asks_state

max_attempts-finish_example :
    (max_attempts read plain (finish 2 read_job (failure []) (finish 1 read_job (failure []) idle))
      ≡ 1)
    × (max_attempts read plain (finish 2 read_job done_well (finish 1 read_job (failure []) idle))
        ≡ 3)
max_attempts-finish_example =
    max_attempts-finish 1 2 read_job plain (failure []) (failure []) done_well idle is_read refl
      refl refl refl

abbrev warm : Warm
warm = record { client = record idle { cache = stored }; warm_failures = 0; warm_error = none }

abbrev batch : BatchReply
batch = results false [] (record { success = true; cmd = read; content = some (codes "OK") } ∷ [])

warm_cache-IsKept_example :
    All
      (IsKept 90 batch warm)
      (created (warm_cache 10 90 (read ∷ write ∷ []) batch warm).0.client.cache).entries
warm_cache-IsKept_example = warm_cache-IsKept 10 90 (read ∷ write ∷ []) batch warm
