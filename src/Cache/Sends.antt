-- ===== src/Cache/Sends.antt =====
-- `sendCommand` of rpc.js: the cache in front of it, the busy state, the retries and the streak of
-- failures. A command is put in the queue (`enqueue`), runs when the commands before it are done
-- (`run_job`), and then its result is noted (`finish`).

pub mod Runs
pub mod Streaks
use mt5700_console.Base.{
  ℕ, zero, suc, ◌+◌, ◌-◌, ◌*◌, ◌/◌, ◌%◌, ◌^◌, ◌≤◌, ◌<◌, min, max, ◌≡◌, refl, sym, ap, ap₂, ◌∙◌, ◌≢◌,
  ◌↔◌, ◌⊎◌, inl, inr, Bool, true, false, not, ◌&&◌, ◌||◌, Option, none, some, List, [], ◌∷◌, ◌++◌,
  map, append-nil, append_assoc, arith, ltb, leb, ◌==◌, if◌then◌else◌, ltb→lt, ==_iff, Bool-cases,
  Option-cases, &&-left, &&-right, some_inj, length, get_elem?, get_or, take, drop, replicate,
  flatten, all, All, length-append, take-length-append, drop-length-append, take-append-drop,
  length-take, length-drop, flatten-append, All-append, All-take, All-drop, Str, codes, str_eq,
  str_eq_iff, starts_with, index_of, hex_digit, hex_value, hex_value-hex_digit, hex2, IsByte,
  IsUnit16, is_text,
}
use mt5700_console.Cache.{
  apdu_budget_ms, is_apdu_command, is_busy_error, is_error_text, is_retryable_read,
  normalize_command,
}
use mt5700_console.Cache.Store.{Answer, Store, cache_get, cache_put, drop_state_cache}
use mt5700_console.Sms.Commands.{decimal}

-- `_failStreak` is a function that is 0 where the object has no such key.
pub record Client : Type 0 where
  pub cache : Option Store
  pub busy_until : ℕ
  pub busy_reason : Str
  pub fail_streak : Str → ℕ

pub record Options : Type 0 where
  pub fresh : Bool
  pub attempts : Option ℕ
  pub budget_ms : Option ℕ

-- What `rpcAt` under `withTimeout` comes to. The flag of an answer is `resp.success !== false`;
-- an answer that is `null` has the flag and no data.
pub data Reply : Type 0 where
  resolved : Bool → Option Str → Str → Reply
  rejected : Str → Reply

-- One attempt: is there a connection, the time before it, the reply, and the time of the reply.
pub record Round : Type 0 where
  pub connected : Bool
  pub start : ℕ
  pub reply : Reply
  pub done : ℕ

pub record Run : Type 0 where
  pub answer : Answer
  pub client : Client
  pub sent : ℕ

abbrev pub busy_cooldown_ms : ℕ
busy_cooldown_ms = 8000

abbrev or_text : Str → Str → Str
or_text s d = if is_text s then s else d

abbrev pub failure : Str → Answer
failure e = record { success = false; content = none; error = e; busy = false; quick_fail = false }

abbrev pub busy_failure : Str → Answer
busy_failure e = record {
  success = false;
  content = none;
  error = e;
  busy = true;
  quick_fail = false;
}

abbrev pub quick_failure : Str → Answer
quick_failure reason = record {
  success = false;
  content = none;
  error = or_text reason (codes "模组正忙，请稍后重试");
  busy = true;
  quick_fail = true;
}

abbrev pub success_of : Option Str → Answer
success_of content = record {
  success = true;
  content = content;
  error = [];
  busy = false;
  quick_fail = false;
}

-- `_noteBusy`.
abbrev pub note_busy : ℕ → Str → Client → Client
note_busy now msg c = record c { busy_until = now + busy_cooldown_ms; busy_reason = msg }

abbrev pub busy_state : ℕ → Client → Option (Str × ℕ)
busy_state now c = if leb c.busy_until now then none else some (c.busy_reason, c.busy_until)

-- The message of a reply that counts as a failure, or the data of one that does not.
unfoldable pub outcome : Reply → (Str ⊎ Option Str)
outcome (resolved ok content error) =
    if not ok || is_error_text content then inl (or_text error (codes "命令执行失败")) else inr content
outcome (rejected msg) = inl (or_text msg (codes "命令执行失败"))

abbrev pub answered : Client → Option Str → Run
answered c content = record {
  answer = success_of content;
  client = record c { busy_until = 0; busy_reason = [] };
  sent = 1;
}

abbrev pub refused : Client → Str → Run
refused c e = record { answer = failure e; client = c; sent = 0 }

abbrev spent : ℕ → Str
spent budget = codes "命令总预算已用尽（" ++ (decimal budget ++ codes "ms）")

abbrev pub one_more : Run → Run
one_more r = record r { sent = r.sent + 1 }

-- A failed attempt: busy is never tried again.
abbrev pub failed : ℕ → Str → Client → Run → Run
failed done e c next =
    if is_busy_error e
    then record { answer = busy_failure e; client = note_busy done e c; sent = 1 }
    else one_more next

-- The body of `attemptOnce`; `next` is the attempt that may follow, on the message of this one.
abbrev pub attempt_with : (Str → Run) → ℕ → ℕ → ℕ → Round → Client → Run
attempt_with next attempt budget t0 round c =
    if not round.connected
    then refused c (codes "未连接到调制解调器")
    else if ltb 1 attempt && leb budget (round.start - t0)
    then refused c (spent budget)
    else elim (outcome round.reply) [
      | inr content ↦ answered c content
      | inl e ↦ failed round.done e c (next e)
    ]

-- `attemptOnce`; the first number is how many attempts may follow this one, the next is `attempt`.
unfoldable pub attempt_once : ℕ → ℕ → ℕ → ℕ → (ℕ → Round) → Client → Run
attempt_once zero attempt budget t0 rounds c =
    attempt_with (λ e. refused c e) attempt budget t0 (rounds attempt) c
attempt_once (suc more) attempt budget t0 rounds c =
    let rest = attempt_once more (attempt + 1) budget t0 rounds c in
    attempt_with (λ e. rest) attempt budget t0 (rounds attempt) c

abbrev pub retry_attempts_default : ℕ
retry_attempts_default = 3

abbrev pub retry_downgrade_streak : ℕ
retry_downgrade_streak = 2

-- The variable `maxAttempts`.
unfoldable pub max_attempts : Str → Options → Client → ℕ
max_attempts command opt c = elim opt.attempts [
  | some n ↦ n
  | none ↦
      if not (is_retryable_read command)
      then 1
      else if leb retry_downgrade_streak (c.fail_streak (normalize_command command))
      then 1
      else retry_attempts_default
]

unfoldable pub budget_of : Str → Options → ℕ
budget_of command opt = elim opt.budget_ms [
  | some n ↦ n
  | none ↦ if is_apdu_command command then apdu_budget_ms else 20000
]

-- What waits in the queue.
pub record Job : Type 0 where
  pub command : Str
  pub read_only : Bool
  pub fresh : Bool
  pub max_attempts : ℕ
  pub budget : ℕ
  pub t0 : ℕ

pub data Enqueued : Type 0 where
  at_once : Answer → Client → Enqueued
  queued : Job → Client → Enqueued

abbrev pub job_of : ℕ → Str → Options → Client → Job
job_of now command opt c = record {
  command = command;
  read_only = is_retryable_read command;
  fresh = opt.fresh;
  max_attempts = max_attempts command opt c;
  budget = budget_of command opt;
  t0 = now;
}

-- Without a hit in the cache.
unfoldable pub enqueue_missed : ℕ → Str → Options → Client → Enqueued
unfolding max_attempts budget_of
enqueue_missed now command opt c =
    if is_retryable_read command && (not opt.fresh && ltb now c.busy_until)
    then at_once (quick_failure c.busy_reason) c
    else queued (job_of now command opt c) c

abbrev pub hit_or_missed : ℕ → Str → Options → Client → Option Answer × Option Store → Enqueued
hit_or_missed now command opt c (some cached, cache) = at_once cached (record c { cache = cache })
hit_or_missed now command opt c (none, cache) =
    enqueue_missed now command opt (record c { cache = cache })

-- `sendCommand` up to the queue.
unfoldable pub enqueue : ℕ → Str → Options → Client → Enqueued
enqueue now command opt c =
    if not opt.fresh && is_retryable_read command
    then hit_or_missed now command opt c (cache_get now command c.cache)
    else enqueue_missed now command opt c

-- The function that `commandQueue` runs, at the time `now`.
unfoldable pub run_job : ℕ → (ℕ → Round) → Job → Client → Run
run_job now rounds job c =
    if job.read_only && (not job.fresh && ltb now c.busy_until)
    then record { answer = quick_failure c.busy_reason; client = c; sent = 0 }
    else attempt_once (job.max_attempts - 1) 1 job.budget job.t0 rounds c

-- `_noteFailStreak`.
unfoldable pub note_fail_streak : Str → Bool → Client → Client
note_fail_streak command succeeded c =
    let k = normalize_command command in
    let n = if succeeded then 0 else c.fail_streak k + 1 in
    if not (is_retryable_read command)
    then c
    else record c { fail_streak = λ j. if str_eq j k then n else c.fail_streak j }

-- What is done with the result, at the time `now`.
unfoldable pub finish : ℕ → Job → Answer → Client → Client
unfolding note_fail_streak
finish now job res c =
    let kept : Client = record c { cache = cache_put now job.command res c.cache } in
    let dropped : Client = record c { cache = drop_state_cache c.cache } in
    if not job.fresh && job.read_only
    then note_fail_streak job.command res.success kept
    else note_fail_streak job.command res.success (if res.success then dropped else c)
