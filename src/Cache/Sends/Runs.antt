-- ===== src/Cache/Sends/Runs.antt =====
-- How often a command is sent, and what is known when it is done.
use mt5700_console.Base.{
  ℕ, zero, suc, ◌+◌, ◌-◌, ◌≤◌, ◌<◌, ◌==◌, ==_iff, max, ◌≡◌, refl, ap, ap₂, ◌∙◌, ◌⊎◌, inl, inr, Bool,
  true, false, not, ◌&&◌, Option, none, some, arith, ltb, leb, if◌then◌else◌, Bool-cases, some_inj,
  Str,
}
use mt5700_console.Cache.{
  cache_ttl_for, includes, is_busy_error, is_retryable_read, normalize_command, state_commands,
}
use mt5700_console.Cache.Store.{Answer, Store, cache_get, cache_put, drop_state_cache}
use mt5700_console.Cache.Store.Reached.{Reached}
use mt5700_console.Cache.Store.Hits.{cache_get-cache_put, cache_get-drop_state_cache}
use mt5700_console.Cache.Sends.{
  Client, at_once, queued, Job, Options, Round, Run, attempt_once, attempt_with, busy_cooldown_ms,
  enqueue, enqueue_missed, failed, finish, hit_or_missed, job_of, one_more, max_attempts,
  note_fail_streak, outcome, refused, run_job,
}

failed-sent :
    (done : ℕ) (e : Str) (c : Client) (next : Run) (n : ℕ)
    → next.sent ≤ n
    → (failed done e c next).sent ≤ n + 1
failed-sent done e c next n h = elim (Bool-cases (is_busy_error e)) [
  | inl b ↦ rw b (omega arith)
  | inr b ↦ rw b (omega (arith, h))
]

sum_cases : (r : Str ⊎ Option Str) → ((e : Str) × (r ≡ inl e)) ⊎ ((d : Option Str) × (r ≡ inr d))
sum_cases (inl e) = inl (e, refl)
sum_cases (inr d) = inr (d, refl)

attempt_with-sent :
    (next : Str → Run) (attempt budget t0 : ℕ) (round : Round) (c : Client) (n : ℕ)
    → ((e : Str) → (next e).sent ≤ n)
    → (attempt_with next attempt budget t0 round c).sent ≤ n + 1
attempt_with-sent next attempt budget t0 round c n h = elim (Bool-cases round.connected) [
  | inr off ↦ rw off (omega arith)
  | inl on ↦ elim (Bool-cases (ltb 1 attempt && leb budget (round.start - t0))) [
    | inl late ↦ rw (on, late) (omega arith)
    | inr ok ↦ elim (sum_cases (outcome round.reply)) [
      | inl (e, o) ↦ rw (on, ok, o) (failed-sent round.done e c (next e) n (h e))
      | inr (d, o) ↦ rw (on, ok, o) (omega arith)
    ]
  ]
]

attempt_once-sent :
    (more attempt budget t0 : ℕ) (rounds : ℕ → Round) (c : Client)
    → (attempt_once more attempt budget t0 rounds c).sent ≤ more + 1
unfolding attempt_once
attempt_once-sent zero attempt budget t0 rounds c =
    attempt_with-sent (λ e. refused c e) attempt budget t0 (rounds attempt) c 0 (λ e. omega arith)
attempt_once-sent (suc more) attempt budget t0 rounds c =
    let rest = attempt_once more (attempt + 1) budget t0 rounds c in
    omega (
      arith,
      attempt_with-sent (λ e. rest) attempt budget t0 (rounds attempt) c (more + 1)
          (λ e. attempt_once-sent more (attempt + 1) budget t0 rounds c),
    )

-- A job sends its command as often as its attempts allow, and once where they allow none.
pub run_job-sent :
    (now : ℕ) (rounds : ℕ → Round) (job : Job) (c : Client)
    → (run_job now rounds job c).sent ≤ max 1 job.max_attempts
unfolding run_job
run_job-sent now rounds job c =
    elim (Bool-cases (job.read_only && (not job.fresh && ltb now c.busy_until))) [
      | inl busy ↦ rw (busy, run_job) (omega arith)
      | inr free ↦
          rw (free, run_job)
            (omega (arith, attempt_once-sent (job.max_attempts - 1) 1 job.budget job.t0 rounds c))
    ]

&&-false : (b : Bool) → (b && false) ≡ false
&&-false true = refl
&&-false false = refl

enqueue_write :
    (now : ℕ) (command : Str) (opt : Options) (c : Client)
    → is_retryable_read command ≡ false
    → enqueue now command opt c ≡ queued (job_of now command opt c) c
unfolding enqueue enqueue_missed
enqueue_write now command opt c w = rw (w, &&-false (not opt.fresh), enqueue, enqueue_missed) refl

max_attempts_write :
    (command : Str) (opt : Options) (c : Client)
    → is_retryable_read command ≡ false
    → opt.attempts ≡ none
    → max_attempts command opt c ≡ 1
unfolding max_attempts
max_attempts_write command opt c w a = rw (a, w, max_attempts) refl

-- A write, where the caller does not ask for attempts, is put in the queue whatever the state, and
-- its job sends it once at most.
pub enqueue-run_job :
    (now later : ℕ) (command : Str) (opt : Options) (c d : Client) (rounds : ℕ → Round)
    → is_retryable_read command ≡ false
    → opt.attempts ≡ none
    → (job : Job) × (enqueue now command opt c ≡ queued job c)
      × ((run_job later rounds job d).sent ≤ 1)
enqueue-run_job now later command opt c d rounds w a = (
  job_of now command opt c,
  enqueue_write now command opt c w,
  omega (
    arith,
    run_job-sent later rounds (job_of now command opt c) d,
    max_attempts_write command opt c w a,
  ),
)

-- What the round is answered with counts as a failure, and says that the modem is busy, or not.
abbrev pub FailsWith : Bool → Round → Type 0
FailsWith busy round = (e : Str) × (outcome round.reply ≡ inl e) × (is_busy_error e ≡ busy)

-- The round `k` is the last that was sent, and the first that was answered with busy; the busy
-- window starts at its end.
abbrev pub IsBusyEnd : (ℕ → Round) → ℕ → ℕ → Run → Type 0
IsBusyEnd rounds attempt more r =
    (k : ℕ) × (attempt ≤ k)
    × (k ≤ attempt + more)
    × (r.sent + attempt ≡ k + 1)
    × FailsWith true (rounds k)
    × ((j : ℕ) → attempt ≤ j → j < k → FailsWith false (rounds j))
    × (r.client.busy_until ≡ (rounds k).done + busy_cooldown_ms)

false_true : {A : Type 0} → false ≡ true → A
false_true h = cc

attempt_with-IsBusyEnd :
    (next : Str → Run) (attempt more budget t0 : ℕ) (rounds : ℕ → Round) (c : Client)
    → (FailsWith false (rounds attempt)
        → (e : Str) → (next e).answer.busy ≡ true
        → IsBusyEnd rounds attempt more (one_more (next e)))
    → (attempt_with next attempt budget t0 (rounds attempt) c).answer.busy ≡ true
    → IsBusyEnd rounds attempt more (attempt_with next attempt budget t0 (rounds attempt) c)
attempt_with-IsBusyEnd next attempt more budget t0 rounds c h =
    let round = rounds attempt in
    elim (Bool-cases round.connected) [
      | inr off ↦ rw off (λ b. false_true b)
      | inl on ↦ elim (Bool-cases (ltb 1 attempt && leb budget (round.start - t0))) [
        | inl late ↦ rw (on, late) (λ b. false_true b)
        | inr ok ↦ elim (sum_cases (outcome round.reply)) [
          | inr (d, o) ↦ rw (on, ok, o) (λ b. false_true b)
          | inl (e, o) ↦ elim (Bool-cases (is_busy_error e)) [
            | inl busy ↦
                rw (on, ok, o, busy)
                  (λ b. (
                    attempt,
                    omega arith,
                    omega arith,
                    omega arith,
                    (e, o, busy),
                    (λ j a l. absurd (omega (arith, a, l))),
                    refl,
                  ))
            | inr other ↦ rw (on, ok, o, other) (h (e, o, other) e)
          ]
        ]
      ]
    ]

one_later :
    (rounds : ℕ → Round) (attempt more : ℕ) (r : Run)
    → FailsWith false (rounds attempt)
    → IsBusyEnd rounds (attempt + 1) more r
    → IsBusyEnd rounds attempt (suc more) (one_more r)
one_later rounds attempt more r other (k, ge, le, n, busy, others, u) =
    (k, omega (arith, ge), omega (arith, le), omega (arith, n), busy, earlier, u)
  where
    earlier : (j : ℕ) → attempt ≤ j → j < k → FailsWith false (rounds j)
    earlier j a l = elim (Bool-cases (j == attempt)) [
      | inl e ↦ rw ((==_iff j attempt).0 e) other
      | inr e ↦ others j (later e) l
    ]
      where
        later : (j == attempt) ≡ false → attempt + 1 ≤ j
        later e = ground arith

-- A run that ends with busy has sent its attempts up to the first that is answered with busy and
-- nothing behind it: the ones before it failed with another error, and the busy window starts at
-- its end.
pub attempt_once-IsBusyEnd :
    (more attempt budget t0 : ℕ) (rounds : ℕ → Round) (c : Client)
    → (attempt_once more attempt budget t0 rounds c).answer.busy ≡ true
    → IsBusyEnd rounds attempt more (attempt_once more attempt budget t0 rounds c)
unfolding attempt_once
attempt_once-IsBusyEnd zero attempt budget t0 rounds c =
    attempt_with-IsBusyEnd (λ e. refused c e) attempt 0 budget t0 rounds c
      (λ other e b. false_true b)
attempt_once-IsBusyEnd (suc more) attempt budget t0 rounds c =
    let rest = attempt_once more (attempt + 1) budget t0 rounds c in
    attempt_with-IsBusyEnd (λ e. rest) attempt (suc more) budget t0 rounds c
      (λ other e b.
        one_later rounds attempt more rest other
          (attempt_once-IsBusyEnd more (attempt + 1) budget t0 rounds c b))

note_fail_streak-cache :
    (command : Str) (b : Bool) (c : Client) → (note_fail_streak command b c).cache ≡ c.cache
unfolding note_fail_streak
note_fail_streak-cache command b c = elim (Bool-cases (is_retryable_read command)) [
  | inl e ↦ rw (e, note_fail_streak) refl
  | inr e ↦ rw (e, note_fail_streak) refl
]

hit_lem :
    (now : ℕ) (command : Str) (opt : Options) (c : Client) (p : Option Answer × Option Store)
    (a : Answer)
    → p.0 ≡ some a
    → hit_or_missed now command opt c p ≡ at_once a (record c { cache = p.1 })
hit_lem now command opt c (some b, cache) a e =
    ap (λ (x : Answer). at_once x (record c { cache = cache })) (some_inj e)
hit_lem now command opt c (none, cache) a e = cc

enqueue_read :
    (later : ℕ) (command : Str) (opt : Options) (c : Client) (a : Answer)
    → opt.fresh ≡ false
    → is_retryable_read command ≡ true
    → (cache_get later command c.cache).0 ≡ some a
    → enqueue later command opt c
      ≡ at_once a (record c { cache = (cache_get later command c.cache).1 })
unfolding enqueue
enqueue_read later command opt c a of rr hit =
    let p = cache_get later command c.cache in
    let test : (not opt.fresh && is_retryable_read command) ≡ true =
      ap₂ (λ (x y : Bool). not x && y) of rr in
    ap
      (λ (b : Bool).
        if b then hit_or_missed later command opt c p else enqueue_missed later command opt c)
      test
    ∙ hit_lem later command opt c p a hit

young : (now later ttl : ℕ) → later ≤ now + ttl → ltb ttl (later - now) ≡ false
young now later ttl h = ground arith

finish_read-cache :
    (now : ℕ) (job : Job) (res : Answer) (c : Client)
    → job.read_only ≡ true
    → job.fresh ≡ false
    → (finish now job res c).cache ≡ cache_put now job.command res c.cache
unfolding finish
finish_read-cache now job res c ro fr =
    rw (ro, fr, finish)
      (note_fail_streak-cache job.command res.success
        (record c { cache = cache_put now job.command res c.cache }))

finish_write-cache :
    (now : ℕ) (job : Job) (res : Answer) (c : Client)
    → job.read_only ≡ false
    → res.success ≡ true
    → (finish now job res c).cache ≡ drop_state_cache c.cache
unfolding finish
finish_write-cache now job res c ro s =
    rw (ro, &&-false (not job.fresh), finish)
      (note_fail_streak-cache job.command res.success
          (if res.success then record c { cache = drop_state_cache c.cache } else c)
        ∙ ap (λ (b : Bool). (if b then record c { cache = drop_state_cache c.cache } else c).cache)
            s)

-- Once a read has succeeded, the same command is answered with that result at once, without being
-- sent, until it is older than its time to live.
pub enqueue-finish :
    (now later : ℕ) (job : Job) (opt : Options) (res : Answer) (c : Client)
    → Reached c.cache
    → job.read_only ≡ true
    → job.fresh ≡ false
    → is_retryable_read job.command ≡ true
    → opt.fresh ≡ false
    → res.success ≡ true
    → later ≤ now + cache_ttl_for job.command
    → (cache : Option Store) × (enqueue later job.command opt (finish now job res c)
        ≡ at_once res (record (finish now job res c) { cache = cache }))
enqueue-finish now later job opt res c r ro fr rr of s le =
    let d = finish now job res c in
    let hit : (cache_get later job.command d.cache).0 ≡ some res =
      rw (finish_read-cache now job res c ro fr) (
        cache_get-cache_put now later job.command job.command res c.cache r s refl
        ∙ ap (λ (b : Bool). if b then none else some res)
            (young now later (cache_ttl_for job.command) le)) in
    ((cache_get later job.command d.cache).1, enqueue_read later job.command opt d res of rr hit)

-- A write that succeeds drops what was known of the states: no command that asks for one is
-- answered from the cache behind it.
pub cache_get-finish :
    (now later : ℕ) (job : Job) (query : Str) (res : Answer) (c : Client)
    → job.read_only ≡ false
    → res.success ≡ true
    → includes state_commands (normalize_command query) ≡ true
    → (cache_get later query (finish now job res c).cache).0 ≡ none
cache_get-finish now later job query res c ro s q =
    rw (finish_write-cache now job res c ro s) (cache_get-drop_state_cache later query c.cache q)
