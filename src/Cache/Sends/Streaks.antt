-- ===== src/Cache/Sends/Streaks.antt =====
-- The streak of failures of a command, and the attempts that it leaves.
use mt5700_console.Base.{
  ℕ, ◌+◌, ◌≡◌, refl, ap, ◌∙◌, inl, inr, Bool, true, false, not, ◌&&◌, none, arith, leb,
  if◌then◌else◌, Bool-cases, Str,
}
use mt5700_console.Cache.{is_retryable_read, normalize_command}
use mt5700_console.Cache.Store.{Answer, cache_put, drop_state_cache}
use mt5700_console.Cache.Store.Keys.{str_eq_refl}
use mt5700_console.Cache.Sends.{Client, Job, Options, finish, max_attempts, note_fail_streak}

note_fail_streak_lem :
    (command : Str) (b : Bool) (c : Client)
    → is_retryable_read command ≡ true
    → (note_fail_streak command b c).fail_streak (normalize_command command)
      ≡ (if b then 0 else c.fail_streak (normalize_command command) + 1)
unfolding note_fail_streak
note_fail_streak_lem command b c r =
    let k = normalize_command command in
    rw (r, note_fail_streak)
      (ap (λ (t : Bool). if t then (if b then 0 else c.fail_streak k + 1) else c.fail_streak k)
        (str_eq_refl k))

finish-fail_streak :
    (now : ℕ) (job : Job) (res : Answer) (c : Client)
    → is_retryable_read job.command ≡ true
    → (finish now job res c).fail_streak (normalize_command job.command)
      ≡ (if res.success then 0 else c.fail_streak (normalize_command job.command) + 1)
unfolding finish
finish-fail_streak now job res c r = elim (Bool-cases (not job.fresh && job.read_only)) [
  | inl e ↦
      rw (e, finish)
        (note_fail_streak_lem job.command res.success
          (record c { cache = cache_put now job.command res c.cache }) r)
  | inr e ↦ rw (e, finish) (other res.success)
]
  where
    other :
        (b : Bool)
        → (note_fail_streak job.command b
              (if b then record c { cache = drop_state_cache c.cache } else c)).fail_streak
            (normalize_command job.command)
          ≡ (if b then 0 else c.fail_streak (normalize_command job.command) + 1)
    other true =
        note_fail_streak_lem job.command true (record c { cache = drop_state_cache c.cache }) r
    other false = note_fail_streak_lem job.command false c r

max_attempts_lem :
    (command : Str) (opt : Options) (c : Client)
    → is_retryable_read command ≡ true
    → opt.attempts ≡ none
    → max_attempts command opt c
      ≡ (if leb 2 (c.fail_streak (normalize_command command)) then 1 else 3)
unfolding max_attempts
max_attempts_lem command opt c r a = rw (a, r, max_attempts) refl

-- A read that has failed in two jobs, one after the other, is sent once by the next; a success
-- gives it its three attempts again.
pub max_attempts-finish :
    (first second : ℕ) (job : Job) (opt : Options) (bad worse good : Answer) (c : Client)
    → is_retryable_read job.command ≡ true
    → opt.attempts ≡ none
    → bad.success ≡ false
    → worse.success ≡ false
    → good.success ≡ true
    → (max_attempts job.command opt (finish second job worse (finish first job bad c)) ≡ 1)
      × (max_attempts job.command opt (finish second job good (finish first job bad c)) ≡ 3)
max_attempts-finish first second job opt bad worse good c r a b w g =
    let k = normalize_command job.command in
    let d = finish first job bad c in
    let once =
      finish-fail_streak first job bad c r
      ∙ ap (λ (t : Bool). if t then 0 else c.fail_streak k + 1) b in
    let twice =
      finish-fail_streak second job worse d r
      ∙ ap (λ (t : Bool). if t then 0 else d.fail_streak k + 1) w in
    let reset =
      finish-fail_streak second job good d r
      ∙ ap (λ (t : Bool). if t then 0 else d.fail_streak k + 1) g in
    (
      max_attempts_lem job.command opt (finish second job worse d) r a
          ∙ ap (λ (t : Bool). if t then 1 else 3)
              (two_or_more _ (c.fail_streak k) (omega (arith, once, twice))),
      max_attempts_lem job.command opt (finish second job good d) r a
          ∙ ap (λ (n : ℕ). if leb 2 n then 1 else 3) reset,
    )
  where
    two_or_more : (n m : ℕ) → n ≡ m + 2 → leb 2 n ≡ true
    two_or_more n m h = ground arith
