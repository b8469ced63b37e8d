-- ===== src/Scheduler.antt =====
-- agentix/packages/scheduler/index.ts: jobs with retries, and recurring jobs. `scheduler_jobs` is the
-- list of its rows in the order of their insertion. A run of `_processJobs` awaits its handlers one
-- after the other; what other code does while a handler is awaited is the list `meanwhile`.
pub mod Run
pub mod Rows
pub mod Ranks
pub mod Attempts
pub mod Invariant
pub mod Polling
pub mod Effect
pub mod Progress
pub mod Liveness
pub mod Starvation
pub mod Recurring
pub mod Reading
mod Tests
use atf.Common.{
  ℕ, ◌+◌, ◌-◌, ◌/◌, Bool, true, false, not, ◌&&◌, ◌||◌, Option, none, some, String, List, [], ◌∷◌,
  ◌++◌, map, take, keep, any, ltb, leb, ◌==◌, if◌then◌else◌, str_eq, or_else,
}

pub data JobStatus : Type 0 where
  pending running completed failed cancelled : JobStatus

-- A row of `scheduler_jobs`; a multiplier is a JavaScript number.
pub record JobRow (Number : Type 0) : Type 0 where
  pub job_id : String
  pub job_type : String
  pub payload_json : String
  pub scheduled_at : ℕ
  pub max_attempts : ℕ
  pub attempts : ℕ
  pub backoff_ms : ℕ
  pub backoff_multiplier : Number
  pub timeout_ms : ℕ
  pub status : JobStatus
  pub on_complete_event : Option String
  pub on_failure_event : Option String
  pub created_at : ℕ
  pub last_attempt_at : Option ℕ

pub record Job (Number Payload : Type 0) : Type 0 where
  pub id : String
  pub job_type : String
  pub payload : Payload
  pub scheduled_at : ℕ
  pub max_attempts : ℕ
  pub attempts : ℕ
  pub backoff_ms : ℕ
  pub backoff_multiplier : Number
  pub timeout_ms : ℕ
  pub status : JobStatus
  pub on_complete_event : Option String
  pub on_failure_event : Option String
  pub created_at : ℕ
  pub last_attempt_at : Option ℕ

pub record RecurringJob (Payload : Type 0) : Type 0 where
  pub job_type : String
  pub payload : Payload
  pub interval_ms : ℕ
  pub next_run_at : ℕ
  pub max_attempts : ℕ
  pub on_complete_event : Option String
  pub on_failure_event : Option String

pub record JobOptions (Number : Type 0) : Type 0 where
  pub scheduled_at : Option ℕ
  pub max_attempts : Option ℕ
  pub backoff_ms : Option ℕ
  pub backoff_multiplier : Option Number
  pub timeout_ms : Option ℕ
  pub on_complete_event : Option String
  pub on_failure_event : Option String

-- Why an attempt failed: the text that the handler rejects with, or the time limit.
pub data JobError : Type 0 where
  thrown : String → JobError
  timed_out : String → ℕ → JobError

pub data JobEvent : Type 0 where
  job_completed : String → String → JobEvent
  job_failed : String → String → JobError → JobEvent

-- What a handler's promise does, and after how many milliseconds.
pub data Conduct : Type 0 where
  resolves rejects : ℕ → Conduct
  hangs : Conduct

-- A call of the scheduler by other code.
pub data Command (Number Payload : Type 0) : Type 0 where
  schedules : String → String → Payload → JobOptions Number → ℕ → Command Number Payload
  cancels : String → Command Number Payload

pub record Call (Number Payload : Type 0) : Type 0 where
  pub conduct : Conduct
  pub message : String
  pub meanwhile : List (Command Number Payload)

-- The JSON texts, `Math.floor(ms * Math.pow(multiplier, n) / 1000)`, the literal 2.0, and the test of
-- `||` on a number.
pub record Numerics (Number Payload : Type 0) : Type 0 where
  pub stringify : Payload → String
  pub parse : String → Option Payload
  pub delay : ℕ → Number → ℕ → ℕ
  pub two : Number
  pub is_zero : Number → Bool

pub record Queue (Number Payload : Type 0) : Type 0 where
  pub jobs : List (JobRow Number)
  pub recurring : List (String × RecurringJob Payload)
  -- What the event bus was given, the newest last.
  pub events : List JobEvent

-- `options.n || d`, `options.text || null`
unfoldable pub positive_or : ℕ → Option ℕ → ℕ
positive_or d none = d
positive_or d (some n) = if n == 0 then d else n

unfoldable pub text_or_none : Option String → Option String
text_or_none none = none
text_or_none (some text) = if str_eq text "" then none else some text

unfoldable pub is_waiting : JobStatus → Bool
is_waiting JobStatus.pending = true
is_waiting JobStatus.running = false
is_waiting JobStatus.completed = false
is_waiting JobStatus.failed = false
is_waiting JobStatus.cancelled = false

unfoldable pub is_over : JobStatus → Bool
is_over JobStatus.pending = false
is_over JobStatus.running = false
is_over JobStatus.completed = true
is_over JobStatus.failed = true
is_over JobStatus.cancelled = true

unfoldable pub run_with_timeout : Conduct → String → String → ℕ → Option JobError
run_with_timeout (Conduct.resolves after) message id limit =
    if ltb after limit then none else some (JobError.timed_out id limit)
run_with_timeout (Conduct.rejects after) message id limit =
    some (if ltb after limit then JobError.thrown message else JobError.timed_out id limit)
run_with_timeout Conduct.hangs message id limit = some (JobError.timed_out id limit)

module _ {Payload : Type 0} where
  unfoldable pub erase_recurring :
      String → List (String × RecurringJob Payload) → List (String × RecurringJob Payload)
  erase_recurring id [] = []
  erase_recurring id ((k, job) ∷ jobs) =
      if str_eq k id then erase_recurring id jobs else (k, job) ∷ erase_recurring id jobs

module _ {Number : Type 0} where
  abbrev pub has_id : String → JobRow Number → Bool
  has_id id r = str_eq r.job_id id

  -- `UPDATE scheduler_jobs SET ... WHERE job_id = ?`
  unfoldable pub update_row :
      String → (JobRow Number → JobRow Number) → List (JobRow Number) → List (JobRow Number)
  update_row id f [] = []
  update_row id f (r ∷ rows) = (if has_id id r then f r else r) ∷ update_row id f rows

  unfoldable pub find_row : String → List (JobRow Number) → Option (JobRow Number)
  find_row id [] = none
  find_row id (r ∷ rows) = if has_id id r then some r else find_row id rows

  unfoldable pub cancel_row : JobRow Number → JobRow Number
  unfolding is_waiting
  cancel_row r = if is_waiting r.status then record r { status = JobStatus.cancelled } else r

  unfoldable pub start_row : ℕ → JobRow Number → JobRow Number
  start_row now r = record r {
    status = JobStatus.running;
    last_attempt_at = some now;
    attempts = r.attempts + 1;
  }

  unfoldable pub complete_row : JobRow Number → JobRow Number
  complete_row r = record r { status = JobStatus.completed }

  unfoldable pub fail_row : ℕ → JobRow Number → JobRow Number
  fail_row now r = record r { status = JobStatus.failed; last_attempt_at = some now }

  unfoldable pub retry_row : ℕ → JobRow Number → JobRow Number
  retry_row next_at r = record r { status = JobStatus.pending; scheduled_at = next_at }

  -- `ORDER BY scheduled_at ASC`: equal times keep the order of the table.
  unfoldable pub insert_by_time : JobRow Number → List (JobRow Number) → List (JobRow Number)
  insert_by_time r [] = r ∷ []
  insert_by_time r (x ∷ rows) =
      if leb r.scheduled_at x.scheduled_at then r ∷ x ∷ rows else x ∷ insert_by_time r rows

  unfoldable pub sort_by_time : List (JobRow Number) → List (JobRow Number)
  unfolding insert_by_time
  sort_by_time [] = []
  sort_by_time (r ∷ rows) = insert_by_time r (sort_by_time rows)

  unfoldable pub is_due : ℕ → JobRow Number → Bool
  unfolding is_waiting
  is_due now r = is_waiting r.status && leb r.scheduled_at now

  -- The rows of one run of `_processJobs`.
  unfoldable pub due_jobs : ℕ → List (JobRow Number) → List (JobRow Number)
  unfolding is_due sort_by_time
  due_jobs now rows = take 10 (sort_by_time (keep (is_due now) rows))

  unfoldable pub is_kept : ℕ → JobRow Number → Bool
  unfolding is_over
  is_kept now r = not (is_over r.status && ltb r.created_at (now - 86_400))

module _ {Number Payload : Type 0} where
  unfoldable pub cancel : String → Queue Number Payload → Queue Number Payload
  unfolding update_row cancel_row erase_recurring
  cancel id q = record q {
    jobs = update_row id cancel_row q.jobs;
    recurring = erase_recurring id q.recurring;
  }

  abbrev pub emit : JobEvent → Queue Number Payload → Queue Number Payload
  emit event q = record q { events = q.events ++ event ∷ [] }

  abbrev pub change_row :
      String → (JobRow Number → JobRow Number) → Queue Number Payload → Queue Number Payload
  change_row id f q = record q { jobs = update_row id f q.jobs }

  unfoldable pub emit_completed :
      Option String → String → Queue Number Payload → Queue Number Payload
  emit_completed none id q = q
  emit_completed (some event) id q = emit (JobEvent.job_completed event id) q

  unfoldable pub emit_failed :
      Option String → String → JobError → Queue Number Payload → Queue Number Payload
  emit_failed none id err q = q
  emit_failed (some event) id err q = emit (JobEvent.job_failed event id err) q
