-- ===== src/Scheduler/Recurring.antt =====
-- agentix/packages/scheduler/index.ts: `scheduleRecurring` and `_processRecurring`. A recurring job
-- in the map is active: only `cancel` changes the status, and it takes the job out.
use atf.Common.{
  ℕ, ◌+◌, ◌/◌, Option, none, some, String, List, [], ◌∷◌, ◌++◌, ltb, if◌then◌else◌, str_eq,
}
use atf.Scheduler.{JobStatus, Job, RecurringJob, JobError, Call, Numerics, Queue, run_with_timeout}

-- `Map.prototype.set`
unfoldable pub set_recurring :
    {Payload : Type 0}
    → String
    → RecurringJob Payload
    → List (String × RecurringJob Payload)
    → List (String × RecurringJob Payload)
set_recurring id job [] = (id, job) ∷ []
set_recurring id job ((k, old) ∷ jobs) =
    if str_eq k id then (k, job) ∷ jobs else (k, old) ∷ set_recurring id job jobs

unfoldable pub next_occurrence :
    {Payload : Type 0} → ℕ → RecurringJob Payload → RecurringJob Payload
next_occurrence now job = record job { next_run_at = now + job.interval_ms / 1_000 }

module _ {Number Payload : Type 0} where
  unfoldable pub schedule_recurring :
      String
      → String
      → Payload
      → ℕ
      → Option String
      → Option String
      → ℕ
      → Queue Number Payload
      → Queue Number Payload
  unfolding set_recurring
  schedule_recurring id job_type payload interval_ms on_complete on_failure now q = record q {
    recurring =
        set_recurring id
          (record {
            job_type = job_type;
            payload = payload;
            interval_ms = interval_ms;
            next_run_at = now;
            max_attempts = 3;
            on_complete_event = on_complete;
            on_failure_event = on_failure;
          })
          q.recurring;
  }

  -- The job that an occurrence runs; `${id}_${now}` is the parameter `occurrence_id`.
  unfoldable pub one_time_job :
      (String → ℕ → String)
      → Numerics Number Payload
      → String
      → ℕ
      → RecurringJob Payload
      → Job Number Payload
  one_time_job occurrence_id numerics id now job = record {
    id = occurrence_id id now;
    job_type = job.job_type;
    payload = job.payload;
    scheduled_at = now;
    max_attempts = job.max_attempts;
    attempts = 0;
    backoff_ms = 1_000;
    backoff_multiplier = numerics.two;
    timeout_ms = 60_000;
    status = JobStatus.pending;
    on_complete_event = none;
    on_failure_event = none;
    created_at = now;
    last_attempt_at = none;
  }

module _ {Number Payload : Type 0} (occurrence_id : String → ℕ → String)
    (numerics : Numerics Number Payload)
    (handlers : String → Option (Job Number Payload → Call Number Payload)) where
  -- One entry of the loop: what is run, with its error, and the entry afterwards.
  unfoldable pub recur :
      ℕ
      → String
      → RecurringJob Payload
      → Option (Job Number Payload → Call Number Payload)
      → List (Job Number Payload × Option JobError) × RecurringJob Payload
  unfolding one_time_job run_with_timeout next_occurrence
  recur now id job none = ([], job)
  recur now id job (some handler) =
      if ltb now job.next_run_at
      then ([], job)
      else let once = one_time_job occurrence_id numerics id now job in
        let call = handler once in
        (
          (once, run_with_timeout call.conduct call.message once.id 60_000) ∷ [],
          next_occurrence now job,
        )

  -- The loop, for handlers that leave the map of recurring jobs alone.
  unfoldable pub process_recurring :
      ℕ
      → List (String × RecurringJob Payload)
      → List (Job Number Payload × Option JobError) × List (String × RecurringJob Payload)
  unfolding recur
  process_recurring now [] = ([], [])
  process_recurring now ((id, job) ∷ jobs) =
      let (ran, job') = recur now id job (handlers job.job_type) in
      let (more, jobs') = process_recurring now jobs in (ran ++ more, (id, job') ∷ jobs')
