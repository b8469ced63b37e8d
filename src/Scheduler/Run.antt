-- ===== src/Scheduler/Run.antt =====
-- agentix/packages/scheduler/index.ts: `schedule` and `_processJobs`.
use atf.Common.{
  ℕ, ◌+◌, Bool, true, false, Option, none, some, String, List, [], ◌∷◌, ◌++◌, keep, any, leb,
  if◌then◌else◌, or_else,
}
use atf.Scheduler.{
  JobStatus, JobRow, Job, JobOptions, JobError, Call, Command, Numerics, Queue, positive_or,
  text_or_none, run_with_timeout, has_id, update_row, cancel, change_row, start_row, complete_row,
  fail_row, retry_row, emit_completed, emit_failed, due_jobs, is_kept,
}

module _ {Number Payload : Type 0} (numerics : Numerics Number Payload) where
  unfoldable pub multiplier_or_two : Option Number → Number
  multiplier_or_two none = numerics.two
  multiplier_or_two (some m) = if numerics.is_zero m then numerics.two else m

  unfoldable pub new_row : String → String → Payload → JobOptions Number → ℕ → JobRow Number
  unfolding positive_or text_or_none multiplier_or_two
  new_row id job_type payload options now = record {
    job_id = id;
    job_type = job_type;
    payload_json = numerics.stringify payload;
    scheduled_at = positive_or now options.scheduled_at;
    max_attempts = positive_or 3 options.max_attempts;
    attempts = 0;
    backoff_ms = positive_or 1_000 options.backoff_ms;
    backoff_multiplier = multiplier_or_two options.backoff_multiplier;
    timeout_ms = positive_or 30_000 options.timeout_ms;
    status = JobStatus.pending;
    on_complete_event = text_or_none options.on_complete_event;
    on_failure_event = text_or_none options.on_failure_event;
    created_at = now;
    last_attempt_at = none;
  }

  -- `schedule` with the id that `generateId` gives; the primary key refuses one that is taken.
  unfoldable pub schedule :
      String
      → String
      → Payload
      → JobOptions Number
      → ℕ
      → Queue Number Payload
      → Option (Queue Number Payload)
  unfolding new_row
  schedule id job_type payload options now q =
      if any (has_id id) q.jobs
      then none
      else some (record q { jobs = q.jobs ++ new_row id job_type payload options now ∷ [] })

  -- A command that throws leaves the queue as it is.
  unfoldable pub perform : Command Number Payload → Queue Number Payload → Queue Number Payload
  unfolding schedule cancel
  perform (Command.schedules id job_type payload options now) q =
      or_else (schedule id job_type payload options now q) q
  perform (Command.cancels id) q = cancel id q

  unfoldable pub perform_all :
      List (Command Number Payload) → Queue Number Payload → Queue Number Payload
  unfolding perform
  perform_all [] q = q
  perform_all (c ∷ cs) q = perform_all cs (perform c q)

  unfoldable pub job_of : JobRow Number → Payload → Job Number Payload
  unfolding text_or_none
  job_of r payload = record {
    id = r.job_id;
    job_type = r.job_type;
    payload = payload;
    scheduled_at = r.scheduled_at;
    max_attempts = r.max_attempts;
    attempts = r.attempts;
    backoff_ms = r.backoff_ms;
    backoff_multiplier = r.backoff_multiplier;
    timeout_ms = r.timeout_ms;
    status = r.status;
    on_complete_event = text_or_none r.on_complete_event;
    on_failure_event = text_or_none r.on_failure_event;
    created_at = r.created_at;
    last_attempt_at = r.last_attempt_at;
  }

  -- The end of an attempt, on the error that it was caught with.
  unfoldable pub settle :
      ℕ → Job Number Payload → Option JobError → Queue Number Payload → Queue Number Payload
  unfolding update_row complete_row fail_row retry_row emit_completed emit_failed
  settle now job none q =
      emit_completed job.on_complete_event job.id (change_row job.id complete_row q)
  settle now job (some err) q =
      if leb job.max_attempts (job.attempts + 1)
      then emit_failed job.on_failure_event job.id err (change_row job.id (fail_row now) q)
      else change_row job.id
          (retry_row (now + numerics.delay job.backoff_ms job.backoff_multiplier job.attempts)) q

  module _ (handlers : String → Option (Job Number Payload → Call Number Payload)) where
    unfoldable pub run_job :
        ℕ
        → Job Number Payload
        → Option (Job Number Payload → Call Number Payload)
        → Queue Number Payload
        → Queue Number Payload
    unfolding update_row start_row perform_all run_with_timeout settle
    run_job now job none q = q
    run_job now job (some handler) q =
        let call = handler job in
        settle now job (run_with_timeout call.conduct call.message job.id job.timeout_ms)
          (perform_all call.meanwhile (change_row job.id (start_row now) q))

    -- The loop of `_processJobs`; `false` where a payload is no JSON, which ends the run.
    unfoldable pub process_rows :
        ℕ → List (JobRow Number) → Queue Number Payload → Bool × Queue Number Payload
    unfolding job_of run_job
    process_rows now [] q = (true, q)
    process_rows now (r ∷ rows) q = elim (numerics.parse r.payload_json) [
      | none ↦ (false, q)
      | some payload ↦
          let job = job_of r payload in
          process_rows now rows (run_job now job (handlers job.job_type) q)
    ]

    unfoldable pub clean_up : ℕ → Bool × Queue Number Payload → Queue Number Payload
    unfolding is_kept
    clean_up now (false, q) = q
    clean_up now (true, q) = record q { jobs = keep (is_kept now) q.jobs }

    unfoldable pub process_jobs : ℕ → Queue Number Payload → Queue Number Payload
    unfolding due_jobs process_rows clean_up
    process_jobs now q = clean_up now (process_rows now (due_jobs now q.jobs) q)
