-- ===== src/Scheduler/Invariant.antt =====
-- A run of `_processJobs`, whatever other code does while it awaits its handlers.
use atf.Common.{
  ℕ, ◌+◌, ◌<◌, true, false, Option, none, some, String, List, [], ◌∷◌, any, ◌≡◌, refl, leb,
  if◌then◌else◌, str_eq, arith, Option-cases, Bool-cases, inl, inr,
}
use atf.Scheduler.{
  JobRow, Job, JobOptions, JobError, Call, Command, Numerics, Queue, has_id, update_row, cancel,
  start_row, complete_row, fail_row, retry_row, emit_completed, emit_failed, change_row,
  positive_or, run_with_timeout,
}
use atf.Scheduler.Run.{new_row, schedule, perform, perform_all, settle, run_job}
use atf.Scheduler.Rows.{any-update_row, every-update_row}
use atf.Scheduler.Attempts.{
  is_fine, IsOrderly, agrees_at, holds, cancel_row-IsOrderly, holds-cancel_row, append-IsOrderly,
  holds-append, holds-other, change-IsOrderly,
}

module _ {Number Payload : Type 0} (numerics : Numerics Number Payload) where
  new_row-is_fine :
      (id job_type : String) (payload : Payload) (options : JobOptions Number) (now : ℕ)
      → is_fine (new_row numerics id job_type payload options now) ≡ true
  unfolding new_row positive_or
  new_row-is_fine id job_type payload options now = elim (Option-cases options.max_attempts) [
    | inl e ↦ rw (e, positive_or) refl
    | inr (n, e) ↦ rw (e, positive_or) (ground arith)
  ]

  -- Calls of `schedule` and `cancel` keep the rows orderly.
  perform-IsOrderly :
      (c : Command Number Payload) (q : Queue Number Payload)
      → IsOrderly q.jobs
      → IsOrderly (perform numerics c q).jobs
  unfolding perform schedule cancel new_row
  perform-IsOrderly (Command.schedules id job_type payload options now) q h =
      elim (Bool-cases (any (has_id id) q.jobs)) [
        | inl taken ↦ rw taken h
        | inr new ↦ rw new (
            append-IsOrderly q.jobs (new_row numerics id job_type payload options now) new
              (new_row-is_fine id job_type payload options now) h)
      ]
  perform-IsOrderly (Command.cancels id) q h = cancel_row-IsOrderly id q.jobs h

  holds-perform :
      (c : Command Number Payload) (q : Queue Number Payload) (k : String) (a m : ℕ)
      → holds k a m q.jobs ≡ true
      → holds k a m (perform numerics c q).jobs ≡ true
  unfolding perform schedule cancel new_row
  holds-perform (Command.schedules id job_type payload options now) q k a m h =
      elim (Bool-cases (any (has_id id) q.jobs)) [
        | inl taken ↦ rw taken h
        | inr new ↦
            rw new
              (holds-append k a m q.jobs (new_row numerics id job_type payload options now) new h)
      ]
  holds-perform (Command.cancels id) q k a m h = holds-cancel_row id k a m q.jobs h

  perform_all-IsOrderly :
      (cs : List (Command Number Payload)) (q : Queue Number Payload)
      → IsOrderly q.jobs
      → IsOrderly (perform_all numerics cs q).jobs
  unfolding perform_all
  perform_all-IsOrderly [] q h = h
  perform_all-IsOrderly (c ∷ cs) q h =
      perform_all-IsOrderly cs (perform numerics c q) (perform-IsOrderly c q h)

  holds-perform_all :
      (cs : List (Command Number Payload)) (q : Queue Number Payload) (k : String) (a m : ℕ)
      → holds k a m q.jobs ≡ true
      → holds k a m (perform_all numerics cs q).jobs ≡ true
  unfolding perform_all
  holds-perform_all [] q k a m h = h
  holds-perform_all (c ∷ cs) q k a m h =
      holds-perform_all cs (perform numerics c q) k a m (holds-perform c q k a m h)

  emit_completed-jobs :
      (event : Option String) (id : String) (q : Queue Number Payload)
      → (emit_completed event id q).jobs ≡ q.jobs
  unfolding emit_completed
  emit_completed-jobs none id q = refl
  emit_completed-jobs (some event) id q = refl

  emit_failed-jobs :
      (event : Option String) (id : String) (err : JobError) (q : Queue Number Payload)
      → (emit_failed event id err q).jobs ≡ q.jobs
  unfolding emit_failed
  emit_failed-jobs none id err q = refl
  emit_failed-jobs (some event) id err q = refl

  -- The row of the job, as `settle` leaves it.
  unfoldable pub settled_row :
      ℕ → Job Number Payload → Option JobError → JobRow Number → JobRow Number
  unfolding complete_row fail_row retry_row
  settled_row now job none = complete_row
  settled_row now job (some err) =
      if leb job.max_attempts (job.attempts + 1)
      then fail_row now
      else retry_row (now + numerics.delay job.backoff_ms job.backoff_multiplier job.attempts)

  pub settle-jobs :
      (now : ℕ) (job : Job Number Payload) (err : Option JobError) (q : Queue Number Payload)
      → (settle numerics now job err q).jobs ≡ update_row job.id (settled_row now job err) q.jobs
  unfolding settle settled_row
  settle-jobs now job none q =
      emit_completed-jobs job.on_complete_event job.id (change_row job.id complete_row q)
  settle-jobs now job (some err) q = elim (Bool-cases (leb job.max_attempts (job.attempts + 1))) [
    | inl last ↦
        rw last
          (emit_failed-jobs job.on_failure_event job.id err (change_row job.id (fail_row now) q))
    | inr more ↦ rw more refl
  ]

  pub settled_row-job_id :
      (now : ℕ) (job : Job Number Payload) (err : Option JobError) (r : JobRow Number)
      → (settled_row now job err r).job_id ≡ r.job_id
  unfolding settled_row complete_row fail_row retry_row
  settled_row-job_id now job none r = refl
  settled_row-job_id now job (some err) r =
      elim (Bool-cases (leb job.max_attempts (job.attempts + 1))) [
        | inl last ↦ rw last refl
        | inr more ↦ rw more refl
      ]

  settled_row-is_fine :
      (now : ℕ) (job : Job Number Payload) (err : Option JobError) (r : JobRow Number)
      → job.attempts < job.max_attempts
      → r.attempts ≡ job.attempts + 1
      → r.max_attempts ≡ job.max_attempts
      → is_fine (settled_row now job err r) ≡ true
  unfolding settled_row complete_row fail_row retry_row
  settled_row-is_fine now job none r h a m = ground arith
  settled_row-is_fine now job (some err) r h a m =
      elim (Bool-cases (leb job.max_attempts (job.attempts + 1))) [
        | inl last ↦ rw last (ground arith)
        | inr more ↦ rw more (ground arith)
      ]

  holds-start_row :
      (now : ℕ) (id : String) (a m : ℕ) (rows : List (JobRow Number))
      → holds id a m rows ≡ true
      → holds id (a + 1) m (update_row id (start_row now) rows) ≡ true
  unfolding start_row
  holds-start_row now id a m rows h = ground (
    arith,
    any-update_row (has_id id) id (start_row now) (λ r. refl) rows,
    every-update_row (agrees_at id (a + 1) m) (agrees_at id a m) id (start_row now)
        (λ r at e. ground arith) (λ r off e. ground arith) rows,
  )

module _ {Number Payload : Type 0} (numerics : Numerics Number Payload)
    (handlers : String → Option (Job Number Payload → Call Number Payload)) where
  start_row-IsOrderly :
      (now : ℕ) (id : String) (a m : ℕ) (q : Queue Number Payload)
      → a < m
      → holds id a m q.jobs ≡ true
      → IsOrderly q.jobs
      → IsOrderly (update_row id (start_row now) q.jobs)
  unfolding start_row
  start_row-IsOrderly now id a m q h at orderly =
      change-IsOrderly id a m (start_row now) (λ r. refl) (λ r e l. ground arith) q.jobs at orderly

  -- What an attempt does to the rows.
  pub run_job-IsOrderly :
      (now : ℕ) (job : Job Number Payload)
      (handler : Option (Job Number Payload → Call Number Payload)) (q : Queue Number Payload)
      → job.attempts < job.max_attempts
      → holds job.id job.attempts job.max_attempts q.jobs ≡ true
      → IsOrderly q.jobs
      → IsOrderly (run_job numerics handlers now job handler q).jobs
  unfolding run_job
  run_job-IsOrderly now job none q h at orderly = orderly
  run_job-IsOrderly now job (some handler) q h at orderly =
      let call = handler job in
      let err = run_with_timeout call.conduct call.message job.id job.timeout_ms in
      let started = change_row job.id (start_row now) q in
      let after = perform_all numerics call.meanwhile started in
      rw (settle-jobs numerics now job err after) (
        change-IsOrderly job.id (job.attempts + 1) job.max_attempts
          (settled_row numerics now job err) (settled_row-job_id numerics now job err)
          (λ r a m. settled_row-is_fine numerics now job err r h a m) after.jobs
          (holds-perform_all numerics call.meanwhile started job.id (job.attempts + 1)
            job.max_attempts
            (holds-start_row numerics now job.id job.attempts job.max_attempts q.jobs at))
          (perform_all-IsOrderly numerics call.meanwhile started
            (start_row-IsOrderly now job.id job.attempts job.max_attempts q h at orderly)))

  pub holds-run_job :
      (now : ℕ) (job : Job Number Payload)
      (handler : Option (Job Number Payload → Call Number Payload)) (q : Queue Number Payload)
      (k : String) (a m : ℕ)
      → str_eq job.id k ≡ false
      → holds k a m q.jobs ≡ true
      → holds k a m (run_job numerics handlers now job handler q).jobs ≡ true
  unfolding run_job start_row
  holds-run_job now job none q k a m apart h = h
  holds-run_job now job (some handler) q k a m apart h =
      let call = handler job in
      let err = run_with_timeout call.conduct call.message job.id job.timeout_ms in
      let started = change_row job.id (start_row now) q in
      let after = perform_all numerics call.meanwhile started in
      rw (settle-jobs numerics now job err after) (
        holds-other job.id k a m (settled_row numerics now job err)
          (settled_row-job_id numerics now job err) apart after.jobs
          (holds-perform_all numerics call.meanwhile started k a m
            (holds-other job.id k a m (start_row now) (λ r. refl) apart q.jobs h)))
