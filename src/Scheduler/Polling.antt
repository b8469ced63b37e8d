-- ===== src/Scheduler/Polling.antt =====
-- The whole of `_processJobs`: what it selects, and what it leaves.
use atf.Common.{
  ℕ, Bool, true, false, Option, String, List, [], ◌∷◌, keep, any, every, ◌≡◌, refl, ◌∙◌, ltb,
  str_eq_iff, str_eq_comm, arith, Option-cases, inl, inr,
}
use atf.Scheduler.{
  JobRow, Job, Call, Numerics, Queue, has_id, is_waiting, due_jobs, is_due, is_kept, sort_by_time,
}
use atf.Scheduler.Run.{job_of, run_job, process_rows, clean_up, process_jobs}
use atf.Scheduler.Rows.{
  are_distinct, every-keep, are_distinct-keep, are_distinct-sort_by_time, every-sort_by_time,
  every-take, are_distinct-take,
}
use atf.Scheduler.Attempts.{is_fine, IsOrderly, agrees_at, still_holds}
use atf.Scheduler.Invariant.{run_job-IsOrderly, holds-run_job}

module _ {Number : Type 0} where
  abbrev has_left : JobRow Number → Bool
  has_left r = ltb r.attempts r.max_attempts

  agrees_at-absent :
      (id : String) (a m : ℕ) (rows : List (JobRow Number))
      → any (has_id id) rows ≡ false
      → every (agrees_at id a m) rows ≡ true
  agrees_at-absent id a m [] h = refl
  agrees_at-absent id a m (r ∷ rows) h = ground (arith, agrees_at-absent id a m rows)

  still_holds-cons :
      (r : JobRow Number) (rows xs : List (JobRow Number))
      → any (has_id r.job_id) xs ≡ false
      → every (still_holds rows) xs ≡ true
      → every (still_holds (r ∷ rows)) xs ≡ true
  still_holds-cons r rows [] h held = refl
  still_holds-cons r rows (x ∷ xs) h held =
      ground (arith, still_holds-cons r rows xs, str_eq_comm r.job_id x.job_id)

  still_holds-all :
      (rows : List (JobRow Number))
      → are_distinct rows ≡ true
      → every (still_holds rows) rows ≡ true
  unfolding are_distinct
  still_holds-all [] h = refl
  still_holds-all (r ∷ rows) h = ground (
    arith,
    still_holds-cons r rows rows,
    still_holds-all rows,
    agrees_at-absent r.job_id r.attempts r.max_attempts rows,
    (str_eq_iff r.job_id r.job_id).1 refl,
  )

  due-has_left :
      (now : ℕ) (rows : List (JobRow Number))
      → every is_fine rows ≡ true
      → every has_left (keep (is_due now) rows) ≡ true
  unfolding is_due is_waiting
  due-has_left now [] h = refl
  due-has_left now (r ∷ rows) h = ground (arith, due-has_left now rows)

  due-is_waiting :
      (now : ℕ) (rows : List (JobRow Number))
      → every (λ r. is_waiting r.status) (keep (is_due now) rows) ≡ true
  unfolding is_due
  due-is_waiting now [] = refl
  due-is_waiting now (r ∷ rows) = ground (arith, due-is_waiting now rows)

  pub due_jobs-is_waiting :
      (now : ℕ) (rows : List (JobRow Number))
      → every (λ r. is_waiting r.status) (due_jobs now rows) ≡ true
  unfolding due_jobs
  due_jobs-is_waiting now rows =
      let due = keep (is_due now) rows in
      every-take (λ r. is_waiting r.status) 10 (sort_by_time due)
        (every-sort_by_time (λ r. is_waiting r.status) due ∙ due-is_waiting now rows)

  due_jobs-has_left :
      (now : ℕ) (rows : List (JobRow Number))
      → every is_fine rows ≡ true
      → every has_left (due_jobs now rows) ≡ true
  unfolding due_jobs
  due_jobs-has_left now rows h =
      let due = keep (is_due now) rows in
      every-take has_left 10 (sort_by_time due)
        (every-sort_by_time has_left due ∙ due-has_left now rows h)

  pub due_jobs-are_distinct :
      (now : ℕ) (rows : List (JobRow Number))
      → are_distinct rows ≡ true
      → are_distinct (due_jobs now rows) ≡ true
  unfolding due_jobs
  due_jobs-are_distinct now rows h =
      let due = keep (is_due now) rows in
      are_distinct-take 10 (sort_by_time due)
        (are_distinct-sort_by_time due (are_distinct-keep (is_due now) rows h))

  -- What holds of each row holds of each that is due.
  pub every-due_jobs :
      (p : JobRow Number → Bool) (now : ℕ) (rows : List (JobRow Number))
      → every p rows ≡ true
      → every p (due_jobs now rows) ≡ true
  unfolding due_jobs
  every-due_jobs p now rows h =
      let due = keep (is_due now) rows in
      every-take p 10 (sort_by_time due)
        (every-sort_by_time p due ∙ every-keep p (is_due now) rows h)

module _ {Number Payload : Type 0} (numerics : Numerics Number Payload)
    (handlers : String → Option (Job Number Payload → Call Number Payload)) where
  still_holds-run_job :
      (now : ℕ) (r : JobRow Number) (payload : Payload)
      (handler : Option (Job Number Payload → Call Number Payload)) (q : Queue Number Payload)
      (xs : List (JobRow Number))
      → any (has_id r.job_id) xs ≡ false
      → every (still_holds q.jobs) xs ≡ true
      → every
          (still_holds (run_job numerics handlers now (job_of numerics r payload) handler q).jobs)
          xs
        ≡ true
  unfolding job_of
  still_holds-run_job now r payload handler q [] h held = refl
  still_holds-run_job now r payload handler q (x ∷ xs) h held = ground (
    arith,
    still_holds-run_job now r payload handler q xs,
    str_eq_comm r.job_id x.job_id,
    holds-run_job numerics handlers now (job_of numerics r payload) handler q x.job_id x.attempts
        x.max_attempts,
  )

  process_rows-IsOrderly :
      (now : ℕ) (rows : List (JobRow Number)) (q : Queue Number Payload)
      → are_distinct rows ≡ true
      → every has_left rows ≡ true
      → every (still_holds q.jobs) rows ≡ true
      → IsOrderly q.jobs
      → IsOrderly (process_rows numerics handlers now rows q).1.jobs
  unfolding process_rows are_distinct
  process_rows-IsOrderly now [] q distinct left held orderly = orderly
  process_rows-IsOrderly now (r ∷ rows) q distinct left held orderly =
      elim (Option-cases (numerics.parse r.payload_json)) [
        | inl broken ↦ rw (broken, process_rows) orderly
        | inr (payload, e) ↦
            let job = job_of numerics r payload in
            let handler = handlers job.job_type in
            rw (e, process_rows)
              (process_rows-IsOrderly now rows (run_job numerics handlers now job handler q)
                (ground arith) (ground arith)
                (still_holds-run_job now r payload handler q rows (ground arith) (ground arith))
                (run_job-IsOrderly numerics handlers now job handler q (ground arith) (ground arith)
                  orderly))
      ]

  pub process_rows-due :
      (now : ℕ) (q : Queue Number Payload)
      → IsOrderly q.jobs
      → IsOrderly (process_rows numerics handlers now (due_jobs now q.jobs) q).1.jobs
  process_rows-due now q (fine, distinct) =
      process_rows-IsOrderly now (due_jobs now q.jobs) q (due_jobs-are_distinct now q.jobs distinct)
        (due_jobs-has_left now q.jobs fine)
        (every-due_jobs (still_holds q.jobs) now q.jobs (still_holds-all q.jobs distinct))
        (fine, distinct)

  clean_up-IsOrderly :
      (now : ℕ) (done : Bool) (q : Queue Number Payload)
      → IsOrderly q.jobs
      → IsOrderly (clean_up numerics handlers now (done, q)).jobs
  unfolding clean_up
  clean_up-IsOrderly now false q h = h
  clean_up-IsOrderly now true q (fine, distinct) = (
    every-keep is_fine (is_kept now) q.jobs fine,
    are_distinct-keep (is_kept now) q.jobs distinct,
  )

  -- Whatever the handlers do and whatever is scheduled and cancelled while they are awaited, a run
  -- leaves the rows orderly: a job that waits has an attempt left, one that has failed has none, no
  -- job has run more often than it may, and ids stay distinct.
  pub process_jobs-IsOrderly :
      (now : ℕ) (q : Queue Number Payload)
      → IsOrderly q.jobs
      → IsOrderly (process_jobs numerics handlers now q).jobs
  unfolding process_jobs
  process_jobs-IsOrderly now q h =
      let ran = process_rows numerics handlers now (due_jobs now q.jobs) q in
      clean_up-IsOrderly now ran.0 ran.1 (process_rows-due now q h)
