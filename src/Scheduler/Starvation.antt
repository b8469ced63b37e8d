-- ===== src/Scheduler/Starvation.antt =====
-- Jobs of a type without a handler keep their place at the head of the queue.
use atf.Common.{
  ℕ, Bool, true, false, not, ◌&&◌, ◌||◌, Option, some, none, String, List, [], ◌∷◌, keep, every,
  take, length, leb, ltb, is_some, ◌≡◌, refl, ap, ◌∙◌, arith, Bool-cases, Option-cases, inl, inr,
  and_left, and_right,
}
use atf.Scheduler.{JobRow, Job, Call, Numerics, Queue, due_jobs, is_due, is_kept, sort_by_time}
use atf.Scheduler.Rows.{every-take, every-sort_by_time}
use atf.Scheduler.Ranks.{
  is_earlier, every-weaken, every-both, length-keep-le, length-keep-sort_by_time,
  are_sorted-sort_by_time, take-rank,
}
use atf.Scheduler.Run.{job_of, run_job, process_rows, clean_up, process_jobs}
use atf.Scheduler.Effect.{is_readable}

module _ {Number Payload : Type 0} (numerics : Numerics Number Payload)
    (handlers : String → Option (Job Number Payload → Call Number Payload)) where
  abbrev pub is_orphan : JobRow Number → Bool
  is_orphan r = not (is_some (handlers r.job_type))

  run_job-orphan :
      (now : ℕ) (job : Job Number Payload)
      (handler : Option (Job Number Payload → Call Number Payload)) (q : Queue Number Payload)
      → not (is_some handler) ≡ true
      → run_job numerics handlers now job handler q ≡ q
  unfolding run_job
  run_job-orphan now job none q h = refl
  run_job-orphan now job (some handler) q h = let wrong : false ≡ true = h in cc

  process_rows-orphans :
      (now : ℕ) (rows : List (JobRow Number)) (q : Queue Number Payload)
      → every is_orphan rows ≡ true
      → every (is_readable numerics handlers) rows ≡ true
      → process_rows numerics handlers now rows q ≡ (true, q)
  unfolding process_rows job_of
  process_rows-orphans now [] q h readable = refl
  process_rows-orphans now (r ∷ rows) q h readable =
      elim (Option-cases (numerics.parse r.payload_json)) [
        | inl broken ↦ let wrong : false ≡ true = rw broken at readable in cc
        | inr (payload, e) ↦
            rw (e, process_rows)
              (rw
                (run_job-orphan now (job_of numerics r payload) (handlers r.job_type) q
                  (ground arith))
                (process_rows-orphans now rows q (ground arith) (ground arith)))
      ]

  -- A run whose ten rows have no handler.
  process_jobs-orphans :
      (now : ℕ) (q : Queue Number Payload)
      → every is_orphan (due_jobs now q.jobs) ≡ true
      → every (is_readable numerics handlers) (due_jobs now q.jobs) ≡ true
      → process_jobs numerics handlers now q ≡ record q { jobs = keep (is_kept now) q.jobs }
  unfolding process_jobs clean_up
  process_jobs-orphans now q h readable =
      ap (clean_up numerics handlers now)
        (process_rows-orphans now (due_jobs now q.jobs) q h readable)

  -- The row has no handler, or ten due rows without one come before it.
  abbrev pub is_starved : List (JobRow Number) → JobRow Number → Bool
  is_starved due r = is_orphan r || leb 10 (length (keep (λ s. is_orphan s && is_earlier r s) due))

  starved-is_orphan :
      (due sorted : List (JobRow Number)) (r : JobRow Number)
      → length (keep (is_earlier r) sorted) ≡ length (keep (is_earlier r) due)
      → (is_starved due r && ltb (length (keep (is_earlier r) sorted)) 10) ≡ true
      → is_orphan r ≡ true
  starved-is_orphan due sorted r same h =
      let starved = and_left (is_starved due r) _ h in
      let early = and_right (is_starved due r) _ h in
      let fewer = length-keep-le is_orphan (is_earlier r) due in
      elim (Bool-cases (is_orphan r)) [
        | inl orphan ↦ orphan
        | inr handled ↦
            let ten : leb 10 (length (keep (λ s. is_orphan s && is_earlier r s) due)) ≡ true =
              rw handled at starved in
            absurd (ground (arith, ten, early, fewer, same))
      ]

  due_jobs-orphans :
      (now : ℕ) (rows : List (JobRow Number))
      → every (is_starved (keep (is_due now) rows)) (keep (is_due now) rows) ≡ true
      → every is_orphan (due_jobs now rows) ≡ true
  unfolding due_jobs
  due_jobs-orphans now rows starved =
      let due = keep (is_due now) rows in
      let sorted = sort_by_time due in
      every-weaken (λ r. is_starved due r && ltb (length (keep (is_earlier r) sorted)) 10) is_orphan
        (take 10 sorted)
        (λ r k. starved-is_orphan due sorted r (length-keep-sort_by_time (is_earlier r) due) k)
        (every-both (is_starved due) (λ r. ltb (length (keep (is_earlier r) sorted)) 10)
          (take 10 sorted)
          (every-take (is_starved due) 10 sorted
            (every-sort_by_time (is_starved due) due ∙ starved))
          (take-rank 10 sorted (are_sorted-sort_by_time due)))

  -- If each due row of the queue that has a handler comes after ten due rows that have none, and the
  -- payloads of the due rows are JSON, then a run attempts no job at all: it only deletes old rows.
  pub process_jobs-starved :
      (now : ℕ) (q : Queue Number Payload)
      → every (is_starved (keep (is_due now) q.jobs)) (keep (is_due now) q.jobs) ≡ true
      → every (is_readable numerics handlers) (keep (is_due now) q.jobs) ≡ true
      → process_jobs numerics handlers now q ≡ record q { jobs = keep (is_kept now) q.jobs }
  unfolding due_jobs
  process_jobs-starved now q starved readable =
      let due = keep (is_due now) q.jobs in
      let reads = is_readable numerics handlers in
      process_jobs-orphans now q (due_jobs-orphans now q.jobs starved)
        (every-take reads 10 (sort_by_time due) (every-sort_by_time reads due ∙ readable))
