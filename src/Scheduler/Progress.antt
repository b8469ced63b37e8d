-- ===== src/Scheduler/Progress.antt =====
-- A run of `_processJobs` as one turn for each job that is due, and what repeated runs come to.
use atf.Common.{
  ℕ, Bool, true, false, Option, none, some, String, List, [], ◌∷◌, keep, any, every, ◌≡◌, refl, sym,
  ◌∙◌, ap, str_eq, str_eq_iff, str_eq_comm, arith, Option-cases, Bool-cases, inl, inr,
}
use atf.Scheduler.{JobRow, Job, Call, Numerics, Queue, has_id, due_jobs, is_kept, find_row}
use atf.Scheduler.Run.{job_of, run_job, process_rows, clean_up, process_jobs}
use atf.Scheduler.Rows.{are_distinct}
use atf.Scheduler.Attempts.{IsOrderly}
use atf.Scheduler.Polling.{due_jobs-are_distinct, every-due_jobs, process_rows-due}
use atf.Scheduler.Effect.{
  find_row-keep, find_row-absent, kept_of, Reads, Reads-due_jobs, is_readable, turn_by, turn_on,
  turn, AreQuiet, IsQuietBy, run_job-jobs,
}

module _ {Number Payload : Type 0} (numerics : Numerics Number Payload)
    (handlers : String → Option (Job Number Payload → Call Number Payload)) where
  -- What becomes of the row of an id: its turn if the run has taken it up.
  abbrev pub taken : ℕ → Option (JobRow Number) → Option (JobRow Number) → Option (JobRow Number)
  taken now none row = row
  taken now (some s) row = some (turn numerics handlers now s)

  Reads-run_job :
      (now : ℕ) (s : JobRow Number) (payload : Payload)
      (handler : Option (Job Number Payload → Call Number Payload)) (q : Queue Number Payload)
      → IsQuietBy numerics handlers (job_of numerics s payload) handler
      → find_row s.job_id q.jobs ≡ some s
      → (rows : List (JobRow Number)) → any (has_id s.job_id) rows ≡ false
      → Reads q.jobs rows
      → Reads (run_job numerics handlers now (job_of numerics s payload) handler q).jobs rows
  Reads-run_job now s payload handler q quiet at [] h reads = tt
  Reads-run_job now s payload handler q quiet at (x ∷ rows) h (here, more) =
      let apart : str_eq s.job_id x.job_id ≡ false =
        ground (arith, str_eq_comm s.job_id x.job_id) in
      (
        run_job-jobs numerics handlers now s payload handler q quiet at x.job_id ∙ rw apart here,
        Reads-run_job now s payload handler q quiet at rows (ground arith) more,
      )

  process_rows-jobs :
      AreQuiet numerics handlers
      → (now : ℕ) (rows : List (JobRow Number)) (q : Queue Number Payload)
      → are_distinct rows ≡ true
      → every (is_readable numerics handlers) rows ≡ true
      → Reads q.jobs rows
      → (k : String)
      → (find_row k (process_rows numerics handlers now rows q).1.jobs
          ≡ taken now (find_row k rows) (find_row k q.jobs))
        × ((process_rows numerics handlers now rows q).0 ≡ true)
  unfolding process_rows are_distinct find_row turn job_of
  process_rows-jobs quiet now [] q distinct readable reads k = (refl, refl)
  process_rows-jobs quiet now (s ∷ rows) q distinct readable (at, reads) k =
      elim (Option-cases (numerics.parse s.payload_json)) [
        | inl broken ↦ let wrong : false ≡ true = rw broken at readable in cc
        | inr (payload, e) ↦
            let job = job_of numerics s payload in
            let handler = handlers job.job_type in
            let q' = run_job numerics handlers now job handler q in
            let (more, done) =
              process_rows-jobs quiet now rows q' (ground arith) (ground arith)
                (Reads-run_job now s payload handler q (quiet job) at rows (ground arith) reads)
                k in
            let step = run_job-jobs numerics handlers now s payload handler q (quiet job) at k in
            elim (Bool-cases (str_eq s.job_id k)) [
              | inl same ↦
                  let gone : find_row k rows ≡ none =
                    ap (λ j. find_row j rows) (sym ((str_eq_iff s.job_id k).0 same))
                    ∙ find_row-absent s.job_id rows (ground arith) in
                  let took : some (turn numerics handlers now s)
                      ≡ some (turn_by numerics handlers now s job handler) =
                    ap (λ p. some (turn_on numerics handlers now s p)) e in
                  rw (e, process_rows)
                    (
                      more
                          ∙ ap (λ r. taken now r (find_row k q'.jobs)) gone
                          ∙ (rw same at step)
                          ∙ sym took
                          ∙ rw same refl,
                      done,
                    )
              | inr apart ↦
                  rw (e, process_rows)
                    (
                      more ∙ ap (taken now (find_row k rows)) (rw apart at step) ∙ rw apart refl,
                      done,
                    )
            ]
      ]

  clean_up-jobs :
      (now : ℕ) (ran : Bool × Queue Number Payload)
      → ran.0 ≡ true
      → (clean_up numerics handlers now ran).jobs ≡ keep (is_kept now) ran.1.jobs
  unfolding clean_up
  clean_up-jobs now (true, q) h = refl
  clean_up-jobs now (false, q) h = cc

  pub process_jobs-turn :
      AreQuiet numerics handlers
      → (now : ℕ) (q : Queue Number Payload) → IsOrderly q.jobs
      → every (is_readable numerics handlers) q.jobs ≡ true
      → (k : String)
      → find_row k (process_jobs numerics handlers now q).jobs
        ≡ kept_of (is_kept now) (taken now (find_row k (due_jobs now q.jobs)) (find_row k q.jobs))
  unfolding process_jobs
  process_jobs-turn quiet now q (fine, distinct) readable k =
      let due = due_jobs now q.jobs in
      let (rows, done) =
        process_rows-jobs quiet now due q (due_jobs-are_distinct now q.jobs distinct)
          (every-due_jobs (is_readable numerics handlers) now q.jobs readable)
          (Reads-due_jobs now q.jobs distinct) k in
      ap (find_row k) (clean_up-jobs now (process_rows numerics handlers now due q) done)
      ∙ find_row-keep k (is_kept now) (process_rows numerics handlers now due q).1.jobs
          (process_rows-due numerics handlers now q (fine, distinct)).1
      ∙ ap (kept_of (is_kept now)) rows
