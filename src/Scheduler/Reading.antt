-- ===== src/Scheduler/Reading.antt =====
-- agentix/packages/scheduler/index.ts: `getStatus` and `listJobs`.
use atf.Common.{
  Bool, true, false, ◌&&◌, ◌||◌, Option, none, some, String, List, [], ◌∷◌, ◌++◌, keep, take, any,
  ◌≡◌, refl, sym, ◌∙◌, ap, ℕ, str_eq, str_eq_iff, arith, Bool-cases, inl, inr,
}
use mathlib.Core.Option.{map as map_option, some-injective}
use atf.Scheduler.{
  JobStatus, JobRow, Job, JobOptions, Numerics, Queue, has_id, find_row, sort_by_time,
}
use atf.Scheduler.Run.{new_row, schedule, job_of}

unfoldable pub status_text : JobStatus → String
status_text JobStatus.pending = "pending"
status_text JobStatus.running = "running"
status_text JobStatus.completed = "completed"
status_text JobStatus.failed = "failed"
status_text JobStatus.cancelled = "cancelled"

-- A filter that is absent or empty lets each row pass.
unfoldable pub passes : Option String → String → Bool
passes none text = true
passes (some wanted) text = str_eq wanted "" || str_eq text wanted

module _ {Number Payload : Type 0} (numerics : Numerics Number Payload) where
  -- `none` where `JSON.parse` throws.
  unfoldable pub read_row : JobRow Number → Option (Job Number Payload)
  unfolding job_of
  read_row r = map_option (job_of numerics r) (numerics.parse r.payload_json)

  -- `null` is `some none`.
  unfoldable pub get_status : String → Queue Number Payload → Option (Option (Job Number Payload))
  unfolding read_row find_row
  get_status id q = elim (find_row id q.jobs) [
    | none ↦ some none
    | some r ↦ map_option some (read_row r)
  ]

  unfoldable pub read_rows : List (JobRow Number) → Option (List (Job Number Payload))
  unfolding read_row
  read_rows [] = some []
  read_rows (r ∷ rows) = elim (read_row r) [
    | none ↦ none
    | some job ↦ map_option (λ jobs. job ∷ jobs) (read_rows rows)
  ]

  unfoldable pub list_jobs :
      Option String → Option String → Queue Number Payload → Option (List (Job Number Payload))
  unfolding read_rows passes status_text sort_by_time
  list_jobs job_type status q = read_rows (
      take 100 (
        sort_by_time
          (keep (λ r. passes job_type r.job_type && passes status (status_text r.status)) q.jobs)))

  find_row-append :
      (id : String) (rows : List (JobRow Number)) (r : JobRow Number)
      → any (has_id id) rows ≡ false
      → r.job_id ≡ id
      → find_row id (rows ++ r ∷ []) ≡ some r
  unfolding find_row
  find_row-append id [] r h e = rw ((str_eq_iff r.job_id id).1 e) refl
  find_row-append id (x ∷ rows) r h e = ground (arith, find_row-append id rows r)

  -- What `schedule` stores under a new id, `getStatus` gives back, if JSON reads back what it writes:
  -- the job waits, with no attempt made.
  get_status-schedule :
      (id job_type : String) (payload : Payload) (options : JobOptions Number) (now : ℕ)
      (q q' : Queue Number Payload)
      → numerics.parse (numerics.stringify payload) ≡ some payload
      → schedule numerics id job_type payload options now q ≡ some q'
      → get_status id q'
        ≡ some (some (job_of numerics (new_row numerics id job_type payload options now) payload))
  unfolding schedule get_status read_row new_row
  get_status-schedule id job_type payload options now q q' json h =
      elim (Bool-cases (any (has_id id) q.jobs)) [
        | inl taken ↦ let wrong : none ≡ some q' = rw (taken, schedule) at h in cc
        | inr new ↦
            let row = new_row numerics id job_type payload options now in
            let done : some (record q { jobs = q.jobs ++ row ∷ [] }) ≡ some q' =
              rw (new, schedule) at h in
            let here : find_row id q'.jobs ≡ some row =
              ap (λ s. find_row id s.jobs) (sym (some-injective _ q' done))
              ∙ find_row-append id q.jobs row new refl in
            rw (here, get_status) (rw (json, read_row) refl)
      ]
