-- ===== src/Scheduler/Liveness.antt =====
-- Repeated runs of `_processJobs`: a job that is served comes to an end.
use atf.Common.{
  ℕ, ◌+◌, ◌-◌, ◌<◌, ◌≤◌, Bool, true, false, not, ◌&&◌, ◌||◌, Option, none, some, String, List, [],
  ◌∷◌, every, ◌≡◌, refl, sym, ◌∙◌, ap, leb, if◌then◌else◌, str_eq_iff, arith, Option-cases,
  Bool-cases, inl, inr, is_some, length,
}
use mathlib.Core.Option.{some-injective}
use atf.Scheduler.{
  JobRow, Job, Call, Numerics, Queue, has_id, is_waiting, due_jobs, is_kept, find_row,
}
use atf.Scheduler.Run.{job_of, process_jobs}
use atf.Scheduler.Attempts.{IsOrderly, is_fine}
use atf.Scheduler.Polling.{process_jobs-IsOrderly}
use atf.Scheduler.Effect.{kept_of, Reads, Reads-due_jobs, is_readable, turn_by, turn, AreQuiet}
use atf.Scheduler.Progress.{taken, process_jobs-turn}
use atf.Scheduler.Polling.{due_jobs-is_waiting}
use atf.Scheduler.{start_row, complete_row, fail_row, retry_row, JobError}
use atf.Scheduler.Invariant.{settled_row}

module _ {Number : Type 0} where
  abbrev pub waits : Option (JobRow Number) → Bool
  waits none = false
  waits (some r) = is_waiting r.status

  -- The attempts that a job which waits has left.
  abbrev pub left : Option (JobRow Number) → ℕ
  left none = 0
  left (some r) = if is_waiting r.status then r.max_attempts - r.attempts else 0

  left-kept_of :
      (p : JobRow Number → Bool) (row : Option (JobRow Number)) → left (kept_of p row) ≤ left row
  left-kept_of p none = ground arith
  left-kept_of p (some r) = ground arith

  left-idle : (row : Option (JobRow Number)) → not (waits row) ≡ true → left row ≡ 0
  left-idle none h = refl
  left-idle (some r) h = ground (arith, h)

  find_row-Reads :
      (k : String) (rows xs : List (JobRow Number)) (s : JobRow Number)
      → Reads rows xs
      → find_row k xs ≡ some s
      → find_row k rows ≡ some s
  unfolding find_row
  find_row-Reads k rows [] s reads h = let wrong : none ≡ some s = h in cc
  find_row-Reads k rows (x ∷ xs) s (here, more) h = elim (Bool-cases (has_id k x)) [
    | inl same ↦
        let is : some x ≡ some s = rw (same, find_row) at h in
        ap (λ j. find_row j rows) (sym ((str_eq_iff x.job_id k).0 same)) ∙ here ∙ is
    | inr apart ↦ find_row-Reads k rows xs s more (rw (apart, find_row) at h)
  ]

  find_row-every :
      (p : JobRow Number → Bool) (k : String) (rows : List (JobRow Number)) (s : JobRow Number)
      → every p rows ≡ true
      → find_row k rows ≡ some s
      → p s ≡ true
  unfolding find_row
  find_row-every p k [] s all h = let wrong : none ≡ some s = h in cc
  find_row-every p k (x ∷ rows) s all h = elim (Bool-cases (has_id k x)) [
    | inl same ↦
        let is : some x ≡ some s = rw (same, find_row) at h in
        ap p (sym (some-injective x s is)) ∙ ground arith
    | inr apart ↦ find_row-every p k rows s (ground arith) (rw (apart, find_row) at h)
  ]

  waits-left :
      (k : String) (rows : List (JobRow Number))
      → every is_fine rows ≡ true
      → left (find_row k rows) ≡ 0
      → waits (find_row k rows) ≡ false
  unfolding is_waiting
  waits-left k rows fine h = elim (Option-cases (find_row k rows)) [
    | inl absent ↦ rw absent refl
    | inr (r, e) ↦
        let good = find_row-every is_fine k rows r fine e in
        let none_left : left (some r) ≡ 0 = rw e at h in rw e (ground arith)
  ]

module _ {Number Payload : Type 0} (numerics : Numerics Number Payload) where
  left-settled_row :
      (now : ℕ) (s : JobRow Number) (payload : Payload) (err : Option JobError)
      → is_waiting s.status ≡ true
      → is_fine s ≡ true
      → left (some (settled_row numerics now (job_of numerics s payload) err (start_row now s)))
        < left (some s)
  unfolding settled_row job_of start_row complete_row fail_row retry_row is_waiting
  left-settled_row now s payload none pending fine = ground arith
  left-settled_row now s payload (some err) pending fine =
      elim (Bool-cases (leb s.max_attempts (s.attempts + 1))) [
        | inl last ↦ rw last (ground arith)
        | inr more ↦ rw more (ground arith)
      ]

  module _ (handlers : String → Option (Job Number Payload → Call Number Payload)) where
    left-turn_by :
        (now : ℕ) (s : JobRow Number) (payload : Payload)
        (handler : Option (Job Number Payload → Call Number Payload))
        → is_some handler ≡ true
        → is_waiting s.status ≡ true
        → is_fine s ≡ true
        → left (some (turn_by numerics handlers now s (job_of numerics s payload) handler))
          < left (some s)
    left-turn_by now s payload none known pending fine = let wrong : false ≡ true = known in cc
    left-turn_by now s payload (some handler) known pending fine =
        left-settled_row now s payload _ pending fine

    left-turn :
        (now : ℕ) (s : JobRow Number)
        → is_readable numerics handlers s ≡ true
        → is_some (handlers s.job_type) ≡ true
        → is_waiting s.status ≡ true
        → is_fine s ≡ true
        → left (some (turn numerics handlers now s)) < left (some s)
    unfolding turn job_of
    left-turn now s readable known pending fine =
        elim (Option-cases (numerics.parse s.payload_json)) [
          | inl broken ↦ let wrong : false ≡ true = rw broken at readable in cc
          | inr (payload, e) ↦
              rw (e, turn) (left-turn_by now s payload (handlers s.job_type) known pending fine)
        ]

    abbrev has_handler : Option (JobRow Number) → Bool
    has_handler none = false
    has_handler (some s) = is_some (handlers s.job_type)

    -- A run serves a job: the job does not wait, or it is among those that the run takes up and its
    -- type has a handler.
    abbrev pub serves : ℕ → String → List (JobRow Number) → Bool
    serves now k rows =
        not (waits (find_row k rows)) || has_handler (find_row k (due_jobs now rows))

    abbrev pub polls : List ℕ → Queue Number Payload → Queue Number Payload
    polls [] q = q
    polls (now ∷ times) q = polls times (process_jobs numerics handlers now q)

    -- Each of the runs serves the job, and reads payloads that are JSON.
    abbrev pub IsServed : String → List ℕ → Queue Number Payload → Type 0
    IsServed k [] q = Unit
    IsServed k (now ∷ times) q =
        ((every (is_readable numerics handlers) q.jobs && serves now k q.jobs) ≡ true)
        × IsServed k times (process_jobs numerics handlers now q)

    left-taken :
        (now : ℕ) (k : String) (rows : List (JobRow Number))
        → IsOrderly rows
        → every (is_readable numerics handlers) rows ≡ true
        → serves now k rows ≡ true
        → left (taken numerics handlers now (find_row k (due_jobs now rows)) (find_row k rows))
          ≤ left (find_row k rows) - 1
    left-taken now k rows (fine, distinct) readable served =
        elim (Option-cases (find_row k (due_jobs now rows))) [
          | inl absent ↦
              let idle : not (waits (find_row k rows)) || false ≡ true = rw absent at served in
              rw absent (omega (arith, left-idle (find_row k rows) (ground arith)))
          | inr (s, e) ↦
              let at =
                find_row-Reads k rows (due_jobs now rows) s (Reads-due_jobs now rows distinct) e in
              let pending =
                find_row-every (λ r. is_waiting r.status) k (due_jobs now rows) s
                  (due_jobs-is_waiting now rows) e in
              let known : not (waits (some s)) || is_some (handlers s.job_type) ≡ true =
                rw (at, e) at served in
              let less =
                left-turn now s
                  (find_row-every (is_readable numerics handlers) k rows s readable at)
                  (ground arith) pending (find_row-every is_fine k rows s fine at) in
              rw (e, at) (omega (arith, less))
        ]

    process_jobs-left :
        AreQuiet numerics handlers
        → (now : ℕ) (k : String) (q : Queue Number Payload) → IsOrderly q.jobs
        → every (is_readable numerics handlers) q.jobs ≡ true
        → serves now k q.jobs ≡ true
        → left (find_row k (process_jobs numerics handlers now q).jobs)
          ≤ left (find_row k q.jobs) - 1
    process_jobs-left quiet now k q orderly readable served =
        let row =
          taken numerics handlers now (find_row k (due_jobs now q.jobs)) (find_row k q.jobs) in
        rw (process_jobs-turn numerics handlers quiet now q orderly readable k) (
          omega (
            arith,
            left-kept_of (is_kept now) row,
            left-taken now k q.jobs orderly readable served,
          ))

    polls-left :
        AreQuiet numerics handlers
        → (k : String) (times : List ℕ) (q : Queue Number Payload) → IsOrderly q.jobs
        → IsServed k times q
        → (left (find_row k (polls times q).jobs) ≤ left (find_row k q.jobs) - length times)
          × IsOrderly (polls times q).jobs
    polls-left quiet k [] q orderly served = (omega arith, orderly)
    polls-left quiet k (now ∷ times) q orderly (served, more) =
        let q' = process_jobs numerics handlers now q in
        let first = process_jobs-left quiet now k q orderly (ground arith) (ground arith) in
        let (rest, after) =
          polls-left quiet k times q' (process_jobs-IsOrderly numerics handlers now q orderly)
            more in
        (omega (arith, first, rest), after)

    -- With handlers that write nothing meanwhile, a job that each of the runs serves no longer waits
    -- after as many runs as it had attempts left.
    pub polls-waits :
        AreQuiet numerics handlers
        → (k : String) (times : List ℕ) (q : Queue Number Payload) → IsOrderly q.jobs
        → IsServed k times q
        → left (find_row k q.jobs) ≤ length times
        → waits (find_row k (polls times q).jobs) ≡ false
    polls-waits quiet k times q orderly served enough =
        let (rest, (fine, distinct)) = polls-left quiet k times q orderly served in
        waits-left k (polls times q).jobs fine (omega (arith, rest, enough))
