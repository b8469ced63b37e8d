-- ===== src/Scheduler/Effect.antt =====
-- What one run of `_processJobs` does to each job, when nothing else writes the rows meanwhile.
use atf.Common.{
  ℕ, Bool, true, false, Option, none, some, String, List, [], ◌∷◌, keep, any, ◌≡◌, refl, sym, ◌∙◌,
  ap, leb, if◌then◌else◌, str_eq, str_eq_iff, str_eq_comm, arith, take, Bool-cases, inl, inr, All,
  is_some, suc, zero,
}
use mathlib.Core.Option.{map as map_option}
use atf.Scheduler.{
  JobRow, Job, Call, Numerics, Queue, has_id, due_jobs, is_due, sort_by_time, insert_by_time,
  update_row, find_row, run_with_timeout, start_row, change_row,
}
use atf.Scheduler.Run.{perform_all, job_of, run_job, settle}
use atf.Scheduler.Rows.{are_distinct}
use atf.Scheduler.Invariant.{settled_row, settle-jobs, settled_row-job_id}

module _ {Number : Type 0} where
  find_row-update_row :
      (k id : String) (f : JobRow Number → JobRow Number)
      → ((r : JobRow Number) → (f r).job_id ≡ r.job_id)
      → (rows : List (JobRow Number))
      → find_row k (update_row id f rows)
        ≡ (if str_eq id k then map_option f (find_row k rows) else find_row k rows)
  unfolding update_row find_row
  find_row-update_row k id f keeps [] = ground arith
  find_row-update_row k id f keeps (r ∷ rows) =
      let more = find_row-update_row k id f keeps rows in
      elim (Bool-cases (has_id id r)) [
        | inl at ↦
            let here : str_eq r.job_id k ≡ str_eq id k =
              ap (λ j. str_eq j k) ((str_eq_iff r.job_id id).0 at) in
            let there : has_id k (f r) ≡ str_eq id k = ap (λ j. str_eq j k) (keeps r) ∙ here in
            elim (Bool-cases (str_eq id k)) [
              | inl same ↦ rw (at, there ∙ same, here ∙ same, same) refl
              | inr apart ↦ rw (at, there ∙ apart, here ∙ apart, apart) (rw apart at more)
            ]
        | inr off ↦ rw off (elim (Bool-cases (has_id k r)) [
          | inl here ↦
              let apart : str_eq id k ≡ false =
                ap (str_eq id) (sym ((str_eq_iff r.job_id k).0 here))
                ∙ str_eq_comm id r.job_id
                ∙ off in
              rw (here, apart) refl
          | inr away ↦ rw (away, more) refl
        ])
      ]

  pub find_row-absent :
      (k : String) (rows : List (JobRow Number))
      → any (has_id k) rows ≡ false
      → find_row k rows ≡ none
  unfolding find_row
  find_row-absent k [] h = refl
  find_row-absent k (r ∷ rows) h = ground (arith, find_row-absent k rows)

  abbrev pub kept_of : (JobRow Number → Bool) → Option (JobRow Number) → Option (JobRow Number)
  kept_of p none = none
  kept_of p (some r) = if p r then some r else none

  pub find_row-keep :
      (k : String) (p : JobRow Number → Bool) (rows : List (JobRow Number))
      → are_distinct rows ≡ true
      → find_row k (keep p rows) ≡ kept_of p (find_row k rows)
  unfolding find_row are_distinct
  find_row-keep k p [] h = refl
  find_row-keep k p (r ∷ rows) h =
      let more = find_row-keep k p rows (ground arith) in
      elim (Bool-cases (p r)) [
        | inl stays ↦ elim (Bool-cases (has_id k r)) [
          | inl here ↦ rw (stays, here) (rw stays refl)
          | inr away ↦ rw (stays, away) more
        ]
        | inr goes ↦ elim (Bool-cases (has_id k r)) [
          | inl here ↦
              let gone : find_row k rows ≡ none =
                ap (λ j. find_row j rows) (sym ((str_eq_iff r.job_id k).0 here))
                ∙ find_row-absent r.job_id rows (ground arith) in
              rw (goes, here) (rw goes (more ∙ rw gone refl))
          | inr away ↦ rw (goes, away) more
        ]
      ]

  -- The table's row of an id that is in the list is the list's.
  abbrev pub Reads : List (JobRow Number) → List (JobRow Number) → Type 0
  Reads rows xs = All (λ s. find_row s.job_id rows ≡ some s) xs

  Reads-cons :
      (r : JobRow Number) (rows xs : List (JobRow Number))
      → any (has_id r.job_id) xs ≡ false
      → Reads rows xs
      → Reads (r ∷ rows) xs
  unfolding find_row
  Reads-cons r rows [] h reads = tt
  Reads-cons r rows (x ∷ xs) h (here, more) =
      (ground (arith, str_eq_comm r.job_id x.job_id), Reads-cons r rows xs (ground arith) more)

  Reads-refl : (rows : List (JobRow Number)) → are_distinct rows ≡ true → Reads rows rows
  unfolding are_distinct find_row
  Reads-refl [] h = tt
  Reads-refl (r ∷ rows) h = (
    rw ((str_eq_iff r.job_id r.job_id).1 refl) refl,
    Reads-cons r rows rows (ground arith) (Reads-refl rows (ground arith)),
  )

  Reads-keep :
      (p : JobRow Number → Bool) (rows xs : List (JobRow Number))
      → Reads rows xs
      → Reads rows (keep p xs)
  Reads-keep p rows [] reads = tt
  Reads-keep p rows (x ∷ xs) (here, more) = elim (Bool-cases (p x)) [
    | inl stays ↦ rw stays (here, Reads-keep p rows xs more)
    | inr goes ↦ rw goes (Reads-keep p rows xs more)
  ]

  Reads-insert_by_time :
      (rows : List (JobRow Number)) (r : JobRow Number) (xs : List (JobRow Number))
      → find_row r.job_id rows ≡ some r
      → Reads rows xs
      → Reads rows (insert_by_time r xs)
  unfolding insert_by_time
  Reads-insert_by_time rows r [] h reads = (h, tt)
  Reads-insert_by_time rows r (x ∷ xs) h (here, more) =
      elim (Bool-cases (leb r.scheduled_at x.scheduled_at)) [
        | inl first ↦ rw first (h, (here, more))
        | inr later ↦ rw later (here, Reads-insert_by_time rows r xs h more)
      ]

  Reads-sort_by_time :
      (rows xs : List (JobRow Number)) → Reads rows xs → Reads rows (sort_by_time xs)
  unfolding sort_by_time
  Reads-sort_by_time rows [] reads = tt
  Reads-sort_by_time rows (x ∷ xs) (here, more) =
      Reads-insert_by_time rows x (sort_by_time xs) here (Reads-sort_by_time rows xs more)

  Reads-take : (n : ℕ) (rows xs : List (JobRow Number)) → Reads rows xs → Reads rows (take n xs)
  Reads-take zero rows xs reads = tt
  Reads-take (suc n) rows [] reads = tt
  Reads-take (suc n) rows (x ∷ xs) (here, more) = (here, Reads-take n rows xs more)

  pub Reads-due_jobs :
      (now : ℕ) (rows : List (JobRow Number))
      → are_distinct rows ≡ true
      → Reads rows (due_jobs now rows)
  unfolding due_jobs
  Reads-due_jobs now rows h =
      Reads-take 10 rows _
        (Reads-sort_by_time rows _ (Reads-keep (is_due now) rows rows (Reads-refl rows h)))

module _ {Number Payload : Type 0} (numerics : Numerics Number Payload)
    (handlers : String → Option (Job Number Payload → Call Number Payload)) where
  -- A payload that is JSON.
  abbrev pub is_readable : JobRow Number → Bool
  is_readable r = is_some (numerics.parse r.payload_json)

  abbrev pub turn_by :
      ℕ
      → JobRow Number
      → Job Number Payload
      → Option (Job Number Payload → Call Number Payload)
      → JobRow Number
  turn_by now s job none = s
  turn_by now s job (some handler) =
      let call = handler job in
      settled_row numerics now job
        (run_with_timeout call.conduct call.message job.id job.timeout_ms) (start_row now s)

  abbrev pub turn_on : ℕ → JobRow Number → Option Payload → JobRow Number
  turn_on now s none = s
  turn_on now s (some payload) =
      let job = job_of numerics s payload in turn_by now s job (handlers job.job_type)

  -- The row of a job that a run has taken up: unchanged without a handler, else attempted once.
  unfoldable pub turn : ℕ → JobRow Number → JobRow Number
  turn now s = turn_on now s (numerics.parse s.payload_json)

  abbrev pub IsQuietBy :
      Job Number Payload → Option (Job Number Payload → Call Number Payload) → Type 0
  IsQuietBy job none = Unit
  IsQuietBy job (some handler) = (handler job).meanwhile ≡ []

  -- Handlers that neither schedule nor cancel before they are settled.
  abbrev pub AreQuiet : Type 0
  AreQuiet = (job : Job Number Payload) → IsQuietBy job (handlers job.job_type)

  pub run_job-jobs :
      (now : ℕ) (s : JobRow Number) (payload : Payload)
      (handler : Option (Job Number Payload → Call Number Payload)) (q : Queue Number Payload)
      → IsQuietBy (job_of numerics s payload) handler
      → find_row s.job_id q.jobs ≡ some s
      → (k : String)
      → find_row k (run_job numerics handlers now (job_of numerics s payload) handler q).jobs ≡ (
          if str_eq s.job_id k
          then some (turn_by now s (job_of numerics s payload) handler)
          else find_row k q.jobs)
  unfolding run_job perform_all start_row job_of
  run_job-jobs now s payload none q quiet at k = elim (Bool-cases (str_eq s.job_id k)) [
    | inl same ↦ rw same (ap (λ j. find_row j q.jobs) (sym ((str_eq_iff s.job_id k).0 same)) ∙ at)
    | inr apart ↦ rw apart refl
  ]
  run_job-jobs now s payload (some handler) q quiet at k =
      let job = job_of numerics s payload in
      let call = handler job in
      let err = run_with_timeout call.conduct call.message job.id job.timeout_ms in
      let started = change_row job.id (start_row now) q in
      let rows : (run_job numerics handlers now job (some handler) q).jobs
          ≡ update_row s.job_id (settled_row numerics now job err) started.jobs =
        ap (λ cs. (settle numerics now job err (perform_all numerics cs started)).jobs) quiet
        ∙ settle-jobs numerics now job err started in
      let found : find_row k started.jobs ≡ (
          if str_eq s.job_id k
          then map_option (start_row now) (find_row k q.jobs)
          else find_row k q.jobs) =
        find_row-update_row k s.job_id (start_row now) (λ r. refl) q.jobs in
      let step =
        find_row-update_row k s.job_id (settled_row numerics now job err)
          (settled_row-job_id numerics now job err) started.jobs in
      ap (find_row k) rows ∙ step ∙ elim (Bool-cases (str_eq s.job_id k)) [
        | inl same ↦
            let here : find_row k q.jobs ≡ some s =
              ap (λ j. find_row j q.jobs) (sym ((str_eq_iff s.job_id k).0 same)) ∙ at in
            rw same (ap (map_option (settled_row numerics now job err)) (rw (same, here) at found))
        | inr apart ↦ rw apart (rw apart at found)
      ]
