-- ===== src/Scheduler/Attempts.antt =====
-- The attempts of a job, whatever other code does while handlers are awaited.
use atf.Common.{
  ℕ, Bool, true, false, not, ◌&&◌, ◌||◌, String, List, [], ◌∷◌, ◌++◌, any, every, ◌≡◌, refl, sym,
  ◌∙◌, ap, ltb, leb, ◌==◌, str_eq, str_eq_iff, arith, Bool-cases, inl, inr,
}
use atf.Scheduler.{JobStatus, JobRow, has_id, update_row, cancel_row, is_waiting}
use atf.Scheduler.Rows.{
  are_distinct, any-update_row, every-update_row, are_distinct-update_row, every-append,
  are_distinct-append, any-append_row,
}

-- A job that waits has an attempt left, one that has failed has none left, and no job has run more
-- often than it may.
abbrev pub has_attempts : JobStatus → ℕ → ℕ → Bool
has_attempts JobStatus.pending attempts limit = ltb attempts limit
has_attempts JobStatus.cancelled attempts limit = ltb attempts limit
has_attempts JobStatus.running attempts limit = ltb 0 attempts && leb attempts limit
has_attempts JobStatus.completed attempts limit = ltb 0 attempts && leb attempts limit
has_attempts JobStatus.failed attempts limit = attempts == limit

module _ {Number : Type 0} where
  abbrev pub is_fine : JobRow Number → Bool
  is_fine r = has_attempts r.status r.attempts r.max_attempts

  -- A row of the id has these attempts and this limit.
  abbrev pub agrees_at : String → ℕ → ℕ → JobRow Number → Bool
  agrees_at id a m r = not (has_id id r) || ((r.attempts == a) && (r.max_attempts == m))

  -- The rows still hold what a run has read of a job.
  abbrev pub holds : String → ℕ → ℕ → List (JobRow Number) → Bool
  holds id a m rows = any (has_id id) rows && every (agrees_at id a m) rows

  abbrev pub still_holds : List (JobRow Number) → JobRow Number → Bool
  still_holds rows s = holds s.job_id s.attempts s.max_attempts rows

  -- Each row has its attempts, and no two have one id.
  abbrev pub IsOrderly : List (JobRow Number) → Type 0
  IsOrderly rows = (every is_fine rows ≡ true) × (are_distinct rows ≡ true)

  every-and :
      (p q : JobRow Number → Bool) (rows : List (JobRow Number))
      → every p rows ≡ true
      → every q rows ≡ true
      → every (λ r. p r && q r) rows ≡ true
  every-and p q [] hp hq = refl
  every-and p q (r ∷ rows) hp hq = ground (arith, every-and p q rows)

  cancel_row-is_fine : (r : JobRow Number) → is_fine r ≡ true → is_fine (cancel_row r) ≡ true
  unfolding cancel_row is_waiting
  cancel_row-is_fine r h = ground (arith, h)

  cancel_row-job_id : (r : JobRow Number) → (cancel_row r).job_id ≡ r.job_id
  unfolding cancel_row is_waiting
  cancel_row-job_id r = ground arith

  cancel_row-agrees_at :
      (id : String) (a m : ℕ) (r : JobRow Number)
      → agrees_at id a m r ≡ true
      → agrees_at id a m (cancel_row r) ≡ true
  unfolding cancel_row is_waiting
  cancel_row-agrees_at id a m r h = ground (arith, h)

  pub cancel_row-IsOrderly :
      (id : String) (rows : List (JobRow Number))
      → IsOrderly rows
      → IsOrderly (update_row id cancel_row rows)
  cancel_row-IsOrderly id rows (fine, distinct) = (
    every-update_row is_fine is_fine id cancel_row (λ r at h. cancel_row-is_fine r h) (λ r off h. h)
        rows fine,
    are_distinct-update_row id cancel_row cancel_row-job_id rows ∙ distinct,
  )

  pub holds-cancel_row :
      (id k : String) (a m : ℕ) (rows : List (JobRow Number))
      → holds k a m rows ≡ true
      → holds k a m (update_row id cancel_row rows) ≡ true
  holds-cancel_row id k a m rows h = ground (
    arith,
    any-update_row (has_id k) id cancel_row (λ r. ap (λ j. str_eq j k) (cancel_row-job_id r)) rows,
    every-update_row (agrees_at k a m) (agrees_at k a m) id cancel_row
        (λ r at. cancel_row-agrees_at k a m r) (λ r off e. e) rows,
  )

  pub append-IsOrderly :
      (rows : List (JobRow Number)) (r : JobRow Number)
      → any (has_id r.job_id) rows ≡ false
      → is_fine r ≡ true
      → IsOrderly rows
      → IsOrderly (rows ++ r ∷ [])
  append-IsOrderly rows r new h (fine, distinct) = (
    ground (arith, every-append is_fine rows (r ∷ [])),
    are_distinct-append rows r new ∙ distinct,
  )

  new-agrees_at :
      (id k : String) (a m : ℕ) (rows : List (JobRow Number)) (r : JobRow Number)
      → r.job_id ≡ id
      → any (has_id id) rows ≡ false
      → any (has_id k) rows ≡ true
      → agrees_at k a m r ≡ true
  new-agrees_at id k a m rows r e new old = elim (Bool-cases (str_eq r.job_id k)) [
    | inl same ↦
        let clash : false ≡ true =
          sym new ∙ ap (λ j. any (has_id j) rows) (sym e ∙ (str_eq_iff r.job_id k).0 same) ∙ old in
        cc
    | inr other ↦ ground (arith, other)
  ]

  pub holds-append :
      (k : String) (a m : ℕ) (rows : List (JobRow Number)) (r : JobRow Number)
      → any (has_id r.job_id) rows ≡ false
      → holds k a m rows ≡ true
      → holds k a m (rows ++ r ∷ []) ≡ true
  holds-append k a m rows r new h = ground (
    arith,
    every-append (agrees_at k a m) rows (r ∷ []),
    any-append_row (has_id k) rows r,
    new-agrees_at r.job_id k a m rows r refl new,
  )

  -- An attempt of another job.
  pub holds-other :
      (id k : String) (a m : ℕ) (f : JobRow Number → JobRow Number)
      → ((r : JobRow Number) → (f r).job_id ≡ r.job_id)
      → str_eq id k ≡ false
      → (rows : List (JobRow Number)) → holds k a m rows ≡ true
      → holds k a m (update_row id f rows) ≡ true
  holds-other id k a m f keeps apart rows h =
      let hit : (r : JobRow Number)
          → has_id id r ≡ true
          → agrees_at k a m r ≡ true
          → agrees_at k a m (f r) ≡ true =
        λ r at e.
          let off : has_id k (f r) ≡ false =
            ap (λ j. str_eq j k) (keeps r ∙ (str_eq_iff r.job_id id).0 at) ∙ apart in
          rw off refl in
      ground (
        arith,
        any-update_row (has_id k) id f (λ r. ap (λ j. str_eq j k) (keeps r)) rows,
        every-update_row (agrees_at k a m) (agrees_at k a m) id f hit (λ r off e. e) rows,
      )

  -- A change of the rows of one id, by what they agree on.
  pub change-IsOrderly :
      (id : String) (a m : ℕ) (f : JobRow Number → JobRow Number)
      → ((r : JobRow Number) → (f r).job_id ≡ r.job_id)
      → ((r : JobRow Number) → r.attempts ≡ a → r.max_attempts ≡ m → is_fine (f r) ≡ true)
      → (rows : List (JobRow Number)) → holds id a m rows ≡ true
      → IsOrderly rows
      → IsOrderly (update_row id f rows)
  change-IsOrderly id a m f keeps good rows h (fine, distinct) =
      let q : JobRow Number → Bool = λ r. is_fine r && agrees_at id a m r in
      (
        every-update_row is_fine q id f (λ r at e. good r (ground arith) (ground arith))
            (λ r off e. ground arith) rows
            (every-and is_fine (agrees_at id a m) rows fine (ground arith)),
        are_distinct-update_row id f keeps rows ∙ distinct,
      )
