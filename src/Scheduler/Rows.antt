-- ===== src/Scheduler/Rows.antt =====
-- Rows under updates, insertions and deletions: what the statements of SQL keep.
use atf.Common.{
  ℕ, Bool, true, false, not, ◌&&◌, String, List, [], ◌∷◌, ◌++◌, ◌||◌, keep, any, every, ◌≡◌, refl,
  ap, if◌then◌else◌, str_eq, str_eq_comm, arith, take, zero, suc,
}
use atf.Scheduler.{JobRow, has_id, update_row, insert_by_time, sort_by_time}

module _ {Number : Type 0} where
  unfoldable pub are_distinct : List (JobRow Number) → Bool
  are_distinct [] = true
  are_distinct (r ∷ rows) = not (any (has_id r.job_id) rows) && are_distinct rows

  pub any-update_row :
      (p : JobRow Number → Bool) (id : String) (f : JobRow Number → JobRow Number)
      → ((r : JobRow Number) → p (f r) ≡ p r)
      → (rows : List (JobRow Number)) → any p (update_row id f rows) ≡ any p rows
  unfolding update_row
  any-update_row p id f h [] = refl
  any-update_row p id f h (r ∷ rows) = ground (arith, h r, any-update_row p id f h rows)

  pub every-update_row :
      (p q : JobRow Number → Bool) (id : String) (f : JobRow Number → JobRow Number)
      → ((r : JobRow Number) → has_id id r ≡ true → q r ≡ true → p (f r) ≡ true)
      → ((r : JobRow Number) → has_id id r ≡ false → q r ≡ true → p r ≡ true)
      → (rows : List (JobRow Number)) → every q rows ≡ true
      → every p (update_row id f rows) ≡ true
  unfolding update_row
  every-update_row p q id f hit miss [] hq = refl
  every-update_row p q id f hit miss (r ∷ rows) hq =
      ground (arith, hit r, miss r, every-update_row p q id f hit miss rows)

  job_id-if :
      (b : Bool) (f : JobRow Number → JobRow Number) (r : JobRow Number)
      → (f r).job_id ≡ r.job_id
      → (if b then f r else r).job_id ≡ r.job_id
  job_id-if true f r h = h
  job_id-if false f r h = refl

  pub are_distinct-update_row :
      (id : String) (f : JobRow Number → JobRow Number)
      → ((r : JobRow Number) → (f r).job_id ≡ r.job_id)
      → (rows : List (JobRow Number)) → are_distinct (update_row id f rows) ≡ are_distinct rows
  unfolding update_row are_distinct
  are_distinct-update_row id f h [] = refl
  are_distinct-update_row id f h (r ∷ rows) =
      rw
        (
          job_id-if (has_id id r) f r (h r),
          any-update_row (has_id r.job_id) id f (λ x. ap (λ k. str_eq k r.job_id) (h x)) rows,
          are_distinct-update_row id f h rows,
        )
        refl

  pub every-append :
      (p : JobRow Number → Bool) (rows more : List (JobRow Number))
      → every p (rows ++ more) ≡ (every p rows && every p more)
  every-append p [] more = refl
  every-append p (r ∷ rows) more = ground (arith, every-append p rows more)

  pub every-keep :
      (p q : JobRow Number → Bool) (rows : List (JobRow Number))
      → every p rows ≡ true
      → every p (keep q rows) ≡ true
  every-keep p q [] h = refl
  every-keep p q (r ∷ rows) h = ground (arith, every-keep p q rows)

  any-keep :
      (p q : JobRow Number → Bool) (rows : List (JobRow Number))
      → any p rows ≡ false
      → any p (keep q rows) ≡ false
  any-keep p q [] h = refl
  any-keep p q (r ∷ rows) h = ground (arith, any-keep p q rows)

  pub are_distinct-keep :
      (q : JobRow Number → Bool) (rows : List (JobRow Number))
      → are_distinct rows ≡ true
      → are_distinct (keep q rows) ≡ true
  unfolding are_distinct
  are_distinct-keep q [] h = refl
  are_distinct-keep q (r ∷ rows) h =
      ground (arith, any-keep (has_id r.job_id) q rows, are_distinct-keep q rows)

  any-insert_by_time :
      (p : JobRow Number → Bool) (r : JobRow Number) (rows : List (JobRow Number))
      → any p (insert_by_time r rows) ≡ any p (r ∷ rows)
  unfolding insert_by_time
  any-insert_by_time p r [] = refl
  any-insert_by_time p r (x ∷ rows) = ground (arith, any-insert_by_time p r rows)

  any-sort_by_time :
      (p : JobRow Number → Bool) (rows : List (JobRow Number))
      → any p (sort_by_time rows) ≡ any p rows
  unfolding sort_by_time
  any-sort_by_time p [] = refl
  any-sort_by_time p (r ∷ rows) =
      ground (arith, any-insert_by_time p r (sort_by_time rows), any-sort_by_time p rows)

  pub every-insert_by_time :
      (p : JobRow Number → Bool) (r : JobRow Number) (rows : List (JobRow Number))
      → every p (insert_by_time r rows) ≡ every p (r ∷ rows)
  unfolding insert_by_time
  every-insert_by_time p r [] = refl
  every-insert_by_time p r (x ∷ rows) = ground (arith, every-insert_by_time p r rows)

  pub every-sort_by_time :
      (p : JobRow Number → Bool) (rows : List (JobRow Number))
      → every p (sort_by_time rows) ≡ every p rows
  unfolding sort_by_time
  every-sort_by_time p [] = refl
  every-sort_by_time p (r ∷ rows) =
      ground (arith, every-insert_by_time p r (sort_by_time rows), every-sort_by_time p rows)

  has_id_comm : (r x : JobRow Number) → has_id r.job_id x ≡ has_id x.job_id r
  has_id_comm r x = str_eq_comm x.job_id r.job_id

  are_distinct-insert_by_time :
      (r : JobRow Number) (rows : List (JobRow Number))
      → are_distinct (insert_by_time r rows) ≡ are_distinct (r ∷ rows)
  unfolding insert_by_time are_distinct
  are_distinct-insert_by_time r [] = refl
  are_distinct-insert_by_time r (x ∷ rows) = ground (
    arith,
    are_distinct-insert_by_time r rows,
    any-insert_by_time (has_id x.job_id) r rows,
    has_id_comm r x,
  )

  pub are_distinct-sort_by_time :
      (rows : List (JobRow Number))
      → are_distinct rows ≡ true
      → are_distinct (sort_by_time rows) ≡ true
  unfolding sort_by_time are_distinct
  are_distinct-sort_by_time [] h = refl
  are_distinct-sort_by_time (r ∷ rows) h = ground (
    arith,
    are_distinct-insert_by_time r (sort_by_time rows),
    any-sort_by_time (has_id r.job_id) rows,
    are_distinct-sort_by_time rows,
  )

  pub every-take :
      (p : JobRow Number → Bool) (n : ℕ) (rows : List (JobRow Number))
      → every p rows ≡ true
      → every p (take n rows) ≡ true
  every-take p zero rows h = refl
  every-take p (suc n) [] h = refl
  every-take p (suc n) (r ∷ rows) h = ground (arith, every-take p n rows)

  any-take :
      (p : JobRow Number → Bool) (n : ℕ) (rows : List (JobRow Number))
      → any p rows ≡ false
      → any p (take n rows) ≡ false
  any-take p zero rows h = refl
  any-take p (suc n) [] h = refl
  any-take p (suc n) (r ∷ rows) h = ground (arith, any-take p n rows)

  pub are_distinct-take :
      (n : ℕ) (rows : List (JobRow Number))
      → are_distinct rows ≡ true
      → are_distinct (take n rows) ≡ true
  unfolding are_distinct
  are_distinct-take zero rows h = refl
  are_distinct-take (suc n) [] h = refl
  are_distinct-take (suc n) (r ∷ rows) h =
      ground (arith, any-take (has_id r.job_id) n rows, are_distinct-take n rows)

  pub any-append_row :
      (p : JobRow Number → Bool) (rows : List (JobRow Number)) (r : JobRow Number)
      → any p (rows ++ r ∷ []) ≡ (any p rows || p r)
  any-append_row p [] r = ground arith
  any-append_row p (x ∷ rows) r = ground (arith, any-append_row p rows r)

  pub are_distinct-append :
      (rows : List (JobRow Number)) (r : JobRow Number)
      → any (has_id r.job_id) rows ≡ false
      → are_distinct (rows ++ r ∷ []) ≡ are_distinct rows
  unfolding are_distinct
  are_distinct-append [] r h = refl
  are_distinct-append (x ∷ rows) r h =
      ground (
        arith,
        are_distinct-append rows r,
        any-append_row (has_id x.job_id) rows r,
        has_id_comm r x,
      )
