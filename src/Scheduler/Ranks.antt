-- ===== src/Scheduler/Ranks.antt =====
-- agentix/packages/scheduler/index.ts: what stands before a row in the order of the query of _processJobs.
use atf.Common.{
  ℕ, zero, suc, ◌≤◌, Bool, true, false, ◌&&◌, List, [], ◌∷◌, keep, every, take, length, ltb, leb,
  ◌≡◌, refl, ◌∙◌, ap, arith, Bool-cases, inl, inr, and_left, and_right, and_both,
}
use atf.Scheduler.{JobRow, insert_by_time, sort_by_time}
use atf.Scheduler.Rows.{every-insert_by_time}

module _ {A : Type 0} where
  pub every-weaken :
      (p q : A → Bool) (xs : List A)
      → ((x : A) → p x ≡ true → q x ≡ true)
      → every p xs ≡ true
      → every q xs ≡ true
  every-weaken p q [] h all = refl
  every-weaken p q (x ∷ xs) h all =
      and_both (q x) (every q xs) (h x (and_left (p x) _ all))
        (every-weaken p q xs h (and_right (p x) _ all))

  pub every-both :
      (p q : A → Bool) (xs : List A)
      → every p xs ≡ true
      → every q xs ≡ true
      → every (λ x. p x && q x) xs ≡ true
  every-both p q [] h k = refl
  every-both p q (x ∷ xs) h k = ground (arith, h, k, every-both p q xs)

  pub length-keep-le :
      (p q : A → Bool) (xs : List A) → length (keep (λ x. p x && q x) xs) ≤ length (keep q xs)
  length-keep-le p q [] = omega arith
  length-keep-le p q (x ∷ xs) =
      let rest = length-keep-le p q xs in
      elim (Bool-cases (q x)) [
        | inl counted ↦ elim (Bool-cases (p x)) [
          | inl both ↦ rw (counted, both) (omega (arith, rest))
          | inr one ↦ rw (counted, one) (omega (arith, rest))
        ]
        | inr left_out ↦ elim (Bool-cases (p x)) [
          | inl one ↦ rw (left_out, one) rest
          | inr neither ↦ rw (left_out, neither) rest
        ]
      ]

module _ {Number : Type 0} where
  -- The rows that are due before a row.
  abbrev pub is_earlier : JobRow Number → JobRow Number → Bool
  is_earlier r s = ltb s.scheduled_at r.scheduled_at

  abbrev are_sorted : List (JobRow Number) → Bool
  are_sorted [] = true
  are_sorted (r ∷ rows) = every (λ s. leb r.scheduled_at s.scheduled_at) rows && are_sorted rows

  length-keep-insert_by_time :
      (p : JobRow Number → Bool) (r : JobRow Number) (rows : List (JobRow Number))
      → length (keep p (insert_by_time r rows)) ≡ length (keep p (r ∷ rows))
  unfolding insert_by_time
  length-keep-insert_by_time p r [] = refl
  length-keep-insert_by_time p r (x ∷ rows) =
      let rest = length-keep-insert_by_time p r rows in
      elim (Bool-cases (leb r.scheduled_at x.scheduled_at)) [
        | inl first ↦ rw first refl
        | inr later ↦ elim (Bool-cases (p x)) [
          | inr out ↦ rw (later, out) rest
          | inl in_it ↦ elim (Bool-cases (p r)) [
            | inl both ↦ rw (later, in_it, both) (ap (λ n. suc n) (rw both at rest))
            | inr one ↦ rw (later, in_it, one) (ap (λ n. suc n) (rw one at rest))
          ]
        ]
      ]

  pub length-keep-sort_by_time :
      (p : JobRow Number → Bool) (rows : List (JobRow Number))
      → length (keep p (sort_by_time rows)) ≡ length (keep p rows)
  unfolding sort_by_time
  length-keep-sort_by_time p [] = refl
  length-keep-sort_by_time p (r ∷ rows) =
      let rest = length-keep-sort_by_time p rows in
      length-keep-insert_by_time p r (sort_by_time rows) ∙ elim (Bool-cases (p r)) [
        | inl counted ↦ rw counted (ap (λ n. suc n) rest)
        | inr out ↦ rw out rest
      ]

  are_sorted-insert_by_time :
      (r : JobRow Number) (rows : List (JobRow Number))
      → are_sorted rows ≡ true
      → are_sorted (insert_by_time r rows) ≡ true
  unfolding insert_by_time
  are_sorted-insert_by_time r [] h = refl
  are_sorted-insert_by_time r (x ∷ rows) h =
      let low = and_left (every (λ s. leb x.scheduled_at s.scheduled_at) rows) _ h in
      let more = and_right (every (λ s. leb x.scheduled_at s.scheduled_at) rows) _ h in
      elim (Bool-cases (leb r.scheduled_at x.scheduled_at)) [
        | inl first ↦
            rw (first, first)
              (and_both _ _
                (every-weaken (λ s. leb x.scheduled_at s.scheduled_at)
                  (λ s. leb r.scheduled_at s.scheduled_at) rows (λ s k. ground (arith, first, k))
                  low)
                h)
        | inr later ↦ rw later (
            and_both _ _
              (every-insert_by_time (λ s. leb x.scheduled_at s.scheduled_at) r rows
                ∙ and_both _ _ (ground (arith, later)) low)
              (are_sorted-insert_by_time r rows more))
      ]

  pub are_sorted-sort_by_time :
      (rows : List (JobRow Number)) → are_sorted (sort_by_time rows) ≡ true
  unfolding sort_by_time
  are_sorted-sort_by_time [] = refl
  are_sorted-sort_by_time (r ∷ rows) =
      are_sorted-insert_by_time r (sort_by_time rows) (are_sorted-sort_by_time rows)

  none_earlier :
      (r : JobRow Number) (rows : List (JobRow Number))
      → every (λ s. leb r.scheduled_at s.scheduled_at) rows ≡ true
      → length (keep (is_earlier r) rows) ≡ 0
  none_earlier r [] h = refl
  none_earlier r (x ∷ rows) h =
      let low = and_left (leb r.scheduled_at x.scheduled_at) _ h in
      let not_earlier : ltb x.scheduled_at r.scheduled_at ≡ false = ground (arith, low) in
      rw not_earlier (none_earlier r rows (and_right (leb r.scheduled_at x.scheduled_at) _ h))

  length-keep-cons :
      (p : JobRow Number → Bool) (x : JobRow Number) (rows : List (JobRow Number))
      → length (keep p (x ∷ rows)) ≤ suc (length (keep p rows))
  length-keep-cons p x rows = elim (Bool-cases (p x)) [
    | inl counted ↦ rw counted (omega arith)
    | inr out ↦ rw out (omega arith)
  ]

  -- Of sorted rows, each of the first n has fewer than n that are due before it.
  pub take-rank :
      (n : ℕ) (rows : List (JobRow Number))
      → are_sorted rows ≡ true
      → every (λ r. ltb (length (keep (is_earlier r) rows)) n) (take n rows) ≡ true
  take-rank zero rows h = refl
  take-rank (suc n) [] h = refl
  take-rank (suc n) (x ∷ rows) h =
      let low = and_left (every (λ s. leb x.scheduled_at s.scheduled_at) rows) _ h in
      let more = and_right (every (λ s. leb x.scheduled_at s.scheduled_at) rows) _ h in
      let itself : ltb x.scheduled_at x.scheduled_at ≡ false = ground arith in
      and_both _ _ (rw (itself, none_earlier x rows low) (ground arith)) (
        every-weaken (λ r. ltb (length (keep (is_earlier r) rows)) n)
          (λ r. ltb (length (keep (is_earlier r) (x ∷ rows))) (suc n)) (take n rows)
          (λ r k.
            let one_more = length-keep-cons (is_earlier r) x rows in ground (arith, k, one_more))
          (take-rank n rows more))
