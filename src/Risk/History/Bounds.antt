-- ===== src/Risk/History/Bounds.antt =====
-- How the figures of a profile bound each other.
use native.Mathlib.Nat.{mul-le-mul_left, div-le_of_le-mul}
use atf.Common.{
  ℕ, zero, suc, ◌+◌, ◌-◌, ◌*◌, ◌≤◌, Bool, true, false, ◌||◌, Option, none, some, String, List, [],
  ◌∷◌, take, length, ltb, str_eq, ℤ, ◌≡◌, refl, arith, Bool-cases, inl, inr, leb,
}
use atf.Risk.Input.{BehavioralProfile}
use atf.Risk.History.{
  ActionRow, Tally, no_tally, mean, tally_value, tally_target, tally_time, tally_tool, tally_row,
  tally_rows, parse_value_wei, extract_target, profile_from, recent_rows, build_behavioral_profile,
}

-- After `n` rows, of which `m` have been asked for their values.
IsSane : ℕ → ℕ → Tally → Type 0
IsSane n m t =
    (t.failed_count_24h ≤ t.action_count_24h)
    × (t.action_count_24h ≤ n)
    × (t.value_samples ≤ m)
    × (t.value_sum_7d ≤ t.value_samples * t.value_max_7d)

tally_tool-IsSane :
    (tool : String) (n m : ℕ) (t : Tally) → IsSane n m t → IsSane n m (tally_tool tool t)
unfolding IsSane tally_tool
tally_tool-IsSane tool n m t h =
    elim (Bool-cases (str_eq tool "wallet_transfer_ownership" || str_eq tool "changeOwner")) [
      | inl changed ↦ rw changed h
      | inr same ↦ rw same h
    ]

add_le :
    (samples v top big : ℕ) (sum : ℕ)
    → sum ≤ samples * top
    → top ≤ big
    → v ≤ big
    → sum + v ≤ suc samples * big
add_le samples v top big sum low up fits = omega (arith, low, mul-le-mul_left samples up, fits)

tally_value-IsSane :
    (v : ℤ) (n m : ℕ) (t : Tally) → IsSane n m t → IsSane n (suc m) (tally_value v t)
unfolding IsSane tally_value
tally_value-IsSane (ℤ.negsuc v) n m t (failed, count, samples, sum) =
    (failed, count, omega (arith, samples), sum)
tally_value-IsSane (ℤ.pos zero) n m t (failed, count, samples, sum) =
    (failed, count, omega (arith, samples), sum)
tally_value-IsSane (ℤ.pos (suc v)) n m t (failed, count, samples, sum) =
    elim (Bool-cases (ltb t.value_max_7d (suc v))) [
      | inl more ↦
          let up : t.value_max_7d ≤ suc v = ground (arith, more) in
          rw more (
            failed,
            count,
            omega (arith, samples),
            add_le t.value_samples (suc v) t.value_max_7d (suc v) t.value_sum_7d sum up
                (omega arith),
          )
      | inr less ↦
          let fits : suc v ≤ t.value_max_7d = ground (arith, less) in
          rw less (
            failed,
            count,
            omega (arith, samples),
            add_le t.value_samples (suc v) t.value_max_7d t.value_max_7d t.value_sum_7d sum
                (omega arith) fits,
          )
    ]

tally_target-IsSane :
    (success : Bool) (target : Option ℕ) (n m : ℕ) (t : Tally)
    → IsSane n m t
    → IsSane n m (tally_target success target t)
unfolding IsSane tally_target
tally_target-IsSane success none n m t h = h
tally_target-IsSane true (some target) n m t h = h
tally_target-IsSane false (some target) n m t h = h

tally_time-IsSane :
    (recent success : Bool) (n m : ℕ) (t : Tally)
    → IsSane n m t
    → IsSane (suc n) m (tally_time recent success t)
unfolding IsSane tally_time
tally_time-IsSane false success n m t (failed, count, samples, sum) =
    (failed, omega (arith, count), samples, sum)
tally_time-IsSane true true n m t (failed, count, samples, sum) =
    (omega (arith, failed), omega (arith, count), samples, sum)
tally_time-IsSane true false n m t (failed, count, samples, sum) =
    (omega (arith, failed), omega (arith, count), samples, sum)

IsSane-wider : (n m n' m' : ℕ) (t : Tally) → n ≤ n' → m ≤ m' → IsSane n m t → IsSane n' m' t
unfolding IsSane
IsSane-wider n m n' m' t more more' (failed, count, samples, sum) =
    (failed, omega (arith, count, more), omega (arith, samples, more'), sum)

tally_rows-IsSane :
    (since : ℕ) (rows : List ActionRow) (n m : ℕ) (t : Tally)
    → IsSane n m t
    → IsSane (n + length rows) (m + length rows) (tally_rows since rows t)
unfolding tally_rows tally_row
tally_rows-IsSane since [] n m t h =
    IsSane-wider n m (n + 0) (m + 0) t (omega arith) (omega arith) h
tally_rows-IsSane since (r ∷ rows) n m t h =
    IsSane-wider (suc n + length rows) (suc m + length rows) (n + suc (length rows))
      (m + suc (length rows)) _ (omega arith) (omega arith)
      (tally_rows-IsSane since rows (suc n) (suc m) (tally_row since r t) (
        tally_time-IsSane (leb since r.timestamp) r.success n (suc m) _ (
          tally_target-IsSane r.success (extract_target r) n (suc m) _
            (tally_value-IsSane (parse_value_wei r) n m _ (tally_tool-IsSane r.tool n m t h)))))

length-take-le : {A : Type 0} (n : ℕ) (xs : List A) → length (take n xs) ≤ n
length-take-le zero xs = omega arith
length-take-le (suc n) [] = omega arith
length-take-le (suc n) (x ∷ xs) = omega (arith, length-take-le n xs)

mean-le : (sum samples top : ℕ) → sum ≤ samples * top → mean sum samples ≤ top
mean-le sum samples top h = elim (Bool-cases (ltb 0 samples)) [
  | inl some_samples ↦ rw some_samples (div-le_of_le-mul samples h)
  | inr no_samples ↦ rw no_samples (omega arith)
]

-- What holds of the figures of a profile.
abbrev pub IsBounded : BehavioralProfile → Type 0
IsBounded p =
    (p.failed_count_24h ≤ p.action_count_24h)
    × (p.action_count_24h ≤ p.action_count_7d)
    × (p.action_count_7d ≤ 500)
    × ((average : ℕ) × (top : ℕ) × (p.value_mean_7d ≡ some average)
        × (p.value_max_7d ≡ some top)
        × (average ≤ top))

profile_from-IsBounded :
    (now : ℕ) (rows : List ActionRow) → length rows ≤ 500 → IsBounded (profile_from now rows)
unfolding profile_from IsSane
profile_from-IsBounded now [] few =
    (omega arith, omega arith, omega arith, (0, 0, refl, refl, omega arith))
profile_from-IsBounded now (r ∷ rows) few =
    let (failed, count, samples, sum) =
      tally_rows-IsSane (now - 86_400) (r ∷ rows) 0 0 no_tally
        (omega arith, omega arith, omega arith, omega arith) in
    (failed, omega (arith, count), few, (_, _, refl, refl, mean-le _ _ _ sum))

-- In the profile of a wallet there are no more failures than actions of the day, no more of these than of
-- the week, no more than 500 of them, and the mean value is no greater than the greatest.
pub build_behavioral_profile-IsBounded :
    (to_lower_case : String → String) (wallet : String) (now : ℕ) (rows : List ActionRow)
    → IsBounded (build_behavioral_profile to_lower_case wallet now rows)
unfolding build_behavioral_profile recent_rows
build_behavioral_profile-IsBounded to_lower_case wallet now rows =
    elim (Bool-cases (str_eq wallet "")) [
      | inl nobody ↦
          rw nobody (omega arith, omega arith, omega arith, (0, 0, refl, refl, omega arith))
      | inr named ↦ rw named (
          profile_from-IsBounded now (recent_rows to_lower_case wallet now rows)
            (length-take-le 500 _))
    ]
