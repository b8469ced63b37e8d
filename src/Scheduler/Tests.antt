-- ===== src/Scheduler/Tests.antt =====
-- Runs of the scheduler with numbers for multipliers and texts for payloads.
use atf.Common.{
  ℕ, ◌*◌, ◌/◌, ◌^◌, ◌≤◌, ◌≡◌, refl, true, false, Option, none, some, String, [], ◌∷◌, ◌++◌,
  if◌then◌else◌, str_eq, every, keep, inl, inr, Bool-cases, arith,
}
use atf.Scheduler.{
  JobStatus, JobRow, Job, JobOptions, Conduct, Call, Command, Numerics, Queue, is_due, is_waiting,
  is_kept, find_row,
}
use atf.Scheduler.Run.{new_row, schedule, process_jobs}
use atf.Scheduler.Rows.{are_distinct}
use atf.Scheduler.Attempts.{IsOrderly}
use atf.Scheduler.Polling.{process_jobs-IsOrderly}
use atf.Scheduler.Effect.{turn, IsQuietBy, is_readable}
use atf.Scheduler.Liveness.{left, waits, polls, polls-waits, IsServed}
use atf.Scheduler.Starvation.{is_starved, process_jobs-starved}

abbrev plain : Numerics ℕ String
plain = record {
  stringify = λ payload. payload;
  parse = some;
  delay = λ ms multiplier n. ms * multiplier ^ n / 1_000;
  two = 2;
  is_zero = λ n. false;
}

abbrev waiting : String → String → JobRow ℕ
waiting id job_type = record {
  job_id = id;
  job_type = job_type;
  payload_json = "7";
  scheduled_at = 100;
  max_attempts = 2;
  attempts = 0;
  backoff_ms = 1_000;
  backoff_multiplier = 2;
  timeout_ms = 500;
  status = JobStatus.pending;
  on_complete_event = none;
  on_failure_event = some "gone";
  created_at = 90;
  last_attempt_at = none;
}

abbrev two_jobs : Queue ℕ String
two_jobs = record {
  jobs = waiting "a" "slow" ∷ waiting "b" "mail" ∷ [];
  recurring = [];
  events = [];
}

abbrev times_out : Job ℕ String → Call ℕ String
times_out job = record { conduct = Conduct.hangs; message = ""; meanwhile = [] }

abbrev cancels_a : Job ℕ String → Call ℕ String
cancels_a job = record {
  conduct = Conduct.rejects 3;
  message = "no";
  meanwhile = Command.cancels "b" ∷ [];
}

-- The type "slow" hangs; "mail" cancels a job before it fails.
abbrev slow_only : String → Option (Job ℕ String → Call ℕ String)
slow_only job_type = if str_eq job_type "slow" then some times_out else none

abbrev rude : String → Option (Job ℕ String → Call ℕ String)
rude job_type = if str_eq job_type "slow" then some cancels_a else some times_out

two_jobs-IsOrderly : IsOrderly two_jobs.jobs
unfolding are_distinct
two_jobs-IsOrderly = (refl, refl)

process_jobs-IsOrderly_example : IsOrderly (process_jobs plain rude 100 two_jobs).jobs
process_jobs-IsOrderly_example = process_jobs-IsOrderly plain rude 100 two_jobs two_jobs-IsOrderly

slow_only-AreQuiet : (job : Job ℕ String) → IsQuietBy plain slow_only job (slow_only job.job_type)
slow_only-AreQuiet job = elim (Bool-cases (str_eq job.job_type "slow")) [
  | inl same ↦ rw same refl
  | inr other ↦ rw other tt
]

two_jobs-IsServed : IsServed plain slow_only "a" (100 ∷ 200 ∷ []) two_jobs
unfolding process_jobs turn find_row
two_jobs-IsServed = (refl, (refl, tt))

two_runs-left : left (find_row "a" two_jobs.jobs) ≤ 2
unfolding is_waiting find_row
two_runs-left = omega arith

polls-waits_example :
    waits (find_row "a" (polls plain slow_only (100 ∷ 200 ∷ []) two_jobs).jobs) ≡ false
polls-waits_example =
    polls-waits plain slow_only slow_only-AreQuiet "a" (100 ∷ 200 ∷ []) two_jobs two_jobs-IsOrderly
      two_jobs-IsServed two_runs-left

abbrev orphan_at : ℕ → String → JobRow ℕ
orphan_at time id = record (waiting id "lost") { scheduled_at = time }

-- Ten rows of a type without a handler, due before one of a type that has one.
abbrev crowded : Queue ℕ String
crowded = record two_jobs {
  jobs =
      orphan_at 90 "o1"
      ∷ orphan_at 91 "o2"
      ∷ orphan_at 92 "o3"
      ∷ orphan_at 93 "o4"
      ∷ orphan_at 94 "o5"
      ∷ waiting "a" "slow"
      ∷ orphan_at 90 "o6"
      ∷ orphan_at 91 "o7"
      ∷ orphan_at 92 "o8"
      ∷ orphan_at 93 "o9"
      ∷ orphan_at 94 "o10"
      ∷ [];
}

all_starved :
    every
      (is_starved plain slow_only (keep (is_due 100) crowded.jobs))
      (keep (is_due 100) crowded.jobs)
    ≡ true
unfolding is_due is_waiting
all_starved = refl

all_readable : every (is_readable plain slow_only) (keep (is_due 100) crowded.jobs) ≡ true
unfolding is_due is_waiting
all_readable = refl

process_jobs-starved_example :
    process_jobs plain slow_only 100 crowded
    ≡ record crowded { jobs = keep (is_kept 100) crowded.jobs }
process_jobs-starved_example =
    process_jobs-starved plain slow_only 100 crowded all_starved all_readable

abbrev defaults : JobOptions ℕ
defaults = record {
  scheduled_at = none;
  max_attempts = some 0;
  backoff_ms = none;
  backoff_multiplier = none;
  timeout_ms = none;
  on_complete_event = some "";
  on_failure_event = none;
}

abbrev with_c : Queue ℕ String
with_c = record two_jobs { jobs = two_jobs.jobs ++ new_row plain "c" "mail" "9" defaults 100 ∷ [] }

schedule-c : schedule plain "c" "mail" "9" defaults 100 two_jobs ≡ some with_c
unfolding schedule
schedule-c = refl
