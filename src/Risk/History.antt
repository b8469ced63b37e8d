-- ===== src/Risk/History.antt =====
-- agentix/packages/compiler/risk/history.ts: the profile of a wallet from the rows of its actions.
pub mod Bounds
use atf.Common.{
  ℕ, zero, suc, ◌+◌, ◌-◌, ◌*◌, ◌/◌, ◌≤◌, Bool, true, false, not, ◌&&◌, ◌||◌, Option, none, some,
  String, List, [], ◌∷◌, ◌++◌, keep, take, length, ltb, leb, max, if◌then◌else◌, str_eq, text_or,
  or_else, ℤ, gt, ◌≡◌, refl, arith, Bool-cases, Option-cases, inl, inr,
}
use atf.Risk.Input.{BehavioralProfile}
use atf.Risk.Addresses.{address_of, add_target}
use atf.Risk.Assembly.{empty_profile}

-- What is read of a row's JSON: the value where BigInt can read it, and the texts that may name the
-- target, "" where one is absent.
pub record ActionBlob : Type 0 where
  pub value : Option ℤ
  pub target : String
  pub recipient : String
  pub delegatee : String

-- A row of `agent_actions`; a text that is absent or no JSON is `none`.
pub record ActionRow : Type 0 where
  pub wallet_address : String
  pub tool : String
  pub success : Bool
  pub timestamp : ℕ
  pub metadata : Option ActionBlob
  pub intent : Option ActionBlob

abbrev blob_value : Option ActionBlob → Option ℤ
blob_value none = none
blob_value (some b) = b.value

unfoldable pub parse_value_wei : ActionRow → ℤ
parse_value_wei r = or_else (blob_value r.metadata) (or_else (blob_value r.intent) (ℤ.pos 0))

abbrev blob_target : Option ActionBlob → Option ℕ
blob_target none = none
blob_target (some b) = address_of (text_or b.target (text_or b.recipient b.delegatee))

abbrev first_target : Option ℕ → Option ℕ → Option ℕ
first_target none later = later
first_target (some t) later = some t

unfoldable pub extract_target : ActionRow → Option ℕ
extract_target r = first_target (blob_target r.metadata) (blob_target r.intent)

-- The variables of the loop that the profile is made of.
pub record Tally : Type 0 where
  pub action_count_24h : ℕ
  pub failed_count_24h : ℕ
  pub value_sum_7d : ℕ
  pub value_max_7d : ℕ
  pub value_samples : ℕ
  pub ever_changed_owner : Bool
  pub seen : List ℕ

abbrev pub no_tally : Tally
no_tally = record {
  action_count_24h = 0;
  failed_count_24h = 0;
  value_sum_7d = 0;
  value_max_7d = 0;
  value_samples = 0;
  ever_changed_owner = false;
  seen = [];
}

unfoldable pub tally_value : ℤ → Tally → Tally
tally_value (ℤ.negsuc n) t = t
tally_value (ℤ.pos zero) t = t
tally_value (ℤ.pos (suc n)) t = record t {
  value_sum_7d = t.value_sum_7d + suc n;
  value_samples = suc t.value_samples;
  value_max_7d = if ltb t.value_max_7d (suc n) then suc n else t.value_max_7d;
}

unfoldable pub tally_target : Bool → Option ℕ → Tally → Tally
tally_target success none t = t
tally_target success (some target) t =
    if success then record t { seen = add_target target t.seen } else t

unfoldable pub tally_time : Bool → Bool → Tally → Tally
tally_time recent success t =
    if recent
    then record t {
      action_count_24h = suc t.action_count_24h;
      failed_count_24h = if success then t.failed_count_24h else suc t.failed_count_24h;
    }
    else t

unfoldable pub tally_tool : String → Tally → Tally
tally_tool tool t =
    if str_eq tool "wallet_transfer_ownership" || str_eq tool "changeOwner"
    then record t { ever_changed_owner = true }
    else t

-- One round of the loop.
unfoldable pub tally_row : ℕ → ActionRow → Tally → Tally
unfolding tally_time tally_target tally_value tally_tool parse_value_wei extract_target
tally_row since_24h r t = tally_time (leb since_24h r.timestamp) r.success (
    tally_target r.success (extract_target r)
      (tally_value (parse_value_wei r) (tally_tool r.tool t)))

unfoldable pub tally_rows : ℕ → List ActionRow → Tally → Tally
unfolding tally_row
tally_rows since_24h [] t = t
tally_rows since_24h (r ∷ rows) t = tally_rows since_24h rows (tally_row since_24h r t)

-- `ORDER BY timestamp DESC`
unfoldable pub insert_newest : ActionRow → List ActionRow → List ActionRow
insert_newest r [] = r ∷ []
insert_newest r (x ∷ rows) =
    if ltb r.timestamp x.timestamp then x ∷ insert_newest r rows else r ∷ x ∷ rows

unfoldable pub newest_rows : List ActionRow → List ActionRow
unfolding insert_newest
newest_rows [] = []
newest_rows (r ∷ rows) = insert_newest r (newest_rows rows)

abbrev pub mean : ℕ → ℕ → ℕ
mean sum samples = if ltb 0 samples then sum / samples else 0

abbrev pub profile_of : ℕ → Tally → BehavioralProfile
profile_of row_count t = record {
  has_history = true;
  action_count_24h = t.action_count_24h;
  action_count_7d = row_count;
  failed_count_24h = t.failed_count_24h;
  value_mean_7d = some (mean t.value_sum_7d t.value_samples);
  value_max_7d = some t.value_max_7d;
  seen_targets = t.seen;
  ever_changed_owner = t.ever_changed_owner;
}

-- A time before the epoch is 0.
unfoldable pub recent_rows : (String → String) → String → ℕ → List ActionRow → List ActionRow
unfolding newest_rows
recent_rows to_lower_case wallet now rows = take 500 (
    newest_rows (
      keep
        (λ r.
          str_eq (to_lower_case r.wallet_address) (to_lower_case wallet)
          && leb (now - 7 * 86_400) r.timestamp)
        rows))

unfoldable pub profile_from : ℕ → List ActionRow → BehavioralProfile
unfolding tally_rows
profile_from now [] = empty_profile
profile_from now (r ∷ rows) =
    profile_of (length (r ∷ rows)) (tally_rows (now - 86_400) (r ∷ rows) no_tally)

unfoldable pub build_behavioral_profile :
    (String → String) → String → ℕ → List ActionRow → BehavioralProfile
unfolding recent_rows profile_from
build_behavioral_profile to_lower_case wallet now rows =
    if str_eq wallet ""
    then empty_profile
    else profile_from now (recent_rows to_lower_case wallet now rows)
