-- ===== src/Indexer/Replaying.antt =====
-- agentix/packages/indexer/replay/index.ts: the replay of the chain's history, block range by block
-- range and contract by contract.
use atf.Common.{
  ℕ, zero, suc, ◌+◌, ◌-◌, ◌≤◌, ◌&&◌, String, List, [], ◌∷◌, ◌++◌, min, leb, if◌then◌else◌, str_eq,
  ◌≡◌, arith, Bool-cases, inl, inr,
}
use atf.Indexer.{IndexerEvent, Deduplicator, DayFile, is_duplicate, mark, append}

pub record Checkpoint : Type 0 where
  pub contract_name : String
  pub last_block : ℕ

-- What a replay writes, and the events that it returns, the oldest first.
pub record ReplayState : Type 0 where
  pub seen : Deduplicator
  pub files : List DayFile
  pub checkpoints : List Checkpoint
  pub events : List IndexerEvent

-- `CheckpointStore.set`
unfoldable pub set_checkpoint : String → ℕ → List Checkpoint → List Checkpoint
set_checkpoint name block [] = record { contract_name = name; last_block = block } ∷ []
set_checkpoint name block (c ∷ checkpoints) =
    if str_eq c.contract_name name
    then record { contract_name = name; last_block = block } ∷ checkpoints
    else c ∷ set_checkpoint name block checkpoints

-- The rounds of the loop: each begins `batch` blocks after the one before.
unfoldable pub ranges : ℕ → ℕ → ℕ → ℕ → List (ℕ × ℕ)
ranges zero batch start current = []
ranges (suc fuel) batch start current =
    let rest = ranges fuel batch (start + batch) current in
    if leb start current then (start, min (start + batch - 1) current) ∷ rest else []

-- `fetch` is `_fetchEvents`, which gives no events where the chain does not answer.
module _ (key_of : String → ℕ → String) (file_of : ℕ → String)
    (fetch : String → String → ℕ → ℕ → List IndexerEvent) where
  unfoldable pub take_event : IndexerEvent → ReplayState → ReplayState
  unfolding is_duplicate mark append
  take_event e s =
      if is_duplicate key_of e.transaction_hash e.log_index s.seen then s else record s {
        events = s.events ++ e ∷ [];
        files = append file_of e s.files;
        seen = mark key_of e.transaction_hash e.log_index s.seen;
      }

  unfoldable pub take_events : List IndexerEvent → ReplayState → ReplayState
  unfolding take_event
  take_events [] s = s
  take_events (e ∷ events) s = take_events events (take_event e s)

  unfoldable pub scan_contract : ℕ → ℕ → String × String → ReplayState → ReplayState
  unfolding take_events set_checkpoint
  scan_contract from to (name, address) s =
      let taken = take_events (fetch name address from to) s in
      if str_eq address ""
      then s
      else record taken { checkpoints = set_checkpoint name to taken.checkpoints }

  unfoldable pub scan_contracts : ℕ → ℕ → List (String × String) → ReplayState → ReplayState
  unfolding scan_contract
  scan_contracts from to [] s = s
  scan_contracts from to (c ∷ contracts) s =
      scan_contracts from to contracts (scan_contract from to c s)

  unfoldable pub scan_ranges : List (ℕ × ℕ) → List (String × String) → ReplayState → ReplayState
  unfolding scan_contracts
  scan_ranges [] contracts s = s
  scan_ranges ((from, to) ∷ rounds) contracts s =
      scan_ranges rounds contracts (scan_contracts from to contracts s)

  -- `replay`, where the provider is there. There are as many rounds as blocks at most.
  unfoldable pub replay : ℕ → ℕ → ℕ → List (String × String) → ReplayState → ReplayState
  unfolding scan_ranges ranges
  replay batch from_block current [] s = s
  replay batch from_block current (c ∷ contracts) s =
      scan_ranges (ranges (suc current - from_block) batch from_block current) (c ∷ contracts) s

-- How many rounds a block lies in.
abbrev pub times_scanned : ℕ → List (ℕ × ℕ) → ℕ
times_scanned b [] = 0
times_scanned b ((from, to) ∷ rounds) =
    (if leb from b && leb b to then 1 else 0) + times_scanned b rounds

ranges-times_scanned :
    (fuel batch start current b : ℕ)
    → 1 ≤ batch
    → suc current ≤ fuel + start
    → times_scanned b (ranges fuel batch start current)
      ≡ (if leb start b && leb b current then 1 else 0)
unfolding ranges
ranges-times_scanned zero batch start current b some_blocks enough = ground (arith, enough)
ranges-times_scanned (suc fuel) batch start current b some_blocks enough =
    let rest =
      ranges-times_scanned fuel batch (start + batch) current b some_blocks
        (omega (arith, enough, some_blocks)) in
    elim (Bool-cases (leb start current)) [
      | inl more ↦ rw more (ground (arith, rest, more, some_blocks))
      | inr over ↦ rw over (ground (arith, over))
    ]

-- With batches of one block or more, the rounds of a replay take in each block from the first to the
-- current one once, and no other.
pub ranges_cover :
    (batch from_block current b : ℕ)
    → 1 ≤ batch
    → times_scanned b (ranges (suc current - from_block) batch from_block current)
      ≡ (if leb from_block b && leb b current then 1 else 0)
ranges_cover batch from_block current b some_blocks =
    ranges-times_scanned (suc current - from_block) batch from_block current b some_blocks
      (omega arith)
