-- ===== src/Indexer.antt =====
-- agentix/packages/indexer: the log of the chain's events (storage/event-store.ts), the memory of those
-- seen (dedup/index.ts), and the tables that are rebuilt from the log (storage/state-reconstructor.ts).
pub mod Seen
pub mod Replaying
pub mod Order
pub mod Tables
pub mod Rebuilding
mod Tests
use Prim.Native.String.{compare, ◌++◌ as append_text}
use Prim.Native.Nat.{Ordering}
use atf.Common.{
  ℕ, suc, zero, ◌/◌, ◌*◌, Bool, true, false, not, ◌&&◌, ◌||◌, Option, none, some, String, List, [],
  ◌∷◌, ◌++◌, keep, drop, length, includes, reverse, ltb, leb, ◌==◌, if◌then◌else◌, str_eq,
}

-- The arguments of an event that the tables take up; "" or 0 where an event has none of the name.
pub record EventArgs : Type 0 where
  pub wallet : String
  pub owner : String
  pub session_id : String
  pub session_key : String
  pub expiry : ℕ
  pub organization_id : String
  pub name : String
  pub credential_anchor : String
  pub capability_id : String
  pub action_hash : String
  pub delegator : String
  pub scope_hash : String
  pub expires_at : ℕ
  pub identity_id : ℕ

pub record IndexerEvent : Type 0 where
  pub block_number : ℕ
  pub transaction_hash : String
  pub log_index : ℕ
  pub contract_name : String
  pub event_name : String
  pub args : EventArgs
  pub timestamp : ℕ

-- `Deduplicator`, the keys in the order in which they were added.
pub record Deduplicator : Type 0 where
  pub seen : List String
  pub max_size : ℕ

unfoldable pub add_key : String → List String → List String
add_key key seen = if includes key seen then seen else seen ++ key ∷ []

-- `_evict`: the fifth part that is oldest
unfoldable pub evict : Deduplicator → Deduplicator
evict d = record d { seen = drop (d.max_size / 5) d.seen }

-- `key_of` is `_key`.
unfoldable pub is_duplicate : (String → ℕ → String) → String → ℕ → Deduplicator → Bool
is_duplicate key_of tx_hash log_index d = includes (key_of tx_hash log_index) d.seen

unfoldable pub mark : (String → ℕ → String) → String → ℕ → Deduplicator → Deduplicator
unfolding add_key evict
mark key_of tx_hash log_index d =
    let room = if leb d.max_size (length d.seen) then evict d else d in
    record room { seen = add_key (key_of tx_hash log_index) room.seen }

-- A file of a day: its name, and its lines, `none` where one is no event.
pub record DayFile : Type 0 where
  pub name : String
  pub lines : List (Option IndexerEvent)

comes_before : String → String → Bool
comes_before a b = elim (compare a b) [ Ordering.lt ↦ true | _ ↦ false ]

-- The files in the order of their names.
unfoldable pub append : (ℕ → String) → IndexerEvent → List DayFile → List DayFile
unfolding comes_before
append file_of event [] = record { name = file_of event.timestamp; lines = some event ∷ [] } ∷ []
append file_of event (f ∷ files) =
    if str_eq f.name (file_of event.timestamp)
    then record f { lines = f.lines ++ some event ∷ [] } ∷ files
    else if comes_before (file_of event.timestamp) f.name
    then record { name = file_of event.timestamp; lines = some event ∷ [] } ∷ f ∷ files
    else f ∷ append file_of event files

-- 0 or "" where a field is absent.
pub record EventFilter : Type 0 where
  pub contract_name : String
  pub event_name : String
  pub from_block : ℕ
  pub to_block : ℕ
  pub limit : ℕ

unfoldable pub matches : EventFilter → IndexerEvent → Bool
matches f e =
    ((str_eq f.contract_name "" || str_eq e.contract_name f.contract_name)
      && (str_eq f.event_name "" || str_eq e.event_name f.event_name))
    && ((f.from_block == 0 || not (ltb e.block_number f.from_block))
        && (f.to_block == 0 || not (ltb f.to_block e.block_number)))

-- The lines that match, up to the number that is left.
unfoldable pub collect : EventFilter → ℕ → List (Option IndexerEvent) → List IndexerEvent
unfolding matches
collect f left [] = []
collect f zero (l ∷ lines) = []
collect f (suc left) (none ∷ lines) = collect f (suc left) lines
collect f (suc left) (some e ∷ lines) =
    let found = collect f left lines in
    let others = collect f (suc left) lines in if matches f e then e ∷ found else others

-- The newest day first, and of each day the last line first.
unfoldable pub newest_first : List DayFile → List (Option IndexerEvent)
newest_first [] = []
newest_first (f ∷ files) = newest_first files ++ reverse f.lines

unfoldable pub query : EventFilter → List DayFile → List IndexerEvent
unfolding collect newest_first
query f files = collect f (if f.limit == 0 then 1_000 else f.limit) (newest_first files)

unfoldable pub query_in_range : ℕ → ℕ → String → List DayFile → List IndexerEvent
unfolding query
query_in_range from_block to_block contract_name files =
    query
      (record {
        contract_name = contract_name;
        event_name = "";
        from_block = from_block;
        to_block = to_block;
        limit = 100_000;
      })
      files
