-- ===== src/Indexer/Tests.antt =====
-- Runs of the indexer: a memory of five keys, eleven blocks by fours, and a session that is revoked and
-- rebuilt.
use atf.Common.{ℕ, suc, ◌-◌, String, some, List, [], ◌∷◌, refl, ◌≡◌, arith}
use atf.Indexer.{EventArgs, IndexerEvent, Deduplicator, DayFile}
use atf.Indexer.Replaying.{ranges, times_scanned, ranges_cover}
use atf.Indexer.Tables.{Tables, rebuild_all}
use atf.Indexer.Rebuilding.{IsOpenSession, rebuild_all-revives}

abbrev key_of : String → ℕ → String
key_of tx_hash log_index = tx_hash

abbrev full : Deduplicator
full = record { seen = "a" ∷ "b" ∷ "c" ∷ "d" ∷ "e" ∷ []; max_size = 5 }

ranges_cover_example : times_scanned 7 (ranges (suc 12 - 2) 4 2 12) ≡ 1
ranges_cover_example = ranges_cover 4 2 12 7 (omega arith)

abbrev args : EventArgs
args = record {
  wallet = "0xa";
  owner = "0xowner";
  session_id = "s";
  session_key = "0xkey";
  expiry = 900;
  organization_id = "";
  name = "";
  credential_anchor = "";
  capability_id = "";
  action_hash = "";
  delegator = "";
  scope_hash = "";
  expires_at = 0;
  identity_id = 0;
}

abbrev event : ℕ → String → IndexerEvent
event block name = record {
  block_number = block;
  transaction_hash = "0xt";
  log_index = 0;
  contract_name = "SessionManager";
  event_name = name;
  args = args;
  timestamp = 5;
}

abbrev log : List DayFile
log =
    record {
      name = "2026-01-01.jsonl";
      lines = some (event 1 "SessionCreated") ∷ some (event 2 "SessionRevoked") ∷ [];
    }
    ∷ []

abbrev nothing : Tables
nothing = record {
  wallets = [];
  sessions = [];
  organizations = [];
  capabilities = [];
  delegations = [];
  identities = [];
}

rebuild_all-revives_example : IsOpenSession "s" (rebuild_all log nothing).sessions
rebuild_all-revives_example =
    rebuild_all-revives log nothing [] (event 2 "SessionRevoked" ∷ []) (event 1 "SessionCreated")
      refl (omega arith) refl refl refl
