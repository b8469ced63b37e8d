-- ===== src/Indexer/Tables.antt =====
-- agentix/packages/indexer/storage/state-reconstructor.ts: the tables, and how the log's events write them.
use atf.Common.{
  ℕ, Bool, true, false, not, ◌&&◌, String, List, [], ◌∷◌, ◌++◌, keep, map, ◌==◌, if◌then◌else◌,
  str_eq,
}
use atf.Indexer.{EventArgs, IndexerEvent, DayFile, query_in_range}

pub record WalletEntry : Type 0 where
  pub wallet_address : String
  pub owner_address : String

pub record SessionEntry : Type 0 where
  pub session_id : String
  pub wallet_address : String
  pub session_key : String
  pub expiry : ℕ
  pub revoked : Bool

pub record OrganizationEntry : Type 0 where
  pub id : String
  pub name : String
  pub owner_address : String
  pub credential_anchor : String
  pub active : Bool

pub record CapabilityEntry : Type 0 where
  pub capability_id : String
  pub hash : String

pub record DelegationEntry : Type 0 where
  pub delegator : String
  pub scope : String
  pub expiry : ℕ

pub record IdentityEntry : Type 0 where
  pub identity_id : ℕ
  pub wallet_address : String

pub record Tables : Type 0 where
  pub wallets : List WalletEntry
  pub sessions : List SessionEntry
  pub organizations : List OrganizationEntry
  pub capabilities : List CapabilityEntry
  pub delegations : List DelegationEntry
  pub identities : List IdentityEntry

-- `INSERT OR REPLACE`: the rows that the test holds of go.
abbrev pub replace_row : {R : Type 0} → (R → Bool) → R → List R → List R
replace_row same row rows = keep (λ r. not (same r)) rows ++ row ∷ []

-- A row that is created is not revoked.
unfoldable pub session_created : EventArgs → List SessionEntry → List SessionEntry
session_created args rows =
    replace_row (λ r. str_eq r.session_id args.session_id)
      (record {
        session_id = args.session_id;
        wallet_address = args.wallet;
        session_key = args.session_key;
        expiry = args.expiry;
        revoked = false;
      })
      rows

unfoldable pub session_revoked : EventArgs → List SessionEntry → List SessionEntry
session_revoked args rows =
    map (λ r. if str_eq r.session_id args.session_id then record r { revoked = true } else r) rows

unfoldable pub organization_registered : EventArgs → List OrganizationEntry → List OrganizationEntry
organization_registered args rows =
    replace_row (λ r. str_eq r.id args.organization_id)
      (record {
        id = args.organization_id;
        name = args.name;
        owner_address = args.owner;
        credential_anchor = args.credential_anchor;
        active = true;
      })
      rows

unfoldable pub organization_deactivated :
    EventArgs → List OrganizationEntry → List OrganizationEntry
organization_deactivated args rows =
    map (λ r. if str_eq r.id args.organization_id then record r { active = false } else r) rows

-- `rebuilders[event.eventName]`, for events that have the arguments which their table wants: an INSERT
-- without one fails and is passed over, which is not modelled.
unfoldable pub rebuild_event : IndexerEvent → Tables → Tables
unfolding session_created session_revoked organization_registered organization_deactivated
rebuild_event e t =
    if str_eq e.event_name "WalletCreated"
    then record t {
      wallets =
          replace_row (λ r. str_eq r.wallet_address e.args.wallet)
            (record { wallet_address = e.args.wallet; owner_address = e.args.owner }) t.wallets;
    }
    else if str_eq e.event_name "SessionCreated"
    then record t { sessions = session_created e.args t.sessions }
    else if str_eq e.event_name "SessionRevoked"
    then record t { sessions = session_revoked e.args t.sessions }
    else if str_eq e.event_name "OrganizationRegistered"
    then record t { organizations = organization_registered e.args t.organizations }
    else if str_eq e.event_name "OrganizationDeactivated"
    then record t { organizations = organization_deactivated e.args t.organizations }
    else if str_eq e.event_name "CapabilityRegistered"
    then record t {
      capabilities =
          replace_row (λ r. str_eq r.capability_id e.args.capability_id)
            (record { capability_id = e.args.capability_id; hash = e.args.action_hash })
            t.capabilities;
    }
    else if str_eq e.event_name "DelegationRootUpdated"
    then record t {
      delegations =
          replace_row (λ r. str_eq r.delegator e.args.delegator && str_eq r.scope e.args.scope_hash)
            (record {
              delegator = e.args.delegator;
              scope = e.args.scope_hash;
              expiry = e.args.expires_at;
            })
            t.delegations;
    }
    else if str_eq e.event_name "IdentityRegistered"
    then record t {
      identities =
          replace_row (λ r. r.identity_id == e.args.identity_id)
            (record { identity_id = e.args.identity_id; wallet_address = e.args.wallet })
            t.identities;
    }
    else t

unfoldable pub rebuild_events : List IndexerEvent → Tables → Tables
unfolding rebuild_event
rebuild_events [] t = t
rebuild_events (e ∷ events) t = rebuild_events events (rebuild_event e t)

-- `rebuildAll`, with the events as the log gives them
unfoldable pub rebuild_all : List DayFile → Tables → Tables
unfolding query_in_range rebuild_events
rebuild_all files t = rebuild_events (query_in_range 0 999_999_999 "" files) t
