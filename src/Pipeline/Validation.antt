-- ===== src/Pipeline/Validation.antt =====
-- agentix/packages/compiler/pipeline/stage-2-validator.ts and validation/identity-validator.ts: the checks
-- of an intent before it is compiled.
use atf.Common.{
  ℕ, Bool, false, not, ◌&&◌, ◌||◌, Option, none, some, String, List, [], ◌∷◌, ◌++◌, ltb, ◌==◌,
  is_some, if◌then◌else◌, str_eq, text_or,
}
use atf.Risk.Addresses.{address_of}
use atf.Pipeline.{CallParams, CompilerContext, IntentIr, CompilerError}

-- The texts of the parameters that should name addresses, where they are texts.
pub record GivenTexts : Type 0 where
  pub target : Option String
  pub targets : List String
  pub recipient : Option String
  pub delegatee : Option String
  pub owner_address : Option String
  pub wallet_address : Option String

pub record IdentityRow : Type 0 where
  pub identity_id : ℕ
  pub active : Bool

pub record OrganizationRow : Type 0 where
  pub id : String
  pub active : Bool

pub record SessionState : Type 0 where
  pub session_id : String
  pub revoked : Bool
  pub expiry : ℕ

pub record Registry : Type 0 where
  pub identities : List IdentityRow
  pub organizations : List OrganizationRow
  pub sessions : List SessionState

unfoldable pub is_identity_active : ℕ → List IdentityRow → Bool
is_identity_active id [] = false
is_identity_active id (r ∷ rows) =
    if r.identity_id == id then r.active else is_identity_active id rows

unfoldable pub organization_errors : String → List OrganizationRow → List CompilerError
organization_errors id [] = CompilerError.unknown_organization ∷ []
organization_errors id (r ∷ rows) =
    if str_eq r.id id
    then (if r.active then [] else CompilerError.inactive_organization ∷ [])
    else organization_errors id rows

unfoldable pub stored_session : String → List SessionState → Option SessionState
stored_session id [] = none
stored_session id (r ∷ rows) = if str_eq r.session_id id then some r else stored_session id rows

unfoldable pub is_live : ℕ → Option SessionState → Bool
is_live now none = false
is_live now (some r) = not r.revoked && not (not (r.expiry == 0) && ltb r.expiry now)

-- `checkSessionValid`
unfoldable pub is_session_valid : String → ℕ → List SessionState → Bool
unfolding stored_session is_live
is_session_valid id now rows = is_live now (stored_session id rows)

abbrev given : Option String → List String
given none = []
given (some text) = text ∷ []

-- `_extractTargets`; `intent.targets` are those of the parameters, and that a text stands twice makes
-- no difference to whether there are errors.
abbrev pub extract_given : GivenTexts → List String
extract_given g =
    g.targets
    ++ given g.target
    ++ given g.recipient
    ++ given g.delegatee
    ++ given g.owner_address
    ++ given g.wallet_address

abbrev pub error_unless : Bool → CompilerError → List CompilerError
error_unless fine e = if fine then [] else e ∷ []

unfoldable pub target_errors : List String → List CompilerError
target_errors [] = []
target_errors (text ∷ texts) =
    error_unless (is_some (address_of text)) CompilerError.bad_target ++ target_errors texts

module _ (Rest : Type 0) (schema_holds : String → CallParams Rest → Bool)
    (given_texts : Rest → GivenTexts) (registry : Registry) (now : ℕ) where
  unfoldable pub agent_errors : CallParams Rest → List CompilerError
  unfolding is_identity_active
  agent_errors p =
      error_unless
        (p.agent_identity == 0 || is_identity_active p.agent_identity registry.identities)
        CompilerError.inactive_identity
      ++ error_unless (str_eq p.agent_wallet "" || is_some (address_of p.agent_wallet))
          CompilerError.bad_agent_wallet

  -- `IntentValidator.validate`; the errors of the schema count as one.
  unfoldable pub validate_intent : IntentIr Rest → CompilerContext → List CompilerError
  unfolding agent_errors organization_errors is_session_valid target_errors
  validate_intent intent context =
      let p = intent.params in
      let session = text_or p.session_id context.session_id in
      error_unless (schema_holds intent.normalized_action p) CompilerError.bad_schema
      ++ (agent_errors p
          ++ ((if str_eq p.organization_id ""
                then []
                else organization_errors p.organization_id registry.organizations)
              ++ (error_unless (str_eq session "" || is_session_valid session now registry.sessions)
                    CompilerError.bad_session
                  ++ (target_errors (extract_given (given_texts p.rest))
                      ++ error_unless (p.expiry == 0 || ltb now p.expiry)
                          CompilerError.past_expiry))))
