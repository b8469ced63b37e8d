-- ===== src/Pipeline/Validated.antt =====
-- agentix/packages/compiler/pipeline/stage-2-validator.ts: what an intent without errors satisfies.
use atf.Common.{
  ℕ, ◌≤◌, ◌<◌, Bool, true, false, not, ◌&&◌, ◌||◌, Option, none, some, String, List, [], ◌∷◌, ◌++◌,
  ltb, ◌==◌, is_some, if◌then◌else◌, str_eq, text_or, ◌⊎◌, inl, inr, ◌≡◌, refl, arith, every,
  str_eq_iff, Bool-cases, and_left, and_right,
}
use mathlib.Core.Option.{some-injective}
use mathlib.Core.Path.{subst}
use mathlib.Core.List.{Mem, mem-cons_self, mem-cons_of_mem}
use atf.Risk.Addresses.{address_of}
use atf.Pipeline.{CallParams, CompilerContext, IntentIr, CompilerError}
use atf.Pipeline.Validation.{
  GivenTexts, IdentityRow, OrganizationRow, SessionState, Registry, is_identity_active,
  organization_errors, stored_session, is_live, is_session_valid, extract_given, error_unless,
  target_errors, agent_errors, validate_intent,
}

append_empty : {A : Type 0} (xs ys : List A) → xs ++ ys ≡ [] → (xs ≡ []) × (ys ≡ [])
append_empty [] ys h = (refl, h)
append_empty (x ∷ xs) ys h = cc

no_error : (fine : Bool) (e : CompilerError) → error_unless fine e ≡ [] → fine ≡ true
no_error true e h = refl
no_error false e h = cc

or_true : (a b : Bool) → (a || b) ≡ true → (a ≡ true) ⊎ (b ≡ true)
or_true true b h = inl refl
or_true false b h = inr h

target_errors-every :
    (texts : List String)
    → target_errors texts ≡ []
    → every (λ text. is_some (address_of text)) texts ≡ true
unfolding target_errors
target_errors-every [] h = refl
target_errors-every (text ∷ texts) h =
    let (first, later) = append_empty (error_unless (is_some (address_of text)) _) _ h in
    let here = no_error (is_some (address_of text)) _ first in
    rw here (target_errors-every texts later)

is_identity_active-row :
    (id : ℕ) (rows : List IdentityRow)
    → is_identity_active id rows ≡ true
    → (r : IdentityRow) × Mem r rows × (r.identity_id ≡ id) × (r.active ≡ true)
unfolding is_identity_active
is_identity_active-row id [] h = let wrong : false ≡ true = h in cc
is_identity_active-row id (r ∷ rows) h = elim (Bool-cases (r.identity_id == id)) [
  | inl same ↦ (r, mem-cons_self, ground (arith, same), rw same at h)
  | inr other ↦
      let (s, among, its, active) = is_identity_active-row id rows (rw other at h) in
      (s, mem-cons_of_mem r among, its, active)
]

organization_errors-row :
    (id : String) (rows : List OrganizationRow)
    → organization_errors id rows ≡ []
    → (r : OrganizationRow) × Mem r rows × (r.id ≡ id) × (r.active ≡ true)
unfolding organization_errors
organization_errors-row id [] h = cc
organization_errors-row id (r ∷ rows) h = elim (Bool-cases (str_eq r.id id)) [
  | inl same ↦ (
    r,
    mem-cons_self,
    (str_eq_iff r.id id).0 same,
    no_error r.active CompilerError.inactive_organization (rw same at h),
  )
  | inr other ↦
      let (s, among, its, active) = organization_errors-row id rows (rw other at h) in
      (s, mem-cons_of_mem r among, its, active)
]

stored_session-row :
    (id : String) (rows : List SessionState) (found : SessionState)
    → stored_session id rows ≡ some found
    → Mem found rows × (found.session_id ≡ id)
unfolding stored_session
stored_session-row id [] found h = cc
stored_session-row id (r ∷ rows) found h = elim (Bool-cases (str_eq r.session_id id)) [
  | inl same ↦
      let is : r ≡ found = some-injective r found (rw same at h) in
      subst (λ x. Mem x (r ∷ rows) × (x.session_id ≡ id)) is
        (mem-cons_self, (str_eq_iff r.session_id id).0 same)
  | inr other ↦
      let (among, its) = stored_session-row id rows found (rw other at h) in
      (mem-cons_of_mem r among, its)
]

unexpired :
    (expiry now : ℕ)
    → not (not (expiry == 0) && ltb expiry now) ≡ true
    → (expiry ≡ 0) ⊎ (now ≤ expiry)
unexpired expiry now h = ground (arith, h)

is_live-row :
    (now : ℕ) (found : Option SessionState)
    → is_live now found ≡ true
    → (r : SessionState) × (found ≡ some r)
      × (r.revoked ≡ false)
      × ((r.expiry ≡ 0) ⊎ (now ≤ r.expiry))
unfolding is_live
is_live-row now none h = let wrong : false ≡ true = h in cc
is_live-row now (some r) h = (
  r,
  refl,
  ground (arith, and_left (not r.revoked) _ h),
  unexpired r.expiry now (and_right (not r.revoked) _ h),
)

module _ (Rest : Type 0) (schema_holds : String → CallParams Rest → Bool)
    (given_texts : Rest → GivenTexts) (registry : Registry) (now : ℕ) where
  abbrev pub IsValidated : IntentIr Rest → CompilerContext → Type 0
  IsValidated intent context =
      (schema_holds intent.normalized_action intent.params ≡ true)
      × ((intent.params.agent_identity ≡ 0)
          ⊎ ((r : IdentityRow) × Mem r registry.identities
              × (r.identity_id ≡ intent.params.agent_identity)
              × (r.active ≡ true)))
      × ((intent.params.agent_wallet ≡ "")
          ⊎ (is_some (address_of intent.params.agent_wallet) ≡ true))
      × ((intent.params.organization_id ≡ "")
          ⊎ ((r : OrganizationRow) × Mem r registry.organizations
              × (r.id ≡ intent.params.organization_id)
              × (r.active ≡ true)))
      × ((text_or intent.params.session_id context.session_id ≡ "")
          ⊎ ((r : SessionState) × Mem r registry.sessions
              × (r.session_id ≡ text_or intent.params.session_id context.session_id)
              × (r.revoked ≡ false)
              × ((r.expiry ≡ 0) ⊎ (now ≤ r.expiry))))
      × (every (λ text. is_some (address_of text)) (extract_given (given_texts intent.params.rest))
          ≡ true)
      × ((intent.params.expiry ≡ 0) ⊎ (now < intent.params.expiry))

  -- If the validator finds no error, the intent fits its schema. The registry has an active row of the
  -- identity and one of the organization, where the intent names them, and of the session that it or the
  -- context names a row that is neither revoked nor past its expiry. The agent's wallet, where there is
  -- one, and the texts that should name addresses do name them, and the intent's own expiry, where it has
  -- one, is to come.
  pub validate_intent-IsValidated :
      (intent : IntentIr Rest) (context : CompilerContext)
      → validate_intent Rest schema_holds given_texts registry now intent context ≡ []
      → IsValidated intent context
  unfolding validate_intent agent_errors is_session_valid
  validate_intent-IsValidated intent context h =
      let p = intent.params in
      let session_text = text_or p.session_id context.session_id in
      let known = p.agent_identity == 0 in
      let active = is_identity_active p.agent_identity registry.identities in
      let payable = str_eq p.agent_wallet "" || is_some (address_of p.agent_wallet) in
      let live = is_session_valid session_text now registry.sessions in
      let timely = p.expiry == 0 || ltb now p.expiry in
      let (schema, h1) =
        append_empty
          (error_unless (schema_holds intent.normalized_action p) CompilerError.bad_schema) _ h in
      let (agent, h2) =
        append_empty (agent_errors Rest schema_holds given_texts registry now p) _ h1 in
      let (organization, h3) =
        append_empty
          (if str_eq p.organization_id ""
            then []
            else organization_errors p.organization_id registry.organizations)
          _ h2 in
      let (session, h4) =
        append_empty (error_unless (str_eq session_text "" || live) CompilerError.bad_session) _
          h3 in
      let (targets, expiry) =
        append_empty (target_errors (extract_given (given_texts p.rest)))
          (error_unless timely CompilerError.past_expiry) h4 in
      let (identity, wallet) =
        append_empty (error_unless (known || active) CompilerError.inactive_identity)
          (error_unless payable CompilerError.bad_agent_wallet) agent in
      (
        no_error (schema_holds intent.normalized_action p) _ schema,
        elim (or_true known active (no_error (known || active) _ identity)) [
          | inl zero_identity ↦ inl (ground (arith, zero_identity))
          | inr is_active ↦
              inr (is_identity_active-row p.agent_identity registry.identities is_active)
        ],
        elim (or_true (str_eq p.agent_wallet "") (is_some (address_of p.agent_wallet))
            (no_error payable _ wallet)) [
              | inl absent ↦ inl ((str_eq_iff p.agent_wallet "").0 absent)
              | inr address ↦ inr address
            ],
        elim (Bool-cases (str_eq p.organization_id "")) [
          | inl absent ↦ inl ((str_eq_iff p.organization_id "").0 absent)
          | inr named ↦ inr (
              organization_errors-row p.organization_id registry.organizations
                (rw named at organization))
        ],
        elim (or_true (str_eq session_text "") live
            (no_error (str_eq session_text "" || live) _ session)) [
              | inl absent ↦ inl ((str_eq_iff session_text "").0 absent)
              | inr is_valid ↦
                  let (r, found, good, fresh) =
                    is_live-row now (stored_session session_text registry.sessions) is_valid in
                  let (among, its) = stored_session-row session_text registry.sessions r found in
                  inr (r, among, its, good, fresh)
            ],
        target_errors-every (extract_given (given_texts p.rest)) targets,
        elim (or_true (p.expiry == 0) (ltb now p.expiry) (no_error timely _ expiry)) [
          | inl zero_expiry ↦ inl (ground (arith, zero_expiry))
          | inr later ↦ inr (ground (arith, later))
        ],
      )
