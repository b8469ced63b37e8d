-- ===== src/BundlerGate/Attestation.antt =====
-- agentix/src/runtime/bundler-risk-gate.ts: which attestations count as the owner's.
use atf.Common.{
  true, false, not, ◌&&◌, Option, none, some, String, List, str_eq, str_eq_iff, ◌≡◌, ◌≢◌, ◌↔◌, inl,
  inr, refl, sym, ◌∙◌, ap, Bool-cases, and_left, and_right, and_both,
}
use mathlib.Core.Option.{some-injective}
use atf.Risk.Doubles.{Doubles}
use atf.OwnerPolicy.{PolicyHost, Wallet}
use atf.BundlerGate.{
  UserOp, StepUp, GateHost, GateWorld, owner_of, same_signer, attested_by, verify_owner_attestation,
  stepped_up,
}

-- The owner that the table has for the wallet has signed the hash that the caller gives.
abbrev pub IsAttested : GateHost → String → StepUp → List Wallet → Type 0
IsAttested host wallet step_up wallets =
    (step_up.attestation ≢ "")
    × (step_up.user_op_hash ≢ "")
    × ((owner : String) × (signer : String) × (owner_of wallet wallets ≡ some owner)
        × (owner ≢ "")
        × (host.verify_bytes step_up.user_op_hash step_up.attestation ≡ some signer)
        × (host.policy.to_lower_case signer ≡ host.policy.to_lower_case owner))

same_signer-true :
    (host : PolicyHost) (owner : String) (recovered : Option String)
    → (same_signer host owner recovered ≡ true) ↔ (
        (signer : String) × (recovered ≡ some signer)
        × (host.to_lower_case signer ≡ host.to_lower_case owner))
unfolding same_signer
same_signer-true host owner none =
    (λ h. let wrong : false ≡ true = h in cc, λ h. let wrong = h.1 in cc)
same_signer-true host owner (some signer) = (
  λ h. (signer, refl, (str_eq_iff _ _).0 h),
  λ h. (str_eq_iff _ _).1 (ap host.to_lower_case (some-injective signer h.0 h.1) ∙ h.2),
)

differs : (a b : String) → (not (str_eq a b) ≡ true) ↔ (a ≢ b)
differs a b = (
  λ h p. let same = (str_eq_iff a b).1 p in let wrong : false ≡ true = rw same at h in cc,
  λ h. elim (Bool-cases (str_eq a b)) [
    | inl same ↦ absurd (h ((str_eq_iff a b).0 same))
    | inr other ↦ rw other refl
  ],
)

attested_by-true :
    (host : GateHost) (step_up : StepUp) (found : Option String)
    → (attested_by host step_up found ≡ true) ↔ (
        (owner : String) × (signer : String) × (found ≡ some owner)
        × (owner ≢ "")
        × (host.verify_bytes step_up.user_op_hash step_up.attestation ≡ some signer)
        × (host.policy.to_lower_case signer ≡ host.policy.to_lower_case owner))
unfolding attested_by
attested_by-true host step_up none =
    (λ h. let wrong : false ≡ true = h in cc, λ h. let wrong = h.2 in cc)
attested_by-true host step_up (some owner) =
    let (signs, signed) =
      same_signer-true host.policy owner
        (host.verify_bytes step_up.user_op_hash step_up.attestation) in
    (
      λ h.
          let (signer, read, same) = signs (and_right (not (str_eq owner "")) _ h) in
          (owner, signer, refl, (differs owner "").0 (and_left _ _ h), read, same),
      λ (o, signer, is, named, read, same).
          let one : owner ≡ o = some-injective owner o is in
          and_both _ _ ((differs owner "").1 (λ p. named (sym one ∙ p)))
            (signed (signer, read, same ∙ ap host.policy.to_lower_case (sym one))),
    )

module _ (dbl : Doubles) (host : GateHost) (world : GateWorld dbl) where
  pub stepped_up-true :
      (op : UserOp) (step_up : StepUp)
      → (stepped_up dbl host world op step_up ≡ true)
        ↔ IsAttested host op.sender step_up world.wallets
  unfolding stepped_up verify_owner_attestation
  stepped_up-true op step_up =
      let (attests, attested) = attested_by-true host step_up (owner_of op.sender world.wallets) in
      (
        λ h.
            let given =
              and_left _ (verify_owner_attestation host op.sender step_up world.wallets) h in
            (
              (differs step_up.attestation "").0 (and_left _ _ given),
              (differs step_up.user_op_hash "").0
                  (and_right (not (str_eq step_up.attestation "")) _ given),
              attests (
                  and_right
                    (not (str_eq step_up.attestation "") && not (str_eq step_up.user_op_hash "")) _
                    h),
            ),
        λ (signed, hashed, owned).
            and_both _ _
              (and_both _ _ ((differs step_up.attestation "").1 signed)
                ((differs step_up.user_op_hash "").1 hashed))
              (attested owned),
      )
