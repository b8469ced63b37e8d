-- ===== src/Lib.antt =====
-- Verification of the AgentIX core (agentix/): the credential trees, the risk engine, the payment
-- vouchers, the owner's spending policy, policy rules, plans and the job scheduler.
--
-- The active tree of an organization keeps the commitments of its credentials under dense indices
-- of a sparse Merkle tree, whose roots go to the chain. The risk engine turns the facts of an
-- intent into signals of nine dimensions, and these into a score and a decision. The vouchers are
-- signed payments that the server checks, accepts once by their nonce, and settles in batches; the
-- gateway that it asks in between stands on the risk engine, and on the policy that the owner of a
-- wallet has signed. The gate before the bundler asks the session, that policy and the engine, and
-- passes on what they let through. Jobs that come later run under the scheduler.
--
--   Common       names of the libraries, Boolean tests, lists, JavaScript's Map, texts
--   Merkle       agentix/src/utils/merkle.ts. `insert_leaf`, `remove_leaf`, `get_proof` and
--                `load_leaves` are the methods of IncrementalMerkleTree, `verify_proof` is
--                verifyProof, `build_layers` (Merkle/Builder) is buildMerkleTreeImpl,
--                `get_raw_merkle_proof` (Merkle/Paths) is getRawMerkleProof.
--                Merkle/Spec says which leaves a tree stands for.
--   ActiveTree   agentix/src/trees/active-tree.ts. `add_leaf`, `remove_leaf_of` and
--                `get_proof_for_commitment` are addLeaf, removeLeaf and getProofForCommitment;
--                the rows that persistRoot writes are a field of the state.
--   Risk         agentix/packages/compiler/risk. Types is types/risk.ts, Input is context.ts,
--                Signals is signals.ts (one `assess_*` for each assessor), Scoring and Verdict are
--                scoring.ts, Engine is the part of engine.ts from the assembled input on,
--                Reputation is reputation.ts and how engine.ts asks it about the targets,
--                Calldata is calldata.ts, Addresses and Assembly are context.ts and the part of
--                engine.ts that assembles the input, History is history.ts.
--   BundlerGate  agentix/src/runtime/bundler-risk-gate.ts. `assess_bundler_op` is assessBundlerOp;
--                `GateWorld` has the tables that it reads and what else it asks for.
--   Vouchers     agentix/src/core/x402-voucher.ts. `verify_voucher` and `accept_voucher` are
--                verifyVoucher and acceptVoucher, Vouchers/Settlement is groupVouchersByWallet,
--                buildBatchCalldata and settleVoucherBatch, Vouchers/Signing is
--                signVoucher. Vouchers/Interleaving is the step relation of calls that overlap: an
--                await splits acceptVoucher into its check and its end. The tables that the code writes are fields of `Store`.
--   OwnerPolicy  agentix/src/core/owner-policy.ts. `check_policy` is checkPolicy, its branches in
--                `check_against`, `per_tx_verdict` and `daily_verdict`; OwnerPolicy/Setting is
--                setOwnerPolicy. OwnerPolicy/Spending is the step relation of a day's actions.
--   Scheduler    agentix/packages/scheduler/index.ts. Scheduler/Run is schedule and
--                _processJobs (`process_jobs`), Scheduler/Recurring is scheduleRecurring and
--                _processRecurring, Scheduler/Reading is getStatus and listJobs. A handler says what
--                its promise does and which calls of the scheduler other code makes meanwhile.
--   PolicyRules  agentix/packages/compiler, the rules of an intent: types/policy.ts,
--                pipeline/stage-5-policy-optimizer.ts (`optimize`), and in PolicyRules/Generator
--                pipeline/stage-4-policy-generator.ts. PolicyRules/Meaning says what rules permit.
--   Pipeline     agentix/packages/compiler/pipeline/index.ts (`compile`), stage-1-intent-parser.ts
--                (`parse`) and storage/compilation-cache.ts (`get_cached`, `set_cached`, `prune`);
--                Pipeline/Validation is stage-2-validator.ts and validation/identity-validator.ts,
--                and Pipeline/Validated what they let through.
--                The other stages are fields of `Stages`.
--   Gateway      agentix/src/compiler-gateway.ts. `execute_intent` is executeIntent,
--                `execute_plan_on_chain` is _executePlanOnChain, `log_row` is _logAction; Gateway/Day
--                is the relation of calls that follow each other.
--   Indexer      agentix/packages/indexer: dedup (`mark`, `is_duplicate`), storage/event-store.ts
--                (`append`, `query`), replay in Indexer/Replaying, and
--                storage/state-reconstructor.ts in Indexer/Tables. Indexer/Order says in which
--                order a query gives the log.
--   Plans        agentix/packages/compiler, the life cycle of a plan: types/execution-plan.ts,
--                pipeline/stage-10-plan-generator.ts and storage/plan-store.ts. `move` is the shape
--                that approve, reject, execute, complete and fail share.
--
-- State is passed explicitly: an operation takes the state and gives the new one. A thrown error
-- is `none` (or a `false` beside the state that it leaves behind). A bigint that the source never
-- lets go negative is a natural number. The loops over the levels of a tree recurse on the number
-- of levels left, which starts at the depth (20 for the active tree); the rounds of a
-- replay recurse on the number of blocks, which is enough; no loop runs on other fuel.
--
-- Parameters: the hash of two numbers (circomlibjs's Poseidon), of which nothing is assumed: where
-- security rests on it, a theorem gives a collision as the other case. JavaScript's fractions,
-- `Risk.Doubles`, with facts of IEEE 754 arithmetic. For the vouchers toLowerCase, BigInt,
-- verifyTypedData, signTypedData, the gateway's answer, the encoding of a transfer and the
-- bundler's answer. For the policy toLowerCase, BigInt, verifyMessage and the database's sum, of
-- which exactness up to 2^53 - 1 is assumed. For the scheduler JSON, the delay of a retry and the
-- handlers. All have concrete instances in the tests.
--
-- Not modelled: the sparse tree of revoked credentials and circomlibjs, SQL itself and the loading
-- of the trees from it, inserts that fail for want of a value, the timer of the scheduler, runs that
-- overlap and a negative maxAttempts, a score that is no number (NaN), texts for people, the prices
-- that the engine is given, the resolvers and the simulator of the compiler, the rest of the runtime,
-- the tools, the dashboard and the contracts.
pub mod Common
pub mod Merkle
pub mod ActiveTree
pub mod Risk
pub mod Vouchers
pub mod Scheduler
pub mod OwnerPolicy
pub mod PolicyRules
pub mod Plans
pub mod BundlerGate
pub mod Pipeline
pub mod Gateway
pub mod Indexer
