-- ===== src/Lib.antt =====
-- A verification library for five parts of this repository: the weighted treasury, which turns one
-- specification of owners, weights and budgets into an EVM configuration and a Squads plan, the Arc
-- subgraph, whose handlers index the job escrow, the evidence that the CRE workflows attest, the
-- grants of the wallets' session keys, and the agent.
--
-- The weighted treasury (packages/weighted-treasury/src), under Treasury:
--   Spec        spec.ts: owners, recipients, assets, and what a refusing function throws.
--   Validate    validate.ts: validateSpec, its loops as recursion on the lists with the sets of
--               what was seen. Owners, Assets, Valid and Sound hold the proofs.
--   Coalitions  coalitions.ts: isWinning and minimalWinningCoalitions, with masks as natural
--               numbers. The enumeration runs 2^n - 1 rounds, the popcount as many rounds as the
--               value, which its fall in each round makes enough. Bits, Masks, Descent and
--               Enumeration carry Cover, Irredundant and Order.
--   Evm         evm.ts: compileEvm, over any toLowerCase. Listed and Exact hold the proofs.
--   Squads      squads/compile.ts: compileSquads with its Map as an association list in insertion
--               order. Keys, Policies, Plan and Parity hold the proofs. Approvers has the set of
--               approvers that both sides read.
--   SdkArgs     squads/sdk-args.ts: a plan as the SDK's arguments, with decimal texts of the
--               numbers; a text of n is printed in at most n rounds. The two constructors of the
--               SDK's runtime are parameters, which give none where they throw, and so does what
--               uses them. Digits and ReadBack hold the proofs.
--   Judge       judge.ts: expectedSpendOutcome and timelockRemaining; Rule holds the proofs.
--   Encoding    encoding.ts: u256be, as four 64-bit limbs of big-endian bytes; RoundTrip.
-- validateSpec stands before both compilers, the judge is what the EVM side enforces, and Parity
-- joins the compiled plan with it, for a Squads program that enforces a spending-limit policy as
-- documented: the program is not in the repository, so it is a parameter. Strings are lists of
-- UTF-16 code units; a message is the values that it shows.
--
-- The Arc subgraph (packages/subgraph-arc), under Subgraph:
--   Table, Schema, Access   schema.graphql and the generated classes: a table per entity, kept under
--               the entity's own id, with load, save and remove. A loaded entity is a copy.
--   Runtime     src/shared/account.ts and timestamp.ts, and what graph-ts gives a handler: the
--               context, the conversion to i64, the hash, the views of a contract at a block. Those
--               are fields of Host, an argument of every handler.
--   Base64, Caip, Uri, Decimal   src/shared/base64.ts, caip.ts, uri.ts and isDecimalString of json.ts.
--               The encoder of Base64 is RFC 4648's; the decoder's loop takes four characters
--               a step. Kinds and Payloads hold the proofs on URIs.
--   Commerce    src/commerce: the escrow's entity, then Events (ids and records), Settlement
--               (settlement.ts and bufi/metrics.ts), Engagements (linkWorkspaces of job.ts,
--               bufi/engagement.ts and bufi/wallet-binding.ts), Jobs (the handlers of job.ts),
--               Payments and Admin. Each handler is a function from the store to the store.
--   Commerce's proofs: Frame says what the helpers leave alone, Moves has the relation that each
--               handler is shown to follow in Handled, Paid and Opened, Ledger, Growth and Balance
--               compare counts with sums over jobs, History and Settled take the sequence of all
--               events, Links treats engagements, wallets and repeated settlements.
--   Reputation  src/identity/reputation-registry.ts with the ids of agent.ts, registry.ts and
--               feedback.ts: Rating has handleNewFeedback, Revocation the other two handlers.
--               Counts, Counted, Handled, Ids and Kept carry History, which takes the sequence of
--               all events; Verified tells which ratings are verified. The document of a rating
--               and the decimals of graph-ts are arguments.
-- A handler's log lines are left out. Amounts that the handlers only add to are natural numbers,
-- since events carry unsigned values; counts that a revocation lowers are signed.
--
-- The agent (apps/agent/src), under AgentApp: State has state.ts, its schema and its conversions
-- between a state and its JSON value, generic in the bigints; RoundTrip and Deployments hold the
-- proofs. The text of the JSON value is not modelled.
--
-- The CRE evidence (packages/cre/src/evidence.ts), under Cre:
--   Checked     what a function returns or throws, and postconditions along a chain of checks.
--   Json        JSON values, String(value), JSON.stringify of a text, and stableStringify; Reordered
--               compares values whose members stand in another order.
--   Decimal     canonicalDecimal.
--   Reference   references, requiredReference and validateReference.
--   Token       createCreEvidenceToken and openCreEvidenceToken; the seal, the clock, the random
--               identifier and JSON.parse are arguments. Lifetime and RoundTrip hold the proofs.
--   Records, Commitments   the rows and the five builders, one module each, over a hash of a text;
--               Ready, Counted, Built and Sent hold the proofs.
--   Response    parseCreEvidenceCommitments; ReadBack and Sound hold the proofs.
-- The builders' results are what Response reads. A date is its milliseconds; an invalid date, and
-- values other than those of JSON and undefined, are left out.
--
-- The session keys (packages/modular-wallets-core/src), under Wallets:
--   Failures    what a builder returns or throws.
--   Grant       the grant of types/bufi.ts.
--   Updates     buildBufiGrant and the updates of permissionUpdates.ts, each standing for its ABI
--               encoding. Access has the permissions that updates leave for a contract and a selector,
--               as contracts/src/bufi/v0.7/session/permissions/SessionKeyPermissions.sol reads them,
--               and Exact compares them with the scope of the grant.
--   Presets     cascade/agentGrantPresets.ts; toFunctionSelector is an argument. Yield, Paying and
--               Buyer hold the proofs.
--   SpendFromYield  cascade/buildSpendFromYieldCalls.ts; a call carries the function and the
--               arguments that are encoded. Covered holds the proofs.
-- A bigint is a signed integer, and two addresses are the same when their lower cases are.
--
-- Not modelled: the subgraph's identity registry, its documents and its readers of JSON, the
-- contracts (in Solidity, but for the check of a call by the session key plugin; their answers are
-- parameters), the wallet clients, the mock chain, the web applications and the device transports.
-- Base has what all modules share: tests on numbers, lists, signed integers and texts.
pub mod Base
pub mod AgentApp
pub mod Cre
pub mod Subgraph
pub mod Treasury
pub mod Wallets
