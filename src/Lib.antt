-- ===== src/Lib.antt =====
-- Enistere Foundation: a contract kernel, its compiler, the adapter protocol and the Engine that
-- writes generated files.
--
-- How the parts interact. Contract documents (kernel/contracts) are validated, digested and checked
-- for authority. The compiler (kernel/compiler) turns accepted documents into a System IR, a policy
-- report and an execution plan. An adapter (kernel/extensions) proposes artifacts for a component;
-- `planArtifacts` turns them into a plan. The Engine (engine/materializer) decides for every artifact
-- whether its file may be written, writes the component or refuses it, and records what it did in a
-- MaterializationRecord, whose latest revision is the ownership inventory of the next run.
--
-- Where each part is modelled:
--   Base: the JavaScript that the program relies on. Text: UTF-16 comparison and joining. Dict: `Map`.
--   Sorting: the stable `Array.sort`. Paths: Node's `path.resolve`. Patterns: regular expressions on words. Lists and Tests: array methods.
--   Contracts.Diagnostics: kernel/contracts/src/primitives/diagnostics.ts (`diagnostic`,
--   `sortDiagnostics`, `hasErrors`), its 112 codes in Codes, Registry and Names.
--   Contracts.Paths, Refs, Json, Digest, Checks: kernel/contracts/src/primitives/paths.ts, refs.ts,
--   canonical-json.ts, digest.ts, checks.ts.
--   Contracts.Types: kernel/contracts/src/types.ts, a module for each contract kind.
--   Contracts.Identity: kernel/contracts/src/identity.ts (`contentOf`, `contractDigest`, `pinnedRef`).
--   Contracts.Authority: kernel/contracts/src/authority.ts (`authorityDiagnostics`).
--   Contracts.Materialization: kernel/contracts/src/contracts/materialization-record.ts.
--   Contracts.Versioning: kernel/contracts/src/primitives/versioning.ts (`migrateToCurrent`).
--   Contracts.Decisions: kernel/contracts/src/contracts/decision-set.ts, the rules of A2.
--   Contracts.Domain: kernel/contracts/src/contracts/domain-contract.ts, the rules of A5.
--   Contracts.Baseline: kernel/contracts/src/contracts/requirement-baseline.ts, the rules of A1; Cycles
--   is the search for cycles of dependencies.
--   Contracts.System: kernel/contracts/src/contracts/system-definition.ts, the rules of A4; Cross is
--   `crossValidateSystemDefinition`.
--   Contracts.Change: kernel/contracts/src/contracts/change-request.ts, the rules of A6; Apply is
--   `applyChanges` over JSON data.
--   Contracts.Evidence: kernel/contracts/src/contracts/evidence-record.ts (`evidenceStaleness`).
--   Contracts.Context: kernel/contracts/src/contracts/effective-organization-context.ts
--   (`deriveEffectiveRules`).
--   Compiler.Catalog: kernel/compiler/src/catalog.ts; Input is `validateCatalog` over data.
--   Compiler.DomainIr: kernel/compiler/src/domain-ir.ts (`buildDomainIR`).
--   Compiler.Ir: kernel/compiler/src/ir.ts; Build is `buildSystemIR`.
--   Compiler.Resolve: kernel/compiler/src/resolve.ts (`resolveSystem`; its digest in Report).
--   Compiler.ApiContract: kernel/compiler/src/api-contract.ts; Document is the OpenAPI document.
--   Compiler.Policy: kernel/compiler/src/policy.ts (`expiredWaivers`); Catalog is its closed catalog of
--   rules, Evaluate is `evaluatePolicies`.
--   Compiler.Plan: kernel/compiler/src/plan.ts; Build is `planSystem`.
--   Extensions.Ownership: kernel/extensions/src/ownership.ts (`decideWrite`).
--   Extensions.Adapter: kernel/extensions/src/adapter.ts (`planArtifacts`).
--   Engine.Materialize: engine/materializer/src/materialize.ts, the records, decisions and writes.
--   Apply is the body of the loop of `materialize` and the loop; Planning is `planMaterialization`, the
--   waiver gate and `materialize` itself. The other modules below it are named for what they show.
--
-- State. A workspace is a map from component ids to directories; a directory is a map from paths below
-- it to contents, and the records of `.foundation/records` by file name. A call that throws is the
-- message of its error, without what it wrote before. Every loop of the modelled code but two is over
-- a list that it is given, so each is structural recursion. The loop of `migrateToCurrent` runs on
-- fuel, one more than there are migrations: it stops at a version that it visited before, so it
-- applies no migration twice. The search for cycles of dependencies runs on fuel, one more than there
-- are requirements: each visit below another marks one that had no mark.
--
-- Parameters. `sha256` is the hash of Node's crypto module, `date_parse` is the host's `Date.parse`
-- (none for NaN, the order of instants kept), the host is a map from ids to adapters, an adapter is
-- its identity and a pair of functions, either of which may throw, whose context is fixed for the run,
-- a migration is a function on documents, `to_index` is the host's `Number` on a segment of a path (none unless natural), and the
-- revision in force is a function of the contract's kind and identifier.
-- Nothing is assumed of any of them.
--
-- Not modelled: the `details` of diagnostics; the JSON text of stored records; a target that is a
-- directory, lies below a file or lies in `.foundation/records`; the parse of the definition's
-- reference, which `materialize` is given parsed; file permissions and other I/O errors; the extension host, the
-- verification of a workspace, the validation of A3 and A7, the rules of A9, the registry and the
-- contract set; members that an object has from its prototype only; of the compiler, the closure,
-- the design bindings and their tokens, the proof chain, the facade, and the digests of the Domain
-- IR, the System IR and the plan (a later phase is given the digest of an earlier one); the NestJS
-- adapter, the command line and the golden data.
pub mod Base
pub mod Contracts
pub mod Compiler
pub mod Extensions
pub mod Engine
