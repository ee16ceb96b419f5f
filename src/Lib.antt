-- ===== src/Lib.antt =====
-- omp-spec-kit: the graph kernel of specification documents and the multi-tenant service around it.
--
-- The kernel (src/kernel) reads specification documents into a graph: definitions with canonical IDs
-- become nodes, references between them become edges if the endpoint matrix allows them, and the
-- assembled state is checked for conservation. The service (src/service) serves such graphs to
-- callers: authentication makes a context of projects and a role, a request scope selects among these
-- projects only, the claim store leases a specification to one editor at a time, and the publisher tags
-- a version of a specification once and records it in the ledger of the service's store.
--
-- Prelude: text as UTF-16 code units (`Text`), lists, Boolean tests and results, with their lemmas.
-- Kernel.Types: the closed unions and tables of src/kernel/types.js.
-- Kernel.Identity: src/kernel/identity.js and the grammars of LOCAL_ID_ROLES; a regular expression is
--   the function that decides it. Proofs in Kernel.Identity.Grammar and Kernel.Identity.RoundTrip.
-- Kernel.Edges: src/kernel/graph/resolve-edges.js, `resolveReference` as `resolve_reference`; the maps
--   of its context are lookup functions. Proofs in Kernel.Edges.Sound and Kernel.Edges.Decided.
-- Kernel.Invariants: src/kernel/graph/invariants.js, `checkInvariants` as `check_invariants`; a message
--   is a violation. Proofs in Kernel.Invariants.Conservation.
-- Kernel.Limits: src/kernel/limits.js.
-- Kernel.Documents, Kernel.Remediations: further tables of src/kernel/types.js.
-- Kernel.Normalize: src/kernel/normalize.js on decoded text. Proofs in Kernel.Normalize.LineEndings.
-- Kernel.Gherkin: src/kernel/gherkin-syntax.js; the lines of a text are a list.
-- Kernel.Gherkin.Lines, Kernel.Gherkin.Scenarios, Kernel.Gherkin.Parser: src/kernel/parsers/gherkin.js,
--   `parseGherkinDocument` as a step for each line; a span is the number of its line. Proofs in
--   Kernel.Gherkin.Traces and Kernel.Gherkin.Parsed.
-- Kernel.Build.Names, Kernel.Build.Sources, Kernel.Build.Election: src/kernel/graph/build.js, its phases 1
--   and 3 and the counts of definitions. Proofs in Kernel.Build.Sources.Bounded,
--   Kernel.Build.Sources.Supported, Kernel.Build.Election.Assembled, Kernel.Build.Election.Counted and
--   Kernel.Build.Election.Elected.
-- Kernel.Roadmap: src/kernel/roadmap/assemble.js, the rendering and the merge in Kernel.Roadmap.Region.
--   Proofs in Kernel.Roadmap.Status, Kernel.Roadmap.Done and Kernel.Roadmap.Region.Merge.
-- Kernel.Diagnostics: src/kernel/diagnostics.js, `sortDiagnostics` as `sort_diagnostics`; the making of a
--   diagnostic is left out. Proofs in Kernel.Diagnostics.Sorted.
-- Kernel.Cursor: src/kernel/query/cursor.js; JSON, base64url and the digest are parameters.
-- Service.Scope: src/service/scope.js; what JavaScript hands over is a `Value`. Proofs in
--   Service.Scope.Isolation.
-- Service.Dispatch: `callTool` of src/service/dispatch.js up to the run of the operation, on the scopes of
--   Service.Scope. Proofs in Service.Dispatch.Gates.
-- Service.Store: the JSONL driver of src/service/ledger.js; an operation is a function on the state
--   object. Proofs in Service.Store.Ledger, Service.Store.Insertion, Service.Store.AccessLog and
--   Service.Store.Bindings.
-- Service.Store.Idps: the tables of identity providers of the same driver.
-- Service.Claims: src/service/claims.js on the store; the times that the code reads from the clock are
--   arguments. Proofs in Service.Claims.Table, Service.Claims.Lease, Service.Claims.Sweep and
--   Service.Claims.Expiry.
-- Service.Auth: src/service/auth.js and the scopes of src/service/tenants.js; the verdict of a provider
--   on a token is a parameter. Proofs in Service.Auth.Authority and Service.Auth.Providers.
-- Service.Branches: the branch names of src/service/spec-binding.js. Proofs in
--   Service.Branches.RoundTrip.
-- Service.Authored: `authoredField` of src/service/registry.js and the version grammar.
-- Service.Publish: `publishSpecNow` of src/service/publish.js; the git commands that the publisher is
--   given are a record over any repository state. Proofs in Service.Publish.Ledger,
--   Service.Publish.Targets, Service.Publish.Settled and Service.Publish.Tags.
-- Service.Publish.Projects: `publishProject` and `publishAll`, over listings that are given. Proofs in
--   Service.Publish.Projects.Reported.
-- Service.Projects: src/service/project-id.js and src/service/branch-policy.js. Proofs in
--   Service.Projects.Segments.
-- Service.Tenants: `parseTenants` of src/service/tenants.js.
-- Service.Drift: src/service/drift.js; the logs that git prints are arguments.
-- Service.Ports: `findAvailablePort` of src/tools/endpoint-alloc.js; the probe is a parameter.
-- Enforcement.Values, Enforcement.Selectors, Enforcement.Authority, Enforcement.Reasons,
--   Enforcement.Features, Enforcement.Classify: src/enforcement/classifier.js, `classifyToolCall` as
--   `classify_tool_call`. Proofs in Enforcement.Authority.Provenance, Enforcement.Reasons.Bound and
--   Enforcement.Classify.FailClosed.
-- Enforcement.Paths: src/enforcement/resolve-targets.js; the file system and the functions of
--   `node:path` are a record. Proofs in Enforcement.Paths.Ancestors and Enforcement.Paths.Decided.
-- Enforcement.Handler: src/enforcement/adapter.js and src/enforcement/project-binding.js. Proofs in
--   Enforcement.Handler.Selected.
-- The modules whose names end in Tests run the models at small inputs.
--
-- Times are natural numbers, and a row's time stands for its ISO text. Every recursion is on the
-- structure of a list but two.
-- Service.Ports counts the attempts that the code allows; Enforcement.Paths searches an ancestor of a
-- path on one unit of fuel more than the path is long, which is enough where the parent of an absolute
-- path is absolute and shorter, or the path itself.
--
-- Not modelled: reading and writing files, HTTP, the database statements of the SQLite driver, log
-- output, the parsers of Markdown, the references and generated nodes of the graph, graph queries and
-- authoring.
pub mod Prelude
pub mod Kernel
pub mod Service
pub mod Enforcement
