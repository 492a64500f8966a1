-- ===== src/Lib.antt =====
-- A model of the core of Hulumi, a TypeScript library of hardened infrastructure components, and
-- the theorems that make it correct.
--
-- The parts. `Drift` is the drift classifier of packages/drift/src: `DriftClassifier.classify`
-- asks four adapters and a probe what changed a resource, concludes a source and a confidence,
-- and keeps the verdict in a cache of files. `Cidr` is
-- packages/k8s-baseline/src/cidr-coverage.ts, by which the components and the policies refuse an
-- allow list that opens an address family. `NodeLabel` is
-- packages/k8s-baseline/src/trusted-node-label-reconciler-core.ts, which decides whether a node
-- of a cluster gets, keeps or loses a protected label. `Upgrade` is
-- packages/k8s-baseline/src/eks-upgrade-planner.ts, the report on one upgrade of a cluster, and
-- `Policies` is of packages/policies/src: urn.ts, by which the policy packs tell the children of a
-- component, the suppressions, the IAM policies and the rule on trust in GitHub. `Reconciler`
-- is packages/drift/src/reconciler.ts, which plans and executes what
-- becomes of a resource that is in the state, in the cloud or in both. `Sca` is tools/sca/src,
-- which routes vulnerable dependencies and gates the merge of their fixes. They share only
-- `Prelude`:
-- the native numbers, lists, and texts as lists of UTF-16 units.
--
-- Drift/Types is types.ts; Drift/Verdict is `hardenedVerdict` of verdict.ts; Drift/Monotonicity
-- is `checkMonotonicity` of monotonicity.ts; Drift/Probe is `runProbe` of probe.ts and
-- `resolveProbeTimeoutMs` of classifier.ts; Drift/EvidenceWindow is evidence-window.ts; Drift/Urn
-- is urn-sanitize.ts. Drift/Cache is `readCache`, `writeCache`, `invalidateCache` and
-- `migrateV1ToV2` of cache.ts: the state is a map from paths to files, `Fs`, and a write is the
-- list of its file operations, so that a crash is a prefix of the list. `JSON` is a record of the
-- parser and the printer with the law that an envelope is read back, `JsonCodec`, and
-- Drift/Cache/Codec has one that keeps the law, for the runs at concrete inputs. A file is the text
-- that `readFile` gives of it: bytes that are no UTF-8 are not modelled. Drift/Conclusion has the
-- steps of `classify` that turn the evidence into a verdict, and Drift/Classifier is `classify`,
-- cut at its early returns: `explicit_window`, the first `read_cache`, `run_adapters` with
-- `judge` and `correlate`, and `remember` with the second read, the guard and the write. What the
-- adapters, the probe, the clock, the disk, `Date.parse` and `JSON` answer is the record
-- `Env`.
--
-- Cidr has `parseIpv4`, `parseIpv6`, `parseCidr` and `analyzeCidrCoverage`; Cidr/Sorting and
-- Cidr/Coverage reason on the merge of the sorted blocks, Cidr/Blocks on the arithmetic of a
-- block.
--
-- NodeLabel/Patterns has the regular expressions, NodeLabel/Attest `inputFailure`,
-- `evidenceFailure`, `attestMembership`, `attestEc2AndNode` and `attestTaints`, and
-- NodeLabel/Plan `planTrustedNodeLabel`, `planTrustedNodeLabelFailure`,
-- `validateReconciliationPlan` and `classifyNodeGroupCapacity`. Its children reason on the
-- evidence, on what a trusted node is (Safety), on the four decisions and what they do
-- (Effects), on the patches as RFC 6902 applies them (Application), on the validation, the JSON
-- pointers, the capacity, what a patched node is (Convergence, with the checks that the label
-- leaves alone in Relabelled), and a node with too many labels. NodeLabel/Controller is
-- packages/k8s-baseline/src/trusted-node-label-controller.ts, which reads the evidence, plans
-- and patches one node after another: Adapters has what it calls, as arguments, Nodes and Cycle
-- `runTrustedNodeLabelControllerCycle`, Loop `runTrustedNodeLabelController`, and Sent and
-- Clean what a cycle sends and what it has done.
--
-- Upgrade has `planUpgrade`, one function for each of its gates on the draft of a report, and
-- `parseMinor`; Upgrade/Verdicts and Upgrade/Refusals reason on it. Policies/Urn has `parseUrn`,
-- `isUrnChildOfComponent` and `urnsShareParentComponent`, Policies/Urn/Children what they
-- decide. Policies/Suppressions is aws/suppressions.ts of packages/policies/src, where Active
-- says what suppresses a rule and Expiry which dates are taken. Policies/Json has JSON values,
-- Policies/IamPolicy is aws/iam-policy.ts, Policies/Oidc the subjects of github/g-oidc-1.ts,
-- and Policies/Oidc/Trust its inspection of the trust policies of AWS with
-- github/github-oidc-issuer.ts; Bound and Guarded say what is let through. Policies/Oidc/Gcp
-- has the tokens and the parser of its conditions of GCP, Grammar the conjunctions, Sound and
-- Complete that the parser reads these and no other, and Conjunction which conditions pass.
--
-- Reconciler/Types has the data, Reconciler/Matching the tests of a resource against the scope
-- and the mode, Reconciler/Scope `normalizeScope`, Reconciler/Target `classifyTarget` as its
-- guards, the choice of an action and the
-- action, and Reconciler/Guards what holds of an action that can be executed. Reconciler/Plan is
-- `plan` as far as the actions that it stores, with `summarize`, and Reconciler/Planned what
-- those actions are, and Outcomes what they say of the targets; Reconciler/Execution is
-- `execute`, whose state is the stored actions by
-- token and the keys of the locks; Reconciler/Runs is what it runs and leaves;
-- Reconciler/Interleaved has the steps of calls that interleave, with their locks.
-- Reconciler/Discovery is packages/drift/src/discovery.ts, of which Selection has the tests of
-- a resource, Targets `discoverReconcileTargets`, and Origins, Coverage and Deletions what it
-- reports and what of that is deleted.
--
-- Sca/Evidence is evidence/normalize.ts of tools/sca/src, Sca/Route classify/route.ts, Sca/Store
-- state/store.ts and Sca/Triage the loop of cli/triage.ts, which routes each finding and
-- records it. Sca/Scope is scope/policy.ts: Glob has `globToRegExp` as the pieces of an
-- expression with the texts that they match, Policy `classifyManifest`, `diffScope` and
-- `proposeScope`. Sca/Merge has the ruleset of cli/verify-ruleset.ts, the audit record of
-- audit/record.ts, `mergeEmergencyPr` (Gate) and `mergeFromFiles` (Files) of cli/merge.ts.
--
-- Bounds and fuel. All loops are structural recursion on lists or texts, so that no fuel is
-- needed, but for the loop of the controller, which runs until its signal is aborted: one unit
-- of fuel for each turn and one more are enough, and the terms of a condition of GCP, for which
-- the number of its tokens is enough. A
-- `bigint` is a natural number. A time is a number of milliseconds since 1970; a JavaScript
-- number of the reconciler is a safe integer or another value, `JsNumber`.
--
-- Not modelled: of the reconciler, the dependencies of one kind of
-- action on another, and the redaction and the digests of a plan;
-- the race of the probe with its timer, of which the outcome is an argument; the digest in a
-- cache file's name; a write that fails after it opened its file; values that are not of their
-- declared types, and the catch for them; the files and the command lines of tools/sca and its
-- other commands; the Pulumi components, the other rules of the policy packs, the adapters
-- and the command line, which declare resources or do I/O.
pub mod Prelude
pub mod Drift
pub mod Cidr
pub mod NodeLabel
pub mod Upgrade
pub mod Policies
pub mod Reconciler
pub mod Sca
