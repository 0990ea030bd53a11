-- ===== src/Lib.antt =====
-- RegAgentOps decides whether an AI agent of a regulated institution may call a tool, and keeps the
-- evidence. The parts modelled here are those that an action passes on its way:
--
--   identity -> request -> MCP enforcement point (authenticated policy engine -> policy engine)
--     -> approval gate -> execution gate -> receipt
--
-- The policy engine (src/regagentops/policy.py) reads the agent and tool registries (registry.py) and
-- a bundle of rules, and returns an authorization decision. Before it stands the authenticated engine
-- (authenticated_policy.py): it denies unless a signed agent identity
-- (authenticated_identity_signature.py) is verified by the trust bundle and is that of the registered
-- agent; such an identity is established (identity_binding.py) from a human identity and a signed
-- workload statement (workload_identity.py, identity_models.py). The enforcement point (mcp.py) asks
-- it only about tools that the MCP governance registry binds to the latest snapshot of an approved
-- server, and never executes one. The approval gate (approval_engine.py)
-- says how many human approvals the decision needs, and resolves a package of signed votes into a
-- resolution, once per requirement (approval_replay.py); the votes are verified against a trust
-- bundle (approval_signature.py) and against delegated authority grants (approval_authority.py,
-- approval_models.py). The execution gate (execution.py) issues a short-lived lease, redeems it once
-- against a ledger while the institution's emergency stop is not halted, and builds the receipt.
--
-- Beside this path stand append-only registries (hardening.py): an institution's keys and their life
-- cycles, the configuration changes that these keys sign, the anchors of the audit evidence, and the
-- isolation profiles of tenants; and evidence is encrypted under these keys.
--
-- Files
--   Base      Python's tests, texts, sorting, and results with exceptions, as the other files use them
--   Models    models.py, one file per class (`post_init` is `__post_init__`, `encode` is what
--             `dataclasses.asdict` makes of the class), Value (canonical form and digest), Checks;
--             also AuthenticatedAuthorizationDecision of authenticated_policy.py
--   Identity  identity_models.py, one file per class; Context and Workload (documents, signing and
--             verification of authenticated_identity_signature.py and workload_identity.py, on the
--             common Ed25519), Binding (`HumanIdentityRegistry`, and
--             `establish_authenticated_agent_identity` with its Bounds)
--   Registry  registry.py: `get` of both registries; Lookup is about both
--   Policy    policy.py: PolicyRule, PolicyBundle, Engine (`evaluate`, `_deny` as `deny`, `_decision`
--             as `make_decision`); Precedence orders the effects, Decides states the specification
--             and Permission what lies behind a permission; Authenticated is
--             `AuthenticatedPolicyEngine` (`evaluate` as `evaluate_authenticated`)
--   Approval  approval_models.py and approval_signature.py, one file per class; Authority
--             (`_validate_grant`, `authorize_approver`), Replay (`consume`), Signature
--             (`sign_approval_statement`, `verify_signed_approval`), Gate (`build_requirement`,
--             `resolve`)
--   Mcp       mcp.py, one file per class; Registry (`McpGovernanceRegistry`: its queries; Registering
--             has `register_server`, `register_snapshot` and `register_binding`, Current the bindings
--             and tools that are current, Invariant, Live and Revocation what holds of them),
--             EnforcementPoint (`evaluate` as `enforce`, its two branches as `after_preconditions`)
--   Execution execution.py: its classes, EmergencyStops (`register`, `history`, `current`), Ledger
--             (`consume`, `assert_recorded`), Gate (`issue_lease`, `redeem_lease`), Receipts
--             (`build_receipt`, signing and verification)
--   Keys      hardening.py, `CryptoKeyPurpose` to `InstitutionCryptoKeyRegistry`: one file per class;
--             Registry has `register` as `register_key`, `register_state` and the histories, Status
--             the queries about a time, Lifecycle the steps of a key's life cycle, Final and Disabled
--             where it ends
--   Changes   hardening.py, the configuration changes: their classes, Signature
--             (`sign_configuration_change`, `verify_signed_configuration_change`), Registry (`append`
--             as `append_change`), Objects that changes pass on, Chain of linked changes
--   Anchors   hardening.py, the audit anchors: their classes, Registry (`register` as
--             `register_anchor`), Chain of linked records
--   Tenants   hardening.py, the isolation of tenants in PostgreSQL: Checks (the two regular
--             expressions), PostgresRlsPolicy (with `render_postgres_rls_sql`), Registry, Pinned
--   Evidence  hardening.py, encrypted evidence: EncryptedGovernanceEvidence, Encryption (both functions,
--             with the digest of bytes and the random nonce as parameters), Authentic
--   Examples  concrete inputs
--
-- State and errors. A raised exception is `err` of Result, with one constructor of Error for each
-- class of exceptions and the source's message. The two SQLite tables are lists of rows, newest
-- first; their PRIMARY KEY and UNIQUE constraints are tests, and an operation that writes to one takes
-- the rows and returns them, also beside an exception, since a refused transaction is rolled back.
-- The dictionaries of the registries (emergency stops, MCP servers, snapshots and bindings, human
-- identities, and those of hardening.py) are the lists of their values in the order of insertion;
-- what the registries with contiguous versions have in common is Base.Versioned. Where the source
-- catches an exception, the model tests its class: `is_value_error` is true of the classes that extend
-- ValueError. A test that runs before a raise stands in the source's order.
--
-- Times. `datetime.fromisoformat` gives an aware time or, for a date without a time of day such as
-- "2026-01-01Z", a naive one; `_require_utc_timestamp` accepts both and `_timestamp` of
-- identity_models.py (`aware_timestamp`) only the first. Comparing one of each raises TypeError
-- (`type_error`): where one of each is possible, `<` and `<=` of two times go through `less` of
-- Models.Checks, which takes the two texts beside their microseconds, and `!=` calls such times
-- different without raising.
--
-- Parameters. What the program takes from Python's libraries are the fields of Models.Value.Platform:
-- json.dumps, SHA-256, ISO times (microseconds since the year 1, and whether the time is aware), base64
-- and Ed25519. Texts are sequences of Unicode scalar values: a lone surrogate, on which
-- `.encode("utf-8")` would raise, is not one. `isoformat_local` prints a naive time, which
-- `astimezone` reads in the local time zone. No collision freedom is assumed: where a digest must
-- identify an artifact, the theorems speak of the digest. The one assumption on the parameters,
-- HexDigests, is that a SHA-256 hex digest has 64 lowercase hexadecimal digits.
--
-- Bounds and fuel. Counts and times are the native natural numbers; a difference of times is only
-- taken where a test before it makes it non-negative, `datetime.max` bounds the one addition of
-- times, and negative integers, which every constructor refuses, have no counterpart.
-- `_validate_grant` is given one step more than the bundle has grants: it never visits a digest twice.
--
-- Not modelled: `isinstance` checks, which typing makes vacuous; oidc.py, whose JWT library is not
-- part of the repository, with registered_identity.py and `to_rfc3339_utc` of identity_models.py, which
-- serve it; data_governance.py, deployment.py, assurance.py and stability.py; and api.py and cli.py,
-- which re-export names and do input and output.
pub mod Base
pub mod Models
pub mod Registry
pub mod Policy
pub mod Approval
pub mod Mcp
pub mod Identity
pub mod Execution
pub mod Keys
pub mod Anchors
pub mod Tenants
pub mod Evidence
pub mod Changes
pub mod Examples
