-- ===== src/Lib.antt =====
-- Verification of the federation contracts: the gateway exchange between enterprises, the signed
-- service-contract manifests that it relies on, the approval of contract packs, the signed
-- capabilities and rosters of a fabric's members, and the capabilities to reach a service.
--
-- A gateway receives an envelope on an authenticated session. `Handler.Handle` normalises both,
-- runs a preflight (session gates, manifest, approval, expiry, idempotency, payload, policy, replay
-- claim), audits the decision, calls the facade, checks its result and answers. The manifest comes
-- from the cache of contractmanifest, which `PutVerified` fills; the approval gate is the registry of
-- contractapproval. Apart from these, membershipcap signs and verifies what a fabric's peers hold:
-- capabilities, revocation lists, registrations of mesh keys and the roster that is assembled from
-- verified registrations; serviceaccesscap signs and verifies what a consumer shows to a service.
--
-- Which file models which part:
--   Base              what the components share: tests, lists, int64, strings, hexadecimal texts, maps,
--                     sorting, lists of texts that are normalised (Base/Slices, which is the loop of
--                     `normalizeStrings` and `normalizeStringSlice`), lists with keys (Base/Keyed),
--                     messages of framed fields (Base/Frames, which is `writeLenField`,
--                     `writeStringSlice` and `writeLenPrefixed`), cuts of texts, and steps that pass
--                     a state and may fail (Base/Exec).
--   Apperrors         apperrors/errors.go: errors and their chains.
--   Exchange          contracts/exchange/exchange.go and discovery.go. Names and Types hold the
--                     constants and records; Session the identity checks; Topology and Payload the
--                     checks of payloads; Replay the `MemoryReplayCache`; Handler the collaborators
--                     and `dispatch` and `audit`; Handler/Preflight the two preflights;
--                     Handler/Discovery `handleManifestDiscovery`; Handler/Serve `Handle`.
--   ContractManifest  contracts/contractmanifest/manifest.go: Normal (normalisation), Shape
--                     (validation), Signing (`ComputeManifestHash`, `Sign`, `Verify`), Cache
--                     (`MemoryCache`).
--   ContractApproval  contracts/contractapproval/approval.go: Normal, Valid, Registry (`PutApproval`,
--                     `PutPin`, `Pin`, `AuthorizeContractApproval`).
--   MembershipCap     membershipcap: Capability (capability.go), Revocation (revocation.go), Roster
--                     (peerroster.go), Registration (meshregistration.go), Assembly (assemble.go,
--                     with its map of the latest claims as a list of claims with distinct keys).
--   ServiceAccessCap  serviceaccesscap: Resource and Capability (capability.go), Tombstone
--                     (revocation.go).
--   OrderToCash       contracts/contractpacks/ordertocash/pack.go: Interactions (the seven of the
--                     pack), Markers and Hosts (its search for private topology), Payload
--                     (`ValidatePayload`), Manifest (`Contracts`, `Manifest`,
--                     `ValidateGatewayExchangePayload`).
--   ServiceCatalog    contracts/servicecatalog/servicecatalog.go: Material (the search for private
--                     topology and secrets), Entry (states, `AllowedActions`, `ValidateEntry`).
--
-- How code corresponds to definitions. A function has the source's name in snake case, a struct is a
-- record with the source's fields. A part of a function that the proofs need by name is a definition
-- of its own and says which part it is. The collaborators of `Handler` are steps on a world W that
-- is left open, and `State` keeps the list of the calls made, the last one first; a collaborator
-- may answer anything. An early return is an error of `Exec`, which keeps what was written before.
-- Times are integers, and `env.ExpiresAtMS+h.ClockSkewMS` wraps around as int64 does. All functions
-- are total by structural recursion, so that there is no fuel.
--
-- Not under the repository, and parameters here: JSON, SHA-256, base64 and Ed25519 (Exchange.Payload's
-- `Platform`, ContractManifest.Types' `Crypto` with the laws of `KeyPair`, ContractApproval.Types'
-- `Hasher`, Base/Ed25519 with the laws of `IsKeyPair`, MembershipCap.Types' `Codec`,
-- ServiceAccessCap.Types' `AccessCodec`, OrderToCash's `Pack` and `Network`,
-- ServiceCatalog.Entry's `Catalog`), `netip.ParseAddr`, the functions of net and net/url, and the
-- clock. Strings are texts of code points, so that bytes that are not UTF-8 are outside, and strings
-- are ordered by code points, as Go orders UTF-8. Maps are association lists.
-- Slices are lists, and a nil slice is an empty one, save in a contract's partner links and method
-- scopes, where JSON shows the difference (ContractManifest.Types' `Slice`).
-- Not modelled: nil receivers, contexts, the mutexes (an operation under its lock is one step),
-- panics of json.Marshal, and aliasing of slices, where `normalizeApprovalRecord` changes its
-- caller's contracts. An error that wraps a sentinel with a text is the sentinel, and marshalling
-- always succeeds. Not modelled either: of the order-to-cash pack the entries for the service
-- catalogue, and the other packages of the repository.
pub mod Base
pub mod Apperrors
pub mod Exchange
pub mod ContractManifest
pub mod ContractApproval
pub mod MembershipCap
pub mod ServiceAccessCap
pub mod OrderToCash
pub mod ServiceCatalog
