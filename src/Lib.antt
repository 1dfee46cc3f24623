-- ===== src/Lib.antt =====
-- A model of the core of securestore, a service that stores files under envelope encryption and keeps
-- a signed audit log, with the theorems on what it guarantees.
--
-- The parts and how they interact. internal/protectedstore keeps the metadata of the encrypted
-- envelopes, the logical files with their versions, the grants that share a file, and the lifecycle of
-- a file (trash, retention, legal hold, purge); its authorization decision reads the files, the
-- grants and the lifecycle together. internal/audit receives an event for each of these mutations and
-- appends it to a chain of MACs, which Verify checks against a checkpoint. internal/authn decides who
-- is let in: accounts with their lockout and suspension, sessions, the second factor of privileged
-- users, step-up proofs and invitations. internal/ingest takes uploads in: it reserves capacity, has
-- the quarantined bytes inspected, and hands accepted ones to internal/protectedstore. All are
-- reached through the HTTP API of internal/api, of which the limiter of authentication requests is
-- modelled.
--
-- Which file models what:
--   Prelude         maps as association lists (a Go map has distinct keys: Prelude/Keys), Boolean
--                   tests, byte strings, UTF-8 and big-endian fields
--   ProtectedStore  the data of internal/protectedstore and the state of its memory repository
--     Entries       Create, FindByUpload, the key rotation posture, ListDEKRewrapCandidates and
--                   CommitDEKRewrap of internal/protectedstore/memory_repository.go
--     Catalog       RegisterInitial, ListFiles, Details, FindVersion, CommitRestore
--     Grants        CreateGrant, ListGrants, RevokeGrant, authorized and its two clients
--     Lifecycle     MoveToTrash, RestoreFromTrash, Purge, SetRetention, SetLegalHold, the test of
--                   EligibleForPurge; in Records RecordDeletionFailure and the recovery drill
--     Worker        PurgeOperationIDs, PurgeAudited and ProcessDuePurgesAudited of
--                   internal/protectedstore/lifecycle.go, EligibleForPurge with its order and limit
--     Reconciliation  AuthorizeOrphanReconciliation and CompleteOrphanReconciliation of
--                   internal/protectedstore/memory_repository.go and reconciliation.go
--     Steps         the other mutations as a step relation, and reachability
--   Audit           Append of internal/audit/memory_repository.go; computeMAC, canonicalEvent and
--                   Verify of internal/audit/service.go
--     Query         List and Summary of internal/audit/memory_repository.go, with matchesQuery
--     Service       NewServiceWithKeyring, RotateTo and Append of internal/audit/service.go, in
--                   Answers its alerts, List and Export, in Keyring the order of the calls at a start
--                   of cmd/server/main.go
--   Authn           the data of internal/authn and the state of its memory repository
--     Accounts      CreateUserWithVerification, the verification tokens, the lockout, status and role
--                   of an account, invitations, all of internal/authn/memory_repository.go
--     Sessions      sessions and step-up proofs of the same file
--     Mfa           multi-factor configurations, challenges and recovery codes of the same file
--     Login         verifyCredentials of internal/authn/mfa.go, loginForAudience, Authenticate, Logout,
--                   UpdateUserStatus and RevokeUserSessions of internal/authn/store.go
--     Login/Totp    validateTOTP and totpCode of internal/authn/mfa.go
--     Login/Privileged  CompletePrivilegedLogin of internal/authn/mfa.go
--   Ingest          the data of internal/ingest and the state of its memory repository
--     Repository    the records, quotas and capacity reservations of internal/ingest/repository.go
--     Reception     CreateSized and create of internal/ingest/manager.go: the admission of a request,
--                   the streaming of its body, the cleanup of a failed upload and the received record
--     Quotas        SetOwnerQuotaAudited and ResetOwnerQuotaAudited of internal/ingest/manager.go
--     Recovery      NewManager of internal/ingest/manager.go with its loop over the stored uploads; the
--                   goroutines that it starts are named in its answer
--     Manager       inspect, protect, failProtection, failPersistence and persistLifecycle of
--                   internal/ingest/manager.go
--   Api/RateLimiter  internal/api/rate_limiter.go, with the relation of its stored times to the
--                   admitted requests (Window) and its limit (Limit)
--
-- State and operations. A repository is a record of its maps. An operation takes the state and gives
-- its answer and the new state; an error is a value of the answer. The mutex that every method takes
-- makes the operations atomic, so an interleaving of clients is a sequence of steps. A time is the
-- number of nanoseconds since Go's zero time; a method that calls time.Now takes the time as an
-- argument, and one that draws an identifier takes the identifier, or none for a failure of the
-- random source. Every loop of the modelled code runs over a list or counts an index down, so no fuel
-- is used. The changes of quotas hold two locks one after the other: Ingest.Quotas has a step for each. An iteration
-- over a Go map goes in the order of the association list: where the code takes the first match of an
-- unordered map, the theorems do not depend on which one it is.
--
-- What is not modelled. The PostgreSQL repositories are SQL. HMAC-SHA-256, the genesis MAC and the
-- RFC 3339 format of a time come from Go's standard library and are parameters (Audit.Primitives); what
-- a theorem relies on, such as that HMAC tells messages apart, is a hypothesis of it. Sizes are natural
-- numbers, but for the int64 sums of the capacity check (Prelude/Int64) and the uint32 that writeField
-- writes; sequence numbers do not wrap. In internal/ingest the answers of the scanner, of the protected
-- store and of the audit hooks are given to a run (Ingest.Manager.Answers), and the sections of a run
-- that hold the mutex follow one another, since other runs touch other uploads.
-- For create the parameters are SHA-256, http.DetectContentType, filepath.Base and strings.TrimSpace
-- (Ingest.Reception.Primitives); the reads of the body and the answers of the file system are given to
-- a run. The audit service is modelled without a checkpoint anchor and over the memory repository, which
-- has no outbox; the parameters of its searches are the functions of Go's strings package
-- (Audit.Query.Text), and a slice index out of range is an error value of its own.
-- The scheduled deletion takes SHA-256 and the format of a time as parameters
-- (ProtectedStore.Worker.Primitives); the removal of the ciphertext files after a purge is left out, and
-- files with the same purge time, whose order sort.Slice leaves open, stay in the order of the map.
-- In internal/authn the hash functions, the normalization of texts, bcrypt and the opening of a sealed
-- secret are parameters (Authn.Login.Primitives); the answer of CompletePrivilegedLogin leaves out the
-- recovery codes that an enrolment shows, and one reading of the clock serves a whole request.
-- In internal/api SHA-256 is a parameter, and of the API only the rate limiter is modelled.
-- Encryption, key providers, the checkpoint anchor and all input and output are left out.
pub mod Prelude
pub mod ProtectedStore
pub mod Audit
pub mod Authn
pub mod Ingest
pub mod Api
