-- ===== src/Lib.antt =====
-- wp-auto: the WePuu control plane, an authorization service with its console and database packages.
--
-- The parts that are modelled keep their state in PostgreSQL tables. A table is a list of rows, a
-- statement is a function on such lists (Base/Rows, Base/Lists), and a transaction is a function that
-- returns a result (Base/Results): an error thrown inside it leaves the tables as they were. Times are
-- natural numbers of milliseconds. Random values, clocks, keyed hashes and the tables that other parts
-- write are parameters.
--
-- How the parts interact: a browser begins a login (Login), which is completed when its user is
-- authenticated; the console asks the authorization service for a login and exchanges the answer for a
-- session (ConsoleAuth). Mails are sent within a budget (OtpQuota). The OpenID provider stores its
-- artifacts through an adapter (Artifacts), which asks the rate limiter (Limiter) before it rotates a
-- refresh token and revokes the grant of one that is replayed. Sites are paired with a tenant by an
-- attempt that the site proves (Pairing), over a request to its public addresses (SiteRequest) that returns
-- a signed proof (SiteProof). A client gets a grant for a site by the consent that a proof of the site
-- shows (Grants), and the authorization server loads the grant for a request (Provider), rotates refresh
-- tokens in families (Families) and signs with a key that is rotated (SigningKeys). Revocations wait in an
-- outbox (Outbox), from which a worker (Worker) sends them to the sites.
--
-- Files:
--   Base          shared names, tests, results, lists, tables as lists, regular expressions, JSON objects
--   OtpQuota      packages/account-auth/src/otp-send-quota.ts: validate_limits, open_quota, reserve,
--                 claim, finish, remaining
--   Login         packages/database/src/index.ts, PostgresAccountLoginTransactionStore: create,
--                 bind_email, restart, complete; in Login.Bootstrap, ensure_account_auth_link of
--                 packages/database/migrations/011_account_auth_links.sql
--   ConsoleAuth   the same file, PostgresConsoleAuthStore: create_login, authorize_login,
--                 exchange_login, resolve_session, begin_logout, validate_logout, revoke_session, purge
--   Limiter       the same file, RateLimitSubjectCodec and PostgresOAuthRateLimiter, with
--                 consume_rate_limit of packages/database/migrations/005_token_lifecycle.sql
--   Artifacts     the same file, SecretArtifactCodec and PostgresOidcAdapter: upsert, find, destroy,
--                 consume, find_secondary, revoke_by_grant_id, with revoke_refresh_grant of the migration
--   Pairing       packages/pairing/src/index.ts, PairingService: begin, verify; packages/database/src/index.ts,
--                 PostgresPairingRepository: create_attempt, find_attempt, mark_verifying, fail, complete
--   Contracts     packages/contracts/src/index.ts: is_opaque_id, is_client_id, is_scope_set
--   SiteProof     packages/pairing/src/index.ts, verify_site_proof
--   SiteRequest   the same file: request_site_proof; in SiteRequest.Resource, canonicalize_resource; in
--                 SiteRequest.Client, resolve_public_addresses and HttpsSiteVerificationClient.verify
--   Grants        packages/database/src/index.ts, PostgresGrantRepository: create_pending, find_pending,
--                 activate, deny, revoke; in Grants.Service, packages/pairing/src/index.ts, GrantService:
--                 begin, complete; in Grants.Resolve, PostgresGrantClaimsResolver: resolve and
--                 PostgresAuthorizationGrantRepository: resolve_exact
--   Families      the same file, PostgresRefreshFamilyRepository: create, rotate, with
--                 rotate_refresh_family of packages/database/migrations/005_token_lifecycle.sql
--   Provider      packages/oauth-provider/src/index.ts: load is createResourceGrantLoader, refresh_ttl,
--                 and, in Provider.Loopback, allow_port is allowRegisteredNativeLoopbackPort
--   SigningKeys   packages/database/src/index.ts, PostgresSigningKeyRepository: load_usable, is_active,
--                 publish, activate, revoke, retire, with the functions of packages/database/migrations
--   Outbox        packages/database/src/index.ts, PostgresRevocationOutbox: claim, mark_delivered, reschedule
--   Worker        apps/authorization-service/src/revocation-worker.ts: run_once and its error codes; in
--                 Worker.Delivery, send is HttpsRevocationDelivery.send
-- The children of a part hold its theorems, its Tests the concrete inputs at which they apply.
--
-- Loops of the source run over lists, so the model needs no fuel: the rules of a reservation, the
-- candidates of a secret, the records of a round. The digits of an HTTP status have fuel for five, and a
-- status has three. The events of a request are a list, in the order in which they happen.
--
-- Not modelled: the CHECK and FOREIGN KEY constraints of the tables, of which only the keys are; row
-- locks and roles of the database; the expiry of receipts; the HTTP servers and pages; the tools of third
-- parties, such as the libraries for URLs, signatures and schemas and the OpenID provider. The reports on
-- deletions and the lists that the console shows are other parts of packages/database that the model
-- does not cover.
pub mod Base
pub mod OtpQuota
pub mod Outbox
pub mod Worker
pub mod Login
pub mod ConsoleAuth
pub mod Limiter
pub mod Artifacts
pub mod Pairing
pub mod Contracts
pub mod SiteProof
pub mod SiteRequest
pub mod Grants
pub mod Provider
pub mod SigningKeys
pub mod Families
