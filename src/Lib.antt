-- ===== src/Lib.antt =====
-- Deployer
--
-- Deployer takes a source archive, builds it in a cluster, and runs the image as an app under a
-- hostname of its own. A deployment is a row that moves from queued to a terminal state. The store
-- (internal/store) keeps the rows in SQLite and writes each move together with its event; the
-- domain package (internal/domain) holds the rules that need no input or output; the reconciler
-- (internal/reconcile) drives the rows; uploads, source and deploy handle what it builds and runs; auth,
-- identity and suspend decide who may use the platform.
--
-- Which file models what:
--
-- - Base: the names that the modules share. Numbers are the native ℕ; a Go string is the list of its
--   bytes (Base/Texts), or of its runes where a file says so.
-- - Domain/State: internal/domain/state.go. `State` has the seven constants and `unknown` for any
--   other string; `can_transition`, `terminal` and `valid` are the functions of those names.
--   Domain/State/Moves draws the transition table as a relation.
-- - Domain/Reason: internal/domain/reason.go, the codes with their lines.
-- - Domain/Slug: internal/domain/slug.go and reserved.go. `scan` is the loop of DeriveBase, `cut`
--   its truncation. strings.ToLower is a parameter; what the random source returns is an argument.
--   Slug/Label, Slug/Words, Slug/Stable and Slug/Suffix hold the proofs.
-- - Domain/Config: internal/domain/configkey.go and config.go. A Go map is an association list in
--   which `put` replaces; ValidateConfig only looks up, counts and sums.
-- - Domain/Image: internal/domain/image.go, with TrimSpace and Cut of the standard library written
--   out on bytes.
-- - Store: the rows of internal/store/sqlcgen/models.go; a table is a list, the newest row first. An
--   id is the number of its ULID and a time stamp the number of its instant, both in the order of
--   the texts. Store/Tx is the transaction: a function from tables to a result and tables, of which
--   `in_tx` keeps the writes only if it succeeds (inTx of internal/store/store.go). Store/Queries is
--   one function for each SQL statement, with the unique indexes, the foreign keys and the CHECK that a
--   statement can meet; a foreign key to a row that the same transaction has read is not checked again.
-- - Store/Deployments: internal/store/deployments.go, one function for each method that writes:
--   CreateDeployment, Transition, RecordBuildResult, MarkHealthy, ClaimNext, ReleaseBuildingClaim.
--   Deployments/WellFormed says what holds of the tables between two calls; Supersede, Create, Move,
--   Restore, Mint, Healthy and Claims are the proofs, by method; Writes takes calls of the methods in any order.
-- - Identity/Limiter: internal/identity/limiter.go, with Allow, LockedOut, Failed, Succeeded and
--   sweep. The delay is computed on 64 bits as the shift does; float64 is a parameter (`TokenOps`).
--   Limiter/Lockout and Limiter/Others hold the proofs.
-- - Reconcile: internal/reconcile/reconcile.go, the method Drive with its phases. Reconcile/World has
--   the calls and the `World`, which answers a call by any function of the calls before it;
--   Reconcile/Phases has startBuild, awaitBuild, resolveImage, deployApp and what they use;
--   Reconcile/Drive has run, Drive, expire and fail. Order and Ends, with their children, are the
--   proofs. Reconcile/Reaper is internal/reconcile/reaper.go. Reconcile/Loop is what calls them: Run,
--   Tick, Sweep, recoverStranded and expireOverdue, and PolicySweep of policysweep.go. A `Host` answers
--   what the loop asks between the drives, and one list of calls runs through all of them.
-- - Invites: internal/store/invites.go over the statements of internal/store/sqlcgen/invites.sql.go,
--   one function for each transaction, and InviteStateOf of internal/identity/invites.go. Invites/Spec
--   is the specification without tables, Invites/Refines the refinement; Rows, Once and Lookup are
--   proofs.
-- - Auth: internal/auth. Auth/Bearer is Authenticate, over the limiter, and AuthenticateSession;
--   Auth/Address is ClientAddress; Auth/Header is BearerToken. Bearer/Gate and Bearer/Flood are proofs.
-- - Source: internal/source. Source/Paths is safePath, with strings.Split, filepath.Clean and
--   filepath.Join written out; Source/Extract is Extract and writeFile on a `Disk` that answers each
--   call by any function of the calls before it; Source/Detect is HasRootDockerfile. Their children
--   are the proofs.
-- - Uploads: internal/store/uploads.go over the statements of internal/store/sqlcgen/uploads.sql.go, and
--   Uploads/Accept: internal/uploads/uploads.go, the method Accept on a volume that is a map from paths
--   to contents. Uploads/Tokens and Uploads/Landed are proofs.
-- - Suspend: internal/suspend/suspend.go, the methods set, of which Suspend and Restore are the two
--   flags, and SweepSuspended. Suspend/Told and Suspend/Held are proofs.
-- - Accounts: the people of internal/store/identity.go, their sessions and mailed links, over the
--   statements of internal/store/sqlcgen/identity.sql.go. Accounts/Steps is any sequence of these;
--   WellFormed, Ended and Links are proofs. Accounts/Service is Login, Logout, Forgot and Reset of
--   internal/identity/session.go and Verify and Resend of service.go, over these tables and the limiter;
--   cryptography, net/mail and the random source are arguments. Its children are proofs.
-- - OAuth: the clients, codes and granted tokens of internal/store/oauth.go over the statements of
--   internal/store/sqlcgen/oauth.sql.go, with the tokens of Bootstrap and the people of Accounts.
--   OAuth/Grant is ApproveClient, SweepClients and Grant of internal/identity/oauthgrant.go, whose 50
--   names are the fuel of its loop as of the source's; OAuth/Redirect is RegisterClient and the redirect
--   addresses of oauth.go, where net/url is an argument. WellFormed and the children are proofs.
-- - Apps: CreateApp and SoftDeleteApp of internal/store/apps.go over the statements of
--   internal/store/sqlcgen/apps.sql.go; the suffixes of the attempts are an argument. The table is that
--   of Store with the name of each app. Apps/Taken and Apps/Unique are proofs.
-- - Bootstrap: the function Bootstrap of internal/auth/auth.go over the accounts and tokens of
--   internal/store/accounts.go, with the statements of internal/store/sqlcgen/accounts.sql.go. The
--   digest of a token is a parameter. Bootstrap/Rotation is the proof.
-- - Deploy/Ports: internal/deploy/portrange.go, the complement of the blocked ports.
-- - Tests: every theorem below at one concrete input, and runs of the definitions.
--
-- The loops of these files are structural recursion, but for the two waiting loops of a drive, which
-- end when the cluster answers or a deadline passes: they take fuel, one unit for each round, and a
-- drive that spends it ends as `out_of_fuel`. Fuel above the number of ticks within which the
-- deadlines pass is enough.
--
-- Not modelled: faults of the database driver and the retries on a busy lock, the JSON text of a
-- configuration snapshot, the paged reads, the composition of Kubernetes objects, the tar and gzip
-- formats, registration, the store's table of backups, the sweeps of old rows and files, and the
-- packages that call the cluster, the registry, the disk, the mail service or the network.
pub mod Accounts
pub mod Apps
pub mod Auth
pub mod Base
pub mod Bootstrap
pub mod Deploy
pub mod Domain
pub mod Identity
pub mod Invites
pub mod OAuth
pub mod Reconcile
pub mod Source
pub mod Store
pub mod Suspend
pub mod Tests
pub mod Uploads
