-- ===== src/Lib.antt =====
-- go-spark: the accounts, sessions, one-time tokens, rate limits and mail outbox of a web
-- application in Go, over one SQLite database.
--
-- The parts, and the files that model them:
--
-- - Schema.antt: the rows of the tables (internal/db/generated/models.go) and the database as
--   the lists of its rows. Validity.antt is what the UNIQUE columns, the row numbers and the
--   foreign keys of migrations/ ask of them, and Validity/ is about each statement.
-- - Effect.antt: what a call does beside computing. A call is a function of the world, which is
--   the database and the number of the next effect. Each statement, each begin and commit of a
--   transaction, each reading of the clock and each drawing of random bytes is one effect, and
--   the surroundings (Env) say for each number what the clock reads, what is drawn and whether
--   the effect fails. with_tx is withTx of internal/auth/tx.go, with its rollback. Effect/ has
--   the rules by which atomicity, invariants and success go from the parts of a call to the
--   call.
-- - Queries/: one function for each SQL statement of internal/db/generated/*.sql.go (auth,
--   email, email_change, email_verification, password_reset, projects, totp), with the
--   cascades and uniqueness checks that SQLite adds. A statement that fails changes nothing.
-- - AuthStore/: the methods of authStore in internal/auth/auth_store.go and totp_store.go.
-- - Auth/Service, Addresses, Accounts, Sessions, Passwords, EmailChange: AuthService of
--   internal/auth/auth.go, method by method: NewAuthService is new_auth_service, Register is
--   register, and so on, in snake_case. The other files of Auth/ are about these methods.
-- - Totp.antt: internal/totp/totp.go. SecretCipher.antt: internal/auth/secret_cipher.go.
--   Auth/BackupCodes and Auth/Totp: internal/auth/totp.go. What DisableTOTP,
--   RegenerateBackupCodes and VerifyTOTPLogin begin with alike is with_second_factor.
-- - Argon2id.antt: internal/auth/password_hasher.go; AuthService has it as its field hasher.
-- - Email/Messages: the messages of internal/email/email.go. Email/OutboxStore: EmailOutboxStore
--   of internal/database/email_outbox_store.go. Email/Processor: ProcessPending and
--   truncateLastError of internal/email/processor.go; the outcome of each mail stands for the
--   counters that are logged. Below it, Limit, Claims and Held are about ClaimPending and the rows
--   it took, Delivery and Once about one mail, and Sweep and Progress about a whole cycle.
-- - RateLimit.antt: internal/ratelimit/ratelimit.go. RateLimit/Limiter: fixedWindowRateLimiter,
--   withRateLimits and the Retry-After of internal/server/rate_limit.go. RateLimit/ClientIp: its
--   key functions, over what they read of a request.
-- - Server.antt: what a handler reads of a request and what it answers. Server/SignedValue:
--   internal/server/signed_value.go and internal/secret/secret.go. Server/Cookies: the cookies
--   of internal/server/auth.go. Server/Flash: internal/server/flash.go. Server/Guards: the
--   guards of auth.go and csrf.go, as functions from a handler to a handler. Server/Pages and
--   Server/Handlers/: the handlers of internal/server/auth_handlers.go, totp_handlers.go and
--   project_handlers.go, by their names in snake_case. Server/Routing: the routes of
--   internal/server/server.go with their guards and limits. Server/Paths:
--   internal/paths/paths.go. Server/Decimal: numbers in decimal.
-- - Config.antt and Config/: internal/config/config.go, over the variables of the environment.
-- - Projects.antt: ProjectService of internal/project/project.go.
-- - Cleanup.antt: CleanupJob.Run of internal/jobs/cleanup.go, whose store
--   (internal/database/cleanup_store.go) passes on to the statements.
-- - System.antt: requests, worker cycles and cleanup passes, in any order, on one database.
-- - Platform.antt: what comes from outside the repository, as fields of records:
--   strings.ToLower and ToUpper, SHA-256, HMAC, base64, AES-GCM, net/mail, net/url, the template
--   engines, Argon2id, the code that github.com/pquerna/otp generates for a time;
--   RateLimit/ClientIp does the same for the package net. The sender of mails is a field of
--   Processor.
-- - Examples/: runs on concrete data. Base/: tests, texts, lists and tables.
--
-- A handler calls the service, the service calls its store, the store sends statements in
-- transactions or alone; the worker claims the mails that the service queued. The limiter stands
-- before the handlers and shares no state with them.
--
-- Conventions. A time or a duration is a number of nanoseconds, and now.Add(d) is a sum: no time
-- of the program is near an end of its range, and the clock is later than every retention. An
-- int64 identifier is a natural number, and 0 stands for what the code tests with `<= 0`. A Go
-- string is the list of its code points, so that a string that is not valid UTF-8 is not
-- modelled; lengths in bytes are those of the encoding. An error that is wrapped with %w is its
-- sentinel; errors that carry a text only are one constructor. The two types User and UserRecord
-- are one record. The empty user that Register returns for a taken address is `none`. The mutex
-- of the limiter and the single connection of SQLite make requests and limiter calls happen one
-- at a time, which is how they are run here. The counter of the limiter's calls is a uint64 with
-- its wrap-around; the count of an entry is below a policy's int and needs none. The loops are
-- over lists and need no fuel; the printing of a number has fuel one above the number, and has
-- all its digits then.
--
-- An answer is its Set-Cookie headers in their order and its reply: a redirect, the text of a
-- status, or a page with its data. A page stands for the execution of its template, which is taken
-- to succeed; the fields of its data about breadcrumbs, routes, request ids and passkeys
-- are left out. A form that ParseForm refuses is `none`. A number with a minus sign is read as no
-- number, since its readers refuse both alike; a signed time is below 2^63 seconds. A cookie's
-- Expires is its time and Max-Age its seconds. The routes have the handlers of passkeys as an
-- argument and give the answer for a limiter in a given state; paths are clean.
--
-- Not modelled: the log lines, the check of ProcessPending for a missing store, the timing dummy
-- hash of Login (its verdict is not used), the lengths in bytes of random tokens, passkeys,
-- request ids, the health checks, static files and headers of internal/server/server.go,
-- templates, the job runner, SMTP and start-up.
pub mod Argon2id
pub mod Auth
pub mod AuthStore
pub mod Base
pub mod Cleanup
pub mod Config
pub mod Effect
pub mod Email
pub mod Examples
pub mod Platform
pub mod Projects
pub mod Queries
pub mod RateLimit
pub mod Schema
pub mod SecretCipher
pub mod Server
pub mod System
pub mod Totp
pub mod Validity
