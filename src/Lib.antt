-- ===== src/Lib.antt =====
-- smtp-auth-proxy takes mail from devices of a local network over SMTP with passwords, decides from
-- which shared mailbox it may go out, stores it in a queue, and delivers it to Microsoft 365 with
-- OAuth. This library models its logic, paths being those of the repository:
--
-- Smtp: the submission server, internal/smtpsrv. Smtp/Session is one connection (session.go,
-- auth.go): its state, the commands, and in Smtp/Session/Data the path of a message from DATA to
-- the submitter; Smtp/Headers the header block and its rewriting (headers.go); Smtp/Login the
-- AUTH LOGIN exchange (sasl_login.go); Smtp/Limits the caps on connections (limits.go);
-- Smtp/Proxy the PROXY protocol (proxyproto.go).
-- Policy: internal/policy. Policy/Address is addresses and allow-list patterns (address.go),
-- Policy/Resolve the decision on a submission, Policy/Source the check of a client's address
-- (resolve.go).
-- App: internal/app. App/Submit is the submitter (submit.go), which fills in a row of the queue,
-- App/Auth the authenticator of devices (auth.go), and App/Conversation a client's commands to a
-- session that has both, while others change the proxy's state.
-- Store: internal/store. Store/Models is the stored objects (models.go), Store/Messages the queue's
-- table and every statement on it (messages.go), Store/Rows what SQL does with a list of rows.
-- Queue: internal/queue. Queue/Backoff is the retry schedule (backoff.go), Queue/RateLimit budgets
-- and token buckets (ratelimit.go), Queue/Worker one delivery (worker.go).
-- Transport: the classification of delivery errors, internal/transport/transport.go.
-- The administrators' tables are Store/Users and Store/Sessions (users.go, sessions.go), and
-- Store/Directory holds what they manage: credentials, mailboxes, accounts with their links and
-- allowed senders (credentials.go, mailboxes.go, accounts.go).
-- Admin: the management interface, internal/adminauth and internal/adminapi. Admin/Rbac is roles and
-- permissions (rbac.go), Admin/Local signing in with a password (local.go), Admin/Sessions the
-- cookie's session and the checks of a request (session.go), Admin/Users the handlers that manage
-- administrators (users.go), and Admin/Directory those that manage the directory (credentials.go,
-- mailboxes.go, accounts.go).
-- Bootstrap: the declarative file, internal/bootstrap/bootstrap.go: its validation, and in
-- Bootstrap/Apply its writing into the directory.
-- Oauth: internal/oauth. Oauth/Provider is access tokens and the cache of clients (provider.go),
-- Oauth/Xoauth2 the mechanism's initial response (xoauth2.go).
-- Config/Expand is the references of the configuration and the bootstrap file to variables and files,
-- internal/config/expand.go.
-- Crypto: internal/crypto. Crypto/Keyring is the keys of stored secrets and their rotation
-- (keyring.go), Crypto/Password the hashes of passwords (password.go), which fills the interface
-- `Passwords` of Admin/Local.
-- Strings: Go's strings and bytes packages as far as the program calls them. Prelude: what all
-- parts share.
--
-- A session hands a submission to the interface `Services` (the source's Authenticator and
-- Submitter); App fills it with the table of Store, from which Queue claims, delivers and settles
-- rows. App/Queued and App/Conversation join the two ends. Admin/Directory and Bootstrap/Apply write
-- the same directory, in which the provenance of a row, `managed_by`, says who may.
--
-- State is passed explicitly: an operation takes the state and returns the new one with its result.
-- A table is a list of rows, and a statement acts on the rows that its condition selects. A Go string
-- is its bytes; a time is a count of nanoseconds; an integer that the code treats alike at or below
-- zero is a natural number. Two definitions run on fuel: the printing of a number,
-- which is given one digit more than the number itself, and the expansion of references, which is
-- given a turn for each byte of the text and takes one byte at least in each. Every other loop runs
-- over a list, or over a reader that ends after finitely many reads.
--
-- The standard library (net/mail, net/textproto, net), go-smtp and the database driver are parameters
-- or are left out. Not modelled: sockets and TLS, goroutines and locks, logs and the counters of
-- metrics, the texts of errors that no one reads back, the rest of the management interface (lists,
-- diagnostics, and single sign-on, which also writes roles), the audit log, the configuration and the
-- network clients. Failures of the database itself are modelled in a delivery only, where `World`
-- says which reads fail and whether the outcome is written, since its context may end at any of its
-- calls. The float64 arithmetic of the token bucket and of the jitter is exact here.
pub mod Prelude
pub mod Admin
pub mod App
pub mod Bootstrap
pub mod Config
pub mod Crypto
pub mod Oauth
pub mod Policy
pub mod Queue
pub mod Smtp
pub mod Store
pub mod Strings
pub mod Transport
