-- ===== src/Lib.antt =====
-- HostPanel: a hosting business's client, catalog, order and billing services.
--
-- The services of packages/core and packages/billing are called by the web application's actions.
-- Each call checks its actor's permissions, reads and writes rows of one PostgreSQL database through
-- the Prisma client, mostly in one transaction, and leaves a row in the audit log; a change of status
-- leaves a row in the status history too. All amounts are whole minor units with a currency.
--
-- Where the code is modelled:
--   Money         packages/shared/src/money/index.ts, `Money` and its functions under their names in
--                 snake case (`zero` is `zero_money`); Money/Currency the tables and codes,
--                 Money/Allocate the largest-remainder split
--   Errors        packages/shared/src/errors/index.ts, and `MoneyError`
--   Permissions   packages/shared/src/permissions/index.ts
--   Rbac          packages/auth/src/rbac.ts
--   Audit, Data   packages/db/src/audit.ts, packages/shared/src/audit/index.ts and the rows of
--                 packages/db/prisma/schema.prisma
--   Actors        the actors of packages/core/src/staff.ts and packages/core/src/clients.ts
--   Numbering     packages/billing/src/numbering.ts
--   Catalog       packages/core/src/catalog.ts without `listPublicCatalog`; Catalog/Products the
--                 creation of groups and products
--   Settings      packages/core/src/settings.ts
--   Orders        packages/billing/src/orders.ts: the machine and the transition in the parent,
--                 Orders/Line one line, Orders/Create `createOrder`, Orders/Paid a run of transitions
--   Invoices      packages/billing/src/invoices.ts: the machine, the transition and `cancelInvoice` in
--                 the parent, Invoices/Issue, Invoices/Due and Invoices/Payment the other two calls
--   LoginGuard    packages/core/src/login-guard.ts
--   Sessions      packages/core/src/sessions.ts; Sessions/Holders the map that a table of sessions
--                 stands for
--   Outside       the configuration, the cryptography and the job queue, as the record `Outside`
--   Emails        packages/jobs/src/email.ts and the handlers of
--                 apps/worker/src/processors/email.tsx
--   Texts         the string methods that the services call
--   Tokens        the one-time links of clients and of staff
--   Crypto        packages/auth/src/crypto.ts
--   Clients       packages/core/src/clients.ts: the machine, notes and the change of status in the
--                 parent, Clients/Register, Clients/Verify, Clients/Password, Clients/Login and
--                 Clients/Profile the other calls
--   Staff         packages/core/src/staff.ts: the loading of the actor in the parent, Staff/Create,
--                 Staff/Disable, Staff/Password, Staff/Login and Staff/TwoFactor the other calls
--   Setup         packages/core/src/setup.ts and packages/core/src/tenant.ts
--   Web           apps/web/src: Web/Routing proxy.ts, Web/Session lib/session.ts and the callbacks of
--                 auth.ts, Web/SignIn `authorize` and the end of the log-in action, Web/Accounts,
--                 Web/Shop and Web/Admin the actions of lib/actions
--
-- The state is the record `Db` of tables, passed from step to step by the actions of Service, which
-- return a value or an error and the state that is left. A transaction that throws gives back the
-- state in which it began; a call outside one keeps what it has written.
--
-- The database client is not code of the repository. It is the interface `Tables` of Store, a
-- parameter of every service, and `IsLawful` is what is relied on: an update changes one row, a new
-- row has a new id, and a query returns a row that fits, the one with the greatest key where it
-- orders. Store/Memory meets the interface with lists, and the theorems are tried on it, with the
-- sample shop of Sample, in the modules called Tests.
--
-- Numbers: a JavaScript number is `int` of an integer of any size, or `fraction` for every value that
-- is not a whole number. The limits of exact doubles (2^53) and of the 32-bit columns are not
-- modelled. Strings are lists of UTF-16 code units; `toLowerCase` is modelled for ASCII letters. A time is a number of milliseconds; the clock is
-- read once for each call. The only fuel is that of the decimal printing of a number, which is given
-- one more than the number, and a number has fewer digits than that.
--
-- What is drawn at random (tokens, salts, initial vectors, keys of forms) is an argument of the calls.
-- The hash functions, the cipher, UTF-8, base64, the check of a second-factor code and the queue are
-- fields of `Outside`, of which nothing is assumed but by a named hypothesis: `IsCipher` of
-- Crypto/RoundTrip, for a key of 32 bytes, a vector of 12 and texts without a lone surrogate. What of
-- these may throw returns a `Result`: the check of a stored password hash, the deciphering, the queue.
-- An action of the web application returns a `Reply`: a problem, a success or a redirect.
--
-- Not modelled: the parsing and printing of decimal amounts, and with them the forms that take an
-- amount; the public catalog query; the schema of the registration form; concurrency between
-- transactions; the web pages, the rendering and sending of emails and the queue itself; the text of
-- errors.
pub mod Base
pub mod Errors
pub mod Money
pub mod Permissions
pub mod Rbac
pub mod Sample
pub mod Service
pub mod Store
pub mod Data
pub mod Audit
pub mod Numbering
pub mod Actors
pub mod Catalog
pub mod Orders
pub mod Settings
pub mod Invoices
pub mod LoginGuard
pub mod Sessions
pub mod Outside
pub mod Emails
pub mod Texts
pub mod Tokens
pub mod Clients
pub mod Crypto
pub mod Staff
pub mod Setup
pub mod Web
