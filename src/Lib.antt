-- ===== src/Lib.antt =====
-- Rubrica: electronic signatures of documents, sold to tenants by subscription. This library
-- models the core of the program and proves the laws its parts rely on.
--
-- Parts and files. Paths are from the root of the repository, under
-- apps/core_api/src/core_api/modules unless they are written out.
--
-- - Base: lists measured by native numbers, Boolean tests, dictionaries as association lists
--   (Base/Dict), and calls that change a state and may raise (Base/Actions).
-- - Workflow: signature_request/workflow_service.py with the schemas it uses. Service is the
--   object's state, dict for dict; Documents, Requests and Signing hold the operations,
--   Workflow/Service the helpers behind them. Op is one call, run_op runs it, and what a call
--   wrote before it raised stays written, as in the source.
-- - Store: the tables that billing and tenants share, billing/billing_entity.py and
--   tenant/tenant_entity.py, as one Database.
-- - Billing: billing/billing_service.py. Product has the plans and prices, Resource the
--   provider's objects, Access and Account the rights and allowances of an account, Effects and
--   Events what a provider event makes of the database, Notice its mails, Webhook its receipt in
--   two transactions, and Checkout the calls of a tenant's administrator.
-- - Tenant: tenant/tenant_service.py. Members has the queries and the access test, Team and
--   Enrollment the operations on members, Identity the business identity that billing events
--   bring.
-- - DatabaseWorkflow: signature_request/database_workflow_service.py, the SQL version of the
--   workflow, on the tables of signature_request_entity.py and document/document_entity.py
--   (Tables) beside those of billing and tenants. Access has the lookups and access tests,
--   Documents, Requests, Signers and Links the operations, Evidence, Admission and Signing the
--   parts of sign. Call is one call, Reach a history of calls; Invariants says what they keep,
--   and the files in Steps prove it call by call. Storage lists what the service relies on of the
--   object storage.
-- - Sessions: apps/auth_api/src/auth_api/modules/sessions/session_service.py. Store is the Redis
--   store, one dict for each kind of key, with times to live; Service has the operations and the
--   rotation script.
-- - Accounts: apps/auth_api/src/auth_api/modules/accounts/account_service.py, the tokens of
--   account mails.
-- - Mfa: apps/auth_api/src/auth_api/modules/mfa/mfa_service.py. Service has the operations, with
--   the authenticator as a parameter.
--
-- How they interact. A billing event changes the account, then lets the tenant part reconcile the
-- team with the new plan (Events uses Team), and the tenant part reads the account's plan for its
-- seats (Members uses Access), as the two services call each other. The database workflow asks
-- the tenant part for roles and the billing part for allowances inside its own transaction, and a
-- login asks Mfa for the second factor; a new password counts up the version that Sessions
-- compares.
--
-- Time is an argument, in microseconds since the epoch. Identifiers that the code draws at random
-- are arguments too, and a theorem that needs them fresh says so. No definition runs on fuel:
-- every loop is structural on a list. A database transaction gives back the state it began with
-- when it raises. A constraint of the database is checked where the row is inserted, or at the
-- commit for the unique customers and subscriptions of accounts. Row locks have no effect on one
-- transaction and are left out. Objects of the storage are outside of the transactions, and a
-- rotation script may run after another call has changed the store.
--
-- Parameters for code of other packages: Workflow.Types.Env has the object store, the digest, the
-- bytes and the lower case of a text, and the address of the signing application;
-- DatabaseWorkflow.Tables.Env the same with the storage scopes, PDF checks and drawing,
-- timestamps, HMACs and identity summaries; Sessions.Service.Settings the digest of tokens and
-- the lives of keys; Billing.Product.Settings the configured prices, the days of grace, upper
-- case and the parsing of identifiers; Billing.Webhook.Provider the calls of the payment provider
-- and the mail service; Mfa.Service.Authenticator the one-time passwords, encryption and hashes;
-- protect and strip in Billing.Events and Tenant.Identity are protect_cnpj and str.strip.
--
-- Not modelled: the list views of the database workflow, PDF drawing and remote signing, HTTP
-- routes, registration and access control, the event outbox, notification adapters, tools.
pub mod Base
pub mod Workflow
pub mod Store
pub mod Billing
pub mod Tenant
pub mod Mfa
pub mod DatabaseWorkflow
pub mod Sessions
pub mod Accounts
