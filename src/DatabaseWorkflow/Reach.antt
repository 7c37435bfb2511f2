-- ===== src/DatabaseWorkflow/Reach.antt =====
-- The histories of the database service: the calls that may change it, one after another.
use rubrica_back.Base.{ℕ, none, ◌≡◌}
use rubrica_back.Base.Dict.{lookup}
use rubrica_back.DatabaseWorkflow.Tables.{Env, World}
use rubrica_back.DatabaseWorkflow.Call.{Call}
use rubrica_back.DatabaseWorkflow.Documents.{
  create_document, add_version, delete_document, in_tables,
}
use rubrica_back.DatabaseWorkflow.Requests.{
  create_request, open_request, cancel_request, create_signing_link,
}
use rubrica_back.DatabaseWorkflow.Signers.{add_signer, revoke_signer_link}
use rubrica_back.DatabaseWorkflow.Links.{view, decline}
use rubrica_back.DatabaseWorkflow.Signing.{sign}

module _ (env : Env) where
  -- The world after a call, whether it returned or raised.
  unfoldable pub run_call : ℕ → Call → World env → World env
  run_call now (Call.create_document i p u c) w = (create_document env now i p u c w).1
  run_call now (Call.add_version i f t a c) w = (add_version env now i f t a c w).1
  run_call now (Call.delete_document i a force) w =
      (in_tables env (delete_document env now i a force) w).1
  run_call now (Call.create_request i p a) w =
      (in_tables env (create_request env now i p a.user_id) w).1
  run_call now (Call.add_signer i tok k p a) w =
      (in_tables env (add_signer env now i tok k p a) w).1
  run_call now (Call.create_signing_link nonce i a) w =
      (in_tables env (create_signing_link env now nonce i a) w).1
  run_call now (Call.revoke_signer_link k g a) w =
      (in_tables env (revoke_signer_link env now k g a) w).1
  run_call now (Call.open_request i a mode) w = (in_tables env (open_request env now i a mode) w).1
  run_call now (Call.cancel_request i a) w = (in_tables env (cancel_request env now i a) w).1
  run_call now (Call.view tok a) w = (in_tables env (view env now tok a) w).1
  run_call now (Call.sign drawn tok a p) w = (sign env now drawn tok a p w).1
  run_call now (Call.decline tok a) w = (in_tables env (decline env now tok a) w).1

  -- `uuid4` draws identifiers that the tables do not hold yet.
  abbrev pub IsFresh : Call → World env → Type 0
  IsFresh (Call.create_document i p u c) w = lookup i w.tables.documents ≡ none
  IsFresh (Call.create_request i p a) w = lookup i w.tables.requests ≡ none
  IsFresh _ w = Unit

  -- A history of the service: any calls, one after another, each drawing fresh identifiers.
  pub data History (w : World env) : World env → Type 0 where
    start : History w w
    next_call :
        {v : World env} (now : ℕ) (call : Call)
        → History w v
        → IsFresh call v
        → History w (run_call now call v)
