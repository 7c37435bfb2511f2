-- ===== src/DatabaseWorkflow/History.antt =====
-- Any history of calls of the database service, and what every reachable state satisfies.
use rubrica_back.Base.{ℕ, ◌≡◌, true}
use rubrica_back.Base.Dict.{lookup}
use rubrica_back.DatabaseWorkflow.Tables.{Env, World}
use rubrica_back.DatabaseWorkflow.Call.{Call}
use rubrica_back.DatabaseWorkflow.Reach.{run_call, IsFresh, History, start, next_call}
use rubrica_back.DatabaseWorkflow.Invariants.{
  IsKeyed, Keeps, Keeps-refl, Keeps-trans, is_settled, is_matching, stays_final,
}
use rubrica_back.DatabaseWorkflow.DocumentSteps.{create_document-Keeps, add_version-Keeps}
use rubrica_back.DatabaseWorkflow.Deletion.{delete_document-Keeps}
use rubrica_back.DatabaseWorkflow.RequestSteps.{
  create_request-Keeps, open_request-Keeps, cancel_request-Keeps, create_signing_link-Keeps,
}
use rubrica_back.DatabaseWorkflow.SignerSteps.{
  add_signer-Keeps, revoke_signer_link-Keeps, view-Keeps, decline-Keeps,
}
use rubrica_back.DatabaseWorkflow.SigningSteps.{sign-Keeps}

module _ (env : Env) (i j : ℕ) where
  run_call-Keeps :
      (now : ℕ) (c : Call) (w : World env)
      → IsKeyed w.tables
      → IsFresh env c w
      → Keeps i j w.tables (run_call env now c w).tables
  unfolding run_call
  run_call-Keeps now (Call.create_document k p u c) w h f =
      create_document-Keeps env i j now w h k p u c f
  run_call-Keeps now (Call.add_version k n t a c) w h f =
      add_version-Keeps env i j now w h k n t a c
  run_call-Keeps now (Call.delete_document k a force) w h f =
      delete_document-Keeps env i j w.tables h now k a force
  run_call-Keeps now (Call.create_request k p a) w h f =
      create_request-Keeps env w.tables h now k a i j p f
  run_call-Keeps now (Call.add_signer g tok k p a) w h f =
      add_signer-Keeps env w.tables h now a i j g tok k p
  run_call-Keeps now (Call.create_signing_link nonce k a) w h f =
      create_signing_link-Keeps env w.tables h now k a i j nonce
  run_call-Keeps now (Call.revoke_signer_link k g a) w h f =
      revoke_signer_link-Keeps env w.tables h now a i j k g
  run_call-Keeps now (Call.open_request k a mode) w h f =
      open_request-Keeps env w.tables h now k a i j mode
  run_call-Keeps now (Call.cancel_request k a) w h f =
      cancel_request-Keeps env w.tables h now k a i j
  run_call-Keeps now (Call.view tok a) w h f = view-Keeps env w.tables h now a i j tok
  run_call-Keeps now (Call.sign drawn tok a p) w h f = sign-Keeps env i j now drawn tok a p w h
  run_call-Keeps now (Call.decline tok a) w h f = decline-Keeps env w.tables h now a i j tok

  History-Keeps :
      {w v : World env} → IsKeyed w.tables → History env w v → Keeps i j w.tables v.tables
  History-Keeps {w} h start = Keeps-refl i j w.tables h
  History-Keeps {w} h (next_call {v} now c past fresh) =
      let before = History-Keeps h past in
      Keeps-trans i j w.tables v.tables _ before (run_call-Keeps now c v before.keeps_keyed fresh)

module _ (env : Env) {w v : World env} (i j : ℕ) (keyed : IsKeyed w.tables)
    (past : History env w v) where
  -- In any history of the database service, from tables whose rows stand under their identifiers:
  -- if the signer `j` has signed where the request `i` is completed and is his, then so it is after
  -- every call.
  pub History-settled :
      is_settled (lookup i w.tables.requests) (lookup j w.tables.signers) ≡ true
      → is_settled (lookup i v.tables.requests) (lookup j v.tables.signers) ≡ true
  History-settled h = (History-Keeps env i j keyed past).keeps_settled h

  -- In any history of the database service, from tables whose rows stand under their identifiers:
  -- if the document of the request `i` has the version and the digest that the request froze while
  -- the request is open or completed, then so it is after every call.
  pub History-matching :
      is_matching (lookup i w.tables.requests) w.tables ≡ true
      → is_matching (lookup i v.tables.requests) v.tables ≡ true
  History-matching h = (History-Keeps env i j keyed past).keeps_matching h

  -- In any history of the database service, from tables whose rows stand under their identifiers, a
  -- request that is completed stays stored and completed, and one that is cancelled stays stored
  -- and cancelled.
  pub History-final : stays_final (lookup i w.tables.requests) (lookup i v.tables.requests) ≡ true
  History-final = (History-Keeps env i j keyed past).keeps_final
