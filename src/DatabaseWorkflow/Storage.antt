-- ===== src/DatabaseWorkflow/Storage.antt =====
-- What the services rely on of the object storage (`DocumentStorage`).
use rubrica_back.Base.{ℕ, ◌≡◌, ◌≢◌, String, none, some}
use rubrica_back.Workflow.Types.{Bytes}
use rubrica_back.DatabaseWorkflow.Tables.{Env}

pub record StorageLaws (env : Env) : Type 0 where
  -- `put` draws a key that is not in use, and what it stores can be read
  pub put_fresh :
      (tenant_id account_id : ℕ) (filename : String) (content : Bytes) (f : env.Files)
      → env.get (env.put tenant_id account_id filename content f).0.0 f ≡ none
  pub get_put :
      (tenant_id account_id : ℕ) (filename : String) (content : Bytes) (f : env.Files)
      → env.get
          (env.put tenant_id account_id filename content f).0.0
          (env.put tenant_id account_id filename content f).1
        ≡ some content
  -- the other objects stay as they are
  pub put_other :
      (tenant_id account_id : ℕ) (filename : String) (content : Bytes) (f : env.Files)
      (key : String)
      → key ≢ (env.put tenant_id account_id filename content f).0.0
      → env.get key (env.put tenant_id account_id filename content f).1 ≡ env.get key f
  pub discard_other :
      (key other : String) (f : env.Files)
      → other ≢ key
      → env.get other (env.discard_uncommitted key f) ≡ env.get other f
