-- ===== src/DatabaseWorkflow/Rollback.antt =====
-- A rolled back action leaves the tables as they were, or as its body left them when it returned.
use rubrica_back.Base.Actions.{Result, ok, err, After}
use rubrica_back.DatabaseWorkflow.Tables.{Tables, Env, World}
use rubrica_back.DatabaseWorkflow.Documents.{rollback}

module _ (env : Env) where
  pub rollback-After :
      {A : Type 0} (P : Tables → Type 0) (w : World env) (m : Result A × World env)
      → P w.tables
      → After (λ v. P v.tables) m
      → P (rollback env (λ _. m) w).1.tables
  rollback-After P w (ok a, v) old new = new
  rollback-After P w (err e, v) old new = old
