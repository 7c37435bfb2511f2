-- ===== src/Workflow/Once.antt =====
-- Nobody signs a request twice, whatever happens in between.
use rubrica_back.Base.{ℕ, ◌≡◌, ◌≢◌, String, Bool, some, arith}
use rubrica_back.Base.Actions.{ok}
use rubrica_back.Base.Dict.{lookup}
use rubrica_back.Workflow.Types.{signed, StampPosition, Signer, Service, Env}
use rubrica_back.Workflow.Signing.{sign}
use rubrica_back.Workflow.Signature.{sign-Signs}
use rubrica_back.Workflow.Lifecycle.{IsWellFormed, Run, Run-IsWellFormed, Run-signed}

module _ (env : Env) where
  open env use {Files}

  -- After a signer has signed, and after any further calls, a signature that succeeds is another
  -- signer's.
  pub sign_once :
      {s t : Service Files} (g : Signer) (now : ℕ) (token user : String) (consent : Bool)
      (p : StampPosition) (t' : Service Files) (h : Signer)
      → IsWellFormed env s
      → lookup g.id s.signers ≡ some g
      → g.status ≡ signed
      → Run env s t
      → sign env now token user consent p t ≡ (ok h, t')
      → h.id ≢ g.id
  sign_once {s} {t} g now token user consent p t' h valid known e run returned same =
      let again =
        (sign-Signs env now token user consent p t t' h (Run-IsWellFormed env valid run).keyed
          returned).1 in
      let (k, still, f, m, n) = Run-signed env g.id g valid run known e in
      let unsigned = again.unsigned in
      let result = again.result in let here = again.admitted.known_signer in ground arith
