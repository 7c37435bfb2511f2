-- ===== src/Workflow/Lifecycle.antt =====
-- The workflow as a whole: any sequence of calls of its operations, from any well-formed state.
use rubrica_back.Base.{ℕ, ◌≡◌, refl, Bool, true, false, Option, none, some, arith}
use rubrica_back.Base.Dict.{IsDict, lookup}
use rubrica_back.Workflow.Types.{
  RequestStatus, completed, cancelled, signed, SignatureRequest, Signer, Service, Env,
}
use rubrica_back.Workflow.Op.{Op}
use rubrica_back.Workflow.Documents.{create_document, add_version, delete_document}
use rubrica_back.Workflow.Requests.{
  create_request, open_request, cancel_request, revoke_signer_link, add_signer, create_signing_link,
}
use rubrica_back.Workflow.Signing.{signing_context, signing_document, view, sign, decline}
use rubrica_back.Workflow.Resolve.{IsKeyed, SignerStep}
use rubrica_back.Workflow.Transitions.{RequestStep}
use rubrica_back.Workflow.Steps
use rubrica_back.Workflow.Steps.{Evolves}
use rubrica_back.Workflow.Deletion.{delete_document-Evolves}

-- No transition leaves these.
abbrev pub is_final : RequestStatus → Bool
is_final completed = true
is_final cancelled = true
is_final RequestStatus.expired = true
is_final _ = false

module _ (env : Env) where
  open env use {Files}

  -- The state after a call, whether it returned or raised.
  unfoldable pub run_op : Op → Service Files → Service Files
  run_op (Op.create_document now i p c) s = (create_document env now i p c s).1
  run_op (Op.add_version now i f t a c) s = (add_version env now i f t a c s).1
  run_op (Op.delete_document now i a force) s = (delete_document now i a force s).1
  run_op (Op.create_request now i p) s = (create_request now i p s).1
  run_op (Op.add_signer now fresh i p a) s = (add_signer env now fresh i p a s).1
  run_op (Op.create_signing_link now tok i a) s = (create_signing_link env now tok i a s).1
  run_op (Op.revoke_signer_link now i g a) s = (revoke_signer_link now i g a s).1
  run_op (Op.open_request now i a mode) s = (open_request now i a mode s).1
  run_op (Op.cancel_request now i a) s = (cancel_request now i a s).1
  run_op (Op.signing_context now tok u) s = (signing_context env now tok u s).1
  run_op (Op.signing_document now tok u) s = (signing_document env now tok u s).1
  run_op (Op.view now tok u) s = (view env now tok u s).1
  run_op (Op.sign now tok u c p) s = (sign env now tok u c p s).1
  run_op (Op.decline now tok u) s = (decline env now tok u s).1

  -- `uuid4` draws identifiers that the service does not know yet.
  abbrev pub IsFresh : Op → Service Files → Type 0
  IsFresh (Op.create_request now i p) s = lookup i s.requests ≡ none
  IsFresh (Op.add_signer now fresh i p a) s = lookup fresh s.signers ≡ none
  IsFresh _ s = Unit

  pub record IsWellFormed (s : Service Files) : Type 0 where
    pub keyed : IsKeyed s
    pub distinct : IsDict s.requests

  module _ (j k : ℕ) (s : Service Files) (valid : IsWellFormed s) where
    -- Whatever the operation, and also where it raises: no request or signer is removed, a new one
    -- begins as a draft or as pending, and every other status moves along its diagram.
    pub run_op-Evolves : (op : Op) → IsFresh op s → Evolves j k s (run_op op s)
    unfolding run_op
    run_op-Evolves (Op.create_document now i p c) f =
        Steps.create_document-Evolves env j k s now i "" p c
    run_op-Evolves (Op.add_version now i n t a c) f =
        Steps.add_version-Evolves env j k s now i a n t c
    run_op-Evolves (Op.delete_document now i a force) f =
        delete_document-Evolves j k s now a i force valid.keyed valid.distinct
    run_op-Evolves (Op.create_request now i p) f = Steps.create_request-Evolves j k s now i "" p f
    run_op-Evolves (Op.add_signer now fresh i p a) f =
        Steps.add_signer-Evolves env j k s now i a fresh p f
    run_op-Evolves (Op.create_signing_link now tok i a) f =
        Steps.create_signing_link-Evolves env j k s now i a tok
    run_op-Evolves (Op.revoke_signer_link now i g a) f =
        Steps.revoke_signer_link-Evolves j k s now i a g valid.keyed
    run_op-Evolves (Op.open_request now i a mode) f = Steps.open_request-Evolves j k s now i a mode
    run_op-Evolves (Op.cancel_request now i a) f = Steps.cancel_request-Evolves j k s now i a
    run_op-Evolves (Op.signing_context now tok u) f =
        Steps.signing_context-Evolves env j k s now tok u valid.keyed
    run_op-Evolves (Op.signing_document now tok u) f =
        Steps.signing_document-Evolves env j k s now tok u valid.keyed
    run_op-Evolves (Op.view now tok u) f = Steps.view-Evolves env j k s now tok u valid.keyed
    run_op-Evolves (Op.sign now tok u c p) f =
        Steps.sign-Evolves env j k s now tok u valid.keyed c p
    run_op-Evolves (Op.decline now tok u) f = Steps.decline-Evolves env j k s now tok u valid.keyed

  request_id_after :
      (i : ℕ) (o o' : Option SignatureRequest)
      → RequestStep i o o'
      → ((r : SignatureRequest) → o ≡ some r → r.id ≡ i)
      → (r : SignatureRequest) → o' ≡ some r
      → r.id ≡ i
  request_id_after i none o' step keyed r e = ground arith
  request_id_after i (some q) o' step keyed r e = ground (arith, keyed q refl)

  signer_id_after :
      (i : ℕ) (o o' : Option Signer)
      → SignerStep i o o'
      → ((g : Signer) → o ≡ some g → g.id ≡ i)
      → (g : Signer) → o' ≡ some g
      → g.id ≡ i
  signer_id_after i none o' step keyed g e = ground arith
  signer_id_after i (some q) o' step keyed g e = ground (arith, keyed q refl)

  -- Every operation keeps the state well formed.
  pub run_op-IsWellFormed :
      (op : Op) (s : Service Files) → IsWellFormed s → IsFresh op s → IsWellFormed (run_op op s)
  run_op-IsWellFormed op s valid fresh = record {
    keyed = record {
      requests_keyed = λ i.
          request_id_after i _ _ (run_op-Evolves i i s valid op fresh).request_step
            (valid.keyed.requests_keyed i);
      signers_keyed = λ i.
          signer_id_after i _ _ (run_op-Evolves i i s valid op fresh).signer_step
            (valid.keyed.signers_keyed i);
    };
    distinct = (run_op-Evolves 0 0 s valid op fresh).distinct valid.distinct;
  }

  -- A run of the service: any calls, one after another, each drawing fresh identifiers.
  pub data Run (s : Service Files) : Service Files → Type 0 where
    done : Run s s
    call : {t : Service Files} (op : Op) → Run s t → IsFresh op t → Run s (run_op op t)

  -- Nothing that was frozen when a request was created changes, and a final status stays.
  pub record Stays (r : SignatureRequest) (o : Option SignatureRequest) : Type 0 where
    pub entry : SignatureRequest
    pub present : o ≡ some entry
    pub same_document : entry.document_id ≡ r.document_id
    pub same_version : entry.document_version ≡ r.document_version
    pub same_sha256 : entry.document_sha256 ≡ r.document_sha256
    pub same_expiry : entry.expires_at ≡ r.expires_at
    pub final_stays : is_final r.status ≡ true → entry.status ≡ r.status

  Stays-step :
      (j : ℕ) (r : SignatureRequest) (o o' : Option SignatureRequest)
      → Stays r o
      → RequestStep j o o'
      → Stays r o'
  Stays-step j r o none h step = absurd (ground (arith, h.present))
  Stays-step j r none (some r') h step = absurd (ground (arith, h.present))
  Stays-step j r (some q) (some r') h step = record {
    entry = r';
    present = refl;
    same_document = ground (arith, h.present);
    same_version = ground (arith, h.present);
    same_sha256 = ground (arith, h.present);
    same_expiry = ground (arith, h.present);
    final_stays = ground (arith, h.present);
  }

  pub Run-IsWellFormed : {s t : Service Files} → IsWellFormed s → Run s t → IsWellFormed t
  Run-IsWellFormed valid done = valid
  Run-IsWellFormed valid (call {t = t} op run fresh) =
      run_op-IsWellFormed op t (Run-IsWellFormed valid run) fresh

  -- Over any run a request keeps its identifier's entry, with the document, version, digest and
  -- expiry that were frozen at its creation, and once it is completed, expired or cancelled, its
  -- status.
  pub Run-Stays :
      {s t : Service Files} (j : ℕ) (r : SignatureRequest)
      → IsWellFormed s
      → Run s t
      → lookup j s.requests ≡ some r
      → Stays r (lookup j t.requests)
  Run-Stays j r valid done known = record {
    entry = r;
    present = known;
    same_document = refl;
    same_version = refl;
    same_sha256 = refl;
    same_expiry = refl;
    final_stays = λ h. refl;
  }
  Run-Stays j r valid (call {t = t} op run fresh) known =
      Stays-step j r (lookup j t.requests) _ (Run-Stays j r valid run known)
        (run_op-Evolves j 0 t (Run-IsWellFormed valid run) op fresh).request_step

  signed_step :
      (k : ℕ) (g : Signer) (o o' : Option Signer)
      → ((h : Signer) × (o ≡ some h)
          × (h.status ≡ signed)
          × (h.signature_request_id ≡ g.signature_request_id)
          × (h.auth_user_id ≡ g.auth_user_id))
      → SignerStep k o o'
      → (h : Signer) × (o' ≡ some h)
        × (h.status ≡ signed)
        × (h.signature_request_id ≡ g.signature_request_id)
        × (h.auth_user_id ≡ g.auth_user_id)
  signed_step k g none o' (h, e, f, m, n) step = absurd (ground arith)
  signed_step k g (some q) none (h, e, f, m, n) step = absurd step
  signed_step k g (some q) (some q') (h, e, f, m, n) step =
      (q', refl, ground arith, ground arith, ground arith)

  -- From a well-formed state, a signer who has signed stays stored and signed over any run, under the
  -- same request and user.
  pub Run-signed :
      {s t : Service Files} (k : ℕ) (g : Signer)
      → IsWellFormed s
      → Run s t
      → lookup k s.signers ≡ some g
      → g.status ≡ signed
      → (h : Signer) × (lookup k t.signers ≡ some h)
        × (h.status ≡ signed)
        × (h.signature_request_id ≡ g.signature_request_id)
        × (h.auth_user_id ≡ g.auth_user_id)
  Run-signed k g valid done known e = (g, known, e, refl, refl)
  Run-signed k g valid (call {t = t} op run fresh) known e =
      signed_step k g _ _ (Run-signed k g valid run known e)
        (run_op-Evolves 0 k t (Run-IsWellFormed valid run) op fresh).signer_step
