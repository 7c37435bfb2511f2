-- ===== src/DatabaseWorkflow/Signing.antt =====
-- `DatabaseSignatureWorkflowService.sign`: the stamped artifact and the rows that are written.
use Prim.Native.String.{◌++◌ as ◌<>◌}
use rubrica_back.Base.{
  ℕ, String, Bool, ◌&&◌, ◌||◌, not, Option, none, some, List, [], ◌∷◌, ◌++◌, str_eq, ◌==◌,
  if◌then◌else◌, is_some, find, any, count,
}
use rubrica_back.Base.Actions.{
  integrity_error, ok, err, workflow_error, Action, pure, raise_if, modify, ◌>>=◌, ◌>>◌,
}
use rubrica_back.Base.Dict.{values}
use rubrica_back.Store.{Instant}
use rubrica_back.Tenant.Members.{belongs}
use rubrica_back.Workflow.Types.{
  completed, signed, SignatureMode, serpro_timestamp, serproid, evidence, Bytes,
}
use rubrica_back.DatabaseWorkflow.Evidence.{
  Submission, Drawn, Admitted, signature_evidence_of, stamp_records,
}
use rubrica_back.DatabaseWorkflow.Admission.{is_waiting, admit_signature}
use rubrica_back.DatabaseWorkflow.Tables.{
  DocumentEntity, SignatureRequestEntity, SignerEntity, Evidence, SignatureEntity, Tables, num,
  text, Env, IdentitySummary, Actor, World, save_request, save_signer, record_audit,
}
use rubrica_back.DatabaseWorkflow.Documents.{with_object, rollback, in_tables, account_storage_id}

-- The primary key and the unique constraints of `signatures`.
abbrev pub violates_signature : SignatureEntity → SignatureEntity → Bool
violates_signature x old =
    old.id == x.id
    || (old.signature_request_id == x.signature_request_id
        && (old.signer_id == x.signer_id || str_eq old.auth_user_id x.auth_user_id))
    || str_eq old.artifact_storage_key x.artifact_storage_key

-- The end of `sign`: the request is completed when no signer is left who has not signed.
unfoldable pub complete_request :
    Instant → String → String → SignatureRequestEntity → Tables → Tables
complete_request now actor artifact_sha256 r t =
    if count (is_waiting r.id) (values t.signers) == 0
    then record_audit now (some r.id) actor "signature_request.completed" "signature_request" r.id
        (("artifact_sha256", text artifact_sha256) ∷ [])
        (save_request (record r { status = completed; completed_at = some now }) t)
    else t

-- The rows that `sign` writes.
unfoldable pub insert_signature :
    Instant → SignerEntity → SignatureRequestEntity → SignatureEntity → Action Tables SignerEntity
insert_signature now s r x t =
    let done = record s { status = signed; signed_at = some now } in
    (do
      raise_if (any (violates_signature x) t.signatures) integrity_error
      modify (λ u. record u { signatures = u.signatures ++ x ∷ [] })
      modify (save_signer done)
      modify (
          record_audit now (some r.id) x.auth_user_id "signature.completed" "signer" s.id (
            ("document_sha256", text r.document_sha256)
            ∷ ("document_version", num r.document_version)
            ∷ ("evidence_sha256", text x.evidence_sha256)
            ∷ ("artifact_sha256", text x.artifact_sha256)
            ∷ []))
      modify (complete_request now x.auth_user_id x.artifact_sha256 r)
      pure done)
      t

module _ (env : Env) where
  open env use {lower, digest, hmac, show, evidence_sha256}

  -- The content that is stamped.
  unfoldable pub original_content : Bool → Admitted → Action (World env) Bytes
  original_content certificate a w = elim (env.get a.version.storage_key w.files) [
    | none ↦ (err (workflow_error "StorageError" 500), w)
    | some original ↦
        if not (str_eq (digest original) a.request.document_sha256)
        then (err (workflow_error "Document hash does not match the frozen request" 409), w)
        else elim (env.validate_pdf original a.version.original_filename) [
          | some e ↦ (err e, w)
          | none ↦
              if certificate && env.has_embedded_signatures original
              then (
                err (
                    workflow_error
                      "Uploaded PDF already has certificate signatures; this workflow cannot rewrite it safely"
                      409),
                w,
              )
              else (ok original, w)
        ]
  ]

  -- The timestamp of the mode that has one.
  unfoldable pub stamp_time : SignatureMode → Bytes → Option (Bytes × Option String)
  stamp_time serpro_timestamp content = elim (env.apply_timestamp content) [
    | none ↦ none
    | some x ↦ some (x.0, some x.1)
  ]
  stamp_time evidence content = some (content, none)
  stamp_time serproid content = some (content, none)

  -- The artifact: the stamped file, signed with the certificate, with its timestamp.
  unfoldable pub sign_artifact :
      Submission
      → SignatureRequestEntity
      → List (Evidence × String)
      → String
      → Bytes
      → Option (Bytes × Option String)
  sign_artifact p r stamps artifact_id original =
      elim (env.generate_signed_pdf original stamps r artifact_id) [
        | none ↦ none
        | some stamped ↦ elim p.certificate_signer [
          | none ↦ stamp_time r.signature_mode stamped
          | some f ↦ elim (f stamped) [
            | none ↦ none
            | some content ↦ stamp_time r.signature_mode content
          ]
        ]
      ]

  -- `_document_owner_storage_id`
  unfoldable pub document_owner_storage_id : DocumentEntity → Tables → ℕ
  document_owner_storage_id d t =
      account_storage_id env
        (elim (find
          (λ m. belongs d.tenant_id m && str_eq (lower m.auth_user_id) (lower d.created_by))
          t.core.members) [ none ↦ none | some m ↦ m.auth_user_uuid ])
        d.created_by

  -- The new row of `signatures`.
  abbrev pub new_signature :
      Instant → ℕ → Actor → Admitted → Evidence → String → Bytes → Option String → SignatureEntity
  new_signature now id actor a e key artifact timestamp = record {
    id = id;
    signature_request_id = a.request.id;
    signer_id = a.signer.id;
    auth_user_id = actor.subject;
    document_sha256 = a.request.document_sha256;
    signed_at = now;
    evidence = e;
    evidence_sha256 = evidence_sha256 e;
    artifact_storage_key = key;
    artifact_sha256 = digest artifact;
    trusted_timestamp = timestamp;
  }

  -- `sign` from the original content on: the artifact is put, and the rows are written.
  unfoldable pub store_signature :
      Instant
      → Drawn
      → Actor
      → Submission
      → IdentitySummary
      → Admitted
      → Bytes
      → Action (World env) SignerEntity
  store_signature now drawn actor p identity a original w =
      let e = signature_evidence_of env now actor p identity a in
      elim (sign_artifact p a.request (stamp_records env a.request.id e w.tables) drawn.artifact_id
        original) [
          | none ↦ (err (workflow_error "Signing failed" 500), w)
          | some x ↦
              with_object env a.document.tenant_id (document_owner_storage_id a.document w.tables)
                ("rubrica-" <> (show a.request.id <> "-signed.pdf")) (x.0)
                (λ key size.
                  insert_signature now (a.signer) (a.request)
                    (new_signature now drawn.signature_id actor a e key (x.0) (x.1)))
                w
        ]

  -- `sign` with the consent of the signer
  unfoldable pub sign_with_consent :
      Instant → Drawn → String → Actor → Submission → Action (World env) SignerEntity
  sign_with_consent now drawn token actor p = rollback env (do
    a ← in_tables env (admit_signature env now token actor (is_some p.certificate_signer))
    original ← original_content (is_some p.certificate_signer) a
    store_signature now drawn actor p (env.identity_summary actor.subject) a original)

  -- `sign`, with the random identifiers as an argument
  unfoldable pub sign :
      Instant → Drawn → String → Actor → Submission → Action (World env) SignerEntity
  sign now drawn token actor p w =
      if p.consent
      then sign_with_consent now drawn token actor p w
      else (err (workflow_error "Explicit consent is required" 400), w)
