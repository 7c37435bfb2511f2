-- ===== src/DatabaseWorkflow/Refusal.antt =====
-- A call that raises: the tables stay as they were, and no stored object is lost.
use Prim.Native.String.{◌++◌ as ◌<>◌}
use rubrica_back.Base.{
  ℕ, ◌≡◌, ◌≢◌, ◌∙◌, refl, if_either, option_either, String, Option, some, [], ◌∷◌, arith, is_some,
}
use rubrica_back.Base.Actions.{Result, ok, err, workflow_error, Action, ◌>>=◌}
use rubrica_back.Store.{Instant, Tenant, Member}
use rubrica_back.Workflow.Types.{Bytes, DocumentCreate}
use rubrica_back.DatabaseWorkflow.Tables.{
  DocumentEntity, IdentitySummary, SignerEntity, Tables, Env, Actor, World,
}
use rubrica_back.DatabaseWorkflow.Access.{DocumentRead}
use rubrica_back.DatabaseWorkflow.Documents.{
  with_object, placed, rollback, in_tables, account_storage_id, admit_upload, insert_document,
  create_document, admit_version, insert_version, add_version,
}
use rubrica_back.DatabaseWorkflow.Evidence.{
  Submission, Drawn, Admitted, signature_evidence_of, stamp_records,
}
use rubrica_back.DatabaseWorkflow.Admission.{admit_signature}
use rubrica_back.DatabaseWorkflow.Signing.{
  document_owner_storage_id, sign_artifact, insert_signature, new_signature, original_content,
  store_signature, sign_with_consent, sign,
}
use rubrica_back.DatabaseWorkflow.SigningSteps.{original_content_state}
use rubrica_back.DatabaseWorkflow.Storage.{StorageLaws}

module _ (env : Env) where
  -- Every object that could be read can still be read.
  abbrev pub Holds : env.Files → env.Files → Type 0
  Holds f g =
      (key : String) (content : Bytes) → env.get key f ≡ some content → env.get key g ≡ some content

  -- What a call leaves: no object is lost, and where it raised, the tables are as they were.
  abbrev pub Atomic : {A : Type 0} → World env → Result A × World env → Type 0
  Atomic w (ok _, v) = Holds w.files v.files
  Atomic w (err _, v) = Holds w.files v.files × (v.tables ≡ w.tables)

  rollback-Atomic :
      {A : Type 0} (w : World env) (m : Result A × World env)
      → Holds w.files m.1.files
      → Atomic w (rollback env (λ _. m) w)
  rollback-Atomic w (ok a, v) h = h
  rollback-Atomic w (err e, v) h = (h, refl)

  module _ (laws : StorageLaws env) where
    placed-Holds :
        {A : Type 0} (f : env.Files) (m : Result A × Tables) (g h : env.Files)
        → Holds f g
        → Holds f h
        → Holds f (placed env m g h).1.files
    placed-Holds f (ok a, t) g h p q = p
    placed-Holds f (err e, t) g h p q = q

    with_object-Holds :
        {A : Type 0} (tenant_id account_id : ℕ) (filename : String) (content : Bytes)
        (rest : String → ℕ → Action Tables A) (w : World env)
        → Holds w.files (with_object env tenant_id account_id filename content rest w).1.files
    with_object-Holds tenant_id account_id filename content rest w =
        let stored = env.put tenant_id account_id filename content w.files in
        let other : (key : String) (c : Bytes) → env.get key w.files ≡ some c → key ≢ stored.0.0 =
          λ key c e same.
            ground (arith, laws.put_fresh tenant_id account_id filename content w.files, e, same) in
        let kept : Holds w.files (stored.1) = λ key c e.
          laws.put_other tenant_id account_id filename content w.files key (other key c e) ∙ e in
        placed-Holds w.files (rest (stored.0.0) (stored.0.1) w.tables) (stored.1)
          (env.discard_uncommitted (stored.0.0) (stored.1)) kept
          (λ key c e. laws.discard_other (stored.0.0) key (stored.1) (other key c e) ∙ kept key c e)

    -- A refused test ends the call with the files as they are; a passed one hands them on.
    bound-Holds :
        {A B : Type 0} (w : World env) (m : Result A × World env) (f : A → Action (World env) B)
        (u : World env)
        → m.1.files ≡ w.files
        → ((a : A) → Holds m.1.files (f a m.1).1.files)
        → Holds w.files (((λ (_ : World env). m) >>= f) u).1.files
    bound-Holds w (ok a, v) f u same h = λ key c e. h a key c (ground (arith, same, e))
    bound-Holds w (err x, v) f u same h = λ key c e. ground (arith, same, e)

    store_signature-Holds :
        (now : Instant) (drawn : Drawn) (actor : Actor) (p : Submission)
        (identity : IdentitySummary) (a : Admitted) (original : Bytes) (w : World env)
        → Holds w.files (store_signature env now drawn actor p identity a original w).1.files
    unfolding store_signature
    store_signature-Holds now drawn actor p identity a original w =
        let e = signature_evidence_of env now actor p identity a in
        let owner : ℕ = document_owner_storage_id env a.document w.tables in
        let filename : String = "rubrica-" <> (env.show a.request.id <> "-signed.pdf") in
        let rest : Bytes × Option String → String → ℕ → Action Tables SignerEntity = λ x key size.
          insert_signature now (a.signer) (a.request)
            (new_signature env now drawn.signature_id actor a e key (x.0) (x.1)) in
        option_either (λ (r : Result SignerEntity × World env). Holds w.files r.1.files)
          (sign_artifact env p a.request (stamp_records env a.request.id e w.tables)
            drawn.artifact_id original)
          (err (workflow_error "Signing failed" 500), w)
          (λ x. with_object env a.document.tenant_id owner filename (x.0) (rest x) w) (λ key c h. h)
          (λ x. with_object-Holds a.document.tenant_id owner filename (x.0) (rest x) w)

    sign_with_consent-Atomic :
        (now : Instant) (drawn : Drawn) (token : String) (actor : Actor) (p : Submission)
        (w : World env)
        → Atomic w (sign_with_consent env now drawn token actor p w)
    unfolding sign_with_consent
    sign_with_consent-Atomic now drawn token actor p w =
        let certificate = is_some p.certificate_signer in
        let identity = env.identity_summary actor.subject in
        let store : Admitted → Bytes → Action (World env) SignerEntity =
          store_signature env now drawn actor p identity in
        let rest : Admitted → Action (World env) SignerEntity =
          λ a. original_content env certificate a >>= store a in
        let admit : Action (World env) Admitted =
          in_tables env (admit_signature env now token actor certificate) in
        rollback-Atomic w ((admit >>= rest) w) (
          bound-Holds w (admit w) rest w refl (λ a.
            bound-Holds (admit w).1 (original_content env certificate a (admit w).1) (store a)
              (admit w).1 (rw (original_content_state env certificate a (admit w).1) refl)
              (λ original.
                store_signature-Holds now drawn actor p identity a original
                  (original_content env certificate a (admit w).1).1)))

    -- Where the storage draws fresh keys and leaves other objects alone: `sign` loses no stored
    -- object, and where it raises, it leaves the tables as they were: no signature, no status, no
    -- use of the allowance and no audit event.
    pub sign-Atomic :
        (now : Instant) (drawn : Drawn) (token : String) (actor : Actor) (p : Submission)
        (w : World env)
        → Atomic w (sign env now drawn token actor p w)
    unfolding sign
    sign-Atomic now drawn token actor p w =
        if_either (Atomic w) p.consent (sign_with_consent env now drawn token actor p w)
          (err (workflow_error "Explicit consent is required" 400), w)
          (sign_with_consent-Atomic now drawn token actor p w) (λ key c h. h, refl)

    module _ (now : Instant) (w : World env) where
      create_document-Atomic :
          (id : ℕ) (payload : DocumentCreate) (user_id : Option ℕ) (content : Bytes)
          → Atomic w (create_document env now id payload user_id content w)
      unfolding create_document
      create_document-Atomic id payload user_id [] = (λ key c h. h, refl)
      create_document-Atomic id payload user_id (b ∷ bs) =
          let actor : Actor = record { subject = payload.created_by; user_id = user_id } in
          let admit : Action (World env) (Tenant × Member) =
            in_tables env (admit_upload env now payload actor) in
          let rest : Tenant × Member → Action (World env) DocumentRead = λ (tenant, uploader).
            with_object env tenant.id
              (account_storage_id env uploader.auth_user_uuid payload.created_by)
              payload.original_filename (b ∷ bs)
              (insert_document env now id payload tenant.id (b ∷ bs)) in
          rollback-Atomic w ((admit >>= rest) w) (
            bound-Holds w (admit w) rest w refl (λ a.
              with_object-Holds (a.0.id)
                (account_storage_id env a.1.auth_user_uuid payload.created_by)
                payload.original_filename (b ∷ bs)
                (insert_document env now id payload (a.0.id) (b ∷ bs)) (admit w).1))

      add_version-Atomic :
          (k : ℕ) (filename content_type : String) (actor : Actor) (content : Bytes)
          → Atomic w (add_version env now k filename content_type actor content w)
      unfolding add_version
      add_version-Atomic k filename content_type actor [] = (λ key c h. h, refl)
      add_version-Atomic k filename content_type actor (b ∷ bs) =
          let admit : Action (World env) (DocumentEntity × Member) =
            in_tables env (admit_version env now k actor) in
          let rest : DocumentEntity × Member → Action (World env) DocumentRead = λ (d, uploader).
            with_object env d.tenant_id
              (account_storage_id env uploader.auth_user_uuid actor.subject) filename (b ∷ bs)
              (insert_version env now d filename content_type actor.subject (b ∷ bs)) in
          rollback-Atomic w ((admit >>= rest) w) (
            bound-Holds w (admit w) rest w refl (λ a.
              with_object-Holds (a.0.tenant_id)
                (account_storage_id env a.1.auth_user_uuid actor.subject) filename (b ∷ bs)
                (insert_version env now (a.0) filename content_type actor.subject (b ∷ bs))
                (admit w).1))

      -- Where the storage draws fresh keys and leaves other objects alone: `create_document` and
      -- `add_version` lose no stored object, and where one of them raises, it leaves the tables as
      -- they were: no document, no version and no use of the allowance.
      pub upload-Atomic :
          (id : ℕ) (payload : DocumentCreate) (user_id : Option ℕ) (filename content_type : String)
          (actor : Actor) (content : Bytes)
          → Atomic w (create_document env now id payload user_id content w)
            × Atomic w (add_version env now id filename content_type actor content w)
      upload-Atomic id payload user_id filename content_type actor content = (
        create_document-Atomic id payload user_id content,
        add_version-Atomic id filename content_type actor content,
      )
