-- ===== src/DatabaseWorkflow/SigningSteps.antt =====
-- `sign` keeps the tables sound, and completes a request only when all of its signers have signed.
use rubrica_back.Base.{
  ℕ, ◌≡◌, refl, String, Bool, true, false, some, List, [], ◌∷◌, ◌++◌, any, subst, if_either, inl,
  inr, Bool-cases, arith, is_some, is_none,
}
use rubrica_back.Base.Actions.{
  Result, ok, err, workflow_error, After, bind-After, Action, returned-After, ◌>>=◌,
}
use rubrica_back.Base.Dict.{lookup, insert, lookup-insert}
use rubrica_back.Base.Keyed.{lookup-key, insert-IsTable, count-lookup}
use rubrica_back.Store.{Instant}
use rubrica_back.Workflow.Types.{signed, Bytes}
use rubrica_back.DatabaseWorkflow.Lookups.{get_document-Finds, Resolves, resolve_request-Resolves}
use rubrica_back.Workflow.Service.{is_signed, is_open}
use rubrica_back.DatabaseWorkflow.Tables.{
  SignatureRequestEntity, SignerEntity, SignatureEntity, AuditEventEntity, num, text, save_signer,
  record_audit, Tables, Env, IdentitySummary, Actor, World,
}
use rubrica_back.DatabaseWorkflow.Documents.{in_tables}
use rubrica_back.DatabaseWorkflow.Rollback.{rollback-After}
use rubrica_back.DatabaseWorkflow.Access.{resolve_request}
use rubrica_back.DatabaseWorkflow.Evidence.{Submission, Drawn, Admitted}
use rubrica_back.DatabaseWorkflow.Admission.{
  is_waiting, check_signer, frozen_version, check_representation, admit_signer, admit_signature,
}
use rubrica_back.DatabaseWorkflow.Signing.{
  original_content, store_signature, sign_with_consent, sign, complete_request, insert_signature,
  violates_signature,
}
use rubrica_back.DatabaseWorkflow.Invariants.{IsKeyed, Keeps, Keeps-refl, Keeps-trans, Keeps-same}

ruleset signing_rows = (arith, lookup-insert, insert-IsTable, lookup-key)

module _ (t : Tables) (keyed : IsKeyed t) (now : ℕ) (actor : String) (i j : ℕ) where
  -- The last signature: the request is open, and one who has not signed keeps it open.
  complete_request-Keeps :
      (artifact : String) (r : SignatureRequestEntity)
      → lookup r.id t.requests ≡ some r
      → is_open r.status ≡ true
      → Keeps i j t (complete_request now actor artifact r t)
  unfolding complete_request
  complete_request-Keeps artifact r known allowed = grind (
    signing_rows,
    count-lookup (is_waiting r.id) j,
    keyed.requests_keyed,
    keyed.documents_keyed,
    keyed.signers_keyed,
    Keeps-refl i j t keyed,
  )

  signed-Keeps :
      (s : SignerEntity) (signatures : List SignatureEntity) (audit : List AuditEventEntity)
      → is_signed s.status ≡ true
      → Keeps i j t
          (record t { signers = insert s.id s t.signers; signatures = signatures; audit = audit })
  signed-Keeps s signatures audit done = grind (
    signing_rows,
    keyed.requests_keyed,
    keyed.documents_keyed,
    keyed.signers_keyed,
    Keeps-refl i j t keyed,
  )

module _ (t : Tables) (keyed : IsKeyed t) (now : ℕ) (i j : ℕ) where
  pub insert_signature-Keeps :
      (s : SignerEntity) (r : SignatureRequestEntity) (x : SignatureEntity)
      → lookup r.id t.requests ≡ some r
      → is_open r.status ≡ true
      → Keeps i j t (insert_signature now s r x t).1
  unfolding insert_signature
  insert_signature-Keeps s r x known allowed =
      let done = record s { status = signed; signed_at = some now } in
      let u =
        record_audit now (some r.id) x.auth_user_id "signature.completed" "signer" s.id
          (("document_sha256", text r.document_sha256)
            ∷ ("document_version", num r.document_version)
            ∷ ("evidence_sha256", text x.evidence_sha256)
            ∷ ("artifact_sha256", text x.artifact_sha256)
            ∷ [])
          (save_signer done (record t { signatures = t.signatures ++ x ∷ [] })) in
      let first = signed-Keeps t keyed now x.auth_user_id i j done u.signatures u.audit refl in
      let last =
        complete_request-Keeps u first.keeps_keyed now x.auth_user_id i j x.artifact_sha256 r known
          allowed in
      elim (Bool-cases (any (violates_signature x) t.signatures)) [
        | inl taken ↦ rw taken (Keeps-refl i j t keyed)
        | inr free ↦ rw free (
            Keeps-trans i j t u (complete_request now x.auth_user_id x.artifact_sha256 r u) first
              last)
      ]

-- What `admit_signature` leaves: the same rows, and a stored request that is open.
abbrev pub Admits : Tables → Result Admitted × Tables → Type 0
Admits t (ok a, t') =
    (t'.documents ≡ t.documents)
    × (t'.requests ≡ t.requests)
    × (t'.signers ≡ t.signers)
    × (lookup a.request.id t.requests ≡ some a.request)
    × (is_open a.request.status ≡ true)
    × (is_none a.request.deleted_at ≡ true)
    × (a.signer.signature_request_id ≡ a.request.id)
    × (t'.signatures ≡ t.signatures)
Admits t (err _, t') = Unit

abbrev pub Takes :
    SignerEntity → SignatureRequestEntity → Tables → Result Admitted × Tables → Type 0
Takes s r t (ok a, t') =
    (t'.documents ≡ t.documents)
    × (t'.requests ≡ t.requests)
    × (t'.signers ≡ t.signers)
    × (a.request ≡ r)
    × (a.signer ≡ s)
    × (t'.signatures ≡ t.signatures)
Takes s r t (err _, t') = Unit

module _ (env : Env) where
  check_signer_state :
      (certificate : Bool) (s : SignerEntity) (r : SignatureRequestEntity) (u t : Tables)
      → (check_signer certificate s r u t).1 ≡ t
  unfolding check_signer
  check_signer_state certificate s r u t = grind arith

  frozen_version_state : (r : SignatureRequestEntity) (t : Tables) → (frozen_version r t).1 ≡ t
  unfolding frozen_version
  frozen_version_state r t = grind arith

  check_representation_state :
      (s : SignerEntity) (actor : Actor) (t : Tables) → (check_representation env s actor t).1 ≡ t
  unfolding check_representation
  check_representation_state s actor t = grind arith

  admit_signer_lem :
      (now : Instant) (actor : Actor) (certificate : Bool) (s : SignerEntity)
      (r : SignatureRequestEntity) (t : Tables)
      → Takes s r t (admit_signer env now actor certificate s r t)
  unfolding admit_signer
  admit_signer_lem now actor certificate s r t = grind (
    arith, check_signer_state, frozen_version_state, get_document-Finds, check_representation_state,
  )

  resolved-Admits :
      (now : Instant) (actor : Actor) (certificate : Bool) (t u : Tables)
      (found : Result (SignerEntity × SignatureRequestEntity) × Tables)
      → Resolves false t found
      → Admits t
          (((λ (_ : Tables). found) >>= λ (s, r). admit_signer env now actor certificate s r) u)
  resolved-Admits now actor certificate t u (err e, t') h = tt
  resolved-Admits now actor certificate t u (ok (s, r), t') h =
      grind (arith, admit_signer_lem now actor certificate s r t', h)

  pub admit_signature-Admits :
      (now : Instant) (token : String) (actor : Actor) (certificate : Bool) (t : Tables)
      → IsKeyed t
      → Admits t (admit_signature env now token actor certificate t)
  unfolding admit_signature
  admit_signature-Admits now token actor certificate t keyed =
      resolved-Admits now actor certificate t t (resolve_request env now token actor false t)
        (resolve_request-Resolves env now token actor false t keyed)

  pub original_content_state :
      (certificate : Bool) (a : Admitted) (w : World env)
      → (original_content env certificate a w).1 ≡ w
  unfolding original_content
  original_content_state certificate a w = grind arith

  module _ (i j : ℕ) where
    store_signature-Keeps :
        (now : Instant) (drawn : Drawn) (actor : Actor) (p : Submission)
        (identity : IdentitySummary) (a : Admitted) (original : Bytes) (w : World env)
        → IsKeyed w.tables
        → lookup a.request.id w.tables.requests ≡ some a.request
        → is_open a.request.status ≡ true
        → Keeps i j w.tables (store_signature env now drawn actor p identity a original w).1.tables
    unfolding store_signature
    store_signature-Keeps now drawn actor p identity a original w keyed known allowed = grind (
      arith,
      Keeps-refl i j w.tables keyed,
      insert_signature-Keeps w.tables keyed now i j a.signer a.request,
    )

    -- `sign` from its admission on.
    admitted-After :
        (now : Instant) (drawn : Drawn) (actor : Actor) (p : Submission)
        (identity : IdentitySummary) (a : Admitted) (w v : World env)
        → IsKeyed w.tables
        → Admits w.tables (ok a, v.tables)
        → After
            (λ x. Keeps i j w.tables x.tables)
            ((do
              original ← original_content env (is_some p.certificate_signer) a
              store_signature env now drawn actor p identity a original)
              v)
    admitted-After now drawn actor p identity a w v keyed h =
        let same = Keeps-same i j w.tables v.tables keyed (h.0) (h.1) (h.2) in
        let read = original_content_state (is_some p.certificate_signer) a v in
        bind-After (λ x. Keeps i j w.tables x.tables)
          (original_content env (is_some p.certificate_signer) a v)
          (λ original. store_signature env now drawn actor p identity a original) v
          (λ original got. rw read (
            returned-After (λ x. Keeps i j w.tables x.tables)
              (store_signature env now drawn actor p identity a original v)
              (Keeps-trans i j w.tables v.tables
                (store_signature env now drawn actor p identity a original v).1.tables same
                (store_signature-Keeps now drawn actor p identity a original v same.keeps_keyed
                  (ground (arith, h)) (h.4)))))

    sign_with_consent-Keeps :
        (now : Instant) (drawn : Drawn) (token : String) (actor : Actor) (p : Submission)
        (w : World env)
        → IsKeyed w.tables
        → Keeps i j w.tables (sign_with_consent env now drawn token actor p w).1.tables
    unfolding sign_with_consent
    sign_with_consent-Keeps now drawn token actor p w keyed =
        let certificate = is_some p.certificate_signer in
        let rest : Admitted → Action (World env) SignerEntity = λ a. (do
          original ← original_content env certificate a
          store_signature env now drawn actor p (env.identity_summary actor.subject) a original) in
        let admit : Action (World env) Admitted =
          in_tables env (admit_signature env now token actor certificate) in
        let admitted = admit_signature-Admits now token actor certificate w.tables keyed in
        rollback-After env (Keeps i j w.tables) w ((admit >>= rest) w)
          (Keeps-refl i j w.tables keyed)
          (bind-After (λ x. Keeps i j w.tables x.tables) (admit w) rest w
            (λ a e.
              admitted-After now drawn actor p (env.identity_summary actor.subject) a w (admit w).1
                keyed (subst (λ r. Admits w.tables (r, (admit w).1.tables)) e admitted)))

    pub sign-Keeps :
        (now : Instant) (drawn : Drawn) (token : String) (actor : Actor) (p : Submission)
        (w : World env)
        → IsKeyed w.tables
        → Keeps i j w.tables (sign env now drawn token actor p w).1.tables
    unfolding sign
    sign-Keeps now drawn token actor p w keyed =
        if_either (λ x. Keeps i j w.tables x.1.tables) p.consent
          (sign_with_consent env now drawn token actor p w)
          (err (workflow_error "Explicit consent is required" 400), w)
          (sign_with_consent-Keeps now drawn token actor p w keyed) (Keeps-refl i j w.tables keyed)
