-- ===== src/DatabaseWorkflow/Links.antt =====
-- The operations of `DatabaseSignatureWorkflowService` behind a signing link, but for signing.
use rubrica_back.Base.{
  ℕ, String, Bool, true, false, ◌&&◌, not, Option, none, some, List, [], ◌∷◌, str_eq, leb, ltb,
  ◌==◌, if◌then◌else◌, is_none, find, keep,
}
use rubrica_back.Base.Actions.{
  ok, err, workflow_error, Action, pure, or_raise, raise_if, modify, transaction, ◌>>=◌, ◌>>◌,
}
use rubrica_back.Base.Dict.{lookup, values}
use rubrica_back.Store.{Instant}
use rubrica_back.Workflow.Types.{viewed, declined, Bytes, StampPosition}
use rubrica_back.Workflow.Service.{is_answered}
use rubrica_back.Workflow.Signing.{is_pending}
use rubrica_back.DatabaseWorkflow.Tables.{
  DocumentVersionEntity, IssuerSnapshot, SignatureRequestEntity, SignerEntity, SignatureEntity,
  Tables, Env, Actor, World, save_signer, record_audit,
}
use rubrica_back.DatabaseWorkflow.Access.{
  get_document, get_request_row, signs_for, RequestRead, request_read, require_request_access,
  request_from_token, find_signer, resolve_request,
}
use rubrica_back.DatabaseWorkflow.Documents.{is_version, in_tables, read_version}

-- `SigningRead`
pub record SigningRead : Type 0 where
  pub request : RequestRead
  pub signer : SignerEntity
  pub document_title : String
  pub original_filename : String
  pub account_country : Option String
  pub stamp : Option StampPosition
  pub administrative_view : Bool
  pub issuer : IssuerSnapshot

abbrev pub is_signature_of : ℕ → ℕ → SignatureEntity → Bool
is_signature_of request_id signer_id x =
    x.signature_request_id == request_id && x.signer_id == signer_id

-- `ORDER BY signed_at DESC NULLS LAST, id LIMIT 1`, on rows in the order of their identifiers.
abbrev pub signed_later : SignerEntity → SignerEntity → Bool
signed_later a b = elim a.signed_at [
  | none ↦ false
  | some x ↦ elim b.signed_at [ none ↦ true | some y ↦ not (leb x y) ]
]

unfoldable pub latest_signer : List SignerEntity → Option SignerEntity
latest_signer [] = none
latest_signer (s ∷ rest) = elim (latest_signer rest) [
  | none ↦ some s
  | some best ↦ if signed_later best s then some best else some s
]

-- The signature of the request with the greatest identifier; each has an artifact.
unfoldable pub last_signature : ℕ → List SignatureEntity → Option SignatureEntity
last_signature i [] = none
last_signature i (x ∷ rest) =
    let found = last_signature i rest in
    if x.signature_request_id == i
    then elim found [ none ↦ some x | some y ↦ if ltb y.id x.id then some x else some y ]
    else found

module _ (env : Env) where
  -- The request that a reader of a link sees: an administrator needs access to it unless he is one
  -- of its signers; anybody else is one of its signers.
  unfoldable pub linked_request :
      Instant → String → Actor → Bool → Action Tables SignatureRequestEntity
  linked_request now token actor administrator t = elim administrator [
    | false ↦ (do (s, r) ← resolve_request env now token actor true; pure r) t
    | true ↦
        (do
          r ← request_from_token env token
          λ u. elim (find_signer env r.id actor.subject u) [
            | some _ ↦ (ok r, u)
            | none ↦ (do require_request_access env now r actor; pure r) u
          ])
          t
  ]

  -- The signer that `signing_context` shows: for an administrator who does not sign, the last one
  -- who has signed.
  unfoldable pub shown_signer :
      Instant → String → Actor → Bool → Action Tables (Bool × SignerEntity × SignatureRequestEntity)
  unfolding latest_signer
  shown_signer now token actor administrator = do
    r ← request_from_token env token
    λ t.
        let administrative_view = administrator && is_none (find_signer env r.id actor.subject t) in
        elim administrative_view [
          | true ↦
              (do
                require_request_access env now r actor
                s ←
                    or_raise (latest_signer (keep (signs_for r.id) (values t.signers)))
                      (workflow_error "Signature request has no signers" 409)
                pure (true, s, r))
                t
          | false ↦ (do (s, q) ← resolve_request env now token actor true; pure (false, s, q)) t
        ]

  -- `signing_context`
  unfoldable pub signing_context : Instant → String → Actor → Bool → Action Tables SigningRead
  unfolding get_document
  signing_context now token actor administrator = do
    (administrative_view, s, r) ← shown_signer now token actor administrator
    d ← get_document r.document_id
    λ t. (
      ok (record {
        request = request_read r t;
        signer = s;
        document_title = d.title;
        original_filename = d.original_filename;
        account_country = elim (lookup d.tenant_id t.core.tenants) [
          | none ↦ none
          | some x ↦ x.country_code
        ];
        stamp =
            if administrative_view
            then none
            else elim (find (is_signature_of r.id s.id) t.signatures) [
              | none ↦ none
              | some x ↦ some x.evidence.stamp
            ];
        administrative_view = administrative_view;
        issuer = r.issuer_snapshot;
      }),
      t,
    )

  -- `signing_document`
  unfoldable pub signing_document :
      Instant → String → Actor → Bool → Action (World env) (DocumentVersionEntity × Bytes)
  unfolding read_version
  signing_document now token actor administrator = do
    v ← in_tables env (do
      r ← linked_request now token actor administrator
      λ t.
          or_raise (find (is_version r.document_id r.document_version) t.versions)
            (workflow_error "Document version not found" 404) t)
    read_version env v

  -- `view`
  unfoldable pub view : Instant → String → Actor → Action Tables SignerEntity
  view now token actor = transaction (do
    (s, r) ← resolve_request env now token actor false
    elim (is_pending s.status) [
      | false ↦ pure s
      | true ↦ (do
        let seen = record s { status = viewed }
        modify (save_signer seen)
        modify (record_audit now (some r.id) actor.subject "document.viewed" "signer" s.id [])
        pure seen)
    ])

  -- `decline`
  unfoldable pub decline : Instant → String → Actor → Action Tables SignerEntity
  decline now token actor = transaction (do
    (s, r) ← resolve_request env now token actor false
    raise_if (is_answered s.status) (workflow_error "Signer already answered" 409)
    let refused = record s { status = declined }
    modify (save_signer refused)
    modify (record_audit now (some r.id) actor.subject "signature.declined" "signer" s.id [])
    pure refused)

  -- The artifact of the signature with the greatest identifier, whose digest is compared.
  unfoldable pub read_artifact : ℕ → Action (World env) (String × Bytes)
  unfolding last_signature
  read_artifact request_id w = elim (last_signature request_id w.tables.signatures) [
    | none ↦ (err (workflow_error "Signed document is not available" 404), w)
    | some x ↦ elim (env.get x.artifact_storage_key w.files) [
      | none ↦ (err (workflow_error "StorageError" 500), w)
      | some content ↦
          if str_eq (env.digest content) x.artifact_sha256
          then (ok (x.artifact_sha256, content), w)
          else (err (workflow_error "Signed document integrity check failed" 409), w)
    ]
  ]

  -- `signed_document`; the actor may be left out.
  unfoldable pub signed_document : Instant → ℕ → Option Actor → Action (World env) (String × Bytes)
  unfolding get_request_row
  signed_document now request_id actor = do
    r ← in_tables env (do
      r ← get_request_row request_id
      elim actor [ none ↦ pure tt | some a ↦ require_request_access env now r a ]
      pure r)
    read_artifact r.id

  -- `signing_signed_document`
  unfoldable pub signing_signed_document :
      Instant → String → Actor → Bool → Action (World env) (String × Bytes)
  signing_signed_document now token actor administrator = do
    r ← in_tables env (linked_request now token actor administrator)
    signed_document now r.id none
