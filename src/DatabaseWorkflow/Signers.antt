-- ===== src/DatabaseWorkflow/Signers.antt =====
-- The operations of `DatabaseSignatureWorkflowService` on signers, for those who ask for signatures.
use rubrica_back.Base.{
  ℕ, zero, suc, ◌+◌, String, Bool, false, ◌&&◌, ◌||◌, not, Option, none, some, List, [], ◌∷◌,
  str_eq, ◌==◌, if◌then◌else◌, is_none, is_some, find, any, keep, truthy,
}
use rubrica_back.Base.Actions.{
  ok, err, workflow_error, Action, pure, or_raise, raise_if, modify, transaction, ◌>>=◌, ◌>>◌,
}
use rubrica_back.Base.Dict.{lookup, values}
use rubrica_back.Store.{Instant, Member}
use rubrica_back.Billing.Access.{business_features_enabled}
use rubrica_back.Tenant.Members.{holds_seat, require_role}
use rubrica_back.Tenant.Identity.{is_business}
use rubrica_back.Workflow.Types.{SignerStatus, SignerCreate}
use rubrica_back.Workflow.Service.{is_signed}
use rubrica_back.Workflow.Requests.{is_draft, seconds}
use rubrica_back.DatabaseWorkflow.Tables.{
  SignatureRequestEntity, ParticipantRole, personal_signer, external_signer, company_representative,
  corporate_seal, RepresentationSnapshot, SignerEntity, Tables, instant, Env, Actor, caller_of,
  in_core, save_signer, record_audit,
}
use rubrica_back.DatabaseWorkflow.Access.{
  may_write, get_document, get_signer, issuer_snapshot, open_access,
}
use text.Mathlib.Text.{find?}

-- The payload of `add_signer`: that of the memory service, and a role.
pub record ParticipantCreate : Type 0 where
  pub signer : SignerCreate
  pub participant_role : ParticipantRole
  pub represented_tenant_id : Option ℕ

abbrev pub is_tenant : ℕ → Option ℕ → Bool
is_tenant t none = false
is_tenant t (some u) = t == u

-- The membership that lets a user represent the tenant.
abbrev pub may_represent : ℕ → String → Member → Bool
may_represent tenant_id email m =
    holds_seat tenant_id m && str_eq m.auth_user_id email && may_write m.role

-- A user signs a request once: the unique pair of `signers`, and its unique `signing_token_hash`.
abbrev pub violates_signer : SignerEntity → SignerEntity → Bool
violates_signer s old =
    (old.signature_request_id == s.signature_request_id && str_eq old.auth_user_id s.auth_user_id)
    || str_eq old.signing_token_hash s.signing_token_hash

-- `SignerContactRead`
pub record Contact : Type 0 where
  pub name : String
  pub email : String

abbrev pub contains_text : String → List String → Bool
contains_text a [] = false
contains_text a (x ∷ xs) = str_eq a x || contains_text a xs

abbrev pub is_within : String → String → Bool
is_within needle hay = is_some (find? hay needle)

module _ (env : Env) where
  open env use {lower, strip, digest_text}

  -- The representation of a company: the tests, and the snapshot that is kept of it.
  unfoldable pub represent :
      Instant
      → SignatureRequestEntity
      → Option ℕ
      → String
      → Action Tables (Option RepresentationSnapshot)
  unfolding get_document issuer_snapshot
  represent now r represented email = do
    d ← get_document r.document_id
    raise_if (not (is_tenant d.tenant_id represented))
        (workflow_error "The represented company must be the document tenant" 422)
    λ t. elim (lookup d.tenant_id t.core.tenants) [
      | none ↦ (err (workflow_error "Company representation requires a business tenant" 409), t)
      | some tenant ↦
          (do
            raise_if (not (is_business tenant.kind))
                (workflow_error "Company representation requires a business tenant" 409)
            raise_if (not (business_features_enabled now tenant.id t.core)) (
                workflow_error "A Professional or Team plan is required for company representation"
                  403)
            found ←
                or_raise (find (may_represent tenant.id email) t.core.members) (
                  workflow_error "The representative must be an active authorized tenant member"
                    422)
            pure (
                some (record {
                  issuer = issuer_snapshot tenant;
                  representative_role = found.role;
                  authorized_at = now;
                })))
            t
    ]

  -- The branches of `add_signer` by the role of the participant.
  unfoldable pub representation_of :
      Instant
      → SignatureRequestEntity
      → ParticipantCreate
      → String
      → Action Tables (Option RepresentationSnapshot)
  representation_of now r payload email t = elim payload.participant_role [
    | corporate_seal ↦ (
      err (
          workflow_error "Corporate seal requires a configured organizational credential provider"
            409),
      t,
    )
    | company_representative ↦ represent now r payload.represented_tenant_id email t
    | personal_signer ↦ (ok none, t)
    | external_signer ↦ (ok none, t)
  ]

  -- The new row of `add_signer`.
  abbrev pub new_signer :
      Instant → ℕ → String → ℕ → ParticipantCreate → Option RepresentationSnapshot → SignerEntity
  new_signer now id token request_id payload snapshot = record {
    id = id;
    signature_request_id = request_id;
    auth_user_id = lower payload.signer.email;
    name = payload.signer.name;
    email = lower payload.signer.email;
    preferred_locale = payload.signer.preferred_locale;
    signing_token_hash = digest_text token;
    token_expires_at = now + seconds payload.signer.token_ttl_seconds;
    link_revoked_at = none;
    status = SignerStatus.pending;
    signed_at = none;
    participant_role = payload.participant_role;
    represented_tenant_id = payload.represented_tenant_id;
    representation_snapshot = snapshot;
    deleted_at = none;
  }

  -- `add_signer`, with the identifier and the random token as arguments
  unfoldable pub add_signer :
      Instant → ℕ → String → ℕ → ParticipantCreate → Actor → Action Tables SignerEntity
  add_signer now id token request_id payload actor = transaction (do
    r ← open_access env now request_id actor
    raise_if (not (is_draft r.status))
        (workflow_error "Signers can only be added to a draft request" 409)
    snapshot ← representation_of now r payload (lower payload.signer.email)
    let s : SignerEntity = new_signer now id token r.id payload snapshot
    λ t.
        (do
          raise_if (any (violates_signer s) (values t.signers))
              (workflow_error "This authenticated user is already a signer" 409)
          modify (save_signer s)
          modify (
              record_audit now (some r.id) actor.subject "signer.link_created" "signer" id
                (("token_expires_at", instant s.token_expires_at) ∷ []))
          pure s)
          t)

  -- `revoke_signer_link`
  unfoldable pub revoke_signer_link : Instant → ℕ → ℕ → Actor → Action Tables SignerEntity
  unfolding get_signer
  revoke_signer_link now request_id signer_id actor = transaction (do
    r ← open_access env now request_id actor
    s ← get_signer signer_id r.id
    raise_if (is_signed s.status)
        (workflow_error "A completed signature link cannot be revoked" 409)
    elim s.link_revoked_at [
      | some _ ↦ pure s
      | none ↦ (do
        let revoked = record s { link_revoked_at = some now }
        modify (save_signer revoked)
        modify (record_audit now (some r.id) actor.subject "signer.link_revoked" "signer" s.id [])
        pure revoked)
    ])

  -- The loop of `list_signer_contacts`, with the number of contacts that are still wanted.
  unfoldable pub collect_contacts : String → List String → ℕ → List SignerEntity → List Contact
  collect_contacts search seen zero rows = []
  collect_contacts search seen (suc n) [] = []
  collect_contacts search seen (suc n) (s ∷ rows) =
      let email = lower (strip s.email) in
      let passed = collect_contacts search seen (suc n) rows in
      let taken = collect_contacts search (email ∷ seen) n rows in
      if contains_text email seen
        || (is_some (truthy (some search))
            && not (is_within search (lower s.name))
            && not (is_within search email))
      then passed
      else (record { name = s.name; email = email }) ∷ taken

  -- The rows that `list_signer_contacts` selects.
  abbrev pub is_contact_of : ℕ → Tables → SignerEntity → Bool
  is_contact_of tenant_id t s =
      is_none s.deleted_at && elim (lookup s.signature_request_id t.requests) [
        | none ↦ false
        | some r ↦ elim (lookup r.document_id t.documents) [
          | none ↦ false
          | some d ↦ d.tenant_id == tenant_id
        ]
      ]

  -- `list_signer_contacts`; `by_age` puts the signers in the order of the query.
  unfoldable pub list_signer_contacts :
      (List SignerEntity → List SignerEntity)
      → Instant
      → ℕ
      → Actor
      → String
      → Action Tables (List Contact)
  list_signer_contacts by_age now tenant_id actor query = do
    in_core (require_role now tenant_id (caller_of env actor) may_write false)
    λ t. (
      ok (
          collect_contacts (lower (strip query)) [] 50
            (by_age (keep (is_contact_of tenant_id t) (values t.signers)))),
      t,
    )
