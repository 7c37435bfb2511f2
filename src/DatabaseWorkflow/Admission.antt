-- ===== src/DatabaseWorkflow/Admission.antt =====
-- What `sign` of the database service tests before it signs.
use rubrica_back.Base.{
  ℕ, String, Bool, true, false, ◌&&◌, not, Option, none, some, str_eq, ◌==◌, if◌then◌else◌, find,
  any, count,
}
use rubrica_back.Base.Actions.{ok, err, workflow_error, Action, raise_if, ◌>>=◌, ◌>>◌}
use rubrica_back.Base.Dict.{lookup, values}
use rubrica_back.Store.{Instant, Member}
use rubrica_back.Billing.Account.{consume_signature}
use rubrica_back.Tenant.Members.{holds_seat, is_member_of}
use rubrica_back.Workflow.Types.{SignatureMode, serproid}
use rubrica_back.Workflow.Service.{is_signed, is_answered}
use rubrica_back.DatabaseWorkflow.Evidence.{Admitted}
use rubrica_back.DatabaseWorkflow.Tables.{
  DocumentVersionEntity, SignatureRequestEntity, company_representative, SignerEntity, Tables, Env,
  Actor, caller_of, in_core,
}
use rubrica_back.DatabaseWorkflow.Access.{may_write, get_document, signs_for, resolve_request}
use rubrica_back.DatabaseWorkflow.Documents.{is_version}
use rubrica_back.DatabaseWorkflow.Signers.{is_tenant}

abbrev pub is_serproid : SignatureMode → Bool
is_serproid serproid = true
is_serproid _ = false

-- A signer of the request who has not signed.
abbrev pub is_waiting : ℕ → SignerEntity → Bool
is_waiting request_id s = signs_for request_id s && not (is_signed s.status)

-- The tests of `sign` on the signer, the mode and the certificate.
unfoldable pub check_signer :
    Bool → SignerEntity → SignatureRequestEntity → Tables → Action Tables (Unit {0})
check_signer certificate s r t = (do
  raise_if (is_signed s.status) (workflow_error "Signer has already signed" 409)
  raise_if (is_serproid r.signature_mode && not certificate)
      (workflow_error "This request requires a Serpro ID certificate signature" 409)
  raise_if (not (is_serproid r.signature_mode) && certificate)
      (workflow_error "This request does not accept a Serpro ID certificate signature" 409)
  raise_if (certificate && is_answered s.status)
      (workflow_error "Signer cannot authorize a certificate signature in the current state" 409)
  raise_if (certificate && not (count (is_waiting r.id) (values t.signers) == 1))
      (workflow_error "Certificate signing must be the final signature on this PDF" 409))

-- The version that the request froze, with the digest that it froze.
unfoldable pub frozen_version : SignatureRequestEntity → Action Tables DocumentVersionEntity
frozen_version r t = elim (find (is_version r.document_id r.document_version) t.versions) [
  | none ↦ (err (workflow_error "Document hash does not match the frozen request" 409), t)
  | some v ↦
      if str_eq v.sha256 r.document_sha256
      then (ok v, t)
      else (err (workflow_error "Document hash does not match the frozen request" 409), t)
]

module _ (env : Env) where
  open env use {lower, digest, hmac, show, evidence_sha256}

  -- The membership that still lets the signer represent the company.
  abbrev pub represents : Option ℕ → Actor → Member → Bool
  represents represented actor m =
      is_tenant m.tenant_id represented
      && holds_seat m.tenant_id m
      && is_member_of (caller_of env actor) m
      && may_write m.role

  -- The test of a company's representative.
  unfoldable pub check_representation : SignerEntity → Actor → Action Tables (Unit {0})
  check_representation s actor t = elim s.participant_role [
    | company_representative ↦
        raise_if (not (any (represents s.represented_tenant_id actor) t.core.members))
          (workflow_error "Company representation authorization is no longer active" 403) t
    | _ ↦ (ok tt, t)
  ]

  -- The tests of `sign` on what the link resolves to, and a signature of the allowance.
  unfoldable pub admit_signer :
      Instant → Actor → Bool → SignerEntity → SignatureRequestEntity → Action Tables Admitted
  admit_signer now actor certificate s r t =
      (do
        check_signer certificate s r t
        v ← frozen_version r
        d ← get_document r.document_id
        check_representation s actor
        in_core (consume_signature now d.tenant_id)
        λ u. (
          ok (record {
            signer = s;
            request = r;
            version = v;
            document = d;
            tenant_country = elim (lookup d.tenant_id t.core.tenants) [
              | none ↦ none
              | some x ↦ x.country_code
            ];
          }),
          u,
        ))
        t

  -- `sign` up to the storage
  unfoldable pub admit_signature : Instant → String → Actor → Bool → Action Tables Admitted
  admit_signature now token actor certificate = do
    (s, r) ← resolve_request env now token actor false
    admit_signer now actor certificate s r
