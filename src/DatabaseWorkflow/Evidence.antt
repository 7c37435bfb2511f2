-- ===== src/DatabaseWorkflow/Evidence.antt =====
-- The evidence of a signature: `_signature_evidence`, what it is made of, and the stamps.
use Prim.Native.String.{◌++◌ as ◌<>◌}
use rubrica_back.Base.{
  ℕ, zero, suc, String, Bool, ◌||◌, Option, none, some, List, [], ◌∷◌, ◌++◌, map, str_eq, ◌==◌, leb,
  if◌then◌else◌, is_some, keep, or_else, truthy, get_or,
}
use rubrica_back.Store.{Instant}
use rubrica_back.Workflow.Types.{Bytes, StampPosition}
use rubrica_back.DatabaseWorkflow.Tables.{
  DocumentEntity, DocumentVersionEntity, SignatureRequestEntity, SignerEntity, ClientEvidence,
  GeolocationEvidence, Evidence, SignatureEntity, Tables, Env, IdentitySummary, Actor,
}
use rubrica_back.DatabaseWorkflow.Signers.{is_within}

-- The first `n` characters of a text.
unfoldable pub take : ℕ → String → String
take zero s = ""
take (suc n) String.[] = ""
take (suc n) (String.◌∷◌ c s) = let rest = take n s in String.◌∷◌ c rest

-- What the caller of `sign` says of itself. The signer of the certificate answers `none` when it
-- raises.
pub record Submission : Type 0 where
  pub consent : Bool
  pub stamp : StampPosition
  pub consent_version : String
  pub client : Option ClientEvidence
  pub geolocation : Option GeolocationEvidence
  pub ip_address : String
  pub user_agent : String
  pub certificate_signer : Option (Bytes → Option Bytes)
  pub certificate_info : Option String

unfoldable pub device_type : String → String
device_type lowered =
    if is_within "mobile" lowered || is_within "android" lowered || is_within "iphone" lowered
    then "mobile"
    else if is_within "ipad" lowered
    then "tablet"
    else "desktop"

-- The template of the stamp.
unfoldable pub stamp_template : Option String → String
stamp_template none = "INTL"
stamp_template (some c) = if str_eq c "BR" || str_eq c "JP" then c else "INTL"

abbrev pub default_client : ClientEvidence
default_client = record {
  platform = "unknown";
  language = "unknown";
  timezone = "unknown";
  screen_width = none;
  screen_height = none;
}

abbrev pub default_geolocation : GeolocationEvidence
default_geolocation = record {
  status = "unavailable";
  latitude = none;
  longitude = none;
  accuracy_meters = none;
}

-- What `sign` draws at random: the identifier of the artifact, and that of the row of `signatures`,
-- both of `uuid4`, so that later identifiers need not be greater.
pub record Drawn : Type 0 where
  pub artifact_id : String
  pub signature_id : ℕ

-- What `sign` finds before it signs.
pub record Admitted : Type 0 where
  pub signer : SignerEntity
  pub request : SignatureRequestEntity
  pub version : DocumentVersionEntity
  pub document : DocumentEntity
  pub tenant_country : Option String

-- A signature among signatures in the order of their identifiers, and signatures in that order.
unfoldable pub place_signature : SignatureEntity → List SignatureEntity → List SignatureEntity
place_signature x [] = x ∷ []
place_signature x (y ∷ ys) =
    let rest = place_signature x ys in if leb x.id y.id then x ∷ y ∷ ys else y ∷ rest

unfoldable pub order_signatures : List SignatureEntity → List SignatureEntity
order_signatures [] = []
order_signatures (x ∷ xs) = place_signature x (order_signatures xs)

module _ (env : Env) where
  open env use {lower, digest, hmac, show, evidence_sha256}

  -- `_signature_evidence`, and the entries that `sign` adds
  unfoldable pub signature_evidence_of :
      Instant → Actor → Submission → IdentitySummary → Admitted → Evidence
  signature_evidence_of now actor p identity a =
      let agent = get_or (truthy (some (take 1000 p.user_agent))) "unknown" in
      let country = or_else (truthy identity.issuing_country) a.tenant_country in
      record {
        consent_version = p.consent_version;
        request_id = a.request.id;
        signer_id = a.signer.id;
        document_id = a.request.document_id;
        document_version = a.request.document_version;
        original_sha256 = a.request.document_sha256;
        subject_hmac_sha256 = hmac (lower actor.subject);
        identity_binding_hmac_sha256 = hmac (
            lower actor.subject
            <> ("|"
                <> (show a.request.id
                    <> ("|"
                        <> (show a.signer.id
                            <> ("|"
                                <> (show a.request.document_id
                                    <> ("|" <> show a.request.document_version))))))));
        signer_name = a.signer.name;
        identity_document_type = identity.identifier_type;
        identity_document_country = identity.issuing_country;
        identity_document_masked = identity.masked_display;
        signer_email = a.signer.email;
        participant_role = a.signer.participant_role;
        represented_tenant_id = a.signer.represented_tenant_id;
        representation_snapshot = a.signer.representation_snapshot;
        issuer_snapshot = a.request.issuer_snapshot;
        signed_at = now;
        stamp = record (p.stamp) { template = stamp_template country };
        country_code = country;
        show_flag = is_some (truthy country);
        ip_address = take 64 p.ip_address;
        user_agent = agent;
        device_type = device_type (lower agent);
        client = get_or p.client default_client;
        geolocation = get_or p.geolocation default_geolocation;
        signature_mode = a.request.signature_mode;
        certificate_signature = p.certificate_info;
      }

  -- The stamps of the artifact: those of the signatures of the request in the order of their
  -- identifiers, and the new one.
  unfoldable pub stamp_records : ℕ → Evidence → Tables → List (Evidence × String)
  stamp_records request_id e t =
      map (λ (x : SignatureEntity). (x.evidence, x.evidence_sha256))
        (order_signatures
          (keep (λ (x : SignatureEntity). x.signature_request_id == request_id) t.signatures))
      ++ (e, evidence_sha256 e) ∷ []
