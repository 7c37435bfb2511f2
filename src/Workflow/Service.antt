-- ===== src/Workflow/Service.antt =====
-- The helpers of `SignatureWorkflowService` that its operations share: the lookups that raise,
-- the audit trail, the counts, and the resolution of a signing link.
use rubrica_back.Base.{
  ℕ, String, Bool, true, false, ◌&&◌, not, Option, none, some, List, [], ◌∷◌, ◌++◌, str_eq, leb,
  ◌==◌, if◌then◌else◌, is_some, get_or, nonzero, length, find, count,
}
use rubrica_back.Base.Actions.{
  Error, ok, err, workflow_error, Action, pure, raise, or_raise, raise_if, modify, ◌>>=◌, ◌>>◌,
}
use rubrica_back.Base.Dict.{Dict, lookup, insert, lookup_text}
use rubrica_back.Workflow.Types.{
  RequestStatus, open_for_signing, completed, SignerStatus, signed, declined, Bytes, Document,
  DocumentVersion, SignatureRequest, Signer, Detail, AuditEvent, Service, Env,
}

abbrev pub key_error : Error
key_error = workflow_error "KeyError" 500

abbrev pub is_open : RequestStatus → Bool
is_open open_for_signing = true
is_open _ = false

abbrev pub is_completed : RequestStatus → Bool
is_completed completed = true
is_completed _ = false

abbrev pub is_signed : SignerStatus → Bool
is_signed signed = true
is_signed _ = false

-- `status in {SignerStatus.SIGNED, SignerStatus.DECLINED}`
abbrev pub is_answered : SignerStatus → Bool
is_answered signed = true
is_answered declined = true
is_answered _ = false

module _ {F : Type 0} where
  -- `_document`
  abbrev pub get_document : ℕ → Action (Service F) Document
  get_document i s = or_raise (lookup i s.documents) (workflow_error "Document not found" 404) s

  -- `_request`
  abbrev pub find_request : ℕ → Action (Service F) SignatureRequest
  find_request i s =
      or_raise (lookup i s.requests) (workflow_error "Signature request not found" 404) s

  -- `_audit`: an event at the end of the trail of its scope
  abbrev pub record_audit :
      ℕ → ℕ → String → String → String → ℕ → List (String × Detail) → Service F → Service F
  record_audit now scope actor action entity_type entity metadata s =
      let event : AuditEvent = record {
        occurred_at = now;
        actor_id = actor;
        action = action;
        entity_type = entity_type;
        entity_id = entity;
        metadata = metadata;
      } in
      let trail : List AuditEvent = get_or (lookup scope s.audit) [] in
      record s { audit = insert scope (trail ++ event ∷ []) s.audit }

-- `[self.signers[sid] for sid in ids]`; `none` is a `KeyError`
unfoldable pub load_signers : Dict Signer → List ℕ → Option (List Signer)
load_signers d [] = some []
load_signers d (i ∷ ids) = elim (lookup i d) [
  | none ↦ none
  | some s ↦ elim (load_signers d ids) [ none ↦ none | some rest ↦ some (s ∷ rest) ]
]

-- `any(p(self.signers[sid]) for sid in ids)`, which stops at the first that passes
unfoldable pub any_signer : (Signer → Bool) → Dict Signer → List ℕ → Option Bool
any_signer p d [] = some false
any_signer p d (i ∷ ids) = elim (lookup i d) [
  | none ↦ none
  | some s ↦ if p s then some true else any_signer p d ids
]

module _ {F : Type 0} where
  -- `list_signers`
  unfoldable pub list_signers : ℕ → Action (Service F) (List Signer)
  list_signers i s =
      (do
        find_request i
        ids ← or_raise (lookup i s.request_signers) key_error
        or_raise (load_signers s.signers ids) key_error)
        s

  -- `_counts`
  unfoldable pub counts : SignatureRequest → Action (Service F) SignatureRequest
  counts request s =
      (do
        signers ←
            or_raise (load_signers s.signers (get_or (lookup request.id s.request_signers) []))
              key_error
        pure (record request {
          signer_count = length signers;
          signed_count = count (λ x. is_signed x.status) signers;
        }))
        s

  -- `get_document`, `get_request`, `audit_events`
  unfoldable pub get_request : ℕ → Action (Service F) SignatureRequest
  get_request i = do request ← find_request i; counts request

  unfoldable pub audit_events : ℕ → Action (Service F) (List AuditEvent)
  audit_events i s = (do find_request i; or_raise (lookup i s.audit) key_error) s

module _ (env : Env) where
  open env use {Files, get, digest, encode, lower}

  -- `get_content`; `version or current.version` is the current version for `None` and for 0. A key
  -- that the object store lacks is its own error.
  unfoldable pub get_content : ℕ → Option ℕ → Action (Service Files) (DocumentVersion × Bytes)
  get_content i version s =
      (do
        current ← get_document i
        let target = get_or (nonzero version) current.version
        stored_versions ← or_raise (lookup i s.versions) key_error
        stored ←
            or_raise (find (λ item. item.read.version == target) stored_versions)
              (workflow_error "Document version not found" 404)
        content ←
            or_raise (get stored.storage_key s.storage) (workflow_error "FileNotFoundError" 500)
        raise_if (not (str_eq (digest content) stored.read.sha256))
            (workflow_error "Stored document integrity check failed" 409)
        pure (stored.read, content))
        s

  -- The last three tests of `_resolve_request`, in the source's order.
  unfoldable pub check_access :
      ℕ → Bool → SignatureRequest → Signer → Action (Service Files) (Unit {0})
  check_access now allow_completed request signer s =
      if is_some signer.link_revoked_at
      then (err (workflow_error "Signing access has been revoked" 410), s)
      else if leb request.expires_at now
      then (
        err (workflow_error "Signature request has expired" 410),
        if is_answered signer.status then s else record s {
          signers = insert signer.id (record signer { status = SignerStatus.expired }) s.signers;
        },
      )
      else if not (is_open request.status)
          && not (allow_completed && is_completed request.status && is_signed signer.status)
      then (err (workflow_error "Signature request is not open" 409), s)
      else (ok tt, s)

  -- `_resolve_request` from its search among the signers on. A user who is no signer leaves an event
  -- in the audit trail; a signer who comes too late is marked as expired.
  unfoldable pub admit_user :
      ℕ
      → String
      → Bool
      → SignatureRequest
      → List Signer
      → Action (Service Files) (Signer × SignatureRequest)
  admit_user now auth_user_id allow_completed request signers =
      elim (find (λ item. str_eq item.auth_user_id (lower auth_user_id)) signers) [
        | none ↦ (do
          modify (
              record_audit now request.id auth_user_id "authorization.failed" "signature_request"
                request.id [])
          raise (workflow_error "Authenticated user does not match a signer for this request" 403))
        | some signer ↦ (do check_access now allow_completed request signer; pure (signer, request))
      ]

  -- `_resolve_request`: the signer and the request of a link.
  unfoldable pub resolve_request :
      ℕ → String → String → Bool → Action (Service Files) (Signer × SignatureRequest)
  resolve_request now token auth_user_id allow_completed s =
      (do
        request_id ←
            or_raise (lookup_text (digest (encode token)) s.request_token_index)
              (workflow_error "Signing link is invalid" 404)
        request ← find_request request_id
        signers ← list_signers request.id
        admit_user now auth_user_id allow_completed request signers)
        s
