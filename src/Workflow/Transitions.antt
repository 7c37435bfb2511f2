-- ===== src/Workflow/Transitions.antt =====
-- How an operation of the workflow may change the status of a request: the state diagram, and that
-- every operation follows it.
use rubrica_back.Base.{ℕ, ◌≡◌, refl, Bool, true, false, Option, none, some, arith}
use rubrica_back.Workflow.Types.{
  RequestStatus, open_for_signing, completed, cancelled, SignatureRequest, Service,
}
use rubrica_back.Workflow.Service.{counts}

-- The state diagram: a draft is opened or cancelled, an open request is completed or cancelled, and
-- nothing else changes.
abbrev pub may_become : RequestStatus → RequestStatus → Bool
may_become RequestStatus.draft RequestStatus.draft = true
may_become RequestStatus.draft open_for_signing = true
may_become RequestStatus.draft cancelled = true
may_become open_for_signing open_for_signing = true
may_become open_for_signing completed = true
may_become open_for_signing cancelled = true
may_become completed completed = true
may_become cancelled cancelled = true
may_become RequestStatus.expired RequestStatus.expired = true
may_become _ _ = false

-- What an operation may do to the entry of a request: nothing removes it, its status follows the
-- diagram, and what was frozen at its creation stays.
pub record Follows (r r' : SignatureRequest) : Type 0 where
  pub status_moves : may_become r.status r'.status ≡ true
  pub same_id : r'.id ≡ r.id
  pub same_document : r'.document_id ≡ r.document_id
  pub same_version : r'.document_version ≡ r.document_version
  pub same_sha256 : r'.document_sha256 ≡ r.document_sha256
  pub same_expiry : r'.expires_at ≡ r.expires_at

-- A new entry is a draft under its own identifier.
abbrev pub RequestStep : ℕ → Option SignatureRequest → Option SignatureRequest → Type 0
RequestStep j none none = Unit
RequestStep j none (some r) = (r.id ≡ j) × (r.status ≡ RequestStatus.draft)
RequestStep j (some r) none = ⊥
RequestStep j (some r) (some r') = Follows r r'

pub may_become_refl : (a : RequestStatus) → may_become a a ≡ true
may_become_refl open_for_signing = refl
may_become_refl _ = refl

pub RequestStep-refl : (j : ℕ) (r : Option SignatureRequest) → RequestStep j r r
RequestStep-refl j none = tt
RequestStep-refl j (some r) = record {
  status_moves = may_become_refl r.status;
  same_id = refl;
  same_document = refl;
  same_version = refl;
  same_sha256 = refl;
  same_expiry = refl;
}

-- `_counts` only reads.
pub counts_state : {F : Type 0} (r : SignatureRequest) (s : Service F) → (counts r s).1 ≡ s
unfolding counts
counts_state r s = ground arith
