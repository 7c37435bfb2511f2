-- ===== src/Workflow/Signature.antt =====
-- What a signature means: `sign` on every branch, and that nobody signs twice.
use rubrica_back.Base.{
  ℕ, ◌≡◌, refl, String, Bool, true, false, some, arith, inl, inr, Option-cases, str_eq_iff,
}
use rubrica_back.Base.Actions.{Result, ok, err}
use rubrica_back.Base.Dict.{lookup, lookup-insert}
use rubrica_back.Workflow.Types.{
  signed, Document, DocumentVersion, Bytes, SignatureRequest, Signer, StampPosition, Service, Env,
}
use rubrica_back.Workflow.Service.{is_signed, get_content, resolve_request}
use rubrica_back.Workflow.Signing.{
  has_signed, complete_request, check_signature, record_signature, sign,
}
use rubrica_back.Workflow.Resolve.{IsKeyed, Admits, Resolves, resolve_request-Resolves}
use rubrica_back.Workflow.Steps.{
  check_signature-Passes, complete_request_signers, get_content_state,
}

-- `complete_request` adds no signature.
complete_request_signatures :
    {F : Type 0} (now : ℕ) (actor : String) (r : SignatureRequest) (s : Service F)
    → (complete_request now actor r s).1.signatures ≡ s.signatures
unfolding complete_request
complete_request_signatures now actor r s = ground arith

module _ (env : Env) where
  open env use {Files, digest}

  -- The frozen version of the document of `r` is stored, and its content has the frozen digest.
  pub record Verified (r : SignatureRequest) (s : Service Files) : Type 0 where
    pub document : Document
    pub version : DocumentVersion
    pub content : Bytes
    pub known : lookup r.document_id s.documents ≡ some document
    pub read : (get_content env document.id (some r.document_version) s).0 ≡ ok (version, content)
    pub intact : digest content ≡ r.document_sha256

  -- The tests of `sign` pass only on verified content.
  pub check_signature-Verified :
      (g : Signer) (r : SignatureRequest) (s : Service Files)
      → (check_signature env g r s).0 ≡ ok tt
      → Verified r s
  unfolding check_signature
  check_signature-Verified g r s h = elim (Option-cases (lookup r.document_id s.documents)) [
    | inl missing ↦ absurd (ground arith)
    | inr (d, found) ↦ verify d found (get_content env d.id (some r.document_version) s).0 refl
  ]
    where
      verify :
          (d : Document)
          → lookup r.document_id s.documents ≡ some d
          → (q : Result (DocumentVersion × Bytes))
          → (get_content env d.id (some r.document_version) s).0 ≡ q
          → Verified r s
      verify d found (err e) read = absurd (grind (arith, get_content_state))
      verify d found (ok (v, c)) read = record {
        document = d;
        version = v;
        content = c;
        known = found;
        read = read;
        intact = (str_eq_iff (digest c) r.document_sha256).0 (grind (arith, get_content_state));
      }

  -- What a successful signature establishes, from the state before it to the state after it.
  pub record Signs (now : ℕ) (g : Signer) (s s' : Service Files) : Type 0 where
    pub before : Signer
    pub request : SignatureRequest
    pub admitted : Admits env now false s before request
    pub verified : Verified request s
    pub unsigned : is_signed before.status ≡ false
    pub first : has_signed request.id g.id s.signatures ≡ false
    pub result : g ≡ record before { status = signed; signed_at = some now }
    pub stored : lookup g.id s'.signers ≡ some g
    pub counted : has_signed request.id g.id s'.signatures ≡ true

  record_signature-stored :
      (now : ℕ) (user : String) (p : StampPosition) (b g : Signer) (r : SignatureRequest)
      (s s' : Service Files)
      → record_signature env now user p b r s ≡ (ok g, s')
      → (g ≡ record b { status = signed; signed_at = some now })
        × (lookup g.id s'.signers ≡ some g)
        × (has_signed r.id g.id s'.signatures ≡ true)
  unfolding record_signature has_signed
  record_signature-stored now user p b g r s s' h =
      grind (arith, lookup-insert, complete_request_signers, complete_request_signatures)

  module _ (now : ℕ) (token user : String) (consent : Bool) (p : StampPosition)
      (s s' : Service Files) (g : Signer) (keyed : IsKeyed s)
      (returned : sign env now token user consent p s ≡ (ok g, s')) where
    sign_consent : consent ≡ true
    unfolding sign
    sign_consent = ground arith

    Signs-of_resolved :
        (q : Result (Signer × SignatureRequest) × Service Files)
        → resolve_request env now token user false s ≡ q
        → Resolves env 0 now false s q
        → Signs now g s s'
    unfolding sign
    Signs-of_resolved (err e, t) resolved h = absurd (ground (arith, sign_consent))
    Signs-of_resolved (ok (b, r), t) resolved h =
        let tests = check_signature-Passes env b r s in
        let passed : (check_signature env b r s).0 ≡ ok tt = grind (arith, sign_consent, tests) in
        let wrote : record_signature env now user p b r s ≡ (ok g, s') =
          grind (arith, sign_consent, tests) in
        let (result, stored, counted) = record_signature-stored now user p b g r s s' wrote in
        record {
          before = b;
          request = r;
          admitted = h.1;
          verified = check_signature-Verified b r s passed;
          unsigned = ground (arith, tests, passed);
          first = ground (arith, result, tests, passed);
          result = result;
          stored = stored;
          counted = counted;
        }

    -- A call of `sign` that returns had consent, came through a live link to an open request, read
    -- the frozen version of the document with the frozen digest, and is this signer's first
    -- signature of the request; it is stored as signed at the instant of the call, and counted.
    pub sign-Signs : (consent ≡ true) × Signs now g s s'
    sign-Signs = (
      sign_consent,
      Signs-of_resolved _ refl (resolve_request-Resolves env 0 now false s token user keyed),
    )
