-- ===== src/Workflow/Resolve.antt =====
-- What `_resolve_request` establishes before an operation behind a signing link goes on, and what it
-- may have written when it raises.
use rubrica_back.Base.{
  ℕ, ◌≡◌, ◌<◌, refl, sym, subst, String, Bool, true, false, ◌&&◌, ◌||◌, Option, none, some, List,
  [], ◌∷◌, arith, inl, inr, Option-cases, find, str_eq,
}
use rubrica_back.Base.Actions.{Error, Result, ok, err, workflow_error}
use rubrica_back.Base.Dict.{Dict, lookup, lookup-insert, lookup_text}
use rubrica_back.Workflow.Types.{
  SignerStatus, pending, signed, declined, SignatureRequest, Signer, Service, Env,
}
use rubrica_back.Workflow.Service.{
  is_open, is_completed, is_signed, load_signers, list_signers, check_access, admit_user,
  resolve_request, key_error,
}

-- Every request and every signer is stored under its own identifier.
pub record IsKeyed {F : Type 0} (s : Service F) : Type 0 where
  pub requests_keyed : (i : ℕ) (r : SignatureRequest) → lookup i s.requests ≡ some r → r.id ≡ i
  pub signers_keyed : (i : ℕ) (g : Signer) → lookup i s.signers ≡ some g → g.id ≡ i

-- The changes of a signer's status. A signature stays; a signer who declined may still sign.
abbrev pub may_turn : SignerStatus → SignerStatus → Bool
may_turn signed signed = true
may_turn signed _ = false
may_turn declined declined = true
may_turn declined signed = true
may_turn declined _ = false
may_turn pending _ = true
may_turn _ pending = false
may_turn _ _ = true

-- What an operation may do to the entry of a signer.
pub record Turns (g g' : Signer) : Type 0 where
  pub status_moves : may_turn g.status g'.status ≡ true
  pub same_id : g'.id ≡ g.id
  pub same_request : g'.signature_request_id ≡ g.signature_request_id
  pub same_user : g'.auth_user_id ≡ g.auth_user_id

abbrev pub SignerStep : ℕ → Option Signer → Option Signer → Type 0
SignerStep j none none = Unit
SignerStep j none (some g) = (g.id ≡ j) × (g.status ≡ pending)
SignerStep j (some g) none = ⊥
SignerStep j (some g) (some g') = Turns g g'

pub may_turn_refl : (a : SignerStatus) → may_turn a a ≡ true
may_turn_refl signed = refl
may_turn_refl _ = refl

pub SignerStep-refl : (j : ℕ) (g : Option Signer) → SignerStep j g g
SignerStep-refl j none = tt
SignerStep-refl j (some g) = record {
  status_moves = may_turn_refl g.status;
  same_id = refl;
  same_request = refl;
  same_user = refl;
}

-- A signer that a search finds among the loaded signers is an entry of the store that passes.
pub find-load_signers :
    (p : Signer → Bool) (d : Dict Signer) (ids : List ℕ) (l : List Signer) (g : Signer)
    → ((i : ℕ) (x : Signer) → lookup i d ≡ some x → x.id ≡ i)
    → load_signers d ids ≡ some l
    → find p l ≡ some g
    → (lookup g.id d ≡ some g) × (p g ≡ true)
unfolding load_signers
find-load_signers p d [] l g keyed h e = ground arith
find-load_signers p d (i ∷ ids) l g keyed h e = elim (Option-cases (lookup i d)) [
  | inl missing ↦ ground arith
  | inr (x, found) ↦ elim (Option-cases (load_signers d ids)) [
    | inl stuck ↦ ground arith
    | inr (rest, loaded) ↦ ground (arith, keyed i x, find-load_signers p d ids rest g keyed loaded)
  ]
]

module _ (env : Env) where
  open env use {Files}

  -- The signer and the request exist, the link is live at `now`, and the request is open, or, where
  -- that is allowed, completed with this signer's signature.
  pub record Admits (now : ℕ) (allow_completed : Bool) (s : Service Files) (g : Signer)
      (r : SignatureRequest) : Type 0 where
    pub known_request : lookup r.id s.requests ≡ some r
    pub known_signer : lookup g.id s.signers ≡ some g
    pub unrevoked : g.link_revoked_at ≡ none
    pub unexpired : now < r.expires_at
    pub allowed :
        (is_open r.status || (allow_completed && is_completed r.status && is_signed g.status))
        ≡ true

  -- What a failed resolution may have done, as seen at the signer `j`.
  pub record Refuses (j : ℕ) (s s' : Service Files) : Type 0 where
    pub same_requests : s'.requests ≡ s.requests
    pub same_signatures : s'.signatures ≡ s.signatures
    pub same_lists : s'.request_signers ≡ s.request_signers
    pub same_documents : s'.documents ≡ s.documents
    pub signers_step : SignerStep j (lookup j s.signers) (lookup j s'.signers)

  abbrev pub Resolves :
      ℕ → ℕ → Bool → Service Files → Result (Signer × SignatureRequest) × Service Files → Type 0
  Resolves j now allow s (ok (g, r), s') = (s' ≡ s) × Admits now allow s g r
  Resolves j now allow s (err e, s') = Refuses j s s'

  -- The same for the last tests alone.
  abbrev Accesses :
      ℕ
      → ℕ
      → Bool
      → SignatureRequest
      → Signer
      → Service Files
      → Result (Unit {0}) × Service Files
      → Type 0
  Accesses j now allow r g s (ok _, s') = (s' ≡ s) × Admits now allow s g r
  Accesses j now allow r g s (err e, s') = Refuses j s s'

  module _ (j now : ℕ) (allow : Bool) (s : Service Files) where
    check_access-Accesses :
        (r : SignatureRequest) (g : Signer)
        → lookup r.id s.requests ≡ some r
        → lookup g.id s.signers ≡ some g
        → Accesses j now allow r g s (check_access env now allow r g s)
    unfolding check_access
    check_access-Accesses r g known_r known_g = ground (
      arith,
      lookup-insert g.id j (record g { status = SignerStatus.expired }) s.signers,
      SignerStep-refl j (lookup j s.signers),
    )

    admit_user-Resolves :
        (user : String) (r : SignatureRequest) (ids : List ℕ) (l : List Signer)
        → IsKeyed s
        → lookup r.id s.requests ≡ some r
        → load_signers s.signers ids ≡ some l
        → Resolves j now allow s (admit_user env now user allow r l s)
    unfolding admit_user
    admit_user-Resolves user r ids l keyed known_r loaded =
        elim (Option-cases (find (λ item. str_eq item.auth_user_id (env.lower user)) l)) [
          | inl missing ↦ ground (arith, SignerStep-refl j (lookup j s.signers))
          | inr (g, found) ↦ ground (
            arith,
            found,
            find-load_signers (λ item. str_eq item.auth_user_id (env.lower user)) s.signers ids l g
                keyed.signers_keyed loaded found,
            check_access-Accesses r g known_r,
          )
        ]

    refuse :
        (x : Result (Signer × SignatureRequest) × Service Files) (e : Error)
        → x ≡ (err e, s)
        → Resolves j now allow s x
    refuse x e h = subst (Resolves j now allow s) (sym h) (record {
      same_requests = refl;
      same_signatures = refl;
      same_lists = refl;
      same_documents = refl;
      signers_step = SignerStep-refl j (lookup j s.signers);
    })

    -- On a keyed state a resolution admits, or refuses and leaves everything but the audit trail and
    -- the expired signer alone.
    pub resolve_request-Resolves :
        (token user : String)
        → IsKeyed s
        → Resolves j now allow s (resolve_request env now token user allow s)
    unfolding resolve_request list_signers
    resolve_request-Resolves token user keyed =
        elim (Option-cases (lookup_text (env.digest (env.encode token)) s.request_token_index)) [
          | inl unknown ↦ refuse _ (workflow_error "Signing link is invalid" 404) (ground arith)
          | inr (i, indexed) ↦ elim (Option-cases (lookup i s.requests)) [
            | inl missing ↦
                refuse _ (workflow_error "Signature request not found" 404) (ground arith)
            | inr (r, found) ↦ elim (Option-cases (lookup i s.request_signers)) [
              | inl unlisted ↦ refuse _ key_error (ground (arith, keyed.requests_keyed i r))
              | inr (ids, listed) ↦ elim (Option-cases (load_signers s.signers ids)) [
                | inl stuck ↦ refuse _ key_error (ground (arith, keyed.requests_keyed i r))
                | inr (l, loaded) ↦
                    subst (Resolves j now allow s) (ground (arith, keyed.requests_keyed i r)) (
                      admit_user-Resolves user r ids l keyed
                        (ground (arith, keyed.requests_keyed i r)) loaded)
              ]
            ]
          ]
        ]
