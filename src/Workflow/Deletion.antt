-- ===== src/Workflow/Deletion.antt =====
-- `delete_document`: its loop cancels requests that are drafts or open, and nothing else.
use rubrica_back.Base.{
  ℕ, ◌≡◌, String, Bool, true, ◌&&◌, none, some, List, [], ◌∷◌, arith, ◌==◌, keep,
}
use rubrica_back.Base.Dict.{Dict, IsDict, lookup, values, lookup-insert, insert-IsDict}
use rubrica_back.Workflow.Types.{SignatureRequest, Service}
use rubrica_back.Workflow.Documents.{
  is_active, active_requests, cancel_with_document, cancel_all, delete_document,
}
use rubrica_back.Workflow.Resolve.{IsKeyed}
use rubrica_back.Workflow.Steps.{Evolves, Evolves-refl}

-- Every request of the list is the entry of its identifier in `d`, and may be cancelled.
pub AllActive : Dict SignatureRequest → List SignatureRequest → Type 0
AllActive d [] = Unit
AllActive d (r ∷ rs) = (lookup r.id d ≡ some r) × (is_active r.status ≡ true) × AllActive d rs

AllActive-cons :
    (k : ℕ) (v : SignatureRequest) (d : Dict SignatureRequest) (rs : List SignatureRequest)
    → lookup k d ≡ none
    → AllActive d rs
    → AllActive ((k, v) ∷ d) rs
unfolding AllActive lookup
AllActive-cons k v d [] new h = tt
AllActive-cons k v d (r ∷ rs) new h = ground (arith, AllActive-cons k v d rs new h.2)

-- The requests that `delete_document` selects are entries that may be cancelled.
pub keep-AllActive :
    (i : ℕ) (d : Dict SignatureRequest)
    → IsDict d
    → ((k : ℕ) (r : SignatureRequest) → lookup k d ≡ some r → r.id ≡ k)
    → AllActive d (keep (λ r. (r.document_id == i) && is_active r.status) (values d))
unfolding AllActive lookup values IsDict
keep-AllActive i [] distinct keyed = tt
keep-AllActive i ((k, v) ∷ d) distinct keyed =
    let rest = keep (λ r. (r.document_id == i) && is_active r.status) (values d) in
    let later = keep-AllActive i d distinct.1 (λ m r e. keyed m r (ground arith)) in
    ground (arith, keyed k v, AllActive-cons k v d rest distinct.0 later)

module _ {F : Type 0} (j k : ℕ) (s : Service F) (now : ℕ) (actor : String) where
  cancel_all-Evolves :
      (rs : List SignatureRequest) (t : Service F)
      → AllActive s.requests rs
      → Evolves j k s t
      → Evolves j k s (cancel_all now actor rs t)
  unfolding AllActive cancel_all cancel_with_document
  cancel_all-Evolves [] t h e = e
  cancel_all-Evolves (r ∷ rs) t h e =
      cancel_all-Evolves rs (cancel_with_document now actor r t) h.2
        (grind (arith, lookup-insert, insert-IsDict))

  -- `delete_document` cancels drafts and open requests of the document, and no other.
  pub delete_document-Evolves :
      (i : ℕ) (force : Bool)
      → IsKeyed s
      → IsDict s.requests
      → Evolves j k s (delete_document now i actor force s).1
  unfolding delete_document active_requests
  delete_document-Evolves i force keyed distinct = grind (
    arith,
    Evolves-refl j k s,
    keep-AllActive i s.requests distinct keyed.requests_keyed,
    cancel_all-Evolves,
  )
