-- ===== src/DatabaseWorkflow/Deletion.antt =====
-- `delete_document` of the database service: its loop cancels drafts and open requests alone.
use rubrica_back.Base.{
  ℕ, ◌≡◌, refl, Option, Bool, not, length, inl, inr, Bool-cases, String, true, ◌&&◌, none, some,
  List, [], ◌∷◌, arith, ◌==◌, keep,
}
use rubrica_back.Base.Dict.{Dict, lookup, insert, values, lookup-insert}
use rubrica_back.Base.Keyed.{IsTable, lookup-key, insert-IsTable}
use rubrica_back.Store.{Instant}
use rubrica_back.Workflow.Documents.{is_active}
use rubrica_back.DatabaseWorkflow.Tables.{
  DocumentEntity, AuditEventEntity, SignatureRequestEntity, save_document, record_audit, num,
  Tables, Env, Actor,
}
use rubrica_back.DatabaseWorkflow.Documents.{
  active_for, cancel_requests, mark_deleted, delete_document,
}
use rubrica_back.DatabaseWorkflow.Invariants.{IsKeyed, Keeps, Keeps-refl, Keeps-trans}
use rubrica_back.DatabaseWorkflow.Lookups.{get_document-Finds, require_role_state}

-- Every request of the list is a row of the table, and may be cancelled.
AreActive : Dict SignatureRequestEntity → List SignatureRequestEntity → Type 0
AreActive d [] = Unit
AreActive d (r ∷ rs) = (lookup r.id d ≡ some r) × (is_active r.status ≡ true) × AreActive d rs

AreActive-cons :
    (k : ℕ) (v : SignatureRequestEntity) (d : Dict SignatureRequestEntity)
    (rs : List SignatureRequestEntity)
    → lookup k d ≡ none
    → AreActive d rs
    → AreActive ((k, v) ∷ d) rs
unfolding AreActive lookup
AreActive-cons k v d [] new h = tt
AreActive-cons k v d (r ∷ rs) new h = ground (arith, AreActive-cons k v d rs new h.2)

keep-AreActive :
    (document_id : ℕ) (d : Dict SignatureRequestEntity)
    → IsTable SignatureRequestEntity.id d
    → AreActive d (keep (active_for document_id) (values d))
unfolding AreActive lookup values IsTable
keep-AreActive i [] h = tt
keep-AreActive i ((k, v) ∷ d) h =
    ground (
      arith,
      AreActive-cons k v d (keep (active_for i) (values d)) (h.1) (keep-AreActive i d (h.2)),
    )

module _ (i j : ℕ) (t : Tables) (now : ℕ) (actor : String) where
  cancel_requests-Keeps :
      (rs : List SignatureRequestEntity) (u : Tables)
      → AreActive t.requests rs
      → Keeps i j t u
      → Keeps i j t (cancel_requests now actor rs u)
  unfolding AreActive cancel_requests
  cancel_requests-Keeps [] u h e = e
  cancel_requests-Keeps (r ∷ rs) u h e =
      cancel_requests-Keeps rs _ h.2 (grind (arith, lookup-insert, insert-IsTable))

cancel_requests_documents :
    (now : Instant) (actor : String) (rs : List SignatureRequestEntity) (u : Tables)
    → (cancel_requests now actor rs u).documents ≡ u.documents
unfolding cancel_requests
cancel_requests_documents now actor [] u = refl
cancel_requests_documents now actor (r ∷ rs) u = cancel_requests_documents now actor rs _

-- The mark of deletion changes neither version nor digest.
marked-Keeps :
    (i j : ℕ) (u : Tables) (d : DocumentEntity) (deleted : Option Instant)
    (audit : List AuditEventEntity)
    → IsKeyed u
    → lookup d.id u.documents ≡ some d
    → Keeps i j u (record u {
      documents = insert d.id (record d { deleted_at = deleted }) u.documents;
      audit = audit;
    })
marked-Keeps i j u d deleted audit keyed stored = grind (
  arith,
  lookup-insert,
  insert-IsTable,
  lookup-key,
  keyed.documents_keyed,
  keyed.requests_keyed,
  keyed.signers_keyed,
  Keeps-refl i j u keyed,
)

module _ (env : Env) (i j : ℕ) (t : Tables) (keyed : IsKeyed t) where
  mark_deleted-Keeps :
      (now : Instant) (actor : Actor) (force : Bool) (d : DocumentEntity)
      → lookup d.id t.documents ≡ some d
      → Keeps i j t (mark_deleted env now actor force d t).1
  unfolding mark_deleted
  mark_deleted-Keeps now actor force d stored =
      let rs = keep (active_for d.id) (values t.requests) in
      let u = cancel_requests now actor.subject rs t in
      let v =
        record_audit now none actor.subject "document.deleted" "document" d.id
          (("cancelled_request_count", num (length rs)) ∷ [])
          (save_document (record d { deleted_at = some now }) u) in
      let first =
        cancel_requests-Keeps i j t now actor.subject rs t
          (keep-AreActive d.id t.requests keyed.requests_keyed) (Keeps-refl i j t keyed) in
      let place : lookup d.id u.documents ≡ some d =
        rw (cancel_requests_documents now actor.subject rs t) stored in
      let last = marked-Keeps i j u d (some now) v.audit first.keeps_keyed place in
      elim (Bool-cases (not (length rs == 0) && not force)) [
        | inl busy ↦ rw busy (Keeps-refl i j t keyed)
        | inr free ↦ rw free (Keeps-trans i j t u v first last)
      ]

  pub delete_document-Keeps :
      (now : Instant) (k : ℕ) (actor : Actor) (force : Bool)
      → Keeps i j t (delete_document env now k actor force t).1
  unfolding delete_document
  delete_document-Keeps now k actor force = grind (
    arith,
    get_document-Finds k t,
    lookup-key DocumentEntity.id k,
    keyed.documents_keyed,
    require_role_state,
    Keeps-refl i j t keyed,
    mark_deleted-Keeps,
  )
