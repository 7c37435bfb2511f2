-- ===== src/DatabaseWorkflow/DocumentSteps.antt =====
-- The operations on documents keep the tables sound: one lemma for each operation.
use rubrica_back.Base.{ℕ, ◌≡◌, sym, subst, String, false, Option, none, [], ◌∷◌, arith, any}
use rubrica_back.Base.Actions.{Result, ok, err, Action, bind-After, returned-After, ◌>>=◌}
use rubrica_back.Base.Dict.{lookup, values, lookup-insert}
use rubrica_back.Base.Keyed.{lookup-key, insert-IsTable, any-lookup}
use rubrica_back.Store.{Instant, Member, Tenant}
use rubrica_back.DatabaseWorkflow.Access.{DocumentRead}
use rubrica_back.Workflow.Types.{DocumentCreate, Bytes}
use rubrica_back.DatabaseWorkflow.Tables.{DocumentEntity, Tables, Env, Actor, World}
use rubrica_back.DatabaseWorkflow.Documents.{
  freezes, in_tables, admit_upload, insert_document, create_document, admit_version, insert_version,
  add_version, account_storage_id, with_object,
}
use rubrica_back.DatabaseWorkflow.Invariants.{IsKeyed, Keeps, Keeps-refl, Keeps-trans, Keeps-same}
use rubrica_back.DatabaseWorkflow.Lookups.{get_document-Finds, require_role_state}
use rubrica_back.DatabaseWorkflow.Rollback.{rollback-After}

ruleset document_rows = (arith, lookup-insert, insert-IsTable, lookup-key)

-- A document that is found, and that no request freezes.
abbrev Versions : ℕ → Tables → Result (DocumentEntity × Member) × Tables → Type 0
Versions k t (ok (d, m), t') =
    (t' ≡ t) × (d.id ≡ k) × (any (freezes d.id) (values t.requests) ≡ false)
Versions k t (err _, t') = Unit

module _ (env : Env) (i j : ℕ) where
  insert_document-Keeps :
      (now : Instant) (id : ℕ) (payload : DocumentCreate) (tenant_id : ℕ) (content : Bytes)
      (key : String) (size : ℕ) (t : Tables)
      → IsKeyed t
      → lookup id t.documents ≡ none
      → Keeps i j t (insert_document env now id payload tenant_id content key size t).1
  unfolding insert_document
  insert_document-Keeps now id payload tenant_id content key size t keyed fresh = grind (
    document_rows,
    keyed.documents_keyed,
    keyed.requests_keyed,
    keyed.signers_keyed,
    Keeps-refl i j t keyed,
  )

  insert_version-Keeps :
      (now : Instant) (d : DocumentEntity) (filename content_type actor : String) (content : Bytes)
      (key : String) (size : ℕ) (t : Tables)
      → IsKeyed t
      → any (freezes d.id) (values t.requests) ≡ false
      → Keeps i j t (insert_version env now d filename content_type actor content key size t).1
  unfolding insert_version
  insert_version-Keeps now d filename content_type actor content key size t keyed free = grind (
    document_rows,
    any-lookup (freezes d.id) i,
    keyed.documents_keyed,
    keyed.requests_keyed,
    keyed.signers_keyed,
    Keeps-refl i j t keyed,
  )

  -- The part before the storage writes the allowance alone.
  admit_upload_rows :
      (now : Instant) (payload : DocumentCreate) (actor : Actor) (t : Tables)
      → ((admit_upload env now payload actor t).1.documents ≡ t.documents)
        × ((admit_upload env now payload actor t).1.requests ≡ t.requests)
        × ((admit_upload env now payload actor t).1.signers ≡ t.signers)
  unfolding admit_upload
  admit_upload_rows now payload actor t = grind arith

  -- A version is admitted for a document that nothing freezes.
  admit_version-Finds :
      (now : Instant) (k : ℕ) (actor : Actor) (t : Tables)
      → IsKeyed t
      → Versions k t (admit_version env now k actor t)
  unfolding admit_version
  admit_version-Finds now k actor t keyed = grind (
    arith,
    get_document-Finds k t,
    require_role_state,
    lookup-key DocumentEntity.id,
    keyed.documents_keyed,
  )

  with_object_tables :
      {A : Type 0} (tenant_id account_id : ℕ) (filename : String) (content : Bytes)
      (rest : String → ℕ → Action Tables A) (w : World env)
      → (with_object env tenant_id account_id filename content rest w).1.tables ≡ (
          let ((key, size), files) = env.put tenant_id account_id filename content w.files in
          (rest key size w.tables).1)
  with_object_tables tenant_id account_id filename content rest w = grind arith

  with_object-After :
      {A : Type 0} (P : Tables → Type 0) (tenant_id account_id : ℕ) (filename : String)
      (content : Bytes) (rest : String → ℕ → Action Tables A) (w : World env)
      → ((key : String) (size : ℕ) → P (rest key size w.tables).1)
      → P (with_object env tenant_id account_id filename content rest w).1.tables
  with_object-After P tenant_id account_id filename content rest w h =
      let stored = env.put tenant_id account_id filename content w.files in
      subst P (sym (with_object_tables tenant_id account_id filename content rest w))
        (h (stored.0.0) (stored.0.1))

  module _ (now : Instant) (w : World env) (keyed : IsKeyed w.tables) where
    pub create_document-Keeps :
        (id : ℕ) (payload : DocumentCreate) (user_id : Option ℕ) (content : Bytes)
        → lookup id w.tables.documents ≡ none
        → Keeps i j w.tables (create_document env now id payload user_id content w).1.tables
    unfolding create_document
    create_document-Keeps id payload user_id [] fresh = Keeps-refl i j w.tables keyed
    create_document-Keeps id payload user_id (b ∷ bs) fresh =
        let content : Bytes = b ∷ bs in
        let P : World env → Type 0 = λ x. Keeps i j w.tables x.tables in
        let actor : Actor = record { subject = payload.created_by; user_id = user_id } in
        let admit : Action (World env) (Tenant × Member) =
          in_tables env (admit_upload env now payload actor) in
        let v : World env = (admit w).1 in
        let rows = admit_upload_rows now payload actor w.tables in
        let same = Keeps-same i j w.tables v.tables keyed (rows.0) (rows.1) (rows.2) in
        let store : Tenant × Member → Action (World env) DocumentRead = λ (tenant, uploader).
          with_object env tenant.id
            (account_storage_id env uploader.auth_user_uuid payload.created_by)
            payload.original_filename content
            (insert_document env now id payload tenant.id content) in
        rollback-After env (Keeps i j w.tables) w ((admit >>= store) w)
          (Keeps-refl i j w.tables keyed)
          (bind-After P (admit w) store w (λ a e. returned-After P (store a v) (
            with_object-After (Keeps i j w.tables) (a.0.id)
              (account_storage_id env a.1.auth_user_uuid payload.created_by)
              payload.original_filename content
              (insert_document env now id payload (a.0.id) content) v
              (λ key size. Keeps-trans i j w.tables v.tables _ same (
                insert_document-Keeps now id payload (a.0.id) content key size v.tables
                  same.keeps_keyed (rw (rows.0) fresh))))))

    pub add_version-Keeps :
        (k : ℕ) (filename content_type : String) (actor : Actor) (content : Bytes)
        → Keeps i j w.tables (add_version env now k filename content_type actor content w).1.tables
    unfolding add_version
    add_version-Keeps k filename content_type actor [] = Keeps-refl i j w.tables keyed
    add_version-Keeps k filename content_type actor (b ∷ bs) =
        let content : Bytes = b ∷ bs in
        let P : World env → Type 0 = λ x. Keeps i j w.tables x.tables in
        let admit : Action (World env) (DocumentEntity × Member) =
          in_tables env (admit_version env now k actor) in
        let v : World env = (admit w).1 in
        let found = admit_version-Finds now k actor w.tables keyed in
        let store : DocumentEntity × Member → Action (World env) DocumentRead = λ (d, uploader).
          with_object env d.tenant_id (account_storage_id env uploader.auth_user_uuid actor.subject)
            filename content
            (insert_version env now d filename content_type actor.subject content) in
        rollback-After env (Keeps i j w.tables) w ((admit >>= store) w)
          (Keeps-refl i j w.tables keyed)
          (bind-After P (admit w) store w (λ a e.
            let free = subst (λ r. Versions k w.tables (r, v.tables)) e found in
            returned-After P (store a v) (
              with_object-After (Keeps i j w.tables) (a.0.tenant_id)
                (account_storage_id env a.1.auth_user_uuid actor.subject) filename content
                (insert_version env now (a.0) filename content_type actor.subject content) v
                (λ key size. rw (free.0) (
                  insert_version-Keeps now (a.0) filename content_type actor.subject content key
                    size w.tables keyed (free.2))))))
