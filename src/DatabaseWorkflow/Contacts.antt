-- ===== src/DatabaseWorkflow/Contacts.antt =====
-- The address book of `list_signer_contacts`: as many contacts as are asked for at most, no address
-- twice, and every one matches the search.
use rubrica_back.Base.{
  ℕ, zero, suc, ◌≡◌, refl, ◌≤◌, String, Bool, true, some, List, [], ◌∷◌, arith, ◌&&◌, ◌||◌, not,
  length, is_some, truthy,
}
use rubrica_back.DatabaseWorkflow.Tables.{SignerEntity, Env}
use rubrica_back.DatabaseWorkflow.Signers.{Contact, contains_text, is_within, collect_contacts}

-- No contact has an address of the list or of another contact.
abbrev pub distinct_from : List String → List Contact → Bool
distinct_from seen [] = true
distinct_from seen (c ∷ cs) = not (contains_text c.email seen) && distinct_from (c.email ∷ seen) cs

-- Every contact matches the search, which may be empty.
abbrev pub all_match : (String → String) → String → List Contact → Bool
all_match lower search [] = true
all_match lower search (c ∷ cs) =
    (not (is_some (truthy (some search)))
      || is_within search (lower c.name)
      || is_within search c.email)
    && all_match lower search cs

module _ (env : Env) where
  -- The loop of `list_signer_contacts` returns at most as many contacts as it is asked for, no address
  -- twice and none that was passed over, and each name or address contains the search, unless that
  -- is empty.
  pub collect_contacts-distinct_from :
      (search : String) (seen : List String) (n : ℕ) (rows : List SignerEntity)
      → (length (collect_contacts env search seen n rows) ≤ n)
        × (distinct_from seen (collect_contacts env search seen n rows) ≡ true)
        × (all_match env.lower search (collect_contacts env search seen n rows) ≡ true)
  unfolding collect_contacts
  collect_contacts-distinct_from search seen zero rows = (ground arith, refl, refl)
  collect_contacts-distinct_from search seen (suc n) [] = (ground arith, refl, refl)
  collect_contacts-distinct_from search seen (suc n) (s ∷ rows) =
      let email = env.lower (env.strip s.email) in
      let passed = collect_contacts-distinct_from search seen (suc n) rows in
      let taken = collect_contacts-distinct_from search (email ∷ seen) n rows in
      (ground (arith, passed, taken), ground (arith, passed, taken), ground (arith, passed, taken))
