-- ===== src/DatabaseWorkflow/Tests.antt =====
-- Runs of the database service on small inputs.
use Prim.Native.String.{◌++◌ as ◌<>◌}
use rubrica_back.Base.{
  ℕ, ◌≤◌, ◌+◌, ◌==◌, if◌then◌else◌, ◌≡◌, refl, true, false, Option, none, some, List, [], ◌∷◌, ◌++◌,
  map, length,
}
use rubrica_back.Base.Actions.{ok, err}
use rubrica_back.Base.Dict.{lookup, insert, values}
use rubrica_back.Base.Keyed.{IsTable}
use rubrica_back.Store.{Tenant, personal, Member, enrolled, admin, new_account}
use rubrica_back.Workflow.Types.{evidence, DocumentCreate, completed, RequestStatus}
use rubrica_back.DatabaseWorkflow.Tables.{Env, Actor, World, external_signer}
use rubrica_back.DatabaseWorkflow.SampleStorage.{
  Objects, key_of, get_from, discard_from, get_from-fresh, get_from-put, get_from-other,
  get_from-discard_from,
}
use rubrica_back.DatabaseWorkflow.Storage.{StorageLaws}
use rubrica_back.DatabaseWorkflow.Call.{Call}
use rubrica_back.DatabaseWorkflow.Reach.{History, start, next_call}
use rubrica_back.DatabaseWorkflow.Evidence.{Submission, Drawn}
use rubrica_back.DatabaseWorkflow.Invariants.{IsKeyed, is_settled, is_matching, stays_final}
use rubrica_back.DatabaseWorkflow.History.{History-settled, History-matching, History-final}
use rubrica_back.DatabaseWorkflow.Contacts.{
  distinct_from, all_match, collect_contacts-distinct_from,
}
use rubrica_back.DatabaseWorkflow.Refusal.{Atomic, sign-Atomic, upload-Atomic}
use rubrica_back.DatabaseWorkflow.Access.{
  get_document, get_request_row, get_signer, is_invited, document_read, request_read,
  issuer_snapshot, require_document_access, require_request_access, open_access, request_from_token,
  find_signer, check_link, resolve_request,
}
use rubrica_back.DatabaseWorkflow.Documents.{
  key_is_used, add_version_row, cancel_requests, admit_upload, insert_document, create_document,
  admit_version, insert_version, add_version, read_document, mark_deleted, delete_document,
  read_version, get_content,
}
use rubrica_back.DatabaseWorkflow.Requests.{
  create_request, get_request, list_signers, audit_events, check_mode, open_request, cancel_request,
  create_signing_link, get_signing_link,
}
use rubrica_back.DatabaseWorkflow.Signers.{
  represent, representation_of, add_signer, revoke_signer_link, collect_contacts,
  list_signer_contacts,
}
use rubrica_back.DatabaseWorkflow.Links.{
  latest_signer, last_signature, linked_request, shown_signer, signing_context, signing_document,
  view, decline, read_artifact, signed_document, signing_signed_document,
}
use rubrica_back.DatabaseWorkflow.Evidence.{
  take, device_type, stamp_template, place_signature, order_signatures, signature_evidence_of,
  stamp_records,
}
use rubrica_back.DatabaseWorkflow.Admission.{
  check_signer, frozen_version, check_representation, admit_signer, admit_signature,
}
use rubrica_back.DatabaseWorkflow.Signing.{
  complete_request, insert_signature, original_content, stamp_time, sign_artifact,
  document_owner_storage_id, store_signature, sign_with_consent, sign,
}
use rubrica_back.DatabaseWorkflow.Reach.{run_call}
use rubrica_back.Billing.Account.{
  account_entity, consume_signature, consume_document, sync_usage_period, read_account,
}
use rubrica_back.Billing.Access.{
  paid_access_enabled, active_plan_file_limit, subscription_requires_portal, has_business_features,
  find_account, business_features_enabled,
}
use rubrica_back.Tenant.Members.{
  active_count, member_limit, team_over_limit, is_member_of, require_role,
}
use rubrica_back.Billing.Product.{
  normalize_product_code, plan_file_limit, plan_member_limit, is_business_product, plan_of,
  interval_of, currency_of, plan_prices, add_prices, configured_prices, price_for_currency,
  product_code_of,
}

program : Unit {0}
unfolding lookup insert values IsTable get_document get_request_row get_signer is_invited
    document_read request_read issuer_snapshot require_document_access require_request_access
    open_access request_from_token find_signer check_link resolve_request key_is_used
    add_version_row cancel_requests admit_upload insert_document create_document admit_version
    insert_version add_version read_document mark_deleted delete_document read_version get_content
    create_request get_request list_signers audit_events check_mode open_request cancel_request
    create_signing_link get_signing_link represent representation_of add_signer revoke_signer_link
    collect_contacts list_signer_contacts latest_signer last_signature linked_request shown_signer
    signing_context signing_document view decline read_artifact signed_document
    signing_signed_document take device_type stamp_template place_signature order_signatures
    signature_evidence_of stamp_records check_signer frozen_version check_representation
    admit_signer admit_signature complete_request insert_signature original_content stamp_time
    sign_artifact document_owner_storage_id store_signature sign_with_consent sign run_call
    account_entity consume_signature consume_document sync_usage_period read_account
    paid_access_enabled active_plan_file_limit subscription_requires_portal has_business_features
    find_account business_features_enabled active_count member_limit team_over_limit is_member_of
    require_role normalize_product_code plan_file_limit plan_member_limit is_business_product
    plan_of interval_of currency_of plan_prices add_prices configured_prices price_for_currency
    product_code_of
program = tt

-- A digest that tells the contents of the tests apart by their lengths, and a stamp that adds a
-- byte for each signature.
abbrev sample : Env
sample = record {
  Files = Objects;
  put = λ tenant account filename content files.
      ((key_of (0 + length files), length content), files ++ some content ∷ []);
  get = get_from 0;
  discard_uncommitted = discard_from 0;
  digest = λ content. if length content == 3 then "three" else "other";
  digest_text = λ t. "#" <> t;
  evidence_sha256 = λ e. e.signer_email;
  hmac = λ t. t;
  show = key_of;
  lower = λ t. t;
  strip = λ t. t;
  account_of_subject = λ t. 0;
  request_token = λ i nonce. nonce;
  signing_app_url = "https://sign";
  validate_pdf = λ content filename. none;
  has_embedded_signatures = λ content. false;
  generate_signed_pdf = λ content stamps request artifact. some (map (λ _. 1) stamps ++ content);
  apply_timestamp = λ content. none;
  timestamp_enabled = false;
  serproid_enabled = false;
  identity_summary =
      λ user. record { identifier_type = none; issuing_country = none; masked_display = none };
}

sample_laws : StorageLaws sample
sample_laws = record {
  put_fresh = λ tenant account filename content f. get_from-fresh 0 f;
  get_put = λ tenant account filename content f. get_from-put 0 content f;
  put_other = λ tenant account filename content f key h. get_from-other 0 key content f h;
  discard_other = λ key other f h. get_from-discard_from 0 key other f h;
}

abbrev company : Tenant
company = record {
  id = 1;
  name = "Acme";
  slug = "acme";
  default_locale = "en";
  country_code = some "BR";
  timezone = "UTC";
  currency = "USD";
  kind = personal;
  legal_name = none;
  registration_country = none;
  registration_type = none;
  registration_value_encrypted = none;
  registration_lookup_hmac = none;
  registration_masked = none;
  registration_verification_status = none;
  registration_source = none;
  registration_provider_reference = none;
  deleted_at = none;
}

abbrev owner : Member
owner = record {
  id = 10;
  tenant_id = 1;
  auth_user_id = "ana";
  auth_user_uuid = none;
  role = admin;
  status = enrolled;
  joined_at = some 1;
  created_at = 1;
  deleted_at = none;
}

abbrev empty : World sample
empty = record {
  tables = record {
    core = record {
      accounts = (1, new_account 1) ∷ [];
      payments = [];
      events = [];
      tenants = (1, company) ∷ [];
      members = owner ∷ [];
      audit = [];
    };
    documents = [];
    versions = [];
    requests = [];
    signers = [];
    signatures = [];
    audit = [];
  };
  files = [];
}

abbrev ana : Actor
ana = record { subject = "ana"; user_id = none }

abbrev bea : Actor
bea = record { subject = "bea"; user_id = none }

abbrev contract : DocumentCreate
contract = record {
  organization_id = "acme";
  title = "Contract";
  original_filename = "contract.pdf";
  content_type = "application/pdf";
  created_by = "ana";
}

abbrev submission : Submission
submission = record {
  consent = true;
  stamp = record { page = 1; x = "0.5"; y = "0.5"; template = "INTL" };
  consent_version = "rubrica-evidence-v1";
  client = none;
  geolocation = none;
  ip_address = "127.0.0.1";
  user_agent = "Mozilla (iphone)";
  certificate_signer = none;
  certificate_info = none;
}

abbrev drawn : ℕ → Drawn
drawn n = record { artifact_id = "artifact"; signature_id = n }

abbrev calls : List Call
calls =
    Call.create_document 7 contract none (1 ∷ 2 ∷ 3 ∷ [])
    ∷ Call.create_request 8 (record { document_id = 7; expires_at = 100; created_by = "ana" }) ana
    ∷ Call.add_signer 9 "t" 8
        (record {
          signer = record {
            name = "Bea";
            email = "bea";
            preferred_locale = "en";
            token_ttl_seconds = 300;
          };
          participant_role = external_signer;
          represented_tenant_id = none;
        })
        ana
    ∷ Call.open_request 8 ana evidence
    ∷ Call.create_signing_link "nonce" 8 ana
    ∷ []

abbrev run : List Call → World sample → World sample
run [] w = w
run (c ∷ cs) w = run cs (run_call sample 5 c w)

abbrev linked : World sample
linked = run calls empty

abbrev signature : Call
signature = Call.sign (drawn 90) "nonce" bea submission

abbrev finished : World sample
finished = run_call sample 6 signature linked

status_of : World sample → Option RequestStatus
status_of w = elim (lookup 8 w.tables.requests) [ none ↦ none | some r ↦ some r.status ]

the_last_signature_completes : status_of finished ≡ some completed
unfolding program status_of
the_last_signature_completes = refl

a_version_of_a_frozen_document_is_refused :
    (add_version sample 6 7 "b.pdf" "application/pdf" ana (1 ∷ []) linked).0
    ≡ err (record { message = "A frozen document cannot receive a new version"; status_code = 409 })
unfolding program
a_version_of_a_frozen_document_is_refused = refl

-- `_resolve_request` records the failed authorization in a transaction that its error takes back.
a_failed_authorization_is_not_recorded :
    length
      (view sample 6 "nonce" (record { subject = "eve"; user_id = none }) linked.tables).1.audit
    ≡ 5
unfolding program
a_failed_authorization_is_not_recorded = refl

collect_contacts-distinct_from_example :
    (length (collect_contacts sample "be" [] 50 (values linked.tables.signers)) ≤ 50)
    × (distinct_from [] (collect_contacts sample "be" [] 50 (values linked.tables.signers)) ≡ true)
    × (all_match sample.lower "be"
          (collect_contacts sample "be" [] 50 (values linked.tables.signers))
        ≡ true)
collect_contacts-distinct_from_example =
    collect_contacts-distinct_from sample "be" [] 50 (values linked.tables.signers)

linked-IsKeyed : IsKeyed linked.tables
unfolding program
linked-IsKeyed = record {
  documents_keyed = (refl, refl, tt);
  requests_keyed = (refl, refl, tt);
  signers_keyed = (refl, refl, tt);
}

signing : History sample linked finished
signing = next_call 6 signature start tt

History-settled_example :
    is_settled (lookup 8 finished.tables.requests) (lookup 9 finished.tables.signers) ≡ true
unfolding program
History-settled_example = History-settled sample 8 9 linked-IsKeyed signing refl

History-matching_example : is_matching (lookup 8 finished.tables.requests) finished.tables ≡ true
unfolding program
History-matching_example = History-matching sample 8 9 linked-IsKeyed signing refl

History-final_example :
    stays_final (lookup 8 linked.tables.requests) (lookup 8 finished.tables.requests) ≡ true
History-final_example = History-final sample 8 9 linked-IsKeyed signing

-- A request with two signers, of which Cid has signed, and the second signature, whose identifier is
-- smaller.
abbrev cid : Actor
cid = record { subject = "cid"; user_id = none }

abbrev invitations : List Call
invitations =
    Call.create_document 7 contract none (1 ∷ 2 ∷ 3 ∷ [])
    ∷ Call.create_request 8 (record { document_id = 7; expires_at = 100; created_by = "ana" }) ana
    ∷ Call.add_signer 9 "t" 8
        (record {
          signer = record {
            name = "Bea";
            email = "bea";
            preferred_locale = "en";
            token_ttl_seconds = 300;
          };
          participant_role = external_signer;
          represented_tenant_id = none;
        })
        ana
    ∷ Call.add_signer 19 "u" 8
        (record {
          signer = record {
            name = "Cid";
            email = "cid";
            preferred_locale = "en";
            token_ttl_seconds = 300;
          };
          participant_role = external_signer;
          represented_tenant_id = none;
        })
        ana
    ∷ Call.open_request 8 ana evidence
    ∷ Call.create_signing_link "nonce" 8 ana
    ∷ Call.sign (drawn 90) "nonce" cid submission
    ∷ []

abbrev half_signed : World sample
half_signed = run invitations empty

abbrev fully_signed : World sample
fully_signed = (sign sample 6 (drawn 10) "nonce" bea submission half_signed).1

all_have_signed : status_of fully_signed ≡ some completed
unfolding program status_of
all_have_signed = refl

-- The artifact of the first signature, with one stamp, is served, not the one with both.
the_greatest_identifier_is_served :
    (signed_document sample 7 8 none fully_signed).0 ≡ ok ("other", 1 ∷ 1 ∷ 2 ∷ 3 ∷ [])
unfolding program
the_greatest_identifier_is_served = refl

sign-Atomic_example : Atomic sample linked (sign sample 6 (drawn 90) "other" bea submission linked)
sign-Atomic_example = sign-Atomic sample sample_laws 6 (drawn 90) "other" bea submission linked

upload-Atomic_example :
    Atomic sample linked (create_document sample 6 17 contract none (1 ∷ 2 ∷ []) linked)
    × Atomic sample linked
        (add_version sample 6 17 "b.pdf" "application/pdf" ana (1 ∷ 2 ∷ []) linked)
upload-Atomic_example =
    upload-Atomic sample sample_laws 6 linked 17 contract none "b.pdf" "application/pdf" ana
      (1 ∷ 2 ∷ [])
