-- ===== src/Workflow/Tests.antt =====
-- Runs of the workflow on small inputs.
use rubrica_back.Base.{
  ◌≡◌, ◌≢◌, refl, String, Bool, true, Option, none, some, List, [], ◌∷◌, length, str_eq,
  if◌then◌else◌, ◌==◌,
}
use rubrica_back.Base.Actions.{ok}
use rubrica_back.Base.Dict.{IsDict, lookup, insert, erase, values, lookup_text, insert_text}
use rubrica_back.Workflow.Types.{
  RequestStatus, open_for_signing, completed, signed, evidence, Bytes, StampPosition, Service, Env,
  SignatureRequest, Signer,
}
use rubrica_back.Workflow.Service.{
  load_signers, any_signer, list_signers, counts, get_content, check_access, admit_user,
  resolve_request,
}
use rubrica_back.Workflow.Documents.{create_document, add_version, delete_document}
use rubrica_back.Workflow.Requests.{create_request, open_request, add_signer, create_signing_link}
use rubrica_back.Workflow.Op.{Op}
use rubrica_back.Workflow.Steps.{Evolves}
use rubrica_back.Workflow.Signature.{Signs, sign-Signs}
use rubrica_back.Workflow.Lifecycle.{
  run_op, IsWellFormed, Run, done, call, Run-IsWellFormed, run_op-Evolves, Stays, Run-Stays,
  Run-signed,
}
use rubrica_back.Workflow.Once.{sign_once}
use rubrica_back.Workflow.Signing.{
  has_signed, complete_request, check_signature, record_signature, sign, decline, view,
}

program : Unit {0}
unfolding lookup insert erase values lookup_text insert_text load_signers any_signer list_signers
    counts get_content check_access admit_user resolve_request create_document add_version
    delete_document create_request open_request add_signer create_signing_link has_signed
    complete_request check_signature record_signature sign decline view run_op
program = tt

-- An object store that keeps every object under the number of objects before it, and a digest
-- that is the text of a byte string of one byte.
abbrev pub SampleStore : Type 0
SampleStore = List (String × Bytes)

abbrev find_object : String → SampleStore → Option Bytes
find_object k [] = none
find_object k ((j, b) ∷ rest) = if str_eq k j then some b else find_object k rest

abbrev pub sample : Env
sample = record {
  Files = SampleStore;
  put = λ content filename files. ((filename, length content), (filename, content) ∷ files);
  get = find_object;
  digest = λ content. if length content == 3 then "three" else "other";
  encode = λ t. [];
  lower = λ t. t;
  signing_app_url = "https://sign";
}

abbrev pub empty : Service SampleStore
empty = record {
  documents = [];
  versions = [];
  requests = [];
  signers = [];
  request_signers = [];
  request_token_index = [];
  signatures = [];
  signature_evidence = [];
  audit = [];
  storage = [];
}

abbrev position : StampPosition
position = record { page = 1; x = "0.5"; y = "0.5"; template = "INTL" }

abbrev document : Op
document =
    Op.create_document 1 7
      (record {
        organization_id = "acme";
        title = "Contract";
        original_filename = "contract.pdf";
        content_type = "application/pdf";
        created_by = "ana";
      })
      (1 ∷ 2 ∷ 3 ∷ [])

abbrev request : Op
request = Op.create_request 2 8 (record { document_id = 7; expires_at = 100; created_by = "ana" })

abbrev signer : Op
signer =
    Op.add_signer 3 9 8
      (record { name = "Bea"; email = "bea@x.y"; preferred_locale = "en"; token_ttl_seconds = 300 })
      "ana"

abbrev second_signer : Op
second_signer =
    Op.add_signer 3 10 8
      (record {
        name = "Caio";
        email = "caio@x.y";
        preferred_locale = "pt-BR";
        token_ttl_seconds = 300;
      })
      "ana"

abbrev opening : Op
opening = Op.open_request 4 8 "ana" evidence

abbrev link : Op
link = Op.create_signing_link 5 "token" 8 "ana"

abbrev signature : Op
signature = Op.sign 6 "token" "bea@x.y" true position

abbrev second_signature : Op
second_signature = Op.sign 7 "token" "caio@x.y" true position

abbrev refusal : Op
refusal = Op.decline 6 "token" "bea@x.y"

abbrev run : List Op → Service SampleStore → Service SampleStore
run [] s = s
run (op ∷ ops) s = run ops (run_op sample op s)

abbrev with_document : Service SampleStore
with_document = run_op sample document empty

abbrev with_request : Service SampleStore
with_request = run_op sample request with_document

abbrev with_signer : Service SampleStore
with_signer = run_op sample signer with_request

abbrev with_signers : Service SampleStore
with_signers = run_op sample second_signer with_signer

abbrev opened : Service SampleStore
opened = run_op sample opening with_signers

abbrev linked : Service SampleStore
linked = run_op sample link opened

abbrev signed_state : Service SampleStore
signed_state = run_op sample signature linked

status_of : Service SampleStore → Option RequestStatus
status_of s = elim (lookup 8 s.requests) [ none ↦ none | some r ↦ some r.status ]

one_signature_is_not_enough : status_of signed_state ≡ some open_for_signing
unfolding program status_of
one_signature_is_not_enough = refl

signs_and_completes : status_of (run (signature ∷ second_signature ∷ []) linked) ≡ some completed
unfolding program status_of
signs_and_completes = refl

-- A signer who has declined can still sign.
declined_then_signs :
    status_of (run (refusal ∷ signature ∷ second_signature ∷ []) linked) ≡ some completed
unfolding program status_of
declined_then_signs = refl

empty-IsWellFormed : IsWellFormed sample empty
unfolding program IsDict
empty-IsWellFormed = record {
  keyed = record { requests_keyed = λ i r e. cc; signers_keyed = λ i g e. cc };
  distinct = tt;
}

request-IsFresh : lookup 8 with_document.requests ≡ none
unfolding program
request-IsFresh = refl

signer-IsFresh : lookup 9 with_request.signers ≡ none
unfolding program
signer-IsFresh = refl

second_signer-IsFresh : lookup 10 with_signer.signers ≡ none
unfolding program
second_signer-IsFresh = refl

to_request : Run sample empty with_request
to_request = call request (call document done tt) request-IsFresh

from_request : Run sample with_request linked
from_request =
    call link
      (call opening (call second_signer (call signer done signer-IsFresh) second_signer-IsFresh) tt)
      tt

with_request-IsWellFormed : IsWellFormed sample with_request
with_request-IsWellFormed = Run-IsWellFormed sample empty-IsWellFormed to_request

linked-IsWellFormed : IsWellFormed sample linked
linked-IsWellFormed = Run-IsWellFormed sample with_request-IsWellFormed from_request

run_op-Evolves_example : Evolves 8 9 linked signed_state
run_op-Evolves_example = run_op-Evolves sample 8 9 linked linked-IsWellFormed signature tt

abbrev draft_request : SignatureRequest
draft_request = record {
  id = 8;
  document_id = 7;
  document_version = 1;
  document_sha256 = "three";
  status = RequestStatus.draft;
  expires_at = 100;
  created_by = "ana";
  created_at = 2;
  completed_at = none;
  signer_count = 0;
  signed_count = 0;
  signature_mode = evidence;
}

after_signing : Run sample with_request signed_state
after_signing = call signature from_request tt

Run-Stays_example : Stays sample draft_request (lookup 8 signed_state.requests)
unfolding program
Run-Stays_example = Run-Stays sample 8 draft_request with_request-IsWellFormed after_signing refl

abbrev bea : Signer
bea = record {
  id = 9;
  signature_request_id = 8;
  auth_user_id = "bea@x.y";
  name = "Bea";
  email = "bea@x.y";
  preferred_locale = "en";
  status = signed;
  token_expires_at = 300000003;
  link_revoked_at = none;
  signed_at = some 6;
}

bea_signs : sign sample 6 "token" "bea@x.y" true position linked ≡ (ok bea, signed_state)
unfolding program
bea_signs = refl

sign-Signs_example : ◌≡◌ {A = Bool} true true × Signs sample 6 bea linked signed_state
sign-Signs_example =
    sign-Signs sample 6 "token" "bea@x.y" true position linked signed_state bea
      linked-IsWellFormed.keyed bea_signs

signed_state-IsWellFormed : IsWellFormed sample signed_state
signed_state-IsWellFormed = Run-IsWellFormed sample with_request-IsWellFormed after_signing

abbrev caio : Signer
caio = record bea {
  id = 10;
  auth_user_id = "caio@x.y";
  name = "Caio";
  email = "caio@x.y";
  preferred_locale = "pt-BR";
  signed_at = some 7;
}

abbrev completed_state : Service SampleStore
completed_state = run_op sample second_signature signed_state

bea_is_stored : lookup 9 signed_state.signers ≡ some bea
unfolding program
bea_is_stored = refl

caio_signs :
    sign sample 7 "token" "caio@x.y" true position signed_state ≡ (ok caio, completed_state)
unfolding program
caio_signs = refl

sign_once_example : caio.id ≢ bea.id
sign_once_example =
    sign_once sample bea 7 "token" "caio@x.y" true position completed_state caio
      signed_state-IsWellFormed bea_is_stored refl done caio_signs

Run-signed_example :
    (h : Signer) × (lookup 9 completed_state.signers ≡ some h)
    × (h.status ≡ signed)
    × (h.signature_request_id ≡ 8)
    × (h.auth_user_id ≡ "bea@x.y")
Run-signed_example =
    Run-signed sample 9 bea signed_state-IsWellFormed (call second_signature done tt) bea_is_stored
      refl
