-- ===== src/License/Tests.antt =====
-- A license on its way through validation, and the theorems at concrete inputs.
use perfect_match_qms.Prelude.{
  ◌≡◌, refl, ◌⊎◌, ◌↔◌, true, false, String, none, some, [], ◌∷◌, replicate,
}
use perfect_match_qms.License.Term.{valid, expiring, effective_temporal_state}
use perfect_match_qms.License.Timeline.{InPhase, effective_iff}
use perfect_match_qms.License.Document.{
  Json, null, bool, nat, text, Payload, Upload, parsed, Registry, Primitives, License, accept,
  reject, demo_without_scope, key_not_approved, text_is, is_demo_qa_key_id, check_fields,
  check_authority, check_environment, read_terms, validate_document, retry,
  validate_runtime_document,
}
use perfect_match_qms.License.Trust.{
  IsGenuine, validate_document-IsGenuine, validate_runtime_document-IsGenuine,
}

effective_iff_example :
    (effective_temporal_state valid (some 10) (some 3000000000000) false 500000000000 ≡ expiring)
    ↔ InPhase (some 10) (some 3000000000000) false 500000000000 expiring
effective_iff_example =
    effective_iff valid (some 10) (some 3000000000000) false 500000000000 expiring refl

-- Stand-ins: a text decodes to bytes of one value, every signature verifies, a number is a time.
abbrev prim : Primitives
prim = record {
  b64decode =
      λ v. elim v [ text s ↦ some (replicate 32 0) | nat n ↦ some (replicate 64 n) | _ ↦ none ];
  verify = λ key bytes p. true;
  from_iso = λ v. elim v [ nat n ↦ some n | _ ↦ none ];
}

abbrev payload : String → Json → Payload
payload key scope =
    ("schema_version", nat 1)
    ∷ ("license_id", text "L-1")
    ∷ ("license_revision", nat 1)
    ∷ ("customer_name", text "ACME")
    ∷ ("edition", text "standard")
    ∷ ("environment_id", text "env")
    ∷ ("company_limit", nat 1)
    ∷ ("site_limit", nat 2)
    ∷ ("named_user_limit", nat 5)
    ∷ ("issued_at", nat 1)
    ∷ ("not_before", nat 10)
    ∷ ("expires_at", nat 90000000000000)
    ∷ ("perpetual", bool false)
    ∷ ("key_id", text key)
    ∷ ("deployment_scope", scope)
    ∷ []

abbrev upload : String → Json → Upload
upload key scope = parsed (payload key scope) (nat 3)

abbrev standard : Registry
standard = ("pmqms-license-2026", text "key") ∷ []

abbrev demo : Registry
demo = ("pmqms-demo-2026-v2", text "key") ∷ ("other", text "key") ∷ []

abbrev license : String → Json → License
license key scope = record {
  payload = payload key scope;
  signature = nat 3;
  state = valid;
  issued_at = some 1;
  not_before = some 10;
  expires_at = some 90000000000000;
}

program : Unit {0}
unfolding validate_runtime_document validate_document check_fields check_authority check_environment
    read_terms retry effective_temporal_state
program = tt

abbrev customer : String
customer = "pmqms-license-2026"

abbrev demo_key : String
demo_key = "pmqms-demo-2026-v2"

accepted :
    validate_document prim (upload customer null) (some "env") (some standard) 20
    ≡ accept (license customer null)
unfolding program
accepted = refl

accepted_demo :
    validate_runtime_document prim
      (upload demo_key (text "demo-qa"))
      (some "env")
      (some standard)
      (some demo)
      20
    ≡ accept (license demo_key (text "demo-qa"))
unfolding program
accepted_demo = refl

unscoped_demo :
    validate_runtime_document prim
      (upload demo_key null)
      (some "env")
      (some standard)
      (some demo)
      20
    ≡ reject demo_without_scope
unfolding program
unscoped_demo = refl

-- The Demo/QA registry cannot approve another key.
other_key :
    validate_runtime_document prim (upload "other" null) (some "env") (some standard) (some demo) 20
    ≡ reject key_not_approved
unfolding program
other_key = refl

validate_document-IsGenuine_example :
    (r : Registry) × (some standard ≡ some r)
    × IsGenuine prim r (some "env") 20 (upload customer null) (license customer null)
validate_document-IsGenuine_example =
    validate_document-IsGenuine prim (upload customer null) (some "env") (some standard) 20
      (license customer null) accepted

validate_runtime_document-IsGenuine_example :
    ((r : Registry) × (some standard ≡ some r)
      × IsGenuine prim r
          (some "env")
          20
          (upload demo_key (text "demo-qa"))
          (license demo_key (text "demo-qa")))
    ⊎ ((is_demo_qa_key_id (text demo_key) ≡ true)
        × (text_is "demo-qa" (text "demo-qa") ≡ true)
        × ((r : Registry) × (some demo ≡ some r)
            × IsGenuine prim r
                (some "env")
                20
                (upload demo_key (text "demo-qa"))
                (license demo_key (text "demo-qa"))))
validate_runtime_document-IsGenuine_example =
    validate_runtime_document-IsGenuine prim (upload demo_key (text "demo-qa")) (some "env")
      (some standard) (some demo) 20 (license demo_key (text "demo-qa")) accepted_demo
