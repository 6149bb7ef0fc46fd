-- ===== src/License/Document.antt =====
-- `validate_document` and `validate_runtime_document` of services/license_service.py. Decoding, JSON
-- text, Ed25519 and ISO timestamps are parameters; everything that the code tests of the parsed
-- document is here, in its order.
use perfect_match_qms.Prelude.{
  ℕ, ◌==◌, leb, Bool, true, false, not, ◌&&◌, ◌||◌, String, Option, none, some, List, [], ◌∷◌,
  if◌then◌else◌, length, all, is_empty, str_eq,
}
use perfect_match_qms.License.Term.{LicenseState, valid, effective_temporal_state}

-- A value of the parsed JSON. A negative integer and a number with a fraction or an exponent are kept
-- apart from the natural ones, as far as the tests tell them apart; `collection` is an array or object.
pub data Json : Type 0 where
  null negative : Json
  bool : Bool → Json
  nat : ℕ → Json
  float : (is_zero is_one : Bool) → Json
  text : String → Json
  collection : (is_empty : Bool) → Json

abbrev pub Payload : Type 0
Payload = List (String × Json)

-- `dict.get(key)`: `none` is a missing key.
abbrev pub lookup : String → Payload → Option Json
lookup k [] = none
lookup k ((j, v) ∷ p) = if str_eq j k then some v else lookup k p

-- `payload.get(key)`, with `None` for a missing key.
abbrev pub get : String → Payload → Json
get k p = elim (lookup k p) [ none ↦ null | some v ↦ v ]

abbrev pub has_key : Payload → String → Bool
has_key p k = elim (lookup k p) [ none ↦ false | some _ ↦ true ]

-- Python's truth of a value.
abbrev pub truthy : Json → Bool
truthy null = false
truthy negative = true
truthy (bool b) = b
truthy (nat n) = not (n == 0)
truthy (float is_zero is_one) = not is_zero
truthy (text s) = not (str_eq s "")
truthy (collection is_empty) = not is_empty

-- `value == 1`, which a Boolean and a float can satisfy too.
abbrev pub equals_one : Json → Bool
equals_one (bool b) = b
equals_one (nat n) = n == 1
equals_one (float is_zero is_one) = is_one
equals_one _ = false

-- `isinstance(value, int) and not value < 1`: a Boolean is an int.
abbrev pub positive_int : Json → Bool
positive_int (bool b) = b
positive_int (nat n) = leb 1 n
positive_int _ = false

abbrev pub is_bool : Json → Bool
is_bool (bool b) = true
is_bool _ = false

abbrev pub is_null : Json → Bool
is_null null = true
is_null _ = false

abbrev pub text_is : String → Json → Bool
text_is s (text t) = str_eq t s
text_is s _ = false

-- `REQUIRED_PAYLOAD_FIELDS`
abbrev pub required_fields : List String
required_fields =
    "schema_version" ∷ "license_id" ∷ "license_revision" ∷ "customer_name" ∷ "edition"
    ∷ "environment_id" ∷ "company_limit" ∷ "site_limit" ∷ "named_user_limit" ∷ "issued_at"
    ∷ "not_before" ∷ "expires_at" ∷ "perpetual" ∷ "key_id" ∷ []

-- `is_demo_qa_key_id`
abbrev pub is_demo_qa_key_id : Json → Bool
is_demo_qa_key_id k = text_is "pmqms-demo-2026-v2" k || text_is "pmqms-demo-2026-v3" k

-- The messages of LicenseValidationError. A registry that cannot be read is one too.
pub data Rejection : Type 0 where
  not_utf8 not_json no_payload missing_fields unsupported_schema bad_revision bad_limit : Rejection
  bad_perpetual perpetual_with_expiry term_without_expiry bad_signature_encoding : Rejection
  bad_signature_length registry_unavailable key_not_approved demo_without_scope : Rejection
  scope_reserved bad_public_key invalid_signature no_environment wrong_environment : Rejection
  bad_timestamp : Rejection

pub data Checked {ℓ} (A : Type ℓ) : Type ℓ where
  accept : A → Checked A
  reject : Rejection → Checked A

infixl 5 ◌>>=◌ ◌>>◌
abbrev pub ◌>>=◌ {ℓ κ} : {A : Type ℓ} {B : Type κ} → Checked A → (A → Checked B) → Checked B
accept a >>= f = f a
reject e >>= f = reject e

abbrev pub ◌>>◌ {ℓ} : {B : Type ℓ} → Checked (Unit {0}) → Checked B → Checked B
accept _ >> k = k
reject e >> k = reject e

abbrev pub reject_if : Bool → Rejection → Checked (Unit {0})
reject_if true e = reject e
reject_if false e = accept tt

-- A `None` of the parameters is an error that the code turns into the rejection.
abbrev pub expect {ℓ} : {A : Type ℓ} → Option A → Rejection → Checked A
expect none e = reject e
expect (some a) e = accept a

-- What was uploaded, once decoded: the two ways in which that fails, JSON that is no object with a
-- payload object, or the payload beside the signature.
pub data Upload : Type 0 where
  undecodable unparsable shapeless : Upload
  parsed : Payload → (signature : Json) → Upload

abbrev pub Registry : Type 0
Registry = List (String × Json)

-- The standard library and the cryptography package, as far as the code calls them.
pub record Primitives : Type 0 where
  -- `base64.b64decode(value, validate=True)`
  pub b64decode : Json → Option (List ℕ)
  -- `Ed25519PublicKey.from_public_bytes(key).verify(signature, canonical_payload(payload))`
  pub verify : (key signature : List ℕ) → Payload → Bool
  -- `datetime.fromisoformat(...)`, in UTC
  pub from_iso : Json → Option ℕ

pub record License : Type 0 where
  pub payload : Payload
  pub signature : Json
  pub state : LicenseState
  pub issued_at : Option ℕ
  pub not_before : Option ℕ
  pub expires_at : Option ℕ

-- The tests of the payload's fields.
unfoldable pub check_fields : Payload → Checked (Unit {0})
check_fields p = do
  reject_if (not (all (has_key p) required_fields)) missing_fields
  reject_if (not (equals_one (get "schema_version" p))) unsupported_schema
  reject_if (not (positive_int (get "license_revision" p))) bad_revision
  reject_if (not (positive_int (get "company_limit" p))) bad_limit
  reject_if (not (positive_int (get "site_limit" p))) bad_limit
  reject_if (not (positive_int (get "named_user_limit" p))) bad_limit
  reject_if (not (is_bool (get "perpetual" p))) bad_perpetual
  reject_if (truthy (get "perpetual" p) && not (is_null (get "expires_at" p))) perpetual_with_expiry
  reject_if (not (truthy (get "perpetual" p)) && not (truthy (get "expires_at" p)))
      term_without_expiry

-- `keys.get(payload["key_id"])`, where a falsy value counts as absent. A key that is an array or an
-- object ends in a TypeError there, outside the rejections; here it is not approved.
abbrev pub approved_key : Registry → Json → Option Json
approved_key keys (text k) = elim (lookup k keys) [
  | none ↦ none
  | some v ↦ if truthy v then some v else none
]
approved_key keys _ = none

-- `expected_environment_id or read_environment_id()`, with the outcome given, then the comparison.
unfoldable pub check_environment : Option String → Payload → Checked (Unit {0})
check_environment none p = reject no_environment
check_environment (some e) p = do
  reject_if (str_eq e "") no_environment
  reject_if (not (text_is e (get "environment_id" p))) wrong_environment

module _ (prim : Primitives) where
  -- `_parse_datetime`
  abbrev pub parse_datetime : Json → Checked (Option ℕ)
  parse_datetime value =
      if truthy value
      then (expect (prim.from_iso value) bad_timestamp >>= λ t. accept (some t))
      else accept none

  -- `_public_key_from_b64`
  abbrev pub public_key : Json → Checked (List ℕ)
  public_key v = expect (prim.b64decode v) bad_public_key >>= λ raw.
      reject_if (not (length raw == 32)) bad_public_key >> accept raw

  -- The tests of the signature, of the authority behind its key and of that authority's scope.
  unfoldable pub check_authority : Option Registry → Payload → Json → Checked (Unit {0})
  check_authority keys p signature = do
    bytes ← expect (prim.b64decode signature) bad_signature_encoding
    reject_if (not (length bytes == 64)) bad_signature_length
    registry ← expect keys registry_unavailable
    key_value ← expect (approved_key registry (get "key_id" p)) key_not_approved
    reject_if
        (is_demo_qa_key_id (get "key_id" p) && not (text_is "demo-qa" (get "deployment_scope" p)))
        demo_without_scope
    reject_if (not (is_demo_qa_key_id (get "key_id" p)) && not (is_null (get "deployment_scope" p)))
        scope_reserved
    key ← public_key key_value
    reject_if (not (prim.verify key bytes p)) invalid_signature

  -- The end of `validate_document`, on an authorized payload.
  unfoldable pub read_terms : Payload → Json → (now : ℕ) → Checked License
  read_terms p signature now = do
    not_before ← parse_datetime (get "not_before" p)
    expires_at ← parse_datetime (get "expires_at" p)
    issued_at ← parse_datetime (get "issued_at" p)
    accept (record {
      payload = p;
      signature = signature;
      state = effective_temporal_state valid not_before expires_at (truthy (get "perpetual" p)) now;
      issued_at = issued_at;
      not_before = not_before;
      expires_at = expires_at;
    })

  -- `validate_document`. `keys` is `None` where the registry cannot be loaded.
  unfoldable pub validate_document :
      Upload
      → (environment : Option String) → (keys : Option Registry) → (now : ℕ) → Checked License
  unfolding check_fields check_authority check_environment read_terms
  validate_document undecodable environment keys now = reject not_utf8
  validate_document unparsable environment keys now = reject not_json
  validate_document shapeless environment keys now = reject no_payload
  validate_document (parsed p signature) environment keys now = do
    check_fields p
    check_authority keys p signature
    check_environment environment p
    read_terms p signature now

  -- `validate_runtime_document`, over the standard registry and the Demo/QA one of the bundle.
  unfoldable pub retry :
      Upload
      → (environment : Option String) → (demo : Option Registry) → (now : ℕ) → Checked License
      → Checked License
  retry (parsed p signature) environment demo now (reject key_not_approved) =
      if is_demo_qa_key_id (get "key_id" p)
      then (expect demo registry_unavailable >>= λ keys.
          validate_document (parsed p signature) environment (some keys) now)
      else reject key_not_approved
  retry upload environment demo now result = result

  unfoldable pub validate_runtime_document :
      Upload
      → (environment : Option String) → (standard demo : Option Registry) → (now : ℕ)
      → Checked License
  unfolding retry
  validate_runtime_document upload environment standard demo now =
      retry upload environment demo now (validate_document upload environment standard now)
