-- ===== src/License/Checking.antt =====
-- What each part of `validate_document` has checked where it accepts.
use perfect_match_qms.Prelude.{
  not-eq-false, ℕ, ◌≡◌, refl, subst, ◌==◌, Bool, true, false, not, ◌&&◌, String, Option, none, some,
  List, arith, length, all, str_eq,
}
use perfect_match_qms.License.Term.{valid, effective_temporal_state}
use perfect_match_qms.License.Document.{
  Json, Payload, get, has_key, truthy, equals_one, positive_int, is_bool, is_null, text_is,
  required_fields, is_demo_qa_key_id, Rejection, Checked, accept, reject, reject_if, expect,
  bad_signature_encoding, bad_signature_length, registry_unavailable, demo_without_scope,
  scope_reserved, bad_public_key, ◌>>=◌, ◌>>◌, key_not_approved, Registry, Primitives, License,
  parse_datetime, check_fields, approved_key, public_key, check_authority, check_environment,
  read_terms,
}

-- The fields of an accepted payload: all there, the limits positive, an expiry exactly where the
-- license is not perpetual.
pub record IsWellFormed (p : Payload) : Type 0 where
  pub complete : all (has_key p) required_fields ≡ true
  pub schema : equals_one (get "schema_version" p) ≡ true
  pub revision : positive_int (get "license_revision" p) ≡ true
  pub company_limit : positive_int (get "company_limit" p) ≡ true
  pub site_limit : positive_int (get "site_limit" p) ≡ true
  pub named_user_limit : positive_int (get "named_user_limit" p) ≡ true
  pub typed : is_bool (get "perpetual" p) ≡ true
  pub unlimited : truthy (get "perpetual" p) ≡ true → is_null (get "expires_at" p) ≡ true
  pub limited : truthy (get "perpetual" p) ≡ false → truthy (get "expires_at" p) ≡ true

-- The payload carries a signature of 64 bytes that verifies under the key which the registry approves
-- for its key id, and the Demo/QA scope exactly where that id is a Demo/QA one.
pub record IsSigned (prim : Primitives) (keys : Registry) (p : Payload) (signature : Json)
    : Type 0 where
  pub value : Json
  pub key : List ℕ
  pub bytes : List ℕ
  pub approved : approved_key keys (get "key_id" p) ≡ some value
  pub decoded : prim.b64decode value ≡ some key
  pub key_length : length key ≡ 32
  pub signature_decoded : prim.b64decode signature ≡ some bytes
  pub signature_length : length bytes ≡ 64
  pub verified : prim.verify key bytes p ≡ true
  pub demo_scope :
      is_demo_qa_key_id (get "key_id" p) ≡ true
      → text_is "demo-qa" (get "deployment_scope" p) ≡ true
  pub no_scope :
      is_demo_qa_key_id (get "key_id" p) ≡ false → is_null (get "deployment_scope" p) ≡ true

pub >>-eq-accept {ℓ} :
    {B : Type ℓ} (m : Checked (Unit {0})) (k : Checked B) {b : B}
    → (m >> k) ≡ accept b
    → (m ≡ accept tt) × (k ≡ accept b)
>>-eq-accept (accept tt) k h = (refl, h)
>>-eq-accept (reject e) k h = cc

pub >>=-eq-accept {ℓ κ} :
    {A : Type ℓ} {B : Type κ} (m : Checked A) (f : A → Checked B) {b : B}
    → (m >>= f) ≡ accept b
    → (a : A) × (m ≡ accept a) × (f a ≡ accept b)
>>=-eq-accept (accept a) f h = (a, refl, h)
>>=-eq-accept (reject e) f h = cc

pub reject_if-eq-accept : (b : Bool) (e : Rejection) → reject_if b e ≡ accept tt → b ≡ false
reject_if-eq-accept true e h = cc
reject_if-eq-accept false e h = refl

pub expect-eq-accept {ℓ} :
    {A : Type ℓ} (o : Option A) (e : Rejection) {a : A} → expect o e ≡ accept a → o ≡ some a
expect-eq-accept none e h = cc
expect-eq-accept (some b) e h = cc

length-eq : {A : Type 0} (xs : List A) (n : ℕ) → not (length xs == n) ≡ false → length xs ≡ n
length-eq xs n h = ground arith

pub check_fields-IsWellFormed : (p : Payload) → check_fields p ≡ accept tt → IsWellFormed p
unfolding check_fields
check_fields-IsWellFormed p h = ground arith

accept-injective {ℓ} : {A : Type ℓ} {a b : A} → accept a ≡ accept b → a ≡ b
accept-injective e = cc

public_key-eq-accept :
    (prim : Primitives) (value : Json) (key : List ℕ)
    → public_key prim value ≡ accept key
    → (prim.b64decode value ≡ some key) × (length key ≡ 32)
public_key-eq-accept prim value key h =
    let (raw, decoded, rest) = >>=-eq-accept (expect (prim.b64decode value) bad_public_key) _ h in
    let (sized, same) = >>-eq-accept (reject_if (not (length raw == 32)) bad_public_key) _ rest in
    subst (λ l. (prim.b64decode value ≡ some l) × (length l ≡ 32)) (accept-injective same)
      (
        expect-eq-accept (prim.b64decode value) _ decoded,
        length-eq raw 32 (reject_if-eq-accept _ _ sized),
      )

scoped : (a b : Bool) → (a && not b) ≡ false → a ≡ true → b ≡ true
scoped a b h e = ground arith

unscoped : (a b : Bool) → (not a && not b) ≡ false → a ≡ false → b ≡ true
unscoped a b h e = ground arith

pub check_authority-IsSigned :
    (prim : Primitives) (keys : Option Registry) (p : Payload) (signature : Json)
    → check_authority prim keys p signature ≡ accept tt
    → (r : Registry) × (keys ≡ some r) × IsSigned prim r p signature
unfolding check_authority
check_authority-IsSigned prim keys p signature h =
    let key_id = get "key_id" p in
    let (bytes, b, h1) =
      >>=-eq-accept (expect (prim.b64decode signature) bad_signature_encoding) _ h in
    let (b_len, h2) =
      >>-eq-accept (reject_if (not (length bytes == 64)) bad_signature_length) _ h1 in
    let (r, r_e, h3) = >>=-eq-accept (expect keys registry_unavailable) _ h2 in
    let (value, v, h4) = >>=-eq-accept (expect (approved_key r key_id) key_not_approved) _ h3 in
    let (demo, h5) =
      >>-eq-accept (reject_if (is_demo_qa_key_id key_id && _) demo_without_scope) _ h4 in
    let (scope, h6) =
      >>-eq-accept (reject_if (not (is_demo_qa_key_id key_id) && _) scope_reserved) _ h5 in
    let (key, k, h7) = >>=-eq-accept (public_key prim value) _ h6 in
    let (k_e, k_len) = public_key-eq-accept prim value key k in
    (
      r,
      expect-eq-accept keys _ r_e,
      record {
        value = value;
        key = key;
        bytes = bytes;
        approved = expect-eq-accept (approved_key r key_id) _ v;
        decoded = k_e;
        key_length = k_len;
        signature_decoded = expect-eq-accept (prim.b64decode signature) _ b;
        signature_length = length-eq bytes 64 (reject_if-eq-accept _ _ b_len);
        verified = not-eq-false _ (reject_if-eq-accept _ _ h7);
        demo_scope = scoped _ _ (reject_if-eq-accept _ _ demo);
        no_scope = unscoped _ _ (reject_if-eq-accept _ _ scope);
      },
    )

-- The document was meant for this environment.
abbrev pub IsAtHome : Option String → Payload → Type 0
IsAtHome none p = ⊥
IsAtHome (some e) p = (str_eq e "" ≡ false) × (text_is e (get "environment_id" p) ≡ true)

pub check_environment-IsAtHome :
    (environment : Option String) (p : Payload)
    → check_environment environment p ≡ accept tt
    → IsAtHome environment p
unfolding check_environment
check_environment-IsAtHome none p h = cc
check_environment-IsAtHome (some e) p h = ground arith

-- The dates of the license are those that the payload names.
abbrev pub IsTerm : Primitives → Payload → License → Type 0
IsTerm prim p l =
    (parse_datetime prim (get "not_before" p) ≡ accept l.not_before)
    × ((parse_datetime prim (get "expires_at" p) ≡ accept l.expires_at)
        × (parse_datetime prim (get "issued_at" p) ≡ accept l.issued_at))

pub read_terms-state :
    (prim : Primitives) (p : Payload) (signature : Json) (now : ℕ) (l : License)
    → read_terms prim p signature now ≡ accept l
    → (l.payload ≡ p)
      × IsTerm prim p l
      × (l.state
          ≡ effective_temporal_state valid l.not_before l.expires_at
              (truthy (get "perpetual" p))
              now)
unfolding read_terms
read_terms-state prim p signature now l h =
    let (not_before, a, h1) = >>=-eq-accept (parse_datetime prim (get "not_before" p)) _ h in
    let (expires_at, b, h2) = >>=-eq-accept (parse_datetime prim (get "expires_at" p)) _ h1 in
    let (issued_at, c, h3) = >>=-eq-accept (parse_datetime prim (get "issued_at" p)) _ h2 in
    let e = accept-injective h3 in
    subst
      (λ (k : License).
        (k.payload ≡ p)
        × IsTerm prim p k
        × (k.state
            ≡ effective_temporal_state valid k.not_before k.expires_at (truthy (get "perpetual" p))
                now))
      e (refl, (a, (b, c)), refl)
