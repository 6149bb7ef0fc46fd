-- ===== src/License/Trust.antt =====
-- What an accepted license document has been checked to be, and by which registry.
use perfect_match_qms.Prelude.{
  ℕ, ◌≡◌, refl, sym, ap, ◌∙◌, true, false, String, Option, some, if◌then◌else◌, ◌⊎◌, inl, inr,
  Bool-cases,
}
use perfect_match_qms.License.Term.{valid, effective_temporal_state}
use perfect_match_qms.License.Document.{
  Json, Payload, get, truthy, text_is, is_demo_qa_key_id, Checked, accept, reject, expect,
  registry_unavailable, ◌>>=◌, key_not_approved, Upload, parsed, undecodable, unparsable, shapeless,
  Registry, Primitives, License, check_fields, check_authority, check_environment,
  validate_document, retry, validate_runtime_document,
}
use perfect_match_qms.License.Checking.{
  expect-eq-accept, IsWellFormed, IsSigned, IsAtHome, IsTerm, check_fields-IsWellFormed,
  check_authority-IsSigned, check_environment-IsAtHome, read_terms-state, >>-eq-accept,
  >>=-eq-accept,
}

-- What an accepted document is: a well-formed payload, signed by an approved key, for this
-- environment, with the dates that the payload names and the state that they give it now.
pub record IsGenuine (prim : Primitives) (keys : Registry) (environment : Option String) (now : ℕ)
    (u : Upload) (l : License) : Type 0 where
  pub signature : Json
  pub source : u ≡ parsed l.payload signature
  pub well_formed : IsWellFormed l.payload
  pub signed : IsSigned prim keys l.payload signature
  pub at_home : IsAtHome environment l.payload
  pub dated : IsTerm prim l.payload l
  pub current :
      l.state
      ≡ effective_temporal_state valid l.not_before l.expires_at
          (truthy (get "perpetual" l.payload))
          now

-- A document that `validate_document` accepts has all the required fields with positive limits, is
-- signed under the key that the registry given approves for its key id, with the Demo/QA scope just
-- where that key id is a Demo/QA one, and names the environment expected; the license's dates
-- are those that the payload's `not_before`, `expires_at` and `issued_at` name, and its state is the
-- one that they give it now.
pub validate_document-IsGenuine :
    (prim : Primitives) (u : Upload) (environment : Option String) (keys : Option Registry)
    (now : ℕ) (l : License)
    → validate_document prim u environment keys now ≡ accept l
    → (r : Registry) × (keys ≡ some r) × IsGenuine prim r environment now u l
unfolding validate_document
validate_document-IsGenuine prim undecodable environment keys now l h = cc
validate_document-IsGenuine prim unparsable environment keys now l h = cc
validate_document-IsGenuine prim shapeless environment keys now l h = cc
validate_document-IsGenuine prim (parsed p signature) environment keys now l h =
    let (fields, h1) = >>-eq-accept (check_fields p) _ h in
    let (authority, h2) = >>-eq-accept (check_authority prim keys p signature) _ h1 in
    let (home, h3) = >>-eq-accept (check_environment environment p) _ h2 in
    let (same, dated, state) = read_terms-state prim p signature now l h3 in
    let (r, e, signed) = check_authority-IsSigned prim keys p signature authority in
    (
      r,
      e,
      record {
        signature = signature;
        source = ap (λ q. parsed q signature) (sym same);
        well_formed = rw same (check_fields-IsWellFormed p fields);
        signed = rw same signed;
        at_home = rw same (check_environment-IsAtHome environment p home);
        dated = rw same dated;
        current = rw same state;
      },
    )

parsed-injective : {p q : Payload} {s t : Json} → parsed p s ≡ parsed q t → p ≡ q
parsed-injective e = cc

retry-cases :
    (prim : Primitives) (u : Upload) (environment : Option String) (demo : Option Registry)
    (now : ℕ) (first : Checked License) (l : License)
    → retry prim u environment demo now first ≡ accept l
    → (first ≡ accept l)
      ⊎ ((p : Payload) × (s : Json) × (u ≡ parsed p s)
          × (is_demo_qa_key_id (get "key_id" p) ≡ true)
          × (validate_document prim u environment demo now ≡ accept l))
unfolding retry
retry-cases prim (parsed p s) environment demo now (reject key_not_approved) l h =
    elim (Bool-cases (is_demo_qa_key_id (get "key_id" p))) [
      | inl d ↦
          let (keys, known, again) =
            >>=-eq-accept (expect demo registry_unavailable) _ (demo_branch d h) in
          inr (p, s, refl, d, rw (expect-eq-accept demo _ known) again)
      | inr d ↦ inl (no_branch d h)
    ]
  where
    again_with : Registry → Checked License
    again_with keys = validate_document prim (parsed p s) environment (some keys) now

    demo_branch :
        is_demo_qa_key_id (get "key_id" p) ≡ true
        → (if is_demo_qa_key_id (get "key_id" p)
            then (expect demo registry_unavailable >>= again_with)
            else reject key_not_approved)
          ≡ accept l
        → (expect demo registry_unavailable >>= again_with) ≡ accept l
    demo_branch d e = rw d at e

    no_branch :
        is_demo_qa_key_id (get "key_id" p) ≡ false
        → (if is_demo_qa_key_id (get "key_id" p)
            then (expect demo registry_unavailable >>= again_with)
            else reject key_not_approved)
          ≡ accept l
        → reject key_not_approved ≡ accept l
    no_branch d e = rw d at e
retry-cases prim _ environment demo now _ l h = inl h

-- The server accepts a license only if it is genuine under the standard registry, or its key is a
-- Demo/QA one and it is genuine under the Demo/QA registry and carries the signed scope demo-qa. So
-- no entry of the Demo/QA registry can vouch for any other key.
pub validate_runtime_document-IsGenuine :
    (prim : Primitives) (u : Upload) (environment : Option String) (standard demo : Option Registry)
    (now : ℕ) (l : License)
    → validate_runtime_document prim u environment standard demo now ≡ accept l
    → ((r : Registry) × (standard ≡ some r) × IsGenuine prim r environment now u l)
      ⊎ ((is_demo_qa_key_id (get "key_id" l.payload) ≡ true)
          × (text_is "demo-qa" (get "deployment_scope" l.payload) ≡ true)
          × ((r : Registry) × (demo ≡ some r) × IsGenuine prim r environment now u l))
unfolding validate_runtime_document
validate_runtime_document-IsGenuine prim u environment standard demo now l h =
    elim (retry-cases prim u environment demo now
      (validate_document prim u environment standard now) l h) [
        | inl first ↦ inl (validate_document-IsGenuine prim u environment standard now l first)
        | inr (p, s, e, d, again) ↦
            let (r, known, genuine) =
              validate_document-IsGenuine prim u environment demo now l again in
            let same = parsed-injective (sym genuine.source ∙ e) in
            let is_demo = rw (← same) at d in
            inr (is_demo, genuine.signed.demo_scope is_demo, (r, known, genuine))
      ]
