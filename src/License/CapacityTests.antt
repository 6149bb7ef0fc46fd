-- ===== src/License/CapacityTests.antt =====
-- Imports and capacity checks at concrete inputs.
use perfect_match_qms.Prelude.{
  ℕ, ◌≡◌, ◌↔◌, refl, true, false, none, some, List, [], ◌∷◌, arith, replicate, map, filtered,
  length,
}
use perfect_match_qms.Odoo.{Env, ok, err, user_error}
use perfect_match_qms.License.Term.{valid, effective_temporal_state}
use perfect_match_qms.License.Document.{
  null, bool, nat, text, Payload, Upload, parsed, Registry, Primitives, check_fields,
  check_authority, check_environment, read_terms, validate_document, retry,
  validate_runtime_document,
}
use perfect_match_qms.License.Capacity.{
  Stored, Organization, Site, User, customer, Database, current_license, license_or_raise,
  is_billable_site, active_sites, named_users, operational_organizations, usage, enforce,
  enforce_sites, enforce_named_users, enforce_organization,
}
use perfect_match_qms.License.Seats.{IsAllowed, enforce_sites_iff}
use perfect_match_qms.License.Register.{Columns, check_write_authority, import_document}
use perfect_match_qms.License.Replacement.{HasOneCurrent, Replaced, import_document-Replaced}

abbrev prim : Primitives
prim = record {
  b64decode =
      λ v. elim v [ text s ↦ some (replicate 32 0) | nat n ↦ some (replicate 64 n) | _ ↦ none ];
  verify = λ key bytes p. true;
  from_iso = λ v. elim v [ nat n ↦ some n | _ ↦ none ];
}

abbrev columns : Columns
columns = record { char_of = λ v. elim v [ text s ↦ s | _ ↦ "" ]; message_of = λ e. "rejected" }

abbrev env : Env
env = record { user = 7; has_group = λ _. false; today = 100; now = 5000 }

abbrev payload : ℕ → Payload
payload revision =
    ("schema_version", nat 1)
    ∷ ("license_id", text "L-1")
    ∷ ("license_revision", nat revision)
    ∷ ("customer_name", text "ACME")
    ∷ ("edition", text "standard")
    ∷ ("environment_id", text "env")
    ∷ ("company_limit", nat 1)
    ∷ ("site_limit", nat 2)
    ∷ ("named_user_limit", nat 5)
    ∷ ("issued_at", nat 1)
    ∷ ("not_before", nat 10)
    ∷ ("expires_at", null)
    ∷ ("perpetual", bool true)
    ∷ ("key_id", text "key-1")
    ∷ []

abbrev upload : ℕ → Upload
upload revision = parsed (payload revision) (nat 3)

abbrev keys : Registry
keys = ("key-1", text "key") ∷ []

abbrev license : ℕ → ℕ → Stored
license id revision = record {
  id = id;
  license_id = "L-1";
  license_revision = revision;
  company_limit = 1;
  site_limit = 2;
  named_user_limit = 5;
  state = valid;
  not_before = some 10;
  expires_at = none;
  perpetual = true;
  is_current = true;
}

program : Unit {0}
unfolding validate_runtime_document validate_document check_fields check_authority check_environment
    read_terms retry effective_temporal_state current_license check_write_authority import_document
    enforce_sites enforce_named_users enforce_organization enforce usage license_or_raise
    active_sites named_users operational_organizations
program = tt

abbrev old : List Stored
old = license 1 1 ∷ []

abbrev new : List Stored
new = license 2 2 ∷ record (license 1 1) { is_current = false } ∷ []

import_run :
    import_document columns prim env (some "env") (some keys) none 20 2 (upload 2) old ≡ ok new
unfolding program
import_run = refl

older_refused :
    import_document columns prim env (some "env") (some keys) none 20 2 (upload 1) old
    ≡ err (user_error "An older or identical license revision cannot replace the current license.")
unfolding program
older_refused = refl

one_before : HasOneCurrent old
one_before = omega arith

import_document-Replaced_example :
    Replaced prim columns (upload 2) (some "env") (some keys) none 20 2 old new
import_document-Replaced_example =
    import_document-Replaced prim columns env (some "env") (some keys) none 20 2 (upload 2) old new
      one_before import_run

abbrev plant : Organization
plant = record { id = 1; company_id = 1; operational = true; active = true }

abbrev site : Site
site = record { company_id = 1; organization_id = 1; active = true }

abbrev inspector : User
inspector = record {
  company_id = 1;
  active = true;
  share = false;
  pmqms_license_account_type = customer;
  pmqms_license_exempt = false;
  group_ids = 3 ∷ [];
}

abbrev database : List Site → Database
database sites = record {
  licenses = new;
  organizations = plant ∷ [];
  sites = sites;
  users = inspector ∷ [];
  role_groups = 3 ∷ [];
}

two_sites_pass : enforce_sites true 20 (database (site ∷ site ∷ [])) (site ∷ []) ≡ ok tt
unfolding program
two_sites_pass = refl

three_sites_refused :
    enforce_sites true 20 (database (site ∷ site ∷ site ∷ [])) (site ∷ [])
    ≡ err (user_error "The commercial license allows no further active site.")
unfolding program
three_sites_refused = refl

-- Activating an organization checks the companies and not the sites that become active with it.
three_sites_activated :
    enforce_organization true 20 (database (site ∷ site ∷ site ∷ [])) (plant ∷ []) ≡ ok tt
unfolding program
three_sites_activated = refl

enforce_sites_iff_example :
    (enforce_sites true 20 (database (site ∷ [])) (site ∷ []) ≡ ok tt)
    ↔ IsAllowed 20
        (database (site ∷ []))
        true
        (λ c. length (active_sites (database (site ∷ [])) c))
        (λ l. l.site_limit)
        (map
          (λ (s : Site). s.company_id)
          (filtered (is_billable_site (database (site ∷ []))) (site ∷ [])))
enforce_sites_iff_example = enforce_sites_iff true 20 (database (site ∷ [])) (site ∷ [])
