-- ===== src/License/Capacity.antt =====
-- services/entitlement_service.py: how much capacity the current license leaves, and the checks that
-- models/organization.py, site.py and res_users.py run after each create and write.
use perfect_match_qms.Prelude.{
  ℕ, ◌-◌, ◌==◌, ltb, Bool, true, false, not, ◌&&◌, ◌||◌, Option, none, some, String, List, [], ◌∷◌,
  any, filtered, is_empty, length, map, if◌then◌else◌,
}
use perfect_match_qms.Odoo.{user_error, Result, err, ok, ◌>>=◌, ◌>>◌, raise_if, for_each, exists}
use perfect_match_qms.License.Term.{LicenseState, effective_temporal_state, is_usable}

-- pm.qms.license, as far as capacity and replacement read it.
pub record Stored : Type 0 where
  pub id : ℕ
  pub license_id : String
  pub license_revision : ℕ
  pub company_limit : ℕ
  pub site_limit : ℕ
  pub named_user_limit : ℕ
  pub state : LicenseState
  pub not_before : Option ℕ
  pub expires_at : Option ℕ
  pub perpetual : Bool
  pub is_current : Bool

-- `operational` says that organization_kind is "operational".
pub record Organization : Type 0 where
  pub id : ℕ
  pub company_id : ℕ
  pub operational : Bool
  pub active : Bool

pub record Site : Type 0 where
  pub company_id : ℕ
  pub organization_id : ℕ
  pub active : Bool

pub data AccountType : Type 0 where
  customer technical support : AccountType

pub record User : Type 0 where
  pub company_id : ℕ
  pub active : Bool
  pub share : Bool
  pub pmqms_license_account_type : AccountType
  pub pmqms_license_exempt : Bool
  pub group_ids : List ℕ

-- The tables that the service searches. `licenses` runs from the highest id down; `role_groups` are
-- the groups that `_qms_role_groups` resolves.
pub record Database : Type 0 where
  pub licenses : List Stored
  pub organizations : List Organization
  pub sites : List Site
  pub users : List User
  pub role_groups : List ℕ

-- `search(..., limit=1)`
abbrev pub first {ℓ} : {A : Type ℓ} → List A → Option A
first [] = none
first (x ∷ xs) = some x

-- `current_license`; `_locked_current_license` returns the same record.
unfoldable pub current_license : List Stored → Option Stored
current_license licenses = first (filtered (λ (l : Stored). l.is_current) licenses)

-- `_compute_effective_state` of models/license.py
abbrev pub effective_state : (now : ℕ) → Stored → LicenseState
effective_state now l = effective_temporal_state l.state l.not_before l.expires_at l.perpetual now

-- `_license_or_raise`. The message names the state; that text is left out.
unfoldable pub license_or_raise : (now : ℕ) → Option Stored → Result Stored
license_or_raise now none = err (user_error "Commercial license is missing.")
license_or_raise now (some l) =
    raise_if (not (is_usable (effective_state now l)))
      (user_error "Commercial license cannot authorize new capacity.")
    >> ok l

abbrev is_customer : AccountType → Bool
is_customer customer = true
is_customer _ = false

abbrev pub is_billable_organization : Organization → Bool
is_billable_organization o = o.active && o.operational

abbrev pub organization_of : Database → Site → Option Organization
organization_of db site =
    first (filtered (λ (o : Organization). o.id == site.organization_id) db.organizations)

abbrev pub is_billable_site : Database → Site → Bool
is_billable_site db site =
    site.active
    && elim (organization_of db site) [ none ↦ false | some o ↦ is_billable_organization o ]

abbrev pub is_billable_user : List ℕ → User → Bool
is_billable_user role_groups u =
    u.active
    && not u.share
    && is_customer u.pmqms_license_account_type
    && not u.pmqms_license_exempt
    && any (λ g. any (λ r. g == r) role_groups) u.group_ids

module _ (db : Database) (company : ℕ) where
  -- `_operational_organizations`
  unfoldable pub operational_organizations : List Organization
  operational_organizations =
      filtered (λ (o : Organization). o.company_id == company && is_billable_organization o)
        db.organizations

  -- `_active_sites`
  unfoldable pub active_sites : List Site
  active_sites = filtered (λ (s : Site). s.company_id == company && is_billable_site db s) db.sites

  -- `_named_users`
  unfoldable pub named_users : List User
  named_users =
      filtered (λ (u : User). u.company_id == company && is_billable_user db.role_groups u) db.users

-- `{"used": ..., "limit": ..., "remaining": ...}`; subtraction stops at 0 as `max(..., 0)` does.
pub record Seats : Type 0 where
  pub used : ℕ
  pub limit : ℕ
  pub remaining : ℕ

pub record Usage : Type 0 where
  pub status : Option LicenseState
  pub company : Seats
  pub site : Seats
  pub named_user : Seats

abbrev pub seats : ℕ → ℕ → Seats
seats used limit = record { used = used; limit = limit; remaining = limit - used }

abbrev pub limit_of : (Stored → ℕ) → Option Stored → ℕ
limit_of limit none = 0
limit_of limit (some l) = limit l

abbrev status_of : (now : ℕ) → Option Stored → Option LicenseState
status_of now none = none
status_of now (some l) = some (effective_state now l)

-- `usage`
unfoldable pub usage : (now : ℕ) → Database → (company : ℕ) → Usage
unfolding operational_organizations active_sites named_users current_license
usage now db company =
    let license = current_license db.licenses in
    record {
      status = status_of now license;
      company =
          seats (length (operational_organizations db company))
            (limit_of (λ l. l.company_limit) license);
      site = seats (length (active_sites db company)) (limit_of (λ l. l.site_limit) license);
      named_user =
          seats (length (named_users db company)) (limit_of (λ l. l.named_user_limit) license);
    }

-- `_enforcement_enabled`, where `test_enable` is the server's and `flag` the context's.
unfoldable pub enforcement_enabled : (test_enable flag : Bool) → List Stored → Bool
unfolding current_license
enforcement_enabled test_enable flag licenses =
    not test_enable || exists (current_license licenses) || flag

-- The loop over the companies of the billable records.
abbrev check_companies :
    (now : ℕ) → Database → (Usage → Seats) → String → List ℕ → Result (Unit {0})
check_companies now db of_kind message companies =
    for_each
      (λ company.
        let s = of_kind (usage now db company) in
        raise_if (ltb s.limit s.used) (user_error message))
      companies

-- What the three `enforce_*` methods share: `companies` are those of the billable records.
unfoldable pub enforce :
    (enabled : Bool) (now : ℕ) → Database → (Usage → Seats) → String → List ℕ → Result (Unit {0})
unfolding license_or_raise current_license usage
enforce enabled now db of_kind message companies =
    if not enabled || is_empty companies
    then ok tt
    else (license_or_raise now (current_license db.licenses) >>= λ l.
        check_companies now db of_kind message companies)

module _ (enabled : Bool) (now : ℕ) (db : Database) where
  unfoldable pub enforce_organization : List Organization → Result (Unit {0})
  unfolding enforce
  enforce_organization organizations =
      enforce enabled now db (λ u. u.company)
        "The commercial license allows no further operational company environment."
        (map (λ (o : Organization). o.company_id) (filtered is_billable_organization organizations))

  unfoldable pub enforce_sites : List Site → Result (Unit {0})
  unfolding enforce
  enforce_sites sites =
      enforce enabled now db (λ u. u.site) "The commercial license allows no further active site."
        (map (λ (s : Site). s.company_id) (filtered (is_billable_site db) sites))

  unfoldable pub enforce_named_users : List User → Result (Unit {0})
  unfolding enforce
  enforce_named_users users =
      enforce enabled now db (λ u. u.named_user)
        "The commercial license allows no further active named QMS user."
        (map (λ (u : User). u.company_id) (filtered (is_billable_user db.role_groups) users))
