-- ===== src/License/Term.antt =====
-- `effective_temporal_state` of services/license_service.py. A datetime is its count of microseconds;
-- a naive one is taken as UTC, so it is the same count.
use perfect_match_qms.Prelude.{
  ℕ, ◌-◌, ltb, leb, Bool, true, false, Option, none, some, if◌then◌else◌,
}

pub data LicenseState : Type 0 where
  valid expiring expired not_yet_valid : LicenseState
  invalid_signature wrong_environment invalid_format : LicenseState

-- `timedelta(days=30)`
abbrev pub thirty_days : ℕ
thirty_days = 2592000000000

-- `stored_state in TEMPORAL_STATES`
abbrev pub is_temporal : LicenseState → Bool
is_temporal valid = true
is_temporal expiring = true
is_temporal expired = true
is_temporal not_yet_valid = true
is_temporal _ = false

-- `not_before and now < not_before`; a datetime is always true.
abbrev pub is_early : Option ℕ → ℕ → Bool
is_early none now = false
is_early (some t) now = ltb now t

abbrev pub term_state : Option ℕ → ℕ → LicenseState
term_state none now = valid
term_state (some t) now =
    if leb t now then expired else if leb (t - now) thirty_days then expiring else valid

unfoldable pub effective_temporal_state :
    LicenseState
    → (not_before expires_at : Option ℕ) → (perpetual : Bool) → (now : ℕ) → LicenseState
effective_temporal_state stored not_before expires_at perpetual now =
    if is_temporal stored
    then if is_early not_before now
      then not_yet_valid
      else if perpetual
      then valid
      else term_state expires_at now
    else stored

-- `USABLE_STATES` of services/entitlement_service.py.
abbrev pub is_usable : LicenseState → Bool
is_usable valid = true
is_usable expiring = true
is_usable _ = false
