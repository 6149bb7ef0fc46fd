-- ===== src/License/Register.antt =====
-- The table of licenses: `current`, `_check_write_authority` and `import_document` of
-- models/license.py.
use perfect_match_qms.Prelude.{
  ℕ, ◌==◌, leb, Bool, true, false, not, ◌&&◌, ◌||◌, Option, none, some, String, List, [], ◌∷◌, any,
  map, if◌then◌else◌, str_eq,
}
use perfect_match_qms.Odoo.{Env, access_error, user_error, Result, err, ok, ◌>>=◌, ◌>>◌, raise_if}
use perfect_match_qms.License.Document.{
  Json, bool, nat, Payload, get, truthy, text_is, Rejection, Checked, accept, reject, Upload,
  Registry, Primitives, License, validate_runtime_document,
}
use perfect_match_qms.License.Capacity.{Stored, current_license}

abbrev pub admin_group : String
admin_group = "pm_qms_license.group_pm_qms_license_admin"

-- `signed_fields`
abbrev pub signed_fields : List String
signed_fields =
    "license_id" ∷ "license_revision" ∷ "customer_name" ∷ "edition" ∷ "environment_id"
    ∷ "company_limit" ∷ "site_limit" ∷ "named_user_limit" ∷ "issued_at" ∷ "not_before"
    ∷ "expires_at" ∷ "perpetual" ∷ "key_id" ∷ "signature" ∷ "payload_json" ∷ "state" ∷ "is_current"
    ∷ []

-- `_check_write_authority`; `names` are the keys of the dictionary.
unfoldable pub check_write_authority : Env → (superuser : Bool) → List String → Result (Unit {0})
check_write_authority env superuser names =
    raise_if
      (any (λ k. any (λ s. str_eq k s) signed_fields) names
        && not (superuser || env.has_group admin_group))
      (access_error
        "Only authorized QMS licensing administration can replace a commercial license.")

-- The number that an integer column stores, and that `<=` compares: `True` is 1.
abbrev pub int_of : Json → ℕ
int_of (bool true) = 1
int_of (nat n) = n
int_of _ = 0

-- What the ORM and `str` make of a value.
pub record Columns : Type 0 where
  -- what a Char column stores of a value
  pub char_of : Json → String
  -- `str(exc)`
  pub message_of : Rejection → String

-- An older or identical revision of the current license.
abbrev pub is_stale : Option Stored → Payload → Bool
is_stale none p = false
is_stale (some c) p =
    text_is c.license_id (get "license_id" p)
    && leb (int_of (get "license_revision" p)) c.license_revision

abbrev pub retire : ℕ → Stored → Stored
retire id l = if l.id == id then record l { is_current = false } else l

-- `current.write({"is_current": False})`: `current` comes from `sudo`, so the user is superuser.
abbrev pub retire_current : Env → Option Stored → List Stored → Result (List Stored)
retire_current env none licenses = ok licenses
retire_current env (some c) licenses =
    check_write_authority env true ("is_current" ∷ []) >> ok (map (retire c.id) licenses)

module _ (columns : Columns) where
  -- The `except` clause.
  abbrev pub or_user_error : Checked License → Result License
  or_user_error (accept l) = ok l
  or_user_error (reject e) = err (user_error (columns.message_of e))

  -- The values of `create`. `id` is the one that the database assigns.
  abbrev pub stored : (id : ℕ) → License → Stored
  stored id l = record {
    id = id;
    license_id = columns.char_of (get "license_id" l.payload);
    license_revision = int_of (get "license_revision" l.payload);
    company_limit = int_of (get "company_limit" l.payload);
    site_limit = int_of (get "site_limit" l.payload);
    named_user_limit = int_of (get "named_user_limit" l.payload);
    state = l.state;
    not_before = l.not_before;
    expires_at = l.expires_at;
    perpetual = truthy (get "perpetual" l.payload);
    is_current = true;
  }

  -- `import_document`. `environment` is what `expected_environment_id or read_environment_id()` gives,
  -- and the table runs from the highest id down, so the new record is its first.
  unfoldable pub import_document :
      Primitives
      → Env
      → (environment : Option String) → (standard demo : Option Registry) → (now id : ℕ) → Upload
      → List Stored
      → Result (List Stored)
  unfolding current_license check_write_authority
  import_document prim env environment standard demo now id upload licenses = do
    l ← or_user_error (validate_runtime_document prim upload environment standard demo now)
    raise_if (is_stale (current_license licenses) l.payload)
        (user_error "An older or identical license revision cannot replace the current license.")
    kept ← retire_current env (current_license licenses) licenses
    ok (stored id l ∷ kept)
