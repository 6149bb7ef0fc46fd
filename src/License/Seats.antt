-- ===== src/License/Seats.antt =====
-- When the capacity checks let a change through.
use perfect_match_qms.Prelude.{
  ap, sym, ◌∙◌, subst, ℕ, ◌≤◌, ◌≡◌, ◌↔◌, ◌⊎◌, inl, inr, refl, ltb, Bool, true, false, not, Option,
  none, some, String, List, [], ◌∷◌, map, filtered, length, arith, All, All-map, not-eq-false,
}
use perfect_match_qms.Odoo.{
  user_error, ok, raise_if, >>=-eq-ok, >>-eq-ok, raise_if-eq-ok, for_each-eq-ok, for_each-ok,
}
use perfect_match_qms.License.Term.{is_usable}
use perfect_match_qms.License.Capacity.{
  Stored, Organization, Site, User, Database, current_license, effective_state, license_or_raise,
  is_billable_organization, is_billable_site, is_billable_user, operational_organizations,
  active_sites, named_users, Seats, Usage, usage, enforce, enforce_organization, enforce_sites,
  enforce_named_users,
}

module _ (now : ℕ) (db : Database) where
  -- A usable current license, under which no company of the list uses more than it grants.
  abbrev pub IsCovered : (ℕ → ℕ) → (Stored → ℕ) → List ℕ → Type 0
  IsCovered used limit companies =
      (l : Stored) × (current_license db.licenses ≡ some l)
      × (is_usable (effective_state now l) ≡ true)
      × All (λ c. used c ≤ limit l) companies

  abbrev pub IsAllowed : Bool → (ℕ → ℕ) → (Stored → ℕ) → List ℕ → Type 0
  IsAllowed enabled used limit companies =
      (enabled ≡ false) ⊎ ((companies ≡ []) ⊎ IsCovered used limit companies)

abbrev within : (now : ℕ) → Database → (Usage → Seats) → ℕ → Bool
within now db of_kind c = let s = of_kind (usage now db c) in ltb s.limit s.used

ltb-false : (a b : ℕ) → ltb a b ≡ false → b ≤ a
ltb-false a b h = ground arith

le-ltb : (a b : ℕ) → b ≤ a → ltb a b ≡ false
le-ltb a b h = ground arith

license_or_raise-eq-ok :
    (now : ℕ) (found : Option Stored) (l : Stored)
    → license_or_raise now found ≡ ok l
    → (found ≡ some l) × (is_usable (effective_state now l) ≡ true)
unfolding license_or_raise
license_or_raise-eq-ok now none l h = cc
license_or_raise-eq-ok now (some k) l h =
    let (usable, same) = >>-eq-ok (raise_if (not (is_usable (effective_state now k))) _) _ h in
    let same_license : k ≡ l = cc in
    subst (λ x. (some k ≡ some x) × (is_usable (effective_state now x) ≡ true)) same_license
      (refl, not-eq-false (is_usable (effective_state now k)) (raise_if-eq-ok _ _ usable))

-- The check of a nonempty list of companies.
enforce-split :
    (now : ℕ) (db : Database) (of_kind : Usage → Seats) (message : String) (c : ℕ) (cs : List ℕ)
    → enforce true now db of_kind message (c ∷ cs) ≡ ok tt
    → (l : Stored) × (current_license db.licenses ≡ some l)
      × (is_usable (effective_state now l) ≡ true)
      × All (λ d. within now db of_kind d ≡ false) (c ∷ cs)
unfolding enforce
enforce-split now db of_kind message c cs h =
    let (l, found, checked) = >>=-eq-ok (license_or_raise now (current_license db.licenses)) _ h in
    let (present, usable) = license_or_raise-eq-ok now (current_license db.licenses) l found in
    (
      l,
      present,
      usable,
      All-map (λ d e. raise_if-eq-ok (within now db of_kind d) (user_error message) e) (c ∷ cs)
          (for_each-eq-ok (λ d. raise_if (within now db of_kind d) (user_error message)) (c ∷ cs)
            checked),
    )

license_or_raise-ok :
    (now : ℕ) (l : Stored)
    → is_usable (effective_state now l) ≡ true
    → license_or_raise now (some l) ≡ ok l
unfolding license_or_raise
license_or_raise-ok now l usable = rw usable

enforce-join :
    (now : ℕ) (db : Database) (of_kind : Usage → Seats) (message : String) (cs : List ℕ)
    (l : Stored)
    → current_license db.licenses ≡ some l
    → is_usable (effective_state now l) ≡ true
    → All (λ d. within now db of_kind d ≡ false) cs
    → enforce true now db of_kind message cs ≡ ok tt
unfolding enforce
enforce-join now db of_kind message [] l present usable fits = refl
enforce-join now db of_kind message (c ∷ cs) l present usable fits =
    rw (ap (license_or_raise now) present, license_or_raise-ok now l usable)
      (for_each-ok (λ d. raise_if (within now db of_kind d) (user_error message)) (c ∷ cs)
        (All-map (λ d e. rw e) (c ∷ cs) fits))

-- `of_kind` reads a usage as the count `used` beside the current license's limit.
abbrev Reads : (now : ℕ) → Database → (Usage → Seats) → (ℕ → ℕ) → (Stored → ℕ) → Type 0
Reads now db of_kind used limit =
    (c : ℕ) (l : Stored)
    → current_license db.licenses ≡ some l
    → within now db of_kind c ≡ ltb (limit l) (used c)

enforce_iff :
    (enabled : Bool) (now : ℕ) (db : Database) (of_kind : Usage → Seats) (message : String)
    (used : ℕ → ℕ) (limit : Stored → ℕ) (cs : List ℕ)
    → Reads now db of_kind used limit
    → (enforce enabled now db of_kind message cs ≡ ok tt) ↔ IsAllowed now db enabled used limit cs
unfolding enforce
enforce_iff false now db of_kind message used limit cs reads = (λ h. inl refl, λ h. refl)
enforce_iff true now db of_kind message used limit [] reads = (λ h. inr (inl refl), λ h. refl)
enforce_iff true now db of_kind message used limit (c ∷ cs) reads = (
  λ h.
      let (l, present, usable, fits) = enforce-split now db of_kind message c cs h in
      inr (
        inr (
          l,
          present,
          usable,
          All-map (λ d e. ltb-false (limit l) (used d) (sym (reads d l present) ∙ e)) (c ∷ cs) fits,
        )),
  λ h. elim h [
    | inl off ↦ cc
    | inr (inl none_left) ↦ cc
    | inr (inr (l, present, usable, fits)) ↦
        enforce-join now db of_kind message (c ∷ cs) l present usable
          (All-map (λ d e. reads d l present ∙ le-ltb (limit l) (used d) e) (c ∷ cs) fits)
  ],
)

-- A change of sites passes exactly when enforcement is off, when no site that it leaves is billable,
-- or when there is a current license that is usable now and under which no company of a billable
-- site has more active sites than its site limit.
pub enforce_sites_iff :
    (enabled : Bool) (now : ℕ) (db : Database) (sites : List Site)
    → (enforce_sites enabled now db sites ≡ ok tt)
      ↔ IsAllowed now db enabled
          (λ c. length (active_sites db c))
          (λ l. l.site_limit)
          (map (λ (s : Site). s.company_id) (filtered (is_billable_site db) sites))
unfolding enforce_sites usage
enforce_sites_iff enabled now db sites =
    enforce_iff enabled now db (λ u. u.site) _ (λ c. length (active_sites db c)) (λ l. l.site_limit)
      _ (λ c l present. rw present)

-- A change of users passes exactly when enforcement is off, when no user that it leaves is billable, or
-- when there is a current license that is usable now and under which no company of a billable user
-- has more named users than its named user limit.
pub enforce_named_users_iff :
    (enabled : Bool) (now : ℕ) (db : Database) (users : List User)
    → (enforce_named_users enabled now db users ≡ ok tt)
      ↔ IsAllowed now db enabled
          (λ c. length (named_users db c))
          (λ l. l.named_user_limit)
          (map (λ (u : User). u.company_id) (filtered (is_billable_user db.role_groups) users))
unfolding enforce_named_users usage
enforce_named_users_iff enabled now db users =
    enforce_iff enabled now db (λ u. u.named_user) _ (λ c. length (named_users db c))
      (λ l. l.named_user_limit) _ (λ c l present. rw present)

-- A change of organizations passes exactly when enforcement is off, when no organization that it
-- leaves is billable, or when there is a current license that is usable now and under which no
-- company of a billable organization has more operational organizations than its company limit.
pub enforce_organization_iff :
    (enabled : Bool) (now : ℕ) (db : Database) (organizations : List Organization)
    → (enforce_organization enabled now db organizations ≡ ok tt)
      ↔ IsAllowed now db enabled
          (λ c. length (operational_organizations db c))
          (λ l. l.company_limit)
          (map
            (λ (o : Organization). o.company_id)
            (filtered is_billable_organization organizations))
unfolding enforce_organization usage
enforce_organization_iff enabled now db organizations =
    enforce_iff enabled now db (λ u. u.company) _ (λ c. length (operational_organizations db c))
      (λ l. l.company_limit) _ (λ c l present. rw present)
