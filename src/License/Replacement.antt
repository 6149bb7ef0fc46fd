-- ===== src/License/Replacement.antt =====
-- What an import does to the table of licenses.
use perfect_match_qms.Prelude.{
  Forall₂, Bool-cases, inl, inr, ℕ, suc, ◌==◌, ◌≤◌, ◌<◌, ◌≡◌, refl, sym, ap, subst, ◌∙◌, Bool, true,
  false, Option, none, some, String, List, [], ◌∷◌, length, filtered, map, arith, if◌then◌else◌,
}
use perfect_match_qms.Odoo.{raise_if, Env, ok, >>=-eq-ok, >>-eq-ok, raise_if-eq-ok, ok-injective}
use perfect_match_qms.License.Document.{
  get, text_is, Upload, Registry, Primitives, Checked, accept, reject, License,
  validate_runtime_document,
}
use perfect_match_qms.License.Capacity.{Stored, first, current_license}
use perfect_match_qms.License.Register.{
  int_of, Columns, or_user_error, stored, is_stale, retire, retire_current, check_write_authority,
  import_document,
}

abbrev is_current : Stored → Bool
is_current l = l.is_current

-- At most one license is current.
abbrev pub HasOneCurrent : List Stored → Type 0
HasOneCurrent licenses = length (filtered is_current licenses) ≤ 1

-- `new` is `old`, but perhaps no longer current.
abbrev pub IsRetained : Stored → Stored → Type 0
IsRetained old new = record old { is_current = false } ≡ record new { is_current = false }

filtered-off :
    (l : Stored) (ls : List Stored)
    → is_current l ≡ false
    → filtered is_current (l ∷ ls) ≡ filtered is_current ls
filtered-off l ls h = rw h

filtered-on :
    (l : Stored) (ls : List Stored)
    → is_current l ≡ true
    → filtered is_current (l ∷ ls) ≡ l ∷ filtered is_current ls
filtered-on l ls h = rw h

retire-off : (id : ℕ) (l : Stored) → is_current l ≡ false → is_current (retire id l) ≡ false
retire-off id l h = ground arith

retire_self : (l c : Stored) → l ≡ c → is_current (retire c.id l) ≡ false
retire_self l c h = subst (λ x. is_current (retire x.id l) ≡ false) h (ground arith)

empty-of : (ls : List Stored) → length ls ≤ 0 → ls ≡ []
empty-of [] h = refl
empty-of (l ∷ ls) h = let clash : ⊥ = omega arith in elim clash [ ]

retired-none :
    (id : ℕ) (ls : List Stored)
    → filtered is_current ls ≡ []
    → filtered is_current (map (retire id) ls) ≡ []
retired-none id [] h = refl
retired-none id (l ∷ ls) h =
    elim (Bool-cases (is_current l)) as (λ _. filtered is_current (map (retire id) (l ∷ ls)) ≡ []) [
      | inl on ↦ let clash = sym (filtered-on l ls on) ∙ h in cc
      | inr off ↦
          filtered-off (retire id l) (map (retire id) ls) (retire-off id l off)
          ∙ retired-none id ls (sym (filtered-off l ls off) ∙ h)
    ]

-- The first current license is the only one, and retiring it leaves none.
retired-first :
    (ls : List Stored) (c : Stored)
    → HasOneCurrent ls
    → first (filtered is_current ls) ≡ some c
    → filtered is_current (map (retire c.id) ls) ≡ []
retired-first [] c one h = cc
retired-first (l ∷ ls) c one h =
    elim (Bool-cases (is_current l))
      as (λ _. filtered is_current (map (retire c.id) (l ∷ ls)) ≡ []) [
        | inl on ↦
            let found : first (l ∷ filtered is_current ls) ≡ some c =
              ap first (sym (filtered-on l ls on)) ∙ h in
            let same_license : l ≡ c = cc in
            let single : suc (length (filtered is_current ls)) ≤ 1 =
              subst (λ xs. length xs ≤ 1) (filtered-on l ls on) one in
            filtered-off (retire c.id l) (map (retire c.id) ls) (retire_self l c same_license)
            ∙ retired-none c.id ls (empty-of (filtered is_current ls) (omega arith))
        | inr off ↦
            filtered-off (retire c.id l) (map (retire c.id) ls) (retire-off c.id l off)
            ∙ retired-first ls c (subst (λ xs. length xs ≤ 1) (filtered-off l ls off) one)
                (ap first (sym (filtered-off l ls off)) ∙ h)
      ]

none-current : (ls : List Stored) → first ls ≡ none → ls ≡ []
none-current [] h = refl
none-current (l ∷ ls) h = cc

retire-IsRetained :
    (b : Bool) (l : Stored) → IsRetained l (if b then record l { is_current = false } else l)
retire-IsRetained true l = refl
retire-IsRetained false l = refl

retained : (id : ℕ) (ls : List Stored) → Forall₂ IsRetained ls (map (retire id) ls)
retained id [] = tt
retained id (l ∷ ls) = (retire-IsRetained (l.id == id) l, retained id ls)

unchanged : (ls : List Stored) → Forall₂ IsRetained ls ls
unchanged [] = tt
unchanged (l ∷ ls) = (refl, unchanged ls)

-- Whatever was current, nothing is after it is retired.
retire_current-eq-ok :
    (env : Env) (ls kept : List Stored) (found : Option Stored)
    → HasOneCurrent ls
    → first (filtered is_current ls) ≡ found
    → retire_current env found ls ≡ ok kept
    → (filtered is_current kept ≡ []) × Forall₂ IsRetained ls kept
unfolding check_write_authority
retire_current-eq-ok env ls kept none one missing h =
    subst (λ x. (filtered is_current x ≡ []) × Forall₂ IsRetained ls x) (ok-injective h)
      (none-current (filtered is_current ls) missing, unchanged ls)
retire_current-eq-ok env ls kept (some c) one present h =
    subst (λ x. (filtered is_current x ≡ []) × Forall₂ IsRetained ls x) (ok-injective h)
      (retired-first ls c one present, retained c.id ls)

-- What an import that returns has made of the table.
pub record Replaced (prim : Primitives) (columns : Columns) (upload : Upload)
    (environment : Option String) (standard demo : Option Registry) (now id : ℕ)
    (old new : List Stored) : Type 0 where
  pub license : License
  pub validated :
      validate_runtime_document prim upload environment standard demo now ≡ accept license
  pub kept : List Stored
  pub table : new ≡ stored columns id license ∷ kept
  pub history : Forall₂ IsRetained old kept
  pub one_current : filtered is_current new ≡ stored columns id license ∷ []
  pub newer :
      (c : Stored)
      → current_license old ≡ some c
      → text_is c.license_id (get "license_id" license.payload) ≡ true
      → c.license_revision < int_of (get "license_revision" license.payload)

or_user_error-eq-ok :
    (columns : Columns) (result : Checked License) (l : License)
    → or_user_error columns result ≡ ok l
    → result ≡ accept l
or_user_error-eq-ok columns (accept k) l h = cc
or_user_error-eq-ok columns (reject e) l h = cc

is_stale-false :
    (found : Option Stored) (c : Stored) (l : License)
    → is_stale found l.payload ≡ false
    → found ≡ some c
    → text_is c.license_id (get "license_id" l.payload) ≡ true
    → c.license_revision < int_of (get "license_revision" l.payload)
is_stale-false found c l fresh present same =
    let not_stale : is_stale (some c) l.payload ≡ false =
      subst (λ f. is_stale f l.payload ≡ false) present fresh in
    ground arith

-- Where at most one license is current, an import that returns was of a document that validates. The
-- old licenses stay in the table, with no field changed but `is_current`; the imported license, put
-- first, is the only current one. It cannot replace a current license of the same license id unless
-- its revision is greater.
pub import_document-Replaced :
    (prim : Primitives) (columns : Columns) (env : Env) (environment : Option String)
    (standard demo : Option Registry) (now id : ℕ) (upload : Upload) (old new : List Stored)
    → HasOneCurrent old
    → import_document columns prim env environment standard demo now id upload old ≡ ok new
    → Replaced prim columns upload environment standard demo now id old new
unfolding import_document current_license
import_document-Replaced prim columns env environment standard demo now id upload old new one h =
    let (l, read, rest) =
      >>=-eq-ok
        (or_user_error columns
          (validate_runtime_document prim upload environment standard demo now))
        _ h in
    let (fresh, put) = >>-eq-ok (raise_if (is_stale (current_license old) l.payload) _) _ rest in
    let (kept, retired, done) = >>=-eq-ok (retire_current env (current_license old) old) _ put in
    let (none_left, history) =
      retire_current-eq-ok env old kept (current_license old) one refl retired in
    let table : new ≡ stored columns id l ∷ kept = sym (ok-injective done) in
    record {
      license = l;
      validated = or_user_error-eq-ok columns _ l read;
      kept = kept;
      table = table;
      history = history;
      one_current =
          subst (λ t. filtered is_current t ≡ stored columns id l ∷ []) (sym table)
            (ap (λ t. stored columns id l ∷ t) none_left);
      newer = λ c present same.
          is_stale-false (current_license old) c l (raise_if-eq-ok _ _ fresh) present same;
    }
