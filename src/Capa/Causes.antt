-- ===== src/Capa/Causes.antt =====
-- Fishbone causes (models/capa_fishbone.py): each cause comes with the state of its CAPA.
use perfect_match_qms.Prelude.{
  ◌≡◌, Bool, true, false, not, ◌&&◌, List, any, All, any-false, All-map, not-eq-false, subst,
}
use perfect_match_qms.Odoo.{
  user_error, validation_error, Result, ok, ◌>>◌, ◌>>=◌, raise_if, for_each, traverse, is_set,
  Creation, >>-eq-ok, >>=-eq-ok, raise_if-eq-ok, for_each-eq-ok, ok-injective,
}
use perfect_match_qms.Capa.Types.{State, Investigation, Fishbone}

pub record Cause : Type 0 where
  pub capa_state : State
  pub cause : Fishbone

-- `EDITABLE_STATES`
abbrev pub is_editable : State → Bool
is_editable State.analysis = true
is_editable State.action_planned = true
is_editable _ = false

-- `_check_editable`
unfoldable pub check_editable : List Cause → Result (Unit {0})
check_editable self =
    raise_if (any (λ (c : Cause). not (is_editable c.capa_state)) self)
      (user_error "Fishbone causes can only be changed during CAPA analysis or action planning.")

abbrev pub is_confirmed : Investigation → Bool
is_confirmed Investigation.confirmed = true
is_confirmed _ = false

-- `investigation_status in ("confirmed", "rejected")`
abbrev pub is_decided : Investigation → Bool
is_decided Investigation.confirmed = true
is_decided Investigation.rejected = true
is_decided _ = false

abbrev pub check_cause : Cause → Result (Unit {0})
check_cause c = do
  raise_if (is_confirmed c.cause.investigation_status && not (is_set c.cause.evidence_basis))
      (validation_error "A confirmed Fishbone cause requires evidence basis.")
  raise_if (is_decided c.cause.investigation_status && not (is_set c.cause.rationale_finding))
      (validation_error "A confirmed or rejected Fishbone cause requires rationale.")

-- `_check_status_evidence`
unfoldable pub check_status_evidence : List Cause → Result (Unit {0})
check_status_evidence self = for_each check_cause self

-- `create`
unfoldable pub create : Creation Cause → List Cause → Result (List Cause)
unfolding check_editable check_status_evidence
create orm vals_list = do
  records ← orm.super_create vals_list
  check_editable records
  check_status_evidence records
  ok records

-- `write`, where `super_write` is the write of the ORM at one record.
unfoldable pub write : (super_write : Cause → Result Cause) → List Cause → Result (List Cause)
unfolding check_editable check_status_evidence
write super_write self = do
  check_editable self
  result ← traverse super_write self
  check_status_evidence result
  ok result

-- A confirmed cause has evidence and a rationale, and a rejected one has a rationale.
abbrev pub IsGrounded : Cause → Type 0
IsGrounded c =
    ((is_confirmed c.cause.investigation_status && not (is_set c.cause.evidence_basis)) ≡ false)
    × ((is_decided c.cause.investigation_status && not (is_set c.cause.rationale_finding)) ≡ false)

check_cause-IsGrounded : (c : Cause) → check_cause c ≡ ok tt → IsGrounded c
check_cause-IsGrounded c h =
    let (first, second) =
      >>-eq-ok
        (raise_if (is_confirmed c.cause.investigation_status && not (is_set c.cause.evidence_basis))
          _)
        _ h in
    (raise_if-eq-ok _ _ first, raise_if-eq-ok _ _ second)

is_editable-All :
    (self : List Cause)
    → check_editable self ≡ ok tt
    → All (λ c. is_editable c.capa_state ≡ true) self
unfolding check_editable
is_editable-All self h =
    All-map (λ c e. not-eq-false (is_editable c.capa_state) e) self
      (any-false (λ (c : Cause). not (is_editable c.capa_state)) self (raise_if-eq-ok _ _ h))

IsGrounded-All : (self : List Cause) → check_status_evidence self ≡ ok tt → All IsGrounded self
unfolding check_status_evidence
IsGrounded-All self h = All-map check_cause-IsGrounded self (for_each-eq-ok check_cause self h)

-- A write of causes that returns was of causes whose CAPA is in analysis or action planning, and
-- afterwards each confirmed cause has evidence and a rationale, each rejected one a rationale.
pub write-IsGrounded :
    (super_write : Cause → Result Cause) (self result : List Cause)
    → write super_write self ≡ ok result
    → All (λ c. is_editable c.capa_state ≡ true) self × All IsGrounded result
unfolding write
write-IsGrounded super_write self result h =
    let (editable, rest) = >>-eq-ok (check_editable self) _ h in
    let (stored, _, checked) = >>=-eq-ok (traverse super_write self) _ rest in
    let (grounded, done) = >>-eq-ok (check_status_evidence stored) _ checked in
    (
      is_editable-All self editable,
      subst (All IsGrounded) (ok-injective done) (IsGrounded-All stored grounded),
    )

-- Causes that a call of `create` returns belong to CAPAs in analysis or action planning; each
-- confirmed cause has evidence and a rationale, each rejected one a rationale.
pub create-IsGrounded :
    (orm : Creation Cause) (vals_list records : List Cause)
    → create orm vals_list ≡ ok records
    → All (λ c. is_editable c.capa_state ≡ true) records × All IsGrounded records
unfolding create
create-IsGrounded orm vals_list records h =
    let (stored, _, rest) = >>=-eq-ok (orm.super_create vals_list) _ h in
    let (editable, checked) = >>-eq-ok (check_editable stored) _ rest in
    let (grounded, done) = >>-eq-ok (check_status_evidence stored) _ checked in
    subst (λ rs. All (λ c. is_editable c.capa_state ≡ true) rs × All IsGrounded rs)
      (ok-injective done) (is_editable-All stored editable, IsGrounded-All stored grounded)
