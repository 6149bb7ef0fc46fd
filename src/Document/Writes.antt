-- ===== src/Document/Writes.antt =====
-- What a `write` on a selection of revisions leaves, revision by revision.
use perfect_match_qms.Prelude.{
  if_true, if_false, ◌≡◌, refl, sym, ap, ◌∙◌, subst, Bool, true, false, List, [], ◌∷◌, All,
  All-Unit, Forall₂, arith, Bool-cases, inl, inr, if◌then◌else◌,
}
use perfect_match_qms.Odoo.{
  assign_all, assign_all-same, Env, ok, raise_if, raise_if-eq-ok, >>-eq-ok, >>=-eq-ok, ok-injective,
  traverse, traverse-Forall₂, Orm,
}
use perfect_match_qms.Document.Types.{
  Revision, Store, Assignment, set_state, set_revision, set_effective_date, set_reviewed_by,
  set_approved_by, set_approval_date, set_unmodelled, assign, sets_state, DocumentAssignment,
  assign_document,
}
use perfect_match_qms.Document.Revisions.{
  manager_group, check_manager_permission, Selection, check_write, write,
}
use perfect_match_qms.Document.Activation.{write_document}

-- A property of both branches, each under its test.
pub if_rule :
    (Q : Revision → Type 0) (b : Bool) (x y : Revision)
    → (b ≡ true → Q x)
    → (b ≡ false → Q y)
    → Q (if b then x else y)
if_rule Q true x y h k = h refl
if_rule Q false x y h k = k refl

All-Forall₂ :
    {P : Revision → Type 0} {Q : Revision → Type 0} {R : Revision → Revision → Type 0}
    → ((x y : Revision) → P x → R x y → Q y)
    → (xs ys : List Revision) → All P xs
    → Forall₂ R xs ys
    → All Q ys
All-Forall₂ f [] [] p h = tt
All-Forall₂ f [] (y ∷ ys) p h = elim h [ ]
All-Forall₂ f (x ∷ xs) [] p h = elim h [ ]
All-Forall₂ f (x ∷ xs) (y ∷ ys) p h = (f x y p.0 h.0, All-Forall₂ f xs ys p.1 h.1)

abbrev pub written : List Assignment → Selection → Revision → Revision
written vals self r = if self r then assign_all assign vals r else r

module _ (orm : Orm assign) (flag : Bool) (vals : List Assignment) (self : Selection) where
  write_step :
      (r r' : Revision)
      → (if self r then orm.super_write vals r else ok r) ≡ ok r'
      → r' ≡ written vals self r
  write_step r r' h = elim (Bool-cases (self r)) [
    | inl taken ↦
        orm.write_exact vals r r' (sym (if_true (self r) _ (ok r) taken) ∙ h)
        ∙ sym (if_true (self r) _ r taken)
    | inr left ↦
        sym (ok-injective (sym (if_false (self r) (orm.super_write vals r) (ok r) left) ∙ h))
        ∙ sym (if_false (self r) (assign_all assign vals r) r left)
  ]

  -- A write that returns leaves the document, passes the guard, and makes of each revision what it
  -- says.
  pub write-All :
      (P Q : Revision → Type 0) (store new : Store)
      → ((r : Revision) → P r → Q (written vals self r))
      → All P store.revisions
      → write orm flag vals self store ≡ ok new
      → (check_write flag vals ≡ ok tt) × (new.document ≡ store.document) × All Q new.revisions
  unfolding write
  write-All P Q store new rule p h =
      let (checked, rest) = >>-eq-ok (check_write flag vals) _ h in
      let (revisions, stored, done) =
        >>=-eq-ok (traverse (λ r. if self r then orm.super_write vals r else ok r) store.revisions)
          _ rest in
      let each =
        traverse-Forall₂ {P = λ _. Unit {0}} (λ r. if self r then orm.super_write vals r else ok r)
          (λ r r' _ e. write_step r r' e) store.revisions revisions (All-Unit store.revisions)
          stored in
      let same_store : record { document = store.document; revisions = revisions } ≡ new =
        ok-injective done in
      (
        checked,
        sym (ap (λ (s : Store). s.document) same_store),
        subst (λ (s : Store). All Q s.revisions) same_store
            (All-Forall₂ (λ r r' q e. subst Q (sym e) (rule r q)) store.revisions revisions p each),
      )

pub write_document-exact :
    (orm : Orm assign_document) (flag : Bool) (vals : List DocumentAssignment) (store new : Store)
    → write_document orm flag vals store ≡ ok new
    → (new.revisions ≡ store.revisions)
      × (new.document ≡ assign_all assign_document vals store.document)
unfolding write_document
write_document-exact orm flag vals store new h =
    let (_, rest) = >>-eq-ok (raise_if _ _) _ h in
    let (document, stored, done) = >>=-eq-ok (orm.super_write vals store.document) _ rest in
    let same_store : record { document = document; revisions = store.revisions } ≡ new =
      ok-injective done in
    (
      sym (ap (λ (s : Store). s.revisions) same_store),
      sym (ap (λ (s : Store). s.document) same_store)
          ∙ orm.write_exact vals store.document document stored,
    )

pub manager_of_check :
    (env : Env) → check_manager_permission env ≡ ok tt → env.has_group manager_group ≡ true
unfolding check_manager_permission
manager_of_check env h = ground arith

pub assign_all-id : (vals : List Assignment) (r : Revision) → (assign_all assign vals r).id ≡ r.id
assign_all-id [] r = refl
assign_all-id (v ∷ vals) r = assign_all-id vals (assign v r) ∙ keep v
  where
    keep : (v : Assignment) → (assign v r).id ≡ r.id
    keep (set_state s) = refl
    keep (set_revision s) = refl
    keep (set_effective_date s) = refl
    keep (set_reviewed_by s) = refl
    keep (set_approved_by s) = refl
    keep (set_approval_date s) = refl
    keep set_unmodelled = refl

-- A write that passes the guard without the flag sets no state.
pub assign_all-state :
    (vals : List Assignment) (r : Revision)
    → check_write false vals ≡ ok tt
    → (assign_all assign vals r).state ≡ r.state
unfolding check_write
assign_all-state vals r h =
    assign_all-same assign (λ x. x.state) sets_state keep vals r
      (ground (arith, raise_if-eq-ok _ _ h))
  where
    keep : (v : Assignment) (x : Revision) → sets_state v ≡ false → (assign v x).state ≡ x.state
    keep (set_state s) x e = cc
    keep (set_revision s) x e = refl
    keep (set_effective_date s) x e = refl
    keep (set_reviewed_by s) x e = refl
    keep (set_approved_by s) x e = refl
    keep (set_approval_date s) x e = refl
    keep set_unmodelled x e = refl
