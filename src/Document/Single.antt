-- ===== src/Document/Single.antt =====
-- No sequence of calls gives a document two active revisions.
use perfect_match_qms.Prelude.{
  ℕ, ◌≡◌, refl, subst, Bool, true, false, not, ◌&&◌, List, [], ◌∷◌, All, All-map, All-Unit, arith,
  Bool-cases, inl, inr, filtered, any, any-false, sym, ap, ◌∙◌,
}
use perfect_match_qms.Odoo.{
  Env, ok, assign_all, raise_if, >>-eq-ok, >>=-eq-ok, ok-injective, raise_if-eq-ok, Orm, Creation,
}
use perfect_match_qms.Event.{Event}
use perfect_match_qms.Document.Types.{
  RevisionState, Revision, Store, Assignment, assign, assign_document, is_active,
}
use perfect_match_qms.Document.Revisions.{
  Action, submit_for_review, approve, reject, supersede, check_manager_permission, Selection, write,
  values, takes_part, run, is_draft, unlink,
}
use perfect_match_qms.Document.Activation.{is_previous}
use perfect_match_qms.Document.Workflow.{
  comes_before, insert, insert_each, new_revision, create_revision,
}
use perfect_match_qms.Document.Writes.{if_rule, write-All, assign_all-id, assign_all-state}
use perfect_match_qms.Document.Sole.{activate-IsSole}
use perfect_match_qms.Document.Invariants.{Keeps, Reach-Kept}
use perfect_match_qms.Document.Steps.{Log, Reach}

-- All the active revisions have one id.
abbrev pub HasOneActive : List Revision → Type 0
HasOneActive rs = (id : ℕ) × All (λ r. is_previous id r ≡ false) rs

-- What every revision of an insertion was before it, or is new.
pub insert-All :
    (P : Revision → Type 0) (new : Revision) (rs : List Revision)
    → P new
    → All P rs
    → All P (insert new rs)
insert-All P new [] p h = (p, tt)
insert-All P new (r ∷ rs) p h = elim (Bool-cases (comes_before new r)) [
  | inl earlier ↦ rw earlier (p, h)
  | inr later ↦ rw later (h.0, insert-All P new rs p h.1)
]

pub filtered-All :
    (P : Revision → Type 0) (f : Revision → Bool) (rs : List Revision)
    → All P rs
    → All P (filtered f rs)
filtered-All P f [] h = tt
filtered-All P f (r ∷ rs) h = elim (Bool-cases (f r)) [
  | inl kept ↦ rw kept (h.0, filtered-All P f rs h.1)
  | inr dropped ↦ rw dropped (filtered-All P f rs h.1)
]

values_inactive :
    (env : Env) (action : Action) (r : Revision)
    → is_active (assign_all assign (values env action) r).state ≡ false
unfolding values
values_inactive env submit_for_review r = refl
values_inactive env approve r = refl
values_inactive env reject r = refl
values_inactive env supersede r = refl

module _ (orm : Orm assign) (env : Env) where
  run-previous :
      (action : Action) (self : Selection) (s s' : Store) (events : List (Event RevisionState))
      (id : ℕ)
      → All (λ r. is_previous id r ≡ false) s.revisions
      → run orm env action self s ≡ ok (s', events)
      → All (λ r. is_previous id r ≡ false) s'.revisions
  unfolding run
  run-previous action self s s' events id h e =
      let (_, rest) = >>-eq-ok (check_manager_permission env) _ e in
      let (new, stored, done) =
        >>=-eq-ok (write orm true (values env action) (takes_part action self) s) _ rest in
      let all =
        (write-All orm true (values env action) (takes_part action self)
          (λ r. is_previous id r ≡ false) (λ r. is_previous id r ≡ false) s new
          (λ r quiet.
            if_rule (λ x. is_previous id x ≡ false) (takes_part action self r) _ r
              (λ _. ground (arith, values_inactive env action r)) (λ _. quiet))
          h stored).2 in
      subst
        (λ (p : Store × List (Event RevisionState)).
          All (λ r. is_previous id r ≡ false) p.0.revisions)
        (ok-injective done) all

module _ (orm : Orm assign) where
  write-previous :
      (vals : List Assignment) (self : Selection) (s s' : Store) (id : ℕ)
      → All (λ r. is_previous id r ≡ false) s.revisions
      → write orm false vals self s ≡ ok s'
      → All (λ r. is_previous id r ≡ false) s'.revisions
  write-previous vals self s s' id h e =
      let checked =
        (write-All orm false vals self (λ _. Unit {0}) (λ _. Unit {0}) s s' (λ _ _. tt)
          (All-Unit s.revisions) e).0 in
      (write-All orm false vals self (λ r. is_previous id r ≡ false) (λ r. is_previous id r ≡ false)
        s s'
        (λ r quiet.
          if_rule (λ x. is_previous id x ≡ false) (self r) _ r
            (λ _. rw (assign_all-state vals r checked, assign_all-id vals r) quiet) (λ _. quiet))
        h e).2

pub unlink-All :
    (P : Revision → Type 0) (self : Selection) (s s' : Store)
    → unlink self s ≡ ok s'
    → All P s.revisions
    → All P s'.revisions
unfolding unlink
unlink-All P self s s' e h =
    let (_, done) =
      >>-eq-ok (raise_if (any (λ (r : Revision). self r && not (is_draft r.state)) s.revisions) _) _
        e in
    subst (λ (x : Store). All P x.revisions) (ok-injective done)
      (filtered-All P (λ r. not (self r)) s.revisions h)

-- What `create` makes of the revisions, and that the others are inactive where the new one is active.
pub entry-parts :
    (creation : Creation Revision) (new : Revision) (s s' : Store)
    → create_revision creation new s ≡ ok s'
    → (s'.revisions ≡ insert new s.revisions)
      × ((is_active new.state && any (is_previous new.id) s.revisions) ≡ false)
unfolding create_revision
entry-parts creation new s s' e =
    let (created, stored, one) = >>=-eq-ok (creation.super_create (new ∷ [])) _ e in
    let (alone, done) =
      >>-eq-ok (raise_if (is_active new.state && any (is_previous new.id) s.revisions) _) _ one in
    let exact : created ≡ new ∷ [] = creation.create_exact (new ∷ []) created stored in
    (
      sym (ap (λ (x : Store). x.revisions) (ok-injective done))
          ∙ ap (λ made. insert_each made s.revisions) exact,
      raise_if-eq-ok _ _ alone,
    )

entry-HasOneActive :
    (creation : Creation Revision) (new : Revision) (s s' : Store)
    → create_revision creation new s ≡ ok s'
    → HasOneActive s.revisions
    → HasOneActive s'.revisions
entry-HasOneActive creation new s s' e (id, h) =
    let (listed, alone) = entry-parts creation new s s' e in
    subst HasOneActive (sym listed) (elim (Bool-cases (is_active new.state)) [
      | inl now ↦ (
        new.id,
        insert-All (λ r. is_previous new.id r ≡ false) new s.revisions (ground arith)
            (any-false (is_previous new.id) s.revisions (ground (arith, alone, now))),
      )
      | inr not_now ↦ (
        id,
        insert-All (λ r. is_previous id r ≡ false) new s.revisions (ground (arith, not_now)) h,
      )
    ])

module _ (orm : Orm assign) (document_orm : Orm assign_document) (creation : Creation Revision)
    (admits : Revision → Bool) where
  single-Keeps : Keeps orm document_orm creation admits (λ _ rs. HasOneActive rs)
  single-Keeps = record {
    run_keeps = λ env action self s s' events log e (id, h).
        (id, run-previous orm env action self s s' events id h e);
    activate_keeps = λ env r s s' events log listed e h. (
      r.id,
      All-map (λ q own. ground (arith, own)) s'.revisions
          (activate-IsSole orm document_orm env r s s' events e).2,
    );
    write_keeps = λ vals self s s' log e (id, h). (id, write-previous orm vals self s s' id h e);
    unlink_keeps =
        λ self s s' log e (id, h). (id, unlink-All (λ r. is_previous id r ≡ false) self s s' e h);
    insert_keeps = λ env id display_name name s log (old, h). (
      old,
      insert-All (λ r. is_previous old r ≡ false) (new_revision env id display_name name s.document)
          s.revisions refl h,
    );
    entry_keeps = λ new s s' log _ e h. entry-HasOneActive creation new s s' e h;
    event_keeps = λ env action s log rs h. h;
  }

  -- Whatever calls are made on a document and its revisions, in any order, creations of revisions in any
  -- state included: if all active revisions
  -- have one id at first, they have one id afterwards.
  pub Reach-HasOneActive :
      (start s : Store) (log : Log)
      → Reach orm document_orm creation admits start s log
      → HasOneActive start.revisions
      → HasOneActive s.revisions
  Reach-HasOneActive start s log reached h =
      Reach-Kept orm document_orm creation admits (λ _ rs. HasOneActive rs) single-Keeps start s log
        reached h
