-- ===== src/Recovery/Survival.antt =====
-- What `retention` deletes, and what survives it.
use perfect_match_qms.Prelude.{
  ℕ, ◌≡◌, ◌≢◌, ◌⊎◌, refl, sym, ap, subst, ◌∙◌, arith, ltb, Bool, true, false, not, ◌&&◌, ◌||◌,
  str_eq, eq_iff, str_ltb_connected, Option, some, List, [], ◌∷◌, All, Exists, All-map, All-Exists,
  All-Exists_both, Exists-map, inl, inr, any, Bool-cases, not-false, true-false,
}
use perfect_match_qms.Recovery.Calendar.{retention_deadline}
use perfect_match_qms.Recovery.Retention.{
  same_source, Point, Entry, records, newer, get, is_newest, keep, Part, File, exists, retention,
}
use perfect_match_qms.Recovery.Newest.{
  same_source_iff, Covers, newest_of, newest-Covers, newest-listed, keep-Exists,
}
use perfect_match_qms.Recovery.Deletion.{apply-other, apply-exact}

-- The files of a directory have different names.
abbrev pub IsDistinct : List Point → Type 0
IsDistinct [] = Unit {0}
IsDistinct (p ∷ ps) = All (λ q. q.manifest ≢ p.manifest) ps × IsDistinct ps

abbrev pub In : Point → List Point → Type 0
In p ps = Exists (λ q. q ≡ p) ps

pub All-In : (P : Point → Type 0) (ps : List Point) (p : Point) → All P ps → In p ps → P p
All-In P [] p h e = elim e [ ]
All-In P (q ∷ ps) p h (inl here) = subst P here h.0
All-In P (q ∷ ps) p h (inr there) = All-In P ps p h.1 there

-- Points of one name are one point.
pub IsDistinct-eq :
    (ps : List Point) (p q : Point)
    → IsDistinct ps
    → In p ps
    → In q ps
    → p.manifest ≡ q.manifest
    → p ≡ q
IsDistinct-eq [] p q d a b e = elim a [ ]
IsDistinct-eq (r ∷ ps) p q d (inl a) (inl b) e = sym a ∙ b
IsDistinct-eq (r ∷ ps) p q d (inl a) (inr b) e = absurd (
    All-In (λ x. x.manifest ≢ r.manifest) ps q d.0 b
      (sym e ∙ ap (λ (x : Point). x.manifest) (sym a)))
IsDistinct-eq (r ∷ ps) p q d (inr a) (inl b) e =
    absurd (
      All-In (λ x. x.manifest ≢ r.manifest) ps p d.0 a (e ∙ ap (λ (x : Point). x.manifest) (sym b)))
IsDistinct-eq (r ∷ ps) p q d (inr a) (inr b) e = IsDistinct-eq ps p q d.1 a b e

-- Another point of the same source is newer.
abbrev pub is_superseded : List Point → Point → Bool
is_superseded ps p = any (λ (q : Point). same_source q.source p.source && newer q p) ps

pub any-In :
    (f : Point → Bool) (ps : List Point) (p : Point) → In p ps → f p ≡ true → any f ps ≡ true
any-In f [] p e h = elim e [ ]
any-In f (q ∷ ps) p (inl here) h = let now : f q ≡ true = ap f here ∙ h in rw now
any-In f (q ∷ ps) p (inr there) h = ground (arith, any-In f ps p there h)

pub any-none : (f : Point → Bool) (ps : List Point) → All (λ p. f p ≡ false) ps → any f ps ≡ false
any-none f [] h = refl
any-none f (p ∷ ps) h = rw h.0 (any-none f ps h.1)

newer_connected : (p q : Point) → newer p q ≡ false → newer q p ≡ false → p.manifest ≡ q.manifest
newer_connected p q h k = ground (arith, str_ltb_connected p.manifest q.manifest)

-- The entry of a source has none of that source that is newer.
newest-none :
    (ps : List Point) (q : Point)
    → get q.source (newest_of ps) ≡ some q
    → All (λ r. (same_source r.source q.source && newer r q) ≡ false) ps
newest-none ps q found =
    All-map
      (λ r (c, there, same, older). elim (Bool-cases (same_source r.source q.source)) [
        | inl one_source ↦
            let sources : r.source ≡ q.source = (same_source_iff r.source q.source).0 one_source in
            let entry : some c ≡ some q =
              sym there ∙ ap (λ s. get s (newest_of ps)) sources ∙ found in
            let same_point : c ≡ q = cc in
            rw one_source (subst (λ x. newer r x ≡ false) same_point older)
        | inr other ↦ rw other refl
      ])
      ps (newest-Covers ps)

-- The dictionary marks a point as the newest exactly when none of its source is newer.
pub is_newest-eq :
    (ps : List Point) (p : Point)
    → IsDistinct ps
    → In p ps
    → is_newest (newest_of ps) p ≡ not (is_superseded ps p)
is_newest-eq ps p d member =
    let (q, found, same, older) = All-In (Covers (newest_of ps)) ps p (newest-Covers ps) member in
    elim (Bool-cases (str_eq p.manifest q.manifest)) [
      | inl named ↦
          let listed : In q ps = newest-listed ps p.source q found in
          let own : q ≡ p =
            sym (IsDistinct-eq ps p q d member listed ((eq_iff p.manifest q.manifest).0 named)) in
          let entry : get p.source (newest_of ps) ≡ some p = found ∙ ap some own in
          let none_newer : is_superseded ps p ≡ false = any-none _ ps (newest-none ps p entry) in
          ground (arith, entry, none_newer, eq_iff p.manifest p.manifest)
      | inr different ↦
          let later : newer q p ≡ true = not-false _ (λ k.
            true-false _ ((eq_iff p.manifest q.manifest).1 (newer_connected p q older k))
              different) in
          let one_source : same_source q.source p.source ≡ true =
            (same_source_iff q.source p.source).1 same in
          let beaten : is_superseded ps p ≡ true =
            any-In (λ (r : Point). same_source r.source p.source && newer r p) ps q
              (newest-listed ps p.source q found) (rw one_source later) in
          ground (arith, found, beaten, different)
    ]

-- What `keep` decides, without the dictionary: the point is superseded and past its deadline.
abbrev pub is_deleted : ℕ → List Point → Point → Bool
is_deleted now ps p = is_superseded ps p && ltb (retention_deadline p.created p.point_class) now

pub keep-eq :
    (now : ℕ) (ps : List Point) (p : Point)
    → IsDistinct ps
    → In p ps
    → keep now (newest_of ps) p ≡ not (is_deleted now ps p)
unfolding keep
keep-eq now ps p d member = let newest = is_newest-eq ps p d member in rw newest (ground arith)

any-eq : (f g : Point → Bool) (ps : List Point) → All (λ p. f p ≡ g p) ps → any f ps ≡ any g ps
any-eq f g [] h = refl
any-eq f g (p ∷ ps) h = ap (λ b. b || any f ps) h.0 ∙ ap (λ b. g p || b) (any-eq f g ps h.1)

module _ (failure_after : Option ℕ) (now : ℕ) (entries : List Entry) (files : List File) where
  -- Where the names of the recovery points differ, after `retention` every verified recovery point
  -- whose date is not in the future has one of its own source that is not older and whose three
  -- files are as they were, whether a file fails to be deleted or not.
  pub retention-Covers :
      (dry_run : Bool)
      → IsDistinct (records now entries)
      → All
          (λ p.
            Exists
              (λ q.
                (q.source ≡ p.source)
                × (newer p q ≡ false)
                × ((part : Part)
                    → exists
                        (retention failure_after dry_run now entries files).files
                        (part, q.manifest)
                      ≡ exists files (part, q.manifest)))
              (records now entries))
          (records now entries)
  unfolding retention
  retention-Covers true d =
      let ps = records now entries in
      All-map (λ p. Exists-map (λ q (same, older, kept). (same, older, λ part. refl)) ps) ps
        (keep-Exists now ps)
  retention-Covers false d =
      let ps = records now entries in
      All-map
        (λ p some_kept.
          Exists-map
            (λ q (member, (same, older, kept)). (
              same,
              older,
              λ part.
                  apply-other failure_after now (newest_of ps) (part, q.manifest) ps _
                    (untouched ps d q member kept),
            ))
            ps (All-Exists_both (λ q. In q ps) _ ps (All-Exists ps) some_kept))
        ps (keep-Exists now ps)
    where
      untouched :
          (ps : List Point)
          → IsDistinct ps
          → (q : Point) → In q ps
          → keep now (newest_of ps) q ≡ true
          → All (λ r. (keep now (newest_of ps) r ≡ true) ⊎ (r.manifest ≢ q.manifest)) ps
      untouched ps d q member kept =
          All-map
            (λ r listed. elim (Bool-cases (str_eq r.manifest q.manifest)) [
              | inl named ↦ inl (
                  subst (λ x. keep now (newest_of ps) x ≡ true)
                    (sym (
                      IsDistinct-eq ps r q d listed member
                        ((eq_iff r.manifest q.manifest).0 named)))
                    kept)
              | inr different ↦
                  inr (λ e. true-false _ ((eq_iff r.manifest q.manifest).1 e) different)
            ])
            ps (All-Exists ps)

  -- Where the names of the recovery points differ and `retention --apply` ends without an error, a
  -- file is gone exactly when it was there and is one of a recovery point that is past its deadline
  -- and has a newer one of its source.
  pub retention-exact :
      IsDistinct (records now entries)
      → (retention failure_after false now entries files).failed ≡ false
      → (g : File)
      → exists (retention failure_after false now entries files).files g ≡ (
          exists files g
          && not (
              any
                (λ (p : Point). is_deleted now (records now entries) p && str_eq p.manifest g.1)
                (records now entries)))
  unfolding retention
  retention-exact d h g =
      let ps = records now entries in
      let (_, gone) = apply-exact failure_after now (newest_of ps) g ps _ h in
      gone
      ∙ ap (λ b. exists files g && not b)
          (any-eq _ _ ps (
            All-map
              (λ p member.
                ap (λ b. not b && str_eq p.manifest g.1) (keep-eq now ps p d member) ∙ ground arith)
              ps (All-Exists ps)))
