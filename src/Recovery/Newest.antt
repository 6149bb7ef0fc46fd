-- ===== src/Recovery/Newest.antt =====
-- The newest recovery point of each source: the loop finds it, and it is kept.
use perfect_match_qms.Prelude.{
  not-true, true-false, ℕ, ◌≡◌, ◌↔◌, refl, sym, ap, subst, ◌∙◌, arith, true, false, ◌&&◌, eq_iff,
  str_ltb_trans, str_ltb_irrefl, some, List, [], ◌∷◌, All, Exists, All-map, All-Exists, Exists-map,
  inl, inr, Bool-cases, Option-cases, if◌then◌else◌, if_true, if_false,
}
use perfect_match_qms.Recovery.Retention.{
  Source, same_source, Point, newer, Newest, get, put, replaces, newest_by_source, keep,
}

pub same_source_iff : (a b : Source) → (same_source a b ≡ true) ↔ (a ≡ b)
unfolding same_source
same_source_iff a b = (
  λ h. ground (
    arith,
    eq_iff a.instance_slug b.instance_slug,
    eq_iff a.database_name b.database_name,
    eq_iff a.environment_id b.environment_id,
  ),
  λ h.
      subst (λ c. same_source a c ≡ true) h
        (ground (
          arith,
          eq_iff a.instance_slug a.instance_slug,
          eq_iff a.database_name a.database_name,
          eq_iff a.environment_id a.environment_id,
        )),
)

pub newer_trans : (p q r : Point) → newer p q ≡ true → newer q r ≡ true → newer p r ≡ true
newer_trans p q r h k = ground (arith, str_ltb_trans r.manifest q.manifest p.manifest)

newer_irrefl : (p : Point) → newer p p ≡ false
newer_irrefl p = ground (arith, str_ltb_irrefl p.manifest)

get-put :
    (s t : Source) (p : Point) (d : Newest)
    → get t (put s p d) ≡ (if same_source s t then some p else get t d)
get-put s t p [] = refl
get-put s t p ((k, q) ∷ d) =
    ground (arith, same_source_iff k s, same_source_iff k t, same_source_iff s t, get-put s t p d)

-- The entry of `p`'s source is no older than `p`.
abbrev pub Covers : Newest → Point → Type 0
Covers d p = (q : Point) × (get p.source d ≡ some q) × (q.source ≡ p.source) × (newer p q ≡ false)

-- Each entry stands under its own source.
abbrev pub IsKeyed : Newest → Type 0
IsKeyed d = (s : Source) (q : Point) → get s d ≡ some q → q.source ≡ s

-- The body of the loop.
step : Newest → Point → Newest
step d p = if replaces p (get p.source d) then put p.source p d else d

get-step :
    (d : Newest) (p : Point) (t : Source)
    → get t (step d p)
      ≡ (if replaces p (get p.source d) && same_source p.source t then some p else get t d)
unfolding step
get-step d p t = ground (arith, get-put p.source t p d)

-- A property of the entries and of `p` is one of the entries after the step.
step-entries :
    (P : Source → Point → Type 0) (d : Newest) (p : Point)
    → ((s : Source) (q : Point) → get s d ≡ some q → P s q)
    → P p.source p
    → (s : Source) (q : Point) → get s (step d p) ≡ some q
    → P s q
step-entries P d p old new s q h =
    elim (Bool-cases (replaces p (get p.source d) && same_source p.source s)) [
      | inl put_here ↦
          let entry : some p ≡ some q =
            sym (if_true _ (some p) (get s d) put_here) ∙ sym (get-step d p s) ∙ h in
          let same_point : p ≡ q = cc in
          let same : same_source p.source s ≡ true = ground arith in
          subst (λ x. P s x) same_point
            (subst (λ x. P x p) ((same_source_iff p.source s).0 same) new)
      | inr elsewhere ↦
          old s q (sym (if_false _ (some p) (get s d) elsewhere) ∙ sym (get-step d p s) ∙ h)
    ]

step-Covers_new : (d : Newest) (p : Point) → IsKeyed d → Covers (step d p) p
step-Covers_new d p keyed = elim (Option-cases (get p.source d)) [
  | inl missing ↦ (
    p,
    get-step d p p.source ∙ ground (arith, same_source_iff p.source p.source),
    refl,
    newer_irrefl p,
  )
  | inr (c, found) ↦ elim (Bool-cases (newer p c)) [
    | inl later ↦ (
      p,
      get-step d p p.source ∙ ground (arith, same_source_iff p.source p.source),
      refl,
      newer_irrefl p,
    )
    | inr earlier ↦ (c, get-step d p p.source ∙ ground arith, keyed p.source c found, earlier)
  ]
]

step-Covers : (d : Newest) (p r : Point) → IsKeyed d → Covers d r → Covers (step d p) r
step-Covers d p r keyed (q, found, same, older) =
    elim (Bool-cases (replaces p (get p.source d) && same_source p.source r.source)) [
      | inl put_here ↦
          let sources : p.source ≡ r.source =
            (same_source_iff p.source r.source).0 (ground arith) in
          let there : get p.source d ≡ some q = ap (λ s. get s d) sources ∙ found in
          let later : newer p q ≡ true = ground arith in
          (
            p,
            get-step d p r.source ∙ if_true _ (some p) (get r.source d) put_here,
            sources,
            not-true _ (λ k. true-false _ (newer_trans r p q k later) older),
          )
      | inr elsewhere ↦ (
        q,
        get-step d p r.source ∙ if_false _ (some p) (get r.source d) elsewhere ∙ found,
        same,
        older,
      )
    ]

-- What the whole loop does to a dictionary.
newest_by_source-Covers :
    (seen ps : List Point) (d : Newest)
    → IsKeyed d
    → All (Covers d) seen
    → All (Covers (newest_by_source d ps)) seen × All (Covers (newest_by_source d ps)) ps
unfolding newest_by_source step
newest_by_source-Covers seen [] d keyed covered = (covered, tt)
newest_by_source-Covers seen (p ∷ ps) d keyed covered =
    let (before, after) =
      newest_by_source-Covers (p ∷ seen) ps (step d p)
        (step-entries (λ s q. q.source ≡ s) d p keyed refl)
        (step-Covers_new d p keyed, All-map (λ r h. step-Covers d p r keyed h) seen covered) in
    (before.1, (before.0, after))

-- A property of every recovery point is one of the entries after the loop.
newest_by_source-entries :
    (P : Source → Point → Type 0) (ps : List Point) (d : Newest)
    → ((s : Source) (q : Point) → get s d ≡ some q → P s q)
    → All (λ p. P p.source p) ps
    → (s : Source) (q : Point) → get s (newest_by_source d ps) ≡ some q
    → P s q
unfolding newest_by_source step
newest_by_source-entries P [] d old h = old
newest_by_source-entries P (p ∷ ps) d old h =
    newest_by_source-entries P ps (step d p) (step-entries P d p old h.0) h.1

-- The dictionary that `retention` decides by.
abbrev pub newest_of : List Point → Newest
newest_of ps = newest_by_source [] ps

-- The entry of a point's source is one of the points, and is the newest of its source itself.
newest-kept :
    (now : ℕ) (ps : List Point) (p q : Point)
    → get p.source (newest_of ps) ≡ some q
    → q.source ≡ p.source
    → keep now (newest_of ps) q ≡ true
unfolding keep
newest-kept now ps p q found same =
    let own : get q.source (newest_of ps) ≡ some q = ap (λ s. get s (newest_of ps)) same ∙ found in
    ground (arith, own, eq_iff q.manifest q.manifest)

-- Each point is covered by the entry of its source, and that entry is one of the points.
pub newest-Covers : (ps : List Point) → All (Covers (newest_of ps)) ps
newest-Covers ps = (newest_by_source-Covers [] ps [] (λ s q h. cc) tt).1

pub newest-listed :
    (ps : List Point) (s : Source) (q : Point)
    → get s (newest_of ps) ≡ some q
    → Exists (λ r. r ≡ q) ps
newest-listed ps =
    newest_by_source-entries (λ s q. Exists (λ r. r ≡ q) ps) ps [] (λ s q h. cc) (All-Exists ps)

-- For every recovery point, one of the same source is kept that is not older.
pub keep-Exists :
    (now : ℕ) (ps : List Point)
    → All
        (λ p.
          Exists
            (λ q. (q.source ≡ p.source) × (newer p q ≡ false) × (keep now (newest_of ps) q ≡ true))
            ps)
        ps
keep-Exists now ps =
    All-map
      (λ p (q, found, same, older).
        Exists-map
          (λ r e.
            subst
              (λ x.
                (x.source ≡ p.source) × (newer p x ≡ false) × (keep now (newest_of ps) x ≡ true))
              (sym e) (same, older, newest-kept now ps p q found same))
          ps (newest-listed ps p.source q found))
      ps (newest-Covers ps)
