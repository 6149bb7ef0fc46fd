-- ===== src/Recovery/Completion.antt =====
-- When `retention --apply` ends without an error, and what a second run deletes.
use perfect_match_qms.Prelude.{
  ℕ, ◌+◌, ◌*◌, ◌≡◌, ◌≢◌, refl, sym, ap, ◌∙◌, arith, ltb, Bool, true, false, not, ◌&&◌, String, none,
  List, [], ◌∷◌, length, All, All-map, All-Exists, All-zip, inl, inr, any, filtered, Bool-cases,
  if◌then◌else◌,
}
use perfect_match_qms.Recovery.Calendar.{retention_deadline}
use perfect_match_qms.Recovery.Retention.{
  Point, Entry, records, Newest, keep, Part, same_part, manifest_path, archive, checksum, File,
  exists, same_file, Progress, delete_file, delete_point, apply, retention,
}
use perfect_match_qms.Recovery.Newest.{newest_of}
use perfect_match_qms.Recovery.Deletion.{delete_file-other, delete_point-other}
use perfect_match_qms.Recovery.Survival.{IsDistinct, In, All-In, is_superseded, is_deleted, keep-eq}

-- The loop has not failed, and has deleted so many files.
abbrev Ends : ℕ → Progress → Type 0
Ends n s = (s.failed ≡ false) × (s.delete_count ≡ n)

delete_file-Ends :
    (f : File) (n : ℕ) (s : Progress)
    → exists s.files f ≡ true
    → Ends n s
    → Ends (n + 1) (delete_file none f s)
unfolding delete_file
delete_file-Ends f n s there (ok, count) = ground (arith, there, ok, count)

other_part : (m : String) (a b : Part) → same_part a b ≡ false → same_file (a, m) (b, m) ≡ false
unfolding same_file
other_part m a b h = rw h refl

-- The three files of the recovery point are there.
abbrev pub IsComplete : List File → Point → Type 0
IsComplete files p = (part : Part) → exists files (part, p.manifest) ≡ true

delete_point-Ends :
    (p : Point) (n : ℕ) (s : Progress)
    → IsComplete s.files p
    → Ends n s
    → Ends (n + 3) (delete_point none p.manifest s)
unfolding delete_point
delete_point-Ends p n s there ends =
    let m = p.manifest in
    let one = delete_file none (manifest_path, m) s in
    let two = delete_file none (archive, m) one in
    let first = delete_file-Ends (manifest_path, m) n s (there manifest_path) ends in
    let second =
      delete_file-Ends (archive, m) (n + 1) one
        (delete_file-other none (manifest_path, m) (archive, m) s
            (other_part m manifest_path archive refl)
          ∙ there archive)
        first in
    let third =
      delete_file-Ends (checksum, m) ((n + 1) + 1) two
        (delete_file-other none (archive, m) (checksum, m) one (other_part m archive checksum refl)
          ∙ delete_file-other none (manifest_path, m) (checksum, m) s
              (other_part m manifest_path checksum refl)
          ∙ there checksum)
        second in
    (third.0, third.1 ∙ omega arith)

-- The recovery points that the loop deletes.
abbrev deleted : ℕ → Newest → List Point → List Point
deleted now d ps = filtered (λ p. not (keep now d p)) ps

abbrev step : ℕ → Newest → Progress → Point → Progress
step now d s p = if keep now d p then s else delete_point none p.manifest s

step-IsComplete :
    (now : ℕ) (d : Newest) (p r : Point) (s : Progress)
    → r.manifest ≢ p.manifest
    → IsComplete s.files r
    → IsComplete (step now d s p).files r
step-IsComplete now d p r s differ there part = elim (Bool-cases (keep now d p)) [
  | inl kept ↦ rw kept (there part)
  | inr gone ↦
      rw gone
        (delete_point-other none p.manifest (part, r.manifest) s (λ e. differ (sym e)) ∙ there part)
]

step-Ends :
    (now : ℕ) (d : Newest) (p : Point) (n : ℕ) (s : Progress)
    → IsComplete s.files p
    → Ends n s
    → Ends (n + 3 * length (deleted now d (p ∷ []))) (step now d s p)
step-Ends now d p n s there ends = elim (Bool-cases (keep now d p)) [
  | inl kept ↦ rw kept (ends.0, ends.1 ∙ omega arith)
  | inr gone ↦ rw gone (delete_point-Ends p n s there ends)
]

apply-Ends :
    (now : ℕ) (d : Newest) (ps : List Point) (n : ℕ) (s : Progress)
    → IsDistinct ps
    → All (IsComplete s.files) ps
    → Ends n s
    → Ends (n + 3 * length (deleted now d ps)) (apply none now d ps s)
unfolding apply
apply-Ends now d [] n s distinct there ends = (ends.0, ends.1 ∙ omega arith)
apply-Ends now d (p ∷ ps) n s distinct there ends =
    let (ok, count) =
      apply-Ends now d ps (n + 3 * length (deleted now d (p ∷ []))) (step now d s p) distinct.1
        (both_hold p ps s distinct.0 there.1) (step-Ends now d p n s there.0 ends) in
    (ok, count ∙ length_eq (keep now d p) n (deleted now d ps) p)
  where
    both_hold :
        (p : Point) (ps : List Point) (s : Progress)
        → All (λ q. q.manifest ≢ p.manifest) ps
        → All (IsComplete s.files) ps
        → All (IsComplete (step now d s p).files) ps
    both_hold p [] s h k = tt
    both_hold p (q ∷ ps) s h k = (step-IsComplete now d p q s h.0 k.0, both_hold p ps s h.1 k.1)

    length_eq :
        (kept : Bool) (n : ℕ) (qs : List Point) (p : Point)
        → (n + 3 * length (if not kept then p ∷ [] else [])) + 3 * length qs
          ≡ n + 3 * length (if not kept then p ∷ qs else qs)
    length_eq true n qs p = omega arith
    length_eq false n qs p = omega arith

module _ (now : ℕ) (entries : List Entry) (files : List File) where
  -- Where no failure is injected, the names of the recovery points differ and all their files are
  -- there, `retention --apply` ends without an error, after three deletions for each recovery point
  -- that is past its deadline and has a newer one of its source.
  pub retention_ends :
      IsDistinct (records now entries)
      → All (IsComplete files) (records now entries)
      → ((retention none false now entries files).failed ≡ false)
        × ((retention none false now entries files).delete_count
            ≡ 3 * length (filtered (is_deleted now (records now entries)) (records now entries)))
  unfolding retention
  retention_ends distinct there =
      let ps = records now entries in
      let (ok, count) =
        apply-Ends now (newest_of ps) ps 0
          (record { files = files; delete_count = 0; failed = false }) distinct there
          (refl, refl) in
      let chosen : deleted now (newest_of ps) ps ≡ filtered (is_deleted now ps) ps =
        filtered-eq _ _ ps (
          All-map (λ p member. ap not (keep-eq now ps p distinct member) ∙ ground arith) ps
            (All-Exists ps)) in
      let size = ap (λ (qs : List Point). length qs) chosen in (ok, count ∙ omega (arith, size))
    where
      filtered-eq :
          (f g : Point → Bool) (qs : List Point)
          → All (λ q. f q ≡ g q) qs
          → filtered f qs ≡ filtered g qs
      filtered-eq f g [] h = refl
      filtered-eq f g (q ∷ qs) h =
          ap (λ b. if b then q ∷ filtered f qs else filtered f qs) h.0
          ∙ ap (λ (rest : List Point). if g q then q ∷ rest else rest) (filtered-eq f g qs h.1)

any-filtered :
    (f g : Point → Bool) (ps : List Point) → any f ps ≡ false → any f (filtered g ps) ≡ false
any-filtered f g [] h = refl
any-filtered f g (p ∷ ps) h = ground (arith, any-filtered f g ps)

In-filtered :
    (g : Point → Bool) (ps : List Point) → All (λ p. In p ps × (g p ≡ true)) (filtered g ps)
In-filtered g [] = tt
In-filtered g (p ∷ ps) =
    let rest = All-map (λ q (member, h). (inr member, h)) (filtered g ps) (In-filtered g ps) in
    elim (Bool-cases (g p)) [
      | inl chosen ↦ rw chosen ((inl refl, chosen), rest)
      | inr passed ↦ rw passed rest
    ]

IsDistinct-filtered :
    (g : Point → Bool) (ps : List Point) → IsDistinct ps → IsDistinct (filtered g ps)
IsDistinct-filtered g [] d = tt
IsDistinct-filtered g (p ∷ ps) d =
    let rest = IsDistinct-filtered g ps d.1 in
    elim (Bool-cases (g p)) [
      | inl chosen ↦ rw chosen (
        All-map (λ q (member, _). All-In (λ x. x.manifest ≢ p.manifest) ps q d.0 member)
            (filtered g ps) (In-filtered g ps),
        rest,
      )
      | inr passed ↦ rw passed rest
    ]

-- Where the names differ, every recovery point that one run keeps is kept again by a run at the same
-- moment over the kept ones: with none of its source newer or its deadline still ahead.
pub keep-stable :
    (now : ℕ) (ps : List Point)
    → IsDistinct ps
    → All
        (λ p. keep now (newest_of (filtered (keep now (newest_of ps)) ps)) p ≡ true)
        (filtered (keep now (newest_of ps)) ps)
keep-stable now ps distinct =
    let kept = filtered (keep now (newest_of ps)) ps in
    let distinct_kept = IsDistinct-filtered (keep now (newest_of ps)) ps distinct in
    All-map
      (λ p ((member, keeps), again).
        let before = keep-eq now ps p distinct member in
        let after = keep-eq now kept p distinct_kept again in
        elim (Bool-cases (is_superseded ps p)) [
          | inl superseded ↦ ground (arith, before, after, keeps, superseded)
          | inr newest ↦
              let still : is_superseded kept p ≡ false =
                any-filtered _ (keep now (newest_of ps)) ps newest in
              after
              ∙ ap (λ b. not (b && ltb (retention_deadline p.created p.point_class) now)) still
        ])
      kept (All-zip _ _ kept (In-filtered (keep now (newest_of ps)) ps) (All-Exists kept))
