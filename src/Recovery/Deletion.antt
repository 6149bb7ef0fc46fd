-- ===== src/Recovery/Deletion.antt =====
-- What the deletion loop of `retention` leaves in the directory, whether it fails or not.
use perfect_match_qms.Prelude.{
  not-true, ℕ, ◌≡◌, ◌≢◌, ◌↔◌, ◌⊎◌, refl, ap, ◌∙◌, arith, Bool, true, false, not, ◌&&◌, ◌||◌, String,
  str_eq, eq_iff, Option, List, [], ◌∷◌, All, inl, inr, any, if◌then◌else◌,
}
use perfect_match_qms.Recovery.Retention.{
  Point, Newest, manifest_path, archive, checksum, File, same_file, exists, unlink, keep, Progress,
  delete_file, delete_point, apply,
}

same_file_iff : (f g : File) → (same_file f g ≡ true) ↔ (f ≡ g)
unfolding same_file
same_file_iff (manifest_path, m) (manifest_path, n) = ground (arith, eq_iff m n)
same_file_iff (archive, m) (archive, n) = ground (arith, eq_iff m n)
same_file_iff (checksum, m) (checksum, n) = ground (arith, eq_iff m n)
same_file_iff (manifest_path, m) (archive, n) = (λ h. cc, λ h. cc)
same_file_iff (manifest_path, m) (checksum, n) = (λ h. cc, λ h. cc)
same_file_iff (archive, m) (manifest_path, n) = (λ h. cc, λ h. cc)
same_file_iff (archive, m) (checksum, n) = (λ h. cc, λ h. cc)
same_file_iff (checksum, m) (manifest_path, n) = (λ h. cc, λ h. cc)
same_file_iff (checksum, m) (archive, n) = (λ h. cc, λ h. cc)

exists-unlink :
    (f g : File) (files : List File)
    → exists (unlink f files) g ≡ (exists files g && not (same_file f g))
exists-unlink f g [] = refl
exists-unlink f g (h ∷ files) = ground (
  arith,
  same_file_iff f h,
  same_file_iff h f,
  same_file_iff g h,
  same_file_iff h g,
  same_file_iff f g,
  exists-unlink f g files,
)

both : (a b c : Bool) → ((a && not b) && not c) ≡ (a && not (b || c))
both a b c = ground arith

three_parts :
    (m : String) (g : File) (b : Bool)
    → (((b && not (same_file (manifest_path, m) g)) && not (same_file (archive, m) g))
        && not (same_file (checksum, m) g))
      ≡ (b && not (str_eq m g.1))
unfolding same_file
three_parts m (manifest_path, n) b = ground arith
three_parts m (archive, n) b = ground arith
three_parts m (checksum, n) b = ground arith

module _ (failure_after : Option ℕ) where
  pub delete_file-other :
      (f g : File) (s : Progress)
      → same_file f g ≡ false
      → exists (delete_file failure_after f s).files g ≡ exists s.files g
  unfolding delete_file
  delete_file-other f g s h = ground (arith, exists-unlink f g s.files)

  -- A deletion that does not fail removes that file and no other.
  delete_file-exact :
      (f g : File) (s : Progress)
      → (delete_file failure_after f s).failed ≡ false
      → (s.failed ≡ false)
        × (exists (delete_file failure_after f s).files g
            ≡ (exists s.files g && not (same_file f g)))
  unfolding delete_file
  delete_file-exact f g s h = ground (arith, exists-unlink f g s.files)

  pub delete_point-other :
      (m : String) (g : File) (s : Progress)
      → m ≢ g.1
      → exists (delete_point failure_after m s).files g ≡ exists s.files g
  unfolding delete_point same_file
  delete_point-other m g s h =
      let unnamed : str_eq m g.1 ≡ false = not-true _ (λ e. h ((eq_iff m g.1).0 e)) in
      let first = delete_file failure_after (manifest_path, m) s in
      let second = delete_file failure_after (archive, m) first in
      delete_file-other (checksum, m) g second (ground arith)
      ∙ delete_file-other (archive, m) g first (ground arith)
      ∙ delete_file-other (manifest_path, m) g s (ground arith)

  delete_point-exact :
      (m : String) (g : File) (s : Progress)
      → (delete_point failure_after m s).failed ≡ false
      → (s.failed ≡ false)
        × (exists (delete_point failure_after m s).files g
            ≡ (exists s.files g && not (str_eq m g.1)))
  unfolding delete_point
  delete_point-exact m g s h =
      let first = delete_file failure_after (manifest_path, m) s in
      let second = delete_file failure_after (archive, m) first in
      let (two, third) = delete_file-exact (checksum, m) g second h in
      let (one, there) = delete_file-exact (archive, m) g first two in
      let (none_before, here) = delete_file-exact (manifest_path, m) g s one in
      (
        none_before,
        third
            ∙ ap (λ b. b && not (same_file (checksum, m) g))
                (there ∙ ap (λ b. b && not (same_file (archive, m) g)) here)
            ∙ three_parts m g (exists s.files g),
      )

  -- The body of the loop, by whether the recovery point is kept.
  abbrev decide : Bool → String → Progress → Progress
  decide kept m s = if kept then s else delete_point failure_after m s

  decide-other :
      (kept : Bool) (m : String) (g : File) (s : Progress)
      → (kept ≡ true) ⊎ (m ≢ g.1)
      → exists (decide kept m s).files g ≡ exists s.files g
  decide-other true m g s h = refl
  decide-other false m g s (inl h) = cc
  decide-other false m g s (inr h) = delete_point-other m g s h

  decide-exact :
      (kept : Bool) (m : String) (g : File) (s : Progress)
      → (decide kept m s).failed ≡ false
      → (s.failed ≡ false)
        × (exists (decide kept m s).files g ≡ (exists s.files g && not (not kept && str_eq m g.1)))
  decide-exact true m g s h = (h, ground arith)
  decide-exact false m g s h = delete_point-exact m g s h

  -- A file of no deleted recovery point stays, whether the loop fails or not.
  pub apply-other :
      (now : ℕ) (d : Newest) (g : File) (ps : List Point) (s : Progress)
      → All (λ p. (keep now d p ≡ true) ⊎ (p.manifest ≢ g.1)) ps
      → exists (apply failure_after now d ps s).files g ≡ exists s.files g
  unfolding apply
  apply-other now d g [] s h = refl
  apply-other now d g (p ∷ ps) s h =
      apply-other now d g ps (decide (keep now d p) p.manifest s) h.1
      ∙ decide-other (keep now d p) p.manifest g s h.0

  -- Where the loop does not fail, exactly the files of the deleted recovery points are gone.
  pub apply-exact :
      (now : ℕ) (d : Newest) (g : File) (ps : List Point) (s : Progress)
      → (apply failure_after now d ps s).failed ≡ false
      → (s.failed ≡ false)
        × (exists (apply failure_after now d ps s).files g ≡ (
            exists s.files g
            && not (any (λ (p : Point). not (keep now d p) && str_eq p.manifest g.1) ps)))
  unfolding apply
  apply-exact now d g [] s h = (h, ground arith)
  apply-exact now d g (p ∷ ps) s h =
      let (before, later) = apply-exact now d g ps (decide (keep now d p) p.manifest s) h in
      let (first, here) = decide-exact (keep now d p) p.manifest g s before in
      (
        first,
        later
            ∙ ap
                (λ b.
                  b && not (any (λ (q : Point). not (keep now d q) && str_eq q.manifest g.1) ps))
                here
            ∙ both _ _ _,
      )
