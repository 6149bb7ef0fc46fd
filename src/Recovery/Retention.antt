-- ===== src/Recovery/Retention.antt =====
-- `retention` of tools/backup/m29_backup.py, from the manifests on: what `read_manifest`, the naming
-- contract and `verify_outer` answer for each manifest is given.
use perfect_match_qms.Prelude.{
  ℕ, ◌+◌, ltb, leb, ◌==◌, Bool, true, false, not, ◌&&◌, ◌||◌, String, str_eq, str_ltb, Option, none,
  some, List, [], ◌∷◌, if◌then◌else◌,
}
use perfect_match_qms.Recovery.Calendar.{DateTime, stamp, Class, retention_deadline}

-- The tuple (instance_slug, database_name, environment_id).
pub record Source : Type 0 where
  pub instance_slug : String
  pub database_name : String
  pub environment_id : String

unfoldable pub same_source : Source → Source → Bool
same_source a b =
    str_eq a.instance_slug b.instance_slug
    && (str_eq a.database_name b.database_name && str_eq a.environment_id b.environment_id)

-- One of `records`. By the naming contract the archive's name gives those of the manifest and of the
-- checksum, so `manifest` stands for the three.
pub record Point : Type 0 where
  pub manifest : String
  pub source : Source
  pub point_class : Class
  pub created : DateTime

-- The body of the `try` in the first loop: a BackupError, or a verified recovery point.
pub data Entry : Type 0 where
  rejected : (manifest : String) → Entry
  verified : Point → Entry

abbrev pub is_future : (now : ℕ) → Point → Bool
is_future now p = ltb now (stamp p.created)

-- `records`, after the test of a future date.
unfoldable pub records : (now : ℕ) → List Entry → List Point
records now [] = []
records now (rejected m ∷ es) = records now es
records now (verified p ∷ es) =
    let rest = records now es in if is_future now p then rest else p ∷ rest

-- `(record[5], record[0].name) > (current[5], current[0].name)`
abbrev pub newer : Point → Point → Bool
newer p current =
    ltb (stamp current.created) (stamp p.created)
    || (stamp current.created == stamp p.created && str_ltb current.manifest p.manifest)

abbrev pub Newest : Type 0
Newest = List (Source × Point)

-- `newest_by_source.get(source)` and `newest_by_source[source] = record`
abbrev pub get : Source → Newest → Option Point
get s [] = none
get s ((k, p) ∷ d) = if same_source k s then some p else get s d

abbrev pub put : Source → Point → Newest → Newest
put s p [] = (s, p) ∷ []
put s p ((k, q) ∷ d) = if same_source k s then (k, p) ∷ d else (k, q) ∷ put s p d

-- `current is None or (...) > (...)`
abbrev pub replaces : Point → Option Point → Bool
replaces p none = true
replaces p (some current) = newer p current

-- The loop that fills `newest_by_source`.
unfoldable pub newest_by_source : Newest → List Point → Newest
unfolding same_source
newest_by_source d [] = d
newest_by_source d (p ∷ ps) =
    newest_by_source (if replaces p (get p.source d) then put p.source p d else d) ps

-- `manifest_path == newest_by_source[source][0]`
abbrev pub is_newest : Newest → Point → Bool
is_newest d p = elim (get p.source d) [ none ↦ false | some q ↦ str_eq p.manifest q.manifest ]

unfoldable pub keep : (now : ℕ) → Newest → Point → Bool
keep now d p = is_newest d p || leb now (retention_deadline p.created p.point_class)

pub data Part : Type 0 where
  manifest_path archive checksum : Part

-- A file of the directory: one of the three of a recovery point.
abbrev pub File : Type 0
File = Part × String

abbrev pub same_part : Part → Part → Bool
same_part manifest_path manifest_path = true
same_part archive archive = true
same_part checksum checksum = true
same_part _ _ = false

unfoldable pub same_file : File → File → Bool
same_file f g = same_part f.0 g.0 && str_eq f.1 g.1

abbrev pub exists : List File → File → Bool
exists [] f = false
exists (g ∷ gs) f = same_file g f || exists gs f

-- `path.unlink()`
abbrev pub unlink : File → List File → List File
unlink f [] = []
unlink f (g ∷ gs) = let rest = unlink f gs in if same_file g f then rest else g ∷ rest

-- The directory and `delete_count`, with whether a BackupError has ended the loop.
pub record Progress : Type 0 where
  pub files : List File
  pub delete_count : ℕ
  pub failed : Bool

-- `failure_after and delete_count > int(failure_after)`
abbrev pub injected : Option ℕ → ℕ → Bool
injected none count = false
injected (some limit) count = ltb limit count

module _ (failure_after : Option ℕ) where
  -- The body of the innermost loop, at one path. The file's absence is the one unsafe case that the
  -- directory of the model can hold.
  unfoldable pub delete_file : File → Progress → Progress
  unfolding same_file
  delete_file f s =
      let count = s.delete_count + 1 in
      if s.failed
      then s
      else if not (exists s.files f)
      then record s { failed = true }
      else if injected failure_after count
      then record s { delete_count = count; failed = true }
      else record { files = unlink f s.files; delete_count = count; failed = false }

  unfoldable pub delete_point : String → Progress → Progress
  unfolding delete_file
  delete_point m s =
      delete_file (checksum, m) (delete_file (archive, m) (delete_file (manifest_path, m) s))

  -- The last loop with `--apply`.
  unfoldable pub apply : (now : ℕ) → Newest → List Point → Progress → Progress
  unfolding delete_point keep
  apply now d [] s = s
  apply now d (p ∷ ps) s = apply now d ps (if keep now d p then s else delete_point p.manifest s)

  -- `retention`, with `--apply` or without it.
  unfoldable pub retention : (dry_run : Bool) (now : ℕ) → List Entry → List File → Progress
  unfolding apply newest_by_source records same_source
  retention dry_run now entries files =
      let ps = records now entries in
      let start : Progress = record { files = files; delete_count = 0; failed = false } in
      if dry_run then start else apply now (newest_by_source [] ps) ps start
