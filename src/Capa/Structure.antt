-- ===== src/Capa/Structure.antt =====
-- capa_why.py and capa_is_is_not.py: the fixed rows of an analysis, and how
-- `_initialize_analysis_structure` of capa.py creates the missing ones. The ORM's `create` is a
-- parameter.
use perfect_match_qms.Prelude.{
  ℕ, ◌==◌, ltb, Bool, true, false, not, ◌&&◌, ◌||◌, String, none, List, [], ◌∷◌, ◌++◌, map,
  if◌then◌else◌, length, any, all, filtered, is_empty,
}
use perfect_match_qms.Odoo.{
  Creation, user_error, validation_error, Result, ok, ◌>>=◌, ◌>>◌, raise_if, for_each,
}
use perfect_match_qms.Capa.Types.{
  Method, five_why, is_is_not, Dimension, what, where_, when, extent, Why, IsIsNot, Capa,
}

-- The keys of `WHY_PROMPTS`, in order.
abbrev pub why_sequences : List ℕ
why_sequences = 1 ∷ 2 ∷ 3 ∷ 4 ∷ 5 ∷ []

abbrev pub contains : ℕ → List ℕ → Bool
contains n xs = any (λ x. x == n) xs

-- `WHY_PROMPTS.get(sequence, "")`
abbrev pub why_prompt : ℕ → String
why_prompt n =
    if n == 1
    then "Why did the problem occur?"
    else if n == 2
    then "Why did the condition identified in Why 1 occur?"
    else if n == 3
    then "Why did the condition identified in Why 2 occur?"
    else if n == 4
    then "Why did the condition identified in Why 3 occur?"
    else if n == 5
    then "Why did the condition identified in Why 4 occur?"
    else ""

-- `len(sequences) != len(set(sequences))`
abbrev pub has_duplicate : List ℕ → Bool
has_duplicate [] = false
has_duplicate (n ∷ ns) = contains n ns || has_duplicate ns

abbrev pub sequences : List Why → List ℕ
sequences whys = map (λ (w : Why). w.sequence) whys

-- `PmQmsCapaWhy._check_integrity` for the rows created, which are among the `siblings`.
unfoldable pub check_integrity : (siblings created : List Why) → Result (Unit {0})
check_integrity siblings created =
    for_each
      (λ (why : Why).
        raise_if (not (contains why.sequence why_sequences))
          (validation_error "5 Why sequence must be between 1 and 5.")
        >> raise_if (ltb 5 (length siblings) || has_duplicate (sequences siblings))
            (validation_error "A CAPA may contain at most five unique 5 Why slots."))
      created

-- `PmQmsCapaWhy.create` for the rows of one CAPA that has the rows `old`. `initialize` is the context
-- flag. The prompt overwrites the question of the values given.
unfoldable pub create_whys :
    Creation Why → (initialize : Bool) → (old vals : List Why) → Result (List Why)
unfolding check_integrity
create_whys orm initialize old vals = do
  raise_if (not initialize)
      (user_error "5 Why entries are fixed analysis slots and cannot be added manually.")
  for_each
      (λ (why : Why).
        raise_if (not (contains why.sequence why_sequences))
          (validation_error "5 Why sequence must be between 1 and 5."))
      vals
  let asked = map (λ (why : Why). record why { question = why_prompt why.sequence }) vals
  records ← orm.super_create asked
  check_integrity (old ++ records) records
  ok records

abbrev pub dimension_eq : Dimension → Dimension → Bool
dimension_eq what what = true
dimension_eq where_ where_ = true
dimension_eq when when = true
dimension_eq extent extent = true
dimension_eq _ _ = false

-- The keys of `IS_IS_NOT_DIMENSIONS`, in order, and `IS_IS_NOT_SEQUENCE`.
abbrev pub dimensions : List Dimension
dimensions = what ∷ where_ ∷ when ∷ extent ∷ []

abbrev pub dimension_sequence : Dimension → ℕ
dimension_sequence what = 1
dimension_sequence where_ = 2
dimension_sequence when = 3
dimension_sequence extent = 4

abbrev pub dimension_sequences : List ℕ
dimension_sequences = map dimension_sequence dimensions

abbrev pub has_dimension : Dimension → List Dimension → Bool
has_dimension d ds = any (λ e. dimension_eq e d) ds

abbrev pub dimension_duplicate : List Dimension → Bool
dimension_duplicate [] = false
dimension_duplicate (d ∷ ds) = has_dimension d ds || dimension_duplicate ds

-- `set(xs) == set(ys)`
abbrev pub same_set : List ℕ → List ℕ → Bool
same_set xs ys = all (λ x. contains x ys) xs && all (λ y. contains y xs) ys

-- `PmQmsCapaIsIsNot._check_integrity`. The dimension is a selection, so it is one of the four.
unfoldable pub check_fixed_structure : (siblings created : List IsIsNot) → Result (Unit {0})
check_fixed_structure siblings created =
    let ds = map (λ (r : IsIsNot). r.dimension) siblings in
    let ss = map (λ (r : IsIsNot). r.sequence) siblings in
    for_each
      (λ (row : IsIsNot).
        raise_if (not (row.sequence == dimension_sequence row.dimension))
          (validation_error "Is / Is Not rows must use the four fixed dimensions.")
        >> raise_if
            (ltb 4 (length siblings)
              || dimension_duplicate ds
              || not (same_set ss dimension_sequences))
            (validation_error "A CAPA may contain exactly one Is / Is Not row per dimension."))
      created

-- `PmQmsCapaIsIsNot.create`
unfoldable pub create_rows :
    Creation IsIsNot → (initialize : Bool) → (old vals : List IsIsNot) → Result (List IsIsNot)
unfolding check_fixed_structure
create_rows orm initialize old vals = do
  raise_if (not initialize)
      (user_error "Is / Is Not analysis uses four fixed dimensions and cannot be added manually.")
  records ← orm.super_create vals
  check_fixed_structure (old ++ records) records
  ok records

abbrev pub blank_why : ℕ → Why
blank_why n = record { sequence = n; question = ""; answer = none }

abbrev pub blank_row : Dimension → IsIsNot
blank_row d = record {
  dimension = d;
  sequence = dimension_sequence d;
  is_value = none;
  is_not_value = none;
  distinction = none;
  change_value = none;
}

-- The sequences, or the dimensions, that no row has yet. `existing` holds the valid ones only, which
-- makes no difference to what is missing.
unfoldable pub missing_whys : List Why → List ℕ
missing_whys whys = filtered (λ n. not (contains n (sequences whys))) why_sequences

unfoldable pub missing_rows : List IsIsNot → List Dimension
missing_rows rows =
    filtered (λ d. not (has_dimension d (map (λ (r : IsIsNot). r.dimension) rows))) dimensions

module _ (whys : Creation Why) (rows : Creation IsIsNot) where
  unfoldable pub initialize_whys : Capa → Result Capa
  initialize_whys capa =
      let missing = missing_whys capa.why_ids in
      if is_empty missing then ok capa else do
        created ← create_whys whys true capa.why_ids (map blank_why missing)
        ok (record capa { why_ids = capa.why_ids ++ created })

  unfoldable pub initialize_rows : Capa → Result Capa
  initialize_rows capa =
      let missing = missing_rows capa.is_is_not_ids in
      if is_empty missing then ok capa else do
        created ← create_rows rows true capa.is_is_not_ids (map blank_row missing)
        ok (record capa { is_is_not_ids = capa.is_is_not_ids ++ created })

  unfoldable pub initialize_by : Method → Capa → Result Capa
  initialize_by five_why capa = initialize_whys capa
  initialize_by is_is_not capa = initialize_rows capa
  initialize_by _ capa = ok capa

  -- `_initialize_analysis_structure`; the result is the CAPA with its rows read afterwards.
  unfoldable pub initialize_analysis_structure : Capa → Result Capa
  initialize_analysis_structure capa = initialize_by capa.root_cause_method capa
