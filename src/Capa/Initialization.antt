-- ===== src/Capa/Initialization.antt =====
-- What `_initialize_analysis_structure` leaves: the missing rows are there, in front of them the rows
-- that were there before.
use perfect_match_qms.Prelude.{
  ℕ, ◌≡◌, refl, sym, subst, ap, ◌∙◌, Bool, true, not, ◌||◌, List, [], ◌∷◌, ◌++◌, map, arith, all,
  filtered, is_empty, Bool-cases, inl, inr, ◌⊎◌,
}
use mathlib.Core.List.{append-nil}
use native.Mathlib.Decide.{ℕ_discrete}
use perfect_match_qms.Odoo.{Creation, >>-eq-ok, for_each, ok, >>=-eq-ok, ok-injective}
use perfect_match_qms.Capa.Types.{Method, Why, IsIsNot, Capa}
use perfect_match_qms.Capa.Structure.{
  check_integrity, blank_why, blank_row, contains, sequences, why_sequences, why_prompt,
  missing_whys, missing_rows, create_whys, create_rows, initialize_whys, initialize_rows,
  initialize_by, initialize_analysis_structure,
}

is_empty-eq {ℓ} : {A : Type ℓ} (xs : List A) → is_empty xs ≡ true → xs ≡ []
is_empty-eq [] h = refl
is_empty-eq (x ∷ xs) h = cc

module _ (whys : Creation Why) (rows : Creation IsIsNot) where
  pub initialize_whys-cases :
      (c c' : Capa)
      → initialize_whys whys rows c ≡ ok c'
      → ((missing_whys c.why_ids ≡ []) × (c' ≡ c))
        ⊎ ((created : List Why) × (create_whys whys true c.why_ids
                (map blank_why (missing_whys c.why_ids))
              ≡ ok created)
            × (c' ≡ record c { why_ids = c.why_ids ++ created }))
  unfolding initialize_whys
  initialize_whys-cases c c' h = elim (Bool-cases (is_empty (missing_whys c.why_ids))) [
    | inl e ↦ inl (is_empty-eq _ e, sym (ok-injective (rw e at h)))
    | inr e ↦
        let (created, made, stored) =
          >>=-eq-ok (create_whys whys true c.why_ids (map blank_why (missing_whys c.why_ids)))
            (λ created. ok (record c { why_ids = c.why_ids ++ created })) (rw e at h) in
        inr (created, made, sym (ok-injective stored))
  ]

  pub initialize_rows-cases :
      (c c' : Capa)
      → initialize_rows whys rows c ≡ ok c'
      → ((missing_rows c.is_is_not_ids ≡ []) × (c' ≡ c))
        ⊎ ((created : List IsIsNot) × (create_rows rows true c.is_is_not_ids
                (map blank_row (missing_rows c.is_is_not_ids))
              ≡ ok created)
            × (c' ≡ record c { is_is_not_ids = c.is_is_not_ids ++ created }))
  unfolding initialize_rows
  initialize_rows-cases c c' h = elim (Bool-cases (is_empty (missing_rows c.is_is_not_ids))) [
    | inl e ↦ inl (is_empty-eq _ e, sym (ok-injective (rw e at h)))
    | inr e ↦
        let (created, made, stored) =
          >>=-eq-ok
            (create_rows rows true c.is_is_not_ids (map blank_row (missing_rows c.is_is_not_ids)))
            (λ created. ok (record c { is_is_not_ids = c.is_is_not_ids ++ created })) (rw e at h) in
        inr (created, made, sym (ok-injective stored))
  ]

  initialize_by-state :
      (method : Method) (c c' : Capa)
      → initialize_by whys rows method c ≡ ok c'
      → c'.state ≡ c.state
  unfolding initialize_by
  initialize_by-state Method.five_why c c' h = elim (initialize_whys-cases c c' h) [
    | inl (_, e) ↦ ap (λ (d : Capa). d.state) e
    | inr (_, _, e) ↦ ap (λ (d : Capa). d.state) e
  ]
  initialize_by-state Method.is_is_not c c' h = elim (initialize_rows-cases c c' h) [
    | inl (_, e) ↦ ap (λ (d : Capa). d.state) e
    | inr (_, _, e) ↦ ap (λ (d : Capa). d.state) e
  ]
  initialize_by-state _ c c' h = sym (ap (λ (d : Capa). d.state) (ok-injective h))

  pub initialize-state :
      (c c' : Capa) → initialize_analysis_structure whys rows c ≡ ok c' → c'.state ≡ c.state
  unfolding initialize_analysis_structure
  initialize-state c c' h = initialize_by-state c.root_cause_method c c' h

create_whys-eq-ok :
    (whys : Creation Why) (old vals created : List Why)
    → create_whys whys true old vals ≡ ok created
    → created ≡ map (λ (w : Why). record w { question = why_prompt w.sequence }) vals
unfolding create_whys
create_whys-eq-ok whys old vals created h =
    let (_, rest) = >>-eq-ok (for_each _ vals) _ h in
    let (records, made, checked) = >>=-eq-ok (whys.super_create _) _ rest in
    let (_, same) = >>-eq-ok (check_integrity (old ++ records) records) _ checked in
    sym (ok-injective same) ∙ whys.create_exact _ records made

sequences-asked :
    (ns : List ℕ)
    → sequences
        (map (λ (w : Why). record w { question = why_prompt w.sequence }) (map blank_why ns))
      ≡ ns
sequences-asked [] = refl
sequences-asked (n ∷ ns) = rw (sequences-asked ns)

sequences-append : (xs ys : List Why) → sequences (xs ++ ys) ≡ sequences xs ++ sequences ys
sequences-append [] ys = refl
sequences-append (x ∷ xs) ys = rw (sequences-append xs ys)

contains-append :
    (n : ℕ) (xs ys : List ℕ) → contains n (xs ++ ys) ≡ (contains n xs || contains n ys)
contains-append n [] ys = refl
contains-append n (x ∷ xs) ys = ground (arith, contains-append n xs ys)

contains-filtered :
    (p : ℕ → Bool) (n : ℕ) (ns : List ℕ)
    → contains n ns ≡ true
    → p n ≡ true
    → contains n (filtered p ns) ≡ true
contains-filtered p n [] h e = cc
contains-filtered p n (m ∷ ns) h e = elim (ℕ_discrete m n) [
  | yes same ↦ subst (λ k. contains n (filtered p (k ∷ ns)) ≡ true) (sym same) (rw e (ground arith))
  | no other ↦ ground (arith, contains-filtered p n ns)
]

-- What is missing from `xs` is not missing once it has been added.
nothing_missing :
    (xs needed ns : List ℕ)
    → all (λ n. contains n needed) ns ≡ true
    → filtered (λ n. not (contains n (xs ++ filtered (λ k. not (contains k xs)) needed))) ns ≡ []
nothing_missing xs needed [] h = refl
nothing_missing xs needed (n ∷ ns) h =
    let missing = filtered (λ k. not (contains k xs)) needed in
    ground (
      arith,
      nothing_missing xs needed ns,
      contains-append n xs missing,
      contains-filtered (λ k. not (contains k xs)) n needed,
    )

initialize_whys-missing :
    (whys : Creation Why) (rows : Creation IsIsNot) (c c' : Capa)
    → initialize_whys whys rows c ≡ ok c'
    → (sequences c'.why_ids ≡ sequences c.why_ids ++ missing_whys c.why_ids)
initialize_whys-missing whys rows c c' h = elim (initialize_whys-cases whys rows c c' h) [
  | inl (nothing, same) ↦ rw (same, nothing) (sym (append-nil _))
  | inr (created, made, same) ↦
      let asked = map blank_why (missing_whys c.why_ids) in
      ap (λ (d : Capa). sequences d.why_ids) same
      ∙ sequences-append c.why_ids created
      ∙ ap (λ l. sequences c.why_ids ++ l)
          (ap sequences (create_whys-eq-ok whys c.why_ids asked created made)
            ∙ sequences-asked (missing_whys c.why_ids))
]

missing-append :
    (xs : List Why)
    → filtered (λ n. not (contains n (sequences xs ++ missing_whys xs))) why_sequences ≡ []
unfolding missing_whys
missing-append xs = nothing_missing (sequences xs) why_sequences why_sequences refl

missing_whys-eq :
    (xs ys : List Why) → sequences ys ≡ sequences xs ++ missing_whys xs → missing_whys ys ≡ []
unfolding missing_whys
missing_whys-eq xs ys e =
    ap (λ l. filtered (λ n. not (contains n l)) why_sequences) e ∙ missing-append xs

initialize_whys-again :
    (whys : Creation Why) (rows : Creation IsIsNot) (c : Capa)
    → missing_whys c.why_ids ≡ []
    → initialize_whys whys rows c ≡ ok c
unfolding initialize_whys
initialize_whys-again whys rows c e = rw e

initialize_whys-method :
    (whys : Creation Why) (rows : Creation IsIsNot) (c c' : Capa)
    → initialize_whys whys rows c ≡ ok c'
    → c'.root_cause_method ≡ c.root_cause_method
initialize_whys-method whys rows c c' h = elim (initialize_whys-cases whys rows c c' h) [
  | inl (_, e) ↦ ap (λ (d : Capa). d.root_cause_method) e
  | inr (_, _, e) ↦ ap (λ (d : Capa). d.root_cause_method) e
]

initialize_by_five :
    (whys : Creation Why) (rows : Creation IsIsNot) (m : Method) (c : Capa)
    → m ≡ Method.five_why
    → initialize_by whys rows m c ≡ initialize_whys whys rows c
unfolding initialize_by
initialize_by_five whys rows m c e = rw e

-- The 5 Why structure: after the initialization every sequence from 1 to 5 has a row, the rows that
-- were there keep their sequences and come first, and only missing sequences were added. A second
-- call changes nothing.
pub initialize-covers :
    (whys : Creation Why) (rows : Creation IsIsNot) (c c' : Capa)
    → c.root_cause_method ≡ Method.five_why
    → initialize_analysis_structure whys rows c ≡ ok c'
    → (sequences c'.why_ids ≡ sequences c.why_ids ++ missing_whys c.why_ids)
      × (missing_whys c'.why_ids ≡ [])
      × (initialize_analysis_structure whys rows c' ≡ ok c')
unfolding initialize_analysis_structure
initialize-covers whys rows c c' m h =
    let run = sym (initialize_by_five whys rows c.root_cause_method c m) ∙ h in
    let grown = initialize_whys-missing whys rows c c' run in
    let full = missing_whys-eq c.why_ids c'.why_ids grown in
    (
      grown,
      full,
      initialize_by_five whys rows c'.root_cause_method c'
            (initialize_whys-method whys rows c c' run ∙ m)
          ∙ initialize_whys-again whys rows c' full,
    )
