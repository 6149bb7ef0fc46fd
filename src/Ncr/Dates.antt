-- ===== src/Ncr/Dates.antt =====
-- When a nonconformity is overdue, and by how much.
use perfect_match_qms.Prelude.{
  ◌-◌, ◌∙◌, not, ◌&&◌, if◌then◌else◌, ℕ, ◌+◌, ◌≤◌, ◌≡◌, ◌≢◌, ◌↔◌, refl, ap, sym, Option, Bool, true,
  false, some, none, arith, ltb,
}
use perfect_match_qms.Odoo.{Env}
use perfect_match_qms.Ncr.Types.{
  State, closed, cancelled, Nonconformity, is_finished, passed, days_since, compute_overdue,
}

-- The target date is `days` days ago, and at least one.
abbrev pub IsDaysPast : Env → Option ℕ → ℕ → Type 0
IsDaysPast env target_date days =
    (date : ℕ) × (target_date ≡ some date) × (date + days ≡ env.today) × (1 ≤ days)

is_finished-false : (s : State) → is_finished s ≡ false ↔ ((s ≢ closed) × (s ≢ cancelled))
is_finished-false closed = (λ h. cc, λ h. elim (h.0 refl) [ ])
is_finished-false cancelled = (λ h. cc, λ h. elim (h.1 refl) [ ])
is_finished-false _ = (λ h. (λ e. cc, λ e. cc), λ h. refl)

-- `_compute_overdue` on the parts of the record that it reads.
abbrev overdue : Bool → Option ℕ → ℕ → Bool × ℕ
overdue finished date today =
    let late = not finished && passed date today in
    (late, if late then days_since date today else 0)

past_days :
    (date today days : ℕ)
    → overdue false (some date) today ≡ (true, days)
    → (date + days ≡ today) × (1 ≤ days)
past_days date today days h =
    let late : ltb date today ≡ true = ap (λ (p : Bool × ℕ). p.0) h in
    let amount : (if ltb date today then today - date else 0) ≡ days =
      ap (λ (p : Bool × ℕ). p.1) h in
    ground arith

days_past :
    (date today days : ℕ)
    → date + days ≡ today
    → 1 ≤ days
    → overdue false (some date) today ≡ (true, days)
days_past date today days e positive =
    let late : ltb date today ≡ true = ground arith in
    let amount : today - date ≡ days = omega arith in rw (late, amount)

overdue_iff :
    (env : Env) (finished : Bool) (target : Option ℕ) (days : ℕ)
    → (overdue finished target env.today ≡ (true, days))
      ↔ ((finished ≡ false) × IsDaysPast env target days)
overdue_iff env true target days = (λ h. cc, λ h. cc)
overdue_iff env false none days = (λ h. cc, λ h. cc)
overdue_iff env false (some date) days = (
  λ h. let (gap, positive) = past_days date env.today days h in (refl, (date, refl, gap, positive)),
  λ h.
      let (_, (then_date, e, gap, positive)) = h in
      let same_date : then_date ≡ date = cc in
      days_past date env.today days (ap (λ d. d + days) (sym same_date) ∙ gap) positive,
)

-- A nonconformity is overdue by a number of days exactly when it is neither closed nor cancelled
-- and its target date lies that number of days in the past, one at least.
pub compute_overdue_iff :
    (env : Env) (r : Nonconformity) (days : ℕ)
    → (compute_overdue env r ≡ (true, days))
      ↔ ((r.state ≢ closed) × (r.state ≢ cancelled) × IsDaysPast env r.target_date days)
unfolding compute_overdue
compute_overdue_iff env r days =
    let (there, back) = overdue_iff env (is_finished r.state) r.target_date days in
    let (live, live_back) = is_finished-false r.state in
    (
      λ h. let (unfinished, past) = there h in let (a, b) = live unfinished in (a, b, past),
      λ h. back (live_back (h.0, h.1), h.2),
    )
