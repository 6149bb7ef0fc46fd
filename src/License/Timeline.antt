-- ===== src/License/Timeline.antt =====
-- The term of a license over time.
use perfect_match_qms.Prelude.{
  ℕ, ◌+◌, ◌≤◌, ◌<◌, ◌≡◌, Bool, true, false, Option, none, some, if◌then◌else◌, ◌⊎◌, ◌↔◌, arith,
}
use perfect_match_qms.License.Term.{
  LicenseState, valid, expiring, expired, not_yet_valid, is_early, term_state, thirty_days,
  is_temporal, effective_temporal_state, is_usable,
}

-- The license has begun: it has no start, or its start has come.
abbrev pub HasBegun : Option ℕ → ℕ → Type 0
HasBegun none now = Unit
HasBegun (some t) now = t ≤ now

-- More than thirty days are left, at most thirty, or none.
abbrev pub HasMonth : Option ℕ → ℕ → Type 0
HasMonth none now = Unit
HasMonth (some t) now = now + thirty_days < t

abbrev pub IsLastMonth : Option ℕ → ℕ → Type 0
IsLastMonth none now = ⊥
IsLastMonth (some t) now = (now < t) × (t ≤ now + thirty_days)

abbrev pub IsOver : Option ℕ → ℕ → Type 0
IsOver none now = ⊥
IsOver (some t) now = t ≤ now

-- When a license is in each of the four states of its term.
abbrev pub InPhase : Option ℕ → Option ℕ → Bool → ℕ → LicenseState → Type 0
InPhase start end perpetual now not_yet_valid = ¬ HasBegun start now
InPhase start end perpetual now valid = HasBegun start now × ((perpetual ≡ true) ⊎ HasMonth end now)
InPhase start end perpetual now expiring =
    HasBegun start now × (perpetual ≡ false) × IsLastMonth end now
InPhase start end perpetual now expired = HasBegun start now × (perpetual ≡ false) × IsOver end now
InPhase start end perpetual now _ = ⊥

-- The state of a license that is stored in a state of its term.
abbrev term : Option ℕ → Option ℕ → Bool → ℕ → LicenseState
term start end perpetual now =
    if is_early start now then not_yet_valid else if perpetual then valid else term_state end now

term→InPhase :
    (start end : Option ℕ) (perpetual : Bool) (now : ℕ) (s : LicenseState)
    → term start end perpetual now ≡ s
    → InPhase start end perpetual now s
term→InPhase none none true now valid h = grind arith
term→InPhase _ _ _ now _ h = grind arith

InPhase→term :
    (start end : Option ℕ) (perpetual : Bool) (now : ℕ) (s : LicenseState)
    → InPhase start end perpetual now s
    → term start end perpetual now ≡ s
InPhase→term none none true now valid h = grind arith
InPhase→term _ _ _ now _ h = grind arith

-- A license stored in a state of the term is in a state exactly when it is in that state's phase: not
-- yet valid before its start, valid while perpetual, without an end or over thirty days before it, then
-- expiring, and expired from its end on.
pub effective_iff :
    (stored : LicenseState) (start end : Option ℕ) (perpetual : Bool) (now : ℕ) (s : LicenseState)
    → is_temporal stored ≡ true
    → (effective_temporal_state stored start end perpetual now ≡ s)
      ↔ InPhase start end perpetual now s
unfolding effective_temporal_state
effective_iff stored start end perpetual now s t = (
  λ h. term→InPhase start end perpetual now s (rw t at h),
  λ h. rw t (InPhase→term start end perpetual now s h),
)

-- The order in which the states of a term follow one another.
abbrev pub rank : LicenseState → ℕ
rank not_yet_valid = 0
rank valid = 1
rank expiring = 2
rank expired = 3
rank _ = 4

-- Time moves a license only forward: it never returns to an earlier state of its term.
pub effective_mono :
    (stored : LicenseState) (start end : Option ℕ) (perpetual : Bool) (now later : ℕ)
    → now ≤ later
    → rank (effective_temporal_state stored start end perpetual now)
      ≤ rank (effective_temporal_state stored start end perpetual later)
unfolding effective_temporal_state
effective_mono stored start end perpetual now later h = ground arith

usable→begun :
    (stored : LicenseState) (start end : Option ℕ) (perpetual : Bool) (now : ℕ)
    → is_usable (effective_temporal_state stored start end perpetual now) ≡ true
    → (is_temporal stored ≡ true) × HasBegun start now × ((perpetual ≡ true) ⊎ (¬ IsOver end now))
unfolding effective_temporal_state
usable→begun valid none none true now h = grind arith
usable→begun _ _ _ _ now h = grind arith

begun→usable :
    (stored : LicenseState) (start end : Option ℕ) (perpetual : Bool) (now : ℕ)
    → is_temporal stored ≡ true
    → HasBegun start now
    → (perpetual ≡ true) ⊎ (¬ IsOver end now)
    → is_usable (effective_temporal_state stored start end perpetual now) ≡ true
unfolding effective_temporal_state
begun→usable valid none none true now t b e = grind arith
begun→usable _ _ _ _ now t b e = grind arith

-- A license authorizes capacity exactly when it is stored in a state of its term, its start has come,
-- and it is perpetual or its end has not come.
pub usable_iff :
    (stored : LicenseState) (start end : Option ℕ) (perpetual : Bool) (now : ℕ)
    → (is_usable (effective_temporal_state stored start end perpetual now) ≡ true) ↔ (
        (is_temporal stored ≡ true)
        × HasBegun start now
        × ((perpetual ≡ true) ⊎ (¬ IsOver end now)))
usable_iff stored start end perpetual now = (
  usable→begun stored start end perpetual now,
  λ (t, b, e). begun→usable stored start end perpetual now t b e,
)
