-- ===== src/Risk/Scoring.antt =====
-- Scores and levels: their range, and that a level grows with its score.
use native.Mathlib.Nat.{one-le-mul, mul-le-mul}
use perfect_match_qms.Prelude.{
  le→leb, ℕ, ◌*◌, ◌≤◌, ◌≡◌, refl, leb, ℤ, pos, negsuc, ◌*ℤ◌, lebℤ, lebℤ_trans, Bool, true, false,
  not, if◌then◌else◌, arith, or-eq-false, not-eq-false, leb→le,
}
use perfect_match_qms.Odoo.{ok, raise_if-eq-ok}
use perfect_match_qms.Risk.Types.{
  Level, low, moderate, high, critical, Risk, Thresholds, risk_level, compute_scores,
  is_out_of_bounds, check_score_bounds,
}

abbrev pub severity : Level → ℕ
severity low = 0
severity moderate = 1
severity high = 2
severity critical = 3

rank_mono :
    (c c' h h' m m' : Bool)
    → (c ≡ true → c' ≡ true)
    → (h ≡ true → h' ≡ true)
    → (m ≡ true → m' ≡ true)
    → severity (if c then critical else if h then high else if m then moderate else low)
      ≤ severity (if c' then critical else if h' then high else if m' then moderate else low)
rank_mono c c' h h' m m' f g k = ground (arith, f, g, k)

-- A higher score never has a lower level, whatever the configured thresholds are.
pub risk_level_mono :
    (t : Thresholds) (a b : ℤ)
    → lebℤ a b ≡ true
    → severity (risk_level t a) ≤ severity (risk_level t b)
unfolding risk_level
risk_level_mono t a b h =
    rank_mono (lebℤ t.critical a) (lebℤ t.critical b) (lebℤ t.high a) (lebℤ t.high b)
      (lebℤ t.moderate a) (lebℤ t.moderate b) (λ k. lebℤ_trans t.critical a b k h)
      (λ k. lebℤ_trans t.high a b k h) (λ k. lebℤ_trans t.moderate a b k h)

-- A value that the form accepts is a number from 1 to 5.
in_bounds : (v : ℤ) → is_out_of_bounds v ≡ false → (n : ℕ) × (v ≡ pos n) × (1 ≤ n) × (n ≤ 5)
in_bounds (negsuc n) h = cc
in_bounds (pos n) h =
    let (low_end, high_end) = or-eq-false (not (leb 1 n)) (not (leb n 5)) h in
    (
      n,
      refl,
      leb→le 1 n (not-eq-false (leb 1 n) low_end),
      leb→le n 5 (not-eq-false (leb n 5) high_end),
    )

-- A product of two accepted values is a number from 1 to 25.
abbrev pub IsScore : ℤ → Type 0
IsScore score = (n : ℕ) × (score ≡ pos n) × (1 ≤ n) × (n ≤ 25)

product-IsScore :
    (a b : ℤ) → is_out_of_bounds a ≡ false → is_out_of_bounds b ≡ false → IsScore (a *ℤ b)
product-IsScore a b ha hb =
    let (n, a_is, low_a, high_a) = in_bounds a ha in
    let (m, b_is, low_b, high_b) = in_bounds b hb in
    (n * m, rw (a_is, b_is), one-le-mul low_a low_b, mul-le-mul high_a high_b)

product_mono :
    (a b c d : ℤ)
    → is_out_of_bounds a ≡ false
    → is_out_of_bounds b ≡ false
    → is_out_of_bounds c ≡ false
    → is_out_of_bounds d ≡ false
    → lebℤ a c ≡ true
    → lebℤ b d ≡ true
    → lebℤ (a *ℤ b) (c *ℤ d) ≡ true
product_mono (pos a) (pos b) (pos c) (pos d) ha hb hc hd ac bd =
    le→leb (a * b) (c * d) (mul-le-mul (leb→le a c ac) (leb→le b d bd))
product_mono (negsuc a) b c d ha hb hc hd ac bd = cc
product_mono (pos a) (negsuc b) c d ha hb hc hd ac bd = cc
product_mono (pos a) (pos b) (negsuc c) d ha hb hc hd ac bd = cc
product_mono (pos a) (pos b) (pos c) (negsuc d) ha hb hc hd ac bd = cc

-- The four values of a risk are in range.
abbrev IsRated : Risk → Type 0
IsRated r =
    (is_out_of_bounds r.likelihood ≡ false)
    × (is_out_of_bounds r.impact ≡ false)
    × (is_out_of_bounds r.residual_likelihood ≡ false)
    × (is_out_of_bounds r.residual_impact ≡ false)

check_score_bounds-IsRated : (r : Risk) → check_score_bounds r ≡ ok tt → IsRated r
unfolding check_score_bounds
check_score_bounds-IsRated r h =
    let test = raise_if-eq-ok _ _ h in
    let (one, rest) = or-eq-false (is_out_of_bounds r.likelihood) _ test in
    let (two, more) = or-eq-false (is_out_of_bounds r.impact) _ rest in
    let (three, last) = or-eq-false (is_out_of_bounds r.residual_likelihood) _ more in
    let (four, _) = or-eq-false (is_out_of_bounds r.residual_impact) _ last in
    (one, two, three, four)

-- A risk that passes the constraint has an initial and a residual score between 1 and 25.
pub compute_scores-IsScore :
    (t : Thresholds) (r : Risk)
    → check_score_bounds r ≡ ok tt
    → IsScore (compute_scores t r).initial_score × IsScore (compute_scores t r).residual_score
unfolding compute_scores
compute_scores-IsScore t r h =
    let (one, two, three, four) = check_score_bounds-IsRated r h in
    (
      product-IsScore r.likelihood r.impact one two,
      product-IsScore r.residual_likelihood r.residual_impact three four,
    )

-- Where a risk passes the constraint, and neither its residual likelihood nor its residual impact is
-- above the initial one, its residual level is not above its initial level, whatever thresholds are
-- configured.
pub severity-compute_scores :
    (t : Thresholds) (r : Risk)
    → check_score_bounds r ≡ ok tt
    → lebℤ r.residual_likelihood r.likelihood ≡ true
    → lebℤ r.residual_impact r.impact ≡ true
    → severity (compute_scores t r).residual_level ≤ severity (compute_scores t r).initial_level
unfolding compute_scores
severity-compute_scores t r h fewer milder =
    let (one, two, three, four) = check_score_bounds-IsRated r h in
    risk_level_mono t (r.residual_likelihood *ℤ r.residual_impact) (r.likelihood *ℤ r.impact) (
      product_mono r.residual_likelihood r.residual_impact r.likelihood r.impact three four one two
        fewer milder)
