-- ===== src/Odoo/Environment.antt =====
-- The environment of a call, `self.env` and the clock that the code reads.
use perfect_match_qms.Prelude.{ℕ, Bool, String}

-- Users are their ids, dates are day numbers and times are seconds.
pub record Env : Type 0 where
  pub user : ℕ
  pub has_group : String → Bool
  pub today : ℕ
  pub now : ℕ
