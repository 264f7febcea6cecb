-- ===== src/Float.antt =====
-- What the program uses of Python's floats, `math` and `statistics`. The models take it as a
-- parameter: no law of arithmetic is assumed unless a theorem says so.
use corshub.Prelude.{ℕ, Bool, List}

pub record Float : Type 1 where
  pub F : Type 0
  pub infinity : F
  pub literal : ℕ → F
  pub lt : F → F → Bool
  pub le : F → F → Bool
  pub max : F → F → F
  pub abs : F → F
  pub neg : F → F
  pub add : F → F → F
  pub sub : F → F → F
  pub mul : F → F → F
  pub div : F → F → F
  pub square : F → F
  pub sqrt : F → F
  pub radians : F → F
  pub sin : F → F
  pub cos : F → F
  pub asin : F → F
  pub median : List F → F
  pub quantile_95 : List F → F
  pub round : F → ℕ → F
