-- ===== src/Types/Throttle.antt =====
-- ThrottleSettings of src/types.rs: the cost-based delay, with its `--gentle` preset. `f64` is a
-- parameter.
use pg_maintainer.Prelude.{
  Bool, true, false, not, ◌||◌, ◌&&◌, Option, none, some, or_option, is_some,
}
use pg_maintainer.Prelude.Int.{ℤ, pos, leb_ℤ}

-- What the command line uses of `f64`: its comparisons, the constants that it compares with, and the
-- cast of a number of gigabytes to bytes as an `i64`.
pub record Decimal (F : Type 0) : Type 0 where
  pub zero_value : F
  -- 10.0
  pub ten : F
  -- 100.0
  pub hundred : F
  pub infinity : F
  pub lt : F → F → Bool
  pub le : F → F → Bool
  pub is_infinity : F → Bool
  pub gb_to_bytes : F → ℤ

pub record ThrottleSettings (F : Type 0) : Type 0 where
  pub cost_delay_ms : Option F
  pub cost_limit : Option ℤ

module _ {F : Type 0} (decimal : Decimal F) where
  -- `(0.0..=100.0).contains(&x)`
  abbrev pub within_hundred : F → Bool
  within_hundred x = decimal.le decimal.zero_value x && decimal.le x decimal.hundred

  -- ThrottleSettings::resolve
  unfoldable pub resolve : Option F → Option ℤ → Bool → ThrottleSettings F
  resolve cost_delay_ms cost_limit true = record {
    cost_delay_ms = or_option cost_delay_ms (some decimal.ten);
    cost_limit = or_option cost_limit (some (pos 200));
  }
  resolve cost_delay_ms cost_limit false = record {
    cost_delay_ms = cost_delay_ms;
    cost_limit = cost_limit;
  }

  unfoldable pub delay_out_of_range : ThrottleSettings F → Bool
  delay_out_of_range t = elim t.cost_delay_ms [
    | none ↦ false
    | some delay ↦ not (within_hundred delay)
  ]

  unfoldable pub limit_out_of_range : ThrottleSettings F → Bool
  limit_out_of_range t = elim t.cost_limit [
    | none ↦ false
    | some limit ↦ not (leb_ℤ (pos 1) limit && leb_ℤ limit (pos 10000))
  ]

  unfoldable pub is_enabled : ThrottleSettings F → Bool
  is_enabled t = is_some t.cost_delay_ms || is_some t.cost_limit

  unfoldable pub is_active : ThrottleSettings F → Bool
  is_active t = elim t.cost_delay_ms [
    | none ↦ false
    | some delay ↦ decimal.lt decimal.zero_value delay
  ]
