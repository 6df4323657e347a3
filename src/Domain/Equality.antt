-- ===== src/Domain/Equality.antt =====
-- Go's `==` and reflect.DeepEqual on the records of trading/domain/types.go.
use qiu_market.Prelude.{Eq}
use qiu_market.Prelude.Decided.{ℤ-discrete, eq_of_discrete}
use native.Mathlib.Decide.{ℕ_discrete}
use qiu_market.Domain.Types.{Outcome, MarketConfig, Trade, Order, Event}

unfoldable pub MarketConfig-discrete : Discrete MarketConfig
MarketConfig-discrete = hlevel (ℕ_discrete, ℤ-discrete)

unfoldable pub Order-discrete : Discrete Order
Order-discrete = hlevel (ℕ_discrete, ℤ-discrete)

unfoldable pub Trade-discrete : Discrete Trade
Trade-discrete = hlevel (ℕ_discrete, ℤ-discrete)

unfoldable pub Event-discrete : Discrete Event
Event-discrete = hlevel (ℕ_discrete, ℤ-discrete, Trade-discrete)

unfoldable pub Outcome-discrete : Discrete Outcome
Outcome-discrete = hlevel (ℕ_discrete, ℤ-discrete, Event-discrete)

instance abbrev pub market_config_eq : Eq MarketConfig
market_config_eq = eq_of_discrete MarketConfig-discrete

instance abbrev pub outcome_eq : Eq Outcome
outcome_eq = eq_of_discrete Outcome-discrete
