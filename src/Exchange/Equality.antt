-- ===== src/Exchange/Equality.antt =====
-- The comparisons by reflect.DeepEqual in Restore of trading/exchange/exchange.go.
use qiu_market.Prelude.{List, Eq}
use qiu_market.Prelude.Decided.{ℤ-discrete, eq_of_discrete}
use native.Mathlib.Decide.{ℕ_discrete}
use qiu_market.Domain.Equality.{Order-discrete, Trade-discrete}
use qiu_market.Ledger.{Transaction}
use qiu_market.Store.{Projection}

unfoldable pub Transaction-discrete : Discrete Transaction
Transaction-discrete = hlevel (ℕ_discrete, ℤ-discrete)

unfoldable pub Journal-discrete : Discrete (List Transaction)
Journal-discrete = hlevel Transaction-discrete

unfoldable pub Projection-discrete : Discrete Projection
Projection-discrete = hlevel (ℕ_discrete, ℤ-discrete, Order-discrete, Trade-discrete)

instance abbrev pub journal_eq : Eq (List Transaction)
journal_eq = eq_of_discrete Journal-discrete

instance abbrev pub projection_eq : Eq Projection
projection_eq = eq_of_discrete Projection-discrete
