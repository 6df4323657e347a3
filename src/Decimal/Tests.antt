-- ===== src/Decimal/Tests.antt =====
-- Amounts of trading/decimal/decimal.go with six digits of precision.
use qiu_market.Decimal.{format, parse}
use qiu_market.Decimal.RoundTrip.{format_parses}
use qiu_market.Prelude.{◌≡◌, ◌^◌, arith}
use qiu_market.Prelude.Int.{pos}
use qiu_market.Prelude.Result.{ok}
use qiu_market.Prelude.Text.{Text}

format_parses_example :
    (t : Text) × (format (pos 12_034_000) (pos (10 ^ 6)) ≡ ok t)
    × (parse t (pos (10 ^ 6)) ≡ ok (pos 12_034_000))
format_parses_example = format_parses 12_034_000 6 (ground arith)
