-- ===== src/Outbox/Tests.antt =====
-- Rounds of the publisher of trading/outbox/publisher.go.
use qiu_market.Prelude.Text.{bytes}
use qiu_market.Outbox.Backoff.{IsFailing, retries_back_off}
use qiu_market.Outbox.Publisher.{
  degraded, Cursor, Loop, Publisher, Round, answer, default_config, run, trouble, first_loop,
  goes_on,
}
use qiu_market.Prelude.{true, ◌≡◌, refl, [], ◌∷◌, arith, if◌then◌else◌, ltb, ◌*◌, ◌^◌}
use qiu_market.Prelude.Int.{pos}

abbrev start : Cursor
start = record { sequence = 0; event_index = 0 }

abbrev publisher : Publisher
publisher = record {
  config = default_config;
  status = record {
    state = degraded;
    checkpoint = start;
    last_error = bytes "cleanup";
    last_incident = bytes "cleanup";
    last_incident_at = 5;
    last_published_at = 4;
    last_cleanup_at = 0;
    published_since_boot = 3;
    cleaned_since_boot = 0;
  };
  cleanup_degraded = true;
}

abbrev down : Round
down = record {
  waited = true;
  live = true;
  loaded = trouble (bytes "refused");
  batch = trouble (bytes "refused");
  deletes = λ n. trouble (bytes "refused");
  recorded_at = 7;
  failed_at = 8;
  now = 9;
}

abbrev up : Round
up = record down {
  loaded = answer start;
  batch = answer (record { published = pos 2; checkpoint = start });
}

down-IsFailing : IsFailing down
down-IsFailing = (refl, refl, (bytes "refused", refl), (bytes "refused", refl))

retries_back_off_example :
    (next : Loop) × (run (first_loop publisher 6) (down ∷ down ∷ down ∷ []) ≡ goes_on next)
    × (next.delay
        ≡ pos (
            if ltb (250_000_000 * 2 ^ 2) 5_000_000_000 then 250_000_000 * 2 ^ 2 else 5_000_000_000))
retries_back_off_example =
    retries_back_off (first_loop publisher 6) down (down ∷ down ∷ []) 250_000_000 5_000_000_000 refl
      refl (ground arith) (ground arith) (down-IsFailing, (down-IsFailing, (down-IsFailing, tt)))

-- A cleanup that deletes two full batches before it fails.
abbrev partial : Round
partial = record up {
  deletes = λ n. if ltb 7 n then answer (pos 1000) else trouble (bytes "refused");
  now = 100_000_000_000;
}
