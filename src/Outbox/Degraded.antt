-- ===== src/Outbox/Degraded.antt =====
-- The state of the publisher of trading/outbox/publisher.go behind a cleanup that failed.
use qiu_market.Outbox.Publisher.{ready, answer, PublisherConfig}
use qiu_market.Prelude.Text.{Text}
use qiu_market.Outbox.Publisher.{
  Loop, Next, Publisher, PublisherState, Round, goes_on, Answer, ends, trouble,
}
use qiu_market.Prelude.{ℕ, ◌<◌, Bool, true, false, ◌≡◌}
use qiu_market.Prelude.Int.{pos_part, ℤ, ltb_ℤ}

abbrev pub is_ready : PublisherState → Bool
is_ready ready = true
is_ready _ = false

-- A cleanup has failed since the last one that succeeded, and the state shows it.
abbrev pub IsDegraded : Publisher → Type 0
IsDegraded p = (p.cleanup_degraded ≡ true) × (is_ready p.status.state ≡ false)

abbrev pub publisher_of : Next → Publisher
publisher_of (goes_on l) = l.publisher
publisher_of (ends p) = p

-- A run of a cleanup that deletes a full batch, so that another run follows it.
abbrev pub IsFull : ℤ → Answer ℤ → Type 0
IsFull size a = (d : ℤ) × (a ≡ answer d) × (ltb_ℤ d size ≡ false)

-- A round whose cleanup would fail under a configuration: a run within the configured number gets an
-- error, and every run before it deletes a full batch. Runs count down, as in `cleanup_runs`.
abbrev pub CleanupFails : PublisherConfig → Round → Type 0
CleanupFails c r =
    (k : ℕ) × (t : Text) × (k < pos_part c.maximum_cleanup_runs)
    × (r.deletes k ≡ trouble t)
    × ((i : ℕ)
        → k < i
        → i < pos_part c.maximum_cleanup_runs
        → IsFull c.cleanup_batch_size (r.deletes i))

module _ (c : PublisherConfig) where
  -- The loop has its configuration, and is degraded.
  record Stuck (l : Loop) : Type 0 where
    degraded_now : IsDegraded l.publisher
    config_eq : l.publisher.config ≡ c

  abbrev StuckNext : Next → Type 0
  StuckNext (goes_on l) = Stuck l
  StuckNext (ends p) = IsDegraded p
