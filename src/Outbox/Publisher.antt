-- ===== src/Outbox/Publisher.antt =====
-- trading/outbox/publisher.go. A round of Run takes what the store, the clock and the context
-- answer in it; times and durations are in nanoseconds.
use qiu_market.Prelude.Text.{Text}
use qiu_market.Prelude.{
  ℕ, zero, suc, ◌+◌, ◌-◌, ◌%◌, Bool, true, false, not, ◌&&◌, ◌||◌, if◌then◌else◌, ltb, List, [],
  ◌∷◌, Option, some, none,
}
use qiu_market.Prelude.Int.{negsuc, ℤ, pos, pos_part, ltb_ℤ, leb_ℤ, eqb_ℤ, add64, word_mod}

-- Config
pub record PublisherConfig : Type 0 where
  pub batch_size : ℤ
  pub poll_every : ℤ
  pub maximum_retry_delay : ℤ
  pub cleanup_every : ℤ
  pub published_retention : ℤ
  pub cleanup_batch_size : ℤ
  pub maximum_cleanup_runs : ℤ

-- DefaultConfig
abbrev pub default_config : PublisherConfig
default_config = record {
  batch_size = pos 500;
  poll_every = pos 250_000_000;
  maximum_retry_delay = pos 5_000_000_000;
  cleanup_every = pos 3_600_000_000_000;
  published_retention = pos 86_400_000_000_000;
  cleanup_batch_size = pos 1000;
  maximum_cleanup_runs = pos 10;
}

-- The tests of New on a configuration.
unfoldable pub valid_config : PublisherConfig → Bool
valid_config c =
    not (leb_ℤ c.batch_size (pos 0) || ltb_ℤ (pos 1000) c.batch_size)
    && not (
        leb_ℤ c.poll_every (pos 0)
        || ltb_ℤ c.maximum_retry_delay c.poll_every
        || leb_ℤ c.cleanup_every (pos 0)
        || leb_ℤ c.published_retention (pos 0)
        || leb_ℤ c.cleanup_batch_size (pos 0)
        || ltb_ℤ (pos 10000) c.cleanup_batch_size
        || leb_ℤ c.maximum_cleanup_runs (pos 0))

-- Status.State
pub data PublisherState : Type 0 where
  starting ready degraded stopped : PublisherState

-- minDuration
abbrev pub min_duration : ℤ → ℤ → ℤ
min_duration left right = if ltb_ℤ left right then left else right

-- An answer of the store, with the text of its error.
pub data Answer {ℓ} (A : Type ℓ) : Type ℓ where
  answer : A → Answer A
  trouble : Text → Answer A

-- Cursor of trading/store/postgres/store.go
pub record Cursor : Type 0 where
  pub sequence : ℕ
  pub event_index : ℕ

-- The conversion of an int64 to a uint64.
abbrev pub to_uint64 : ℤ → ℕ
to_uint64 (pos n) = n
to_uint64 (negsuc n) = word_mod - 1 - n

-- Status; 0 is the zero time.
pub record PublisherStatus : Type 0 where
  pub state : PublisherState
  pub checkpoint : Cursor
  pub last_error : Text
  pub last_incident : Text
  pub last_incident_at : ℕ
  pub last_published_at : ℕ
  pub last_cleanup_at : ℕ
  pub published_since_boot : ℕ
  pub cleaned_since_boot : ℕ

-- Publisher, but for its store.
pub record Publisher : Type 0 where
  pub config : PublisherConfig
  pub status : PublisherStatus
  pub cleanup_degraded : Bool

-- PublishResult of trading/store/postgres/store.go
pub record PublishResult : Type 0 where
  pub published : ℤ
  pub checkpoint : Cursor

-- recordError, at a time.
unfoldable pub record_error : Publisher → Text → ℕ → Publisher
record_error p text now = record p {
  status = record p.status {
    state = degraded;
    last_error = text;
    last_incident = text;
    last_incident_at = now;
  };
}

-- recordCleanupError
unfoldable pub record_cleanup_error : Publisher → Text → ℕ → Publisher
record_cleanup_error p text now = record_error (record p { cleanup_degraded = true }) text now

-- setStopped
abbrev pub set_stopped : Publisher → Publisher
set_stopped p = record p { status = record p.status { state = stopped } }

-- The first test of recordPublish.
abbrev pub settle_state : Publisher → Publisher
settle_state p =
    if p.cleanup_degraded
    then p
    else record p { status = record p.status { state = ready; last_error = [] } }

-- recordPublish
unfoldable pub record_publish : Publisher → PublishResult → ℕ → Publisher
record_publish p r now =
    let q = settle_state p in
    if ltb_ℤ (pos 0) r.published
    then record q {
      status = record q.status {
        checkpoint = r.checkpoint;
        last_published_at = now;
        published_since_boot = (q.status.published_since_boot + to_uint64 r.published) % word_mod;
      };
    }
    else q

-- The loop of cleanup: so many runs are left, each with its answer; the total is summed.
unfoldable pub cleanup_runs : ℤ → ℕ → (ℕ → Answer ℤ) → ℤ → Answer ℤ
cleanup_runs size zero deletes total = answer total
cleanup_runs size (suc left) deletes total = elim (deletes left) [
  | trouble text ↦ trouble text
  | answer deleted ↦
      let rest = cleanup_runs size left deletes (add64 total deleted) in
      if ltb_ℤ deleted size then answer (add64 total deleted) else rest
]

-- The end of cleanup.
unfoldable pub record_cleanup : Publisher → ℤ → ℕ → Publisher
record_cleanup p total now = record p {
  cleanup_degraded = false;
  status = record p.status {
    last_cleanup_at = now;
    cleaned_since_boot = (p.status.cleaned_since_boot + to_uint64 total) % word_mod;
    state = ready;
    last_error = [];
  };
}

-- The variables of Run.
pub record Loop : Type 0 where
  pub publisher : Publisher
  pub retry_delay : ℤ
  pub next_cleanup : ℕ
  pub delay : ℤ
  pub initialized : Bool

-- What a round meets: whether the wait ended without a cancel, whether the context is live behind
-- an error, the answers of the store, and the clock.
pub record Round : Type 0 where
  pub waited : Bool
  pub live : Bool
  pub loaded : Answer Cursor
  pub batch : Answer PublishResult
  pub deletes : ℕ → Answer ℤ
  pub recorded_at : ℕ
  pub failed_at : ℕ
  pub now : ℕ

-- The loop goes on, or ends with the publisher stopped.
pub data Next : Type 0 where
  goes_on : Loop → Next
  ends : Publisher → Next

-- The common end of an error of the checkpoint or of the batch.
unfoldable pub retry_later : Loop → Round → Text → Next
retry_later l r text =
    if not r.live
    then ends (set_stopped l.publisher)
    else goes_on (record l {
      publisher = record_error l.publisher text r.recorded_at;
      delay = l.retry_delay;
      retry_delay =
          min_duration (add64 l.retry_delay l.retry_delay) l.publisher.config.maximum_retry_delay;
    })

-- The part of a round that cleans up.
unfoldable pub cleanup_round : Loop → Round → Next
cleanup_round l r =
    let c = l.publisher.config in
    if ltb r.now l.next_cleanup
    then goes_on l
    else elim (cleanup_runs c.cleanup_batch_size (pos_part c.maximum_cleanup_runs) r.deletes
        (pos 0)) [
          | trouble text ↦
              if not r.live
              then ends (set_stopped l.publisher)
              else goes_on (record l {
                publisher = record_cleanup_error l.publisher text r.failed_at;
                next_cleanup = r.now + pos_part (min_duration (pos 60_000_000_000) c.cleanup_every);
              })
          | answer total ↦ goes_on (record l {
            publisher = record_cleanup l.publisher total r.now;
            next_cleanup = r.now + pos_part c.cleanup_every;
          })
        ]

-- The delay at the end of a round.
abbrev pub next_delay : PublishResult → Next → Next
next_delay result (ends p) = ends p
next_delay result (goes_on l) = goes_on (record l {
  delay =
      if eqb_ℤ result.published l.publisher.config.batch_size
      then pos 0
      else l.publisher.config.poll_every;
})

unfoldable pub publish_round : Loop → Round → Next
publish_round l r = elim r.batch [
  | trouble text ↦ retry_later l r text
  | answer result ↦ next_delay result (
      cleanup_round
        (record l {
          retry_delay = l.publisher.config.poll_every;
          publisher = record_publish l.publisher result r.recorded_at;
        })
        r)
]

-- A round of Run.
unfoldable pub round : Loop → Round → Next
round l r =
    if not r.waited
    then ends (set_stopped l.publisher)
    else if l.initialized
    then publish_round l r
    else elim r.loaded [
      | trouble text ↦ retry_later l r text
      | answer cursor ↦
          publish_round
            (record l {
              publisher = record l.publisher {
                status = record l.publisher.status { checkpoint = cursor };
              };
              initialized = true;
            })
            r
    ]

-- New, on a configuration; `none` is its error.
unfoldable pub new_publisher : PublisherConfig → Option Publisher
new_publisher c =
    if valid_config c
    then some (record {
      config = c;
      status = record {
        state = starting;
        checkpoint = record { sequence = 0; event_index = 0 };
        last_error = [];
        last_incident = [];
        last_incident_at = 0;
        last_published_at = 0;
        last_cleanup_at = 0;
        published_since_boot = 0;
        cleaned_since_boot = 0;
      };
      cleanup_degraded = false;
    })
    else none

-- The variables of Run at its start.
abbrev pub first_loop : Publisher → ℕ → Loop
first_loop p now = record {
  publisher = p;
  retry_delay = p.config.poll_every;
  next_cleanup = now + pos_part p.config.cleanup_every;
  delay = pos 0;
  initialized = false;
}

-- Run, as far as these rounds go.
unfoldable pub run : Loop → List Round → Next
run l [] = goes_on l
run l (r ∷ rs) = elim (round l r) [ ends p ↦ ends p | goes_on l' ↦ run l' rs ]
