-- ===== src/Recovery/Tests.antt =====
-- A start of the coordinator of trading/recovery/coordinator.go over the store in memory.
use qiu_market.Recovery.Blocked.{IsBlocked, StaysUncertain, doubt_blocks}
use qiu_market.Recovery.Durable.{IsPromoted}
use native.Mathlib.Decide.{ℕ_discrete}
use qiu_market.Recovery.Types.{Provenance-discrete, Admission, bootstrap, normal_mode, offline}
use qiu_market.Recovery.Fence.{
  durable_writes_promoted, IsSound, validate_admission_fences, some-injective,
}
use qiu_market.Recovery.MemoryLaws.{memory_laws}
use qiu_market.Recovery.Actions.{done, Reply, failed, is_done}
use qiu_market.Recovery.Status.{
  may_write, effective_status, matches_binding, merge_proof, observe_epoch, observe_new_epoch,
  mark_continuity_uncertain, authorize,
}
use qiu_market.Recovery.Provenance.{
  Url, valid_transport_evidence, valid_provenance, is_deployment_identifier,
}
use qiu_market.Recovery.Evidence.{evidence_covers}
use qiu_market.Recovery.Writable.{warm_up, binding_of, warm_up_reaches_writable}
use qiu_market.Prelude.Dict.{lookup, insert, lookup_or}
use qiu_market.Recovery.Coordinator.{
  World, begin_epoch, first_status, load_row, advance, coordinator_of, promote, save_row, status,
  change, advance_plan, promote_plan, admit, validate_admission, still_bound, require_writable,
}
use qiu_market.Recovery.Types.{
  LocalProof, Phase, Provenance, RecoveryError, Status, TransportEvidence, transport_warmup,
  dependencies_ready, read_only, no_proof, reconciling, trading_replay,
}
use qiu_market.Prelude.Text.{Text, bytes, text_beq, text_eq}
use qiu_market.Recovery.Memory.{load, save, memory_store, new_memory_store}
use qiu_market.Recovery.Steps.{no_step, then_step, begins_epoch, advances, promotes, Steps, row_at}
use qiu_market.Prelude.{
  ℕ, ◌+◌, ◌-◌, ◌*◌, ◌≤◌, [], true, false, Bool, Option, none, some, ◌≡◌, refl, sym, subst, ◌∙◌,
  arith, ◌==◌, replicate, if◌then◌else◌, ==-eq, nat_eq, inr,
}
use qiu_market.Prelude.Int.{pos}

abbrev origin : Text
origin = bytes "https://qiu.market"

abbrev deployment : Text
deployment = bytes "https://qiu.vercel.app"

abbrev site : Text → Url
site host = record {
  scheme = bytes "https";
  host = host;
  hostname = host;
  port = [];
  path = [];
  raw_query = [];
  fragment = [];
  has_user = false;
}

abbrev site_of : Text → Option Url
site_of t =
    if text_beq t origin
    then some (site (bytes "qiu.market"))
    else if text_beq t deployment
    then some (site (bytes "qiu.vercel.app"))
    else none

abbrev silent : RecoveryError → Text
silent e = []

abbrev deployed : Provenance
deployed = record {
  production_origin = origin;
  deployment_id = bytes "dpl_12345678";
  deployment_url = deployment;
  release_commit = replicate 40 97;
  source_digest = replicate 64 98;
}

abbrev samples : TransportEvidence
samples = record {
  sample_count = pos 7;
  first_sample_at = 1000000000;
  last_sample_at = 37000000000;
  maximum_gap_ms = pos 6000;
  evidence_sha256 = replicate 64 99;
  provenance = deployed;
}

abbrev checks : LocalProof
checks = record {
  runtime_sequence = 12;
  state_hash = replicate 64 100;
  ledger_balanced = true;
  event_continuous = true;
  projection_caught_up = true;
  outbox_caught_up = true;
  transport_healthy = false;
}

abbrev clock : ℕ
clock = 40000000000

abbrev start : World memory_store
start = record {
  coordinator = coordinator_of (λ t. none) (λ u. []) (bytes "BTC-USDT") deployed;
  shelf = new_memory_store;
}

abbrev to_phase : Phase → LocalProof → World memory_store → World memory_store
to_phase phase proof w = (advance site_of memory_store silent phase proof clock w).0

unfoldable begun : World memory_store
begun = (begin_epoch site_of memory_store silent (done (bytes "epoch")) clock start).0

unfoldable warm : World memory_store
warm = to_phase transport_warmup checks (
    to_phase read_only checks (
      to_phase reconciling no_proof
        (to_phase trading_replay no_proof (to_phase dependencies_ready no_proof begun))))

abbrev row_or : Option Status → Status
row_or none = first_status site_of memory_store silent start.coordinator 0 [] 0
row_or (some s) = s

abbrev row_in : World memory_store → Option Status
row_in w = row_at site_of memory_store silent memory_laws w

unfoldable live : World memory_store
live =
    (promote site_of memory_store silent (binding_of (row_or (row_in warm))) samples clock clock
      warm).0

abbrev is_some : Option Status → Bool
is_some none = false
is_some (some s) = true

row_there : (o : Option Status) → is_some o ≡ true → o ≡ some (row_or o)
row_there none h = absurd (ground arith)
row_there (some s) h = refl

-- What the start comes to, by computation.
computed_start :
    (is_some (row_in live) ≡ true)
    × ((row_or (row_in live)).writes_enabled ≡ true)
    × (valid_transport_evidence site_of samples deployed clock ≡ true)
    × (valid_provenance site_of deployed ≡ true)
unfolding live warm begun begin_epoch load_row save_row load save status change advance promote
    advance_plan promote_plan effective_status matches_binding valid_provenance
    valid_transport_evidence merge_proof observe_epoch observe_new_epoch first_status lookup insert
    lookup_or is_deployment_identifier mark_continuity_uncertain Provenance-discrete ℕ_discrete
computed_start = (refl, refl, refl, refl)

went_live : Steps site_of memory_store silent 7 start live
unfolding live warm begun
went_live = then_step _ (begins_epoch start (done (bytes "epoch")) clock) (
    then_step _ (advances _ dependencies_ready no_proof clock) (
      then_step _ (advances _ trading_replay no_proof clock) (
        then_step _ (advances _ reconciling no_proof clock) (
          then_step _ (advances _ read_only checks clock) (
            then_step _ (advances _ transport_warmup checks clock) (
              then_step _ (promotes _ (binding_of (row_or (row_in warm))) samples clock clock)
                no_step))))))

durable_writes_promoted_example :
    (may_write site_of (row_or (row_in live)) ≡ true)
    × ((now : ℕ) × (valid_transport_evidence site_of
            (row_or (row_in live)).transport
            (row_or (row_in live)).provenance
            now
          ≡ true))
unfolding lookup
durable_writes_promoted_example =
    durable_writes_promoted site_of memory_store silent memory_laws 7 start live
      (row_or (row_in live)) refl went_live (row_there (row_in live) computed_start.0)
      computed_start.1

warm_up_reaches_writable_example :
    (warm_up site_of silent (bytes "epoch") checks samples clock start).1 ≡ done tt
warm_up_reaches_writable_example =
    warm_up_reaches_writable site_of silent start (bytes "epoch") checks samples clock refl refl
      computed_start.3 computed_start.2

evidence_covers_example :
    (7 ≤ 7)
    × (1000000000 + 30000000000 ≤ 37000000000)
    × (37000000000 ≤ clock + 1000000000)
    × (clock ≤ 37000000000 + 8000000000)
    × (6000 ≤ 8000)
    × (37000000000 ≤ 1000000000 + (7 - 1) * (6000 * 1000000))
evidence_covers_example =
    evidence_covers site_of samples deployed clock computed_start.2 (ground arith)

abbrev asked : World memory_store × Reply Admission
asked = admit site_of memory_store silent normal_mode (bytes "alice") live

abbrev no_admission : Admission
no_admission = record {
  market_id = [];
  epoch_id = [];
  version = 0;
  phase = bootstrap;
  mode = normal_mode;
  account_id = [];
}

abbrev admission_or : Reply Admission → Admission
admission_or (done a) = a
admission_or (failed e) = no_admission

given_by_test : (r : Reply Admission) → is_done r ≡ true → r ≡ done (admission_or r)
given_by_test (done a) h = refl
given_by_test (failed e) h = absurd (ground arith)

unit_by_test : (r : Reply (Unit {0})) → is_done r ≡ true → r ≡ done tt
unit_by_test (done _) h = refl
unit_by_test (failed e) h = absurd (ground arith)

-- What an admission of the live coordinator comes to, by computation.
computed_admission :
    (is_done asked.1 ≡ true)
    × (is_done (validate_admission site_of memory_store silent (admission_or asked.1) asked.0).1
        ≡ true)
    × (((admission_or asked.1).version == 7) ≡ true)
    × (((row_or (row_in live)).market_id == live.coordinator.market_id) ≡ true)
unfolding live warm begun begin_epoch load_row save_row load save status change advance promote
    advance_plan promote_plan effective_status matches_binding valid_provenance
    valid_transport_evidence merge_proof observe_epoch observe_new_epoch first_status lookup insert
    lookup_or is_deployment_identifier mark_continuity_uncertain Provenance-discrete ℕ_discrete
    admit authorize validate_admission still_bound
computed_admission = (refl, refl, refl, refl)

live-IsSound : IsSound site_of memory_store silent memory_laws live
live-IsSound s there =
    let same : row_or (row_in live) ≡ s =
      some-injective (sym (row_there (row_in live) computed_start.0) ∙ there) in
    subst
      (λ (z : Status).
        (z.market_id ≡ live.coordinator.market_id)
        × (z.writes_enabled ≡ true → IsPromoted site_of z))
      same
      (
        ==-eq (row_or (row_in live)).market_id live.coordinator.market_id computed_admission.3,
        λ on. durable_writes_promoted_example,
      )

validate_admission_fences_example : row_in asked.0 ≡ row_in live
validate_admission_fences_example =
    validate_admission_fences site_of memory_store silent memory_laws normal_mode (bytes "alice")
      live asked.0 (admission_or asked.1) 0 live-IsSound
      (given_by_test asked.1 computed_admission.0) no_step (unit_by_test _ computed_admission.1)
      (rw (==-eq (admission_or asked.1).version 7 computed_admission.2) (ground arith))

unfoldable shaken : World memory_store
shaken = record {
  coordinator = mark_continuity_uncertain live.coordinator (bytes "timeout");
  shelf = live.shelf;
}

-- What a coordinator comes to whose store has failed, by computation.
computed_doubt :
    (shaken.coordinator.continuity_uncertain ≡ true)
    × (text_beq shaken.coordinator.continuity_epoch (bytes "epoch") ≡ true)
    × (is_some (row_in shaken) ≡ true)
    × (text_beq (row_or (row_in shaken)).epoch_id (bytes "epoch") ≡ true)
unfolding shaken live warm begun begin_epoch load_row save_row load save status change advance
    promote advance_plan promote_plan effective_status matches_binding valid_provenance
    valid_transport_evidence merge_proof observe_epoch observe_new_epoch first_status lookup insert
    lookup_or is_deployment_identifier mark_continuity_uncertain Provenance-discrete ℕ_discrete
computed_doubt = (refl, refl, refl, refl)

shaken_epoch : (s : Status) → row_in shaken ≡ some s → s.epoch_id ≡ bytes "epoch"
shaken_epoch s there =
    let same : row_or (row_in shaken) ≡ s =
      some-injective (sym (row_there (row_in shaken) computed_doubt.2) ∙ there) in
    subst (λ (z : Status). z.epoch_id ≡ bytes "epoch") same
      (==-eq (row_or (row_in shaken)).epoch_id (bytes "epoch") computed_doubt.3)

doubt_blocks_example :
    IsBlocked site_of memory_store silent memory_laws shaken
      (admit site_of memory_store silent normal_mode (bytes "alice") shaken)
      (bytes "epoch")
    × IsBlocked site_of memory_store silent memory_laws shaken
        (require_writable site_of memory_store silent shaken)
        (bytes "epoch")
    × IsBlocked site_of memory_store silent memory_laws shaken
        (advance site_of memory_store silent offline checks clock shaken)
        (bytes "epoch")
    × IsBlocked site_of memory_store silent memory_laws shaken
        (promote site_of memory_store silent
          (binding_of (row_or (row_in live)))
          samples
          clock
          clock
          shaken)
        (bytes "epoch")
    × StaysUncertain site_of memory_store silent memory_laws shaken
        (status site_of memory_store silent shaken).0
        (bytes "epoch")
doubt_blocks_example =
    doubt_blocks site_of memory_store silent memory_laws shaken (bytes "epoch") normal_mode
      (bytes "alice") offline checks (binding_of (row_or (row_in live))) samples clock clock
      (computed_doubt.0, inr computed_doubt.1) shaken_epoch
