-- ===== src/Recovery/Status.antt =====
-- The tests on a recovery status of trading/recovery/coordinator.go, and the part of a Coordinator
-- that observes the continuity of the store.
use qiu_market.Recovery.Provenance.{Url, valid_provenance}
use qiu_market.Prelude.Text.{Text, bytes, is_empty, text_beq, text_eq}
use qiu_market.Prelude.{
  Bool, true, false, not, ◌&&◌, ◌||◌, if◌then◌else◌, eqb, [], length, ◌==◌, Option,
}
use qiu_market.Recovery.Types.{
  bootstrap, dependencies_ready, trading_replay, reconciling, read_only, transport_warmup,
  normal_mode, safety_cancel_mode, bootstrap_mode, other_mode, phase_eq, provenance_eq, LocalProof,
  Phase, Status, Provenance, dependencies_ready, offline, read_only, manual_review, trading_replay,
  transport_warmup, AdmissionMode, Binding, reconciling, writable,
}

-- The `switch` of allowedTransition.
abbrev pub follows : Phase → Phase → Bool
follows bootstrap next = next == dependencies_ready
follows dependencies_ready next = next == trading_replay
follows trading_replay next = next == reconciling
follows reconciling next = next == read_only
follows read_only next = next == transport_warmup
follows _ next = false

-- allowedTransition
abbrev pub allowed_transition : Phase → Phase → Bool
allowed_transition current next =
    if next == offline || next == manual_review
    then not (current == offline) && not (current == manual_review)
    else follows current next

-- requiresLocalProof
abbrev pub requires_local_proof : Phase → Bool
requires_local_proof phase = phase == read_only || phase == transport_warmup || phase == writable

-- localProofComplete
abbrev pub local_proof_complete : LocalProof → Bool
local_proof_complete p =
    eqb (length p.state_hash) 64
    && p.ledger_balanced
    && p.event_continuous
    && p.projection_caught_up
    && p.outbox_caught_up

-- mergeProof
unfoldable pub merge_proof : LocalProof → LocalProof → LocalProof
merge_proof current update = record {
  runtime_sequence =
      if not (eqb update.runtime_sequence 0) || eqb current.runtime_sequence 0
      then update.runtime_sequence
      else current.runtime_sequence;
  state_hash = if is_empty update.state_hash then current.state_hash else update.state_hash;
  ledger_balanced = current.ledger_balanced || update.ledger_balanced;
  event_continuous = current.event_continuous || update.event_continuous;
  projection_caught_up = current.projection_caught_up || update.projection_caught_up;
  outbox_caught_up = current.outbox_caught_up || update.outbox_caught_up;
  transport_healthy = update.transport_healthy;
}

-- system:demo-maker
abbrev pub demo_maker : Text
demo_maker = bytes "system:demo-maker"

-- The fields of Coordinator that its methods change, and those that are set when it is made.
pub record Coordinator : Type 0 where
  pub market_id : Text
  pub expected_provenance : Provenance
  pub last_observed_epoch : Text
  pub continuity_epoch : Text
  pub continuity_uncertain : Bool
  pub continuity_error : Text

-- markContinuityUncertain
unfoldable pub mark_continuity_uncertain : Coordinator → Text → Coordinator
mark_continuity_uncertain c cause = if c.continuity_uncertain then c else record c {
  continuity_uncertain = true;
  continuity_epoch = c.last_observed_epoch;
  continuity_error = cause;
}

-- observeEpoch
unfoldable pub observe_epoch : Coordinator → Text → Coordinator
observe_epoch c epoch =
    if c.continuity_uncertain
      && not (is_empty c.continuity_epoch)
      && not (text_beq c.continuity_epoch epoch)
    then record c {
      last_observed_epoch = epoch;
      continuity_uncertain = false;
      continuity_epoch = [];
      continuity_error = [];
    }
    else record c { last_observed_epoch = epoch }

-- observeNewEpoch
unfoldable pub observe_new_epoch : Coordinator → Text → Coordinator
observe_new_epoch c epoch = record c {
  last_observed_epoch = epoch;
  continuity_uncertain = false;
  continuity_epoch = [];
  continuity_error = [];
}

-- A status that may not write, for a reason of continuity.
abbrev pub held_back : Status → Text → Text → Status
held_back s continuity reason = record s {
  writes_enabled = false;
  proof = record s.proof { transport_healthy = false };
  continuity_uncertain = true;
  continuity_error = continuity;
  last_error = if is_empty s.last_error then reason else s.last_error;
}

abbrev mismatch : Text
mismatch = bytes "durable recovery provenance does not match trusted service configuration"

abbrev uncertain : Text
uncertain = bytes "recovery store continuity is uncertain; a new epoch is required"

module _ (parse_url : Text → Option Url) where
  -- effectiveStatus
  unfoldable pub effective_status : Coordinator → Status → Status
  effective_status c s =
      if valid_provenance parse_url c.expected_provenance
        && not (s.provenance == c.expected_provenance)
      then held_back s mismatch mismatch
      else if not c.continuity_uncertain
          || (not (is_empty c.continuity_epoch) && not (text_beq c.continuity_epoch s.epoch_id))
      then s
      else held_back s c.continuity_error uncertain

  -- matchesBinding
  unfoldable pub matches_binding : Status → Binding → Bool
  matches_binding s b =
      b.market_id == s.market_id
      && not (is_empty b.epoch_id)
      && b.epoch_id == s.epoch_id
      && eqb b.version s.version
      && eqb b.runtime_sequence s.proof.runtime_sequence
      && eqb (length b.state_hash) 64
      && b.state_hash == s.proof.state_hash
      && b.provenance == s.provenance
      && valid_provenance parse_url b.provenance

  -- The tests of RequireWritable, which are those of an admission in the normal mode.
  abbrev pub may_write : Status → Bool
  may_write s =
      s.phase == writable
      && s.writes_enabled
      && local_proof_complete s.proof
      && s.proof.transport_healthy
      && valid_provenance parse_url s.provenance

  abbrev pub may_cancel : Phase → Bool
  may_cancel phase =
      phase == trading_replay || phase == writable || phase == offline || phase == manual_review

  abbrev pub mode_allows : Status → AdmissionMode → Text → Bool
  mode_allows s normal_mode account = may_write s
  mode_allows s safety_cancel_mode account = account == demo_maker && may_cancel s.phase
  mode_allows s bootstrap_mode account =
      account == demo_maker && s.phase == trading_replay && not s.writes_enabled
  mode_allows s other_mode account = false

  -- authorize, with whether it returns nil.
  unfoldable pub authorize : Status → AdmissionMode → Text → Bool
  authorize s mode account = if s.continuity_uncertain then false else mode_allows s mode account
