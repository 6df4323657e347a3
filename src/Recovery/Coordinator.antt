-- ===== src/Recovery/Coordinator.antt =====
-- The methods of Coordinator of trading/recovery/coordinator.go. The store, url.Parse, the text of
-- an error, and the time and the new epoch id of a call are parameters.
use qiu_market.Exchange.{}
use qiu_market.Prelude.Int.{word_mod}
use qiu_market.Recovery.Provenance.{
  Url, valid_provenance, normalize_provenance, valid_transport_evidence,
}
use qiu_market.Recovery.Status.{
  Coordinator, observe_new_epoch, authorize, mark_continuity_uncertain, may_write, observe_epoch,
  allowed_transition, effective_status, matches_binding, requires_local_proof, local_proof_complete,
  merge_proof,
}
use qiu_market.Prelude.Text.{Text, is_empty, text_eq}
use qiu_market.Prelude.{
  ℕ, ◌+◌, ◌%◌, Bool, true, false, not, ◌&&◌, ◌||◌, if◌then◌else◌, eqb, Option, none, some, List, [],
  ◌∷◌, ◌==◌,
}
use qiu_market.Recovery.Actions.{◌>>=◌, ◌>>◌, Act, Reply, done, fail, fail_if, failed, give}
use qiu_market.Recovery.Types.{
  phase_eq, Phase, LocalProof, Status, Binding, Provenance, RecoveryError, Admission, AdmissionMode,
  TransportEvidence, bootstrap_mode, recovery_schema_version, safety_cancel_mode, bootstrap, joined,
  no_provenance, not_initialized, offline, writable, write_blocked, invalid_transition,
  manual_review, no_proof, proof_incomplete, transport_warmup, no_evidence, binding_mismatch,
  bad_transport_evidence,
}

-- Store: what a call makes of it, and its answer.
pub record StatusStore : Type 1 where
  pub Shelf : Type 0
  pub load : Text → Act Shelf (Option Status)
  pub save : ℕ → Status → Act Shelf (Unit {0})

-- A coordinator with the store that it holds.
pub record World (store : StatusStore) : Type 0 where
  pub coordinator : Coordinator
  pub shelf : store.Shelf

-- The tests of Advance on a status, and the status that follows it.
unfoldable pub advance_plan : Phase → LocalProof → ℕ → Status → Reply Status
advance_plan phase proof now current =
    if current.continuity_uncertain
    then failed write_blocked
    else if not (allowed_transition current.phase phase)
    then failed invalid_transition
    else if requires_local_proof phase
        && not (local_proof_complete (merge_proof current.proof proof))
    then failed proof_incomplete
    else done (record current {
      phase = phase;
      proof = merge_proof current.proof proof;
      writes_enabled = phase == writable;
      last_error = [];
      version = (current.version + 1) % word_mod;
      updated_at = now;
    })

-- The status that follows a failure; the cause is its text, or none for nil.
unfoldable pub fail_plan : Phase → Option Text → ℕ → Status → Reply Status
fail_plan phase cause now current = done (record current {
  phase = phase;
  writes_enabled = false;
  version = (current.version + 1) % word_mod;
  updated_at = now;
  last_error = elim cause [ none ↦ current.last_error | some text ↦ text ];
})

module _ (parse_url : Text → Option Url) where
  -- The tests of Promote on a status, and the status that follows it. The two calls of the clock
  -- are `checked` and `now`.
  unfoldable pub promote_plan : Binding → TransportEvidence → ℕ → ℕ → Status → Reply Status
  promote_plan binding evidence checked now current =
      if current.continuity_uncertain
      then failed write_blocked
      else if not (current.phase == transport_warmup)
          || not (matches_binding parse_url current binding)
      then failed binding_mismatch
      else if not (local_proof_complete current.proof)
          || not (valid_transport_evidence parse_url evidence current.provenance checked)
      then failed bad_transport_evidence
      else done (record current {
        phase = writable;
        proof = record current.proof { transport_healthy = true };
        transport = evidence;
        writes_enabled = true;
        last_error = [];
        version = (current.version + 1) % word_mod;
        updated_at = now;
      })

  module _ (store : StatusStore) (message : RecoveryError → Text) where
    abbrev pub W : Type 0
    W = World store

    -- An answer of the store; an error marks the continuity.
    abbrev pub answered {ℓ} : {A : Type ℓ} → Coordinator → store.Shelf × Reply A → W × Reply A
    answered c (sh, done a) = (record { coordinator = c; shelf = sh }, done a)
    answered c (sh, failed e) =
        (record { coordinator = mark_continuity_uncertain c (message e); shelf = sh }, failed e)

    -- `c.store.Load`, with what its callers do on an error.
    unfoldable pub load_row : Act W (Option Status)
    load_row w = answered w.coordinator (store.load w.coordinator.market_id w.shelf)

    -- `c.store.Save`, with what its callers do on an error.
    unfoldable pub save_row : ℕ → Status → Act W (Unit {0})
    save_row expected next w = answered w.coordinator (store.save expected next w.shelf)

    abbrev pub observe : (Coordinator → Coordinator) → Act W (Unit {0})
    observe f = λ w. (record w { coordinator = f w.coordinator }, done tt)

    -- The status behind a row that is there.
    abbrev pub observed : Option Status → Act W Status
    observed none = fail not_initialized
    observed (some s) = do
      observe (λ c. observe_epoch c s.epoch_id)
      λ w. (w, done (effective_status parse_url w.coordinator s))

    -- Status
    unfoldable pub status : Act W Status
    status = load_row >>= observed

    abbrev pub lifted : Reply Status → Act W Status
    lifted (done s) = give s
    lifted (failed e) = fail e

    -- The end of Advance, Promote and Fail: what follows the status is saved over its version.
    unfoldable pub change : (Status → Reply Status) → Act W Status
    change plan = do
      current ← status
      next ← lifted (plan current)
      save_row current.version next
      give next

    -- Advance
    unfoldable pub advance : Phase → LocalProof → ℕ → Act W Status
    advance phase proof now = do
      fail_if (phase == writable) invalid_transition
      change (advance_plan phase proof now)

    -- Promote
    unfoldable pub promote : Binding → TransportEvidence → ℕ → ℕ → Act W Status
    promote binding evidence checked now = change (promote_plan binding evidence checked now)

    -- Fail
    unfoldable pub fail_over : Phase → Option Text → ℕ → Act W Status
    fail_over phase cause now = do
      fail_if (not (phase == offline) && not (phase == manual_review)) invalid_transition
      change (fail_plan phase cause now)

    -- The row that Begin saves.
    unfoldable pub first_status : Coordinator → ℕ → Text → ℕ → Status
    first_status c expected epoch now = record {
      schema_version = recovery_schema_version;
      market_id = c.market_id;
      epoch_id = epoch;
      phase = bootstrap;
      proof = no_proof;
      transport = no_evidence;
      provenance = c.expected_provenance;
      writes_enabled = false;
      last_error = [];
      version = (expected + 1) % word_mod;
      started_at = now;
      updated_at = now;
      continuity_uncertain = false;
      continuity_error = [];
    }

    abbrev pub begin_from : Option Status → ℕ
    begin_from none = 0
    begin_from (some s) = s.version

    abbrev pub observe_found : Option Status → Act W (Unit {0})
    observe_found none = give tt
    observe_found (some s) = observe (λ c. observe_epoch c s.epoch_id)

    abbrev pub issued : Reply Text → Act W Text
    issued (done id) = give id
    issued (failed e) = fail e

    abbrev pub save_first : ℕ → Reply Text → ℕ → Act W Status
    save_first expected new_id now w =
        (do
          epoch ← issued new_id
          save_row expected (first_status w.coordinator expected epoch now)
          observe (λ c. observe_new_epoch c epoch)
          give (first_status w.coordinator expected epoch now))
          w

    -- Begin
    unfoldable pub begin_epoch : Reply Text → ℕ → Act W Status
    begin_epoch new_id now w =
        (do
          fail_if (not (valid_provenance parse_url w.coordinator.expected_provenance))
              proof_incomplete
          found ← load_row
          observe_found found
          save_first (begin_from found) new_id now)
          w

    -- errors.Join(ErrWriteBlocked, err)
    abbrev pub blocked {ℓ} : {A : Type ℓ} → W × Reply A → W × Reply A
    blocked (w, done a) = (w, done a)
    blocked (w, failed e) = (w, failed (joined write_blocked e))

    -- RequireWritable
    unfoldable pub require_writable : Act W (Unit {0})
    require_writable = do
      current ← λ w. blocked (status w)
      fail_if (not (may_write parse_url current)) write_blocked

    -- Admit
    unfoldable pub admit : AdmissionMode → Text → Act W Admission
    admit mode account w =
        (do
          current ← λ v. blocked (status v)
          fail_if (not (authorize parse_url current mode account)) write_blocked
          give (record {
            market_id = w.coordinator.market_id;
            epoch_id = current.epoch_id;
            version = current.version;
            phase = current.phase;
            mode = mode;
            account_id = account;
          }))
          w

    -- The tests of ValidateAdmission in front of authorize.
    unfoldable pub still_bound : Status → Admission → Bool
    still_bound current a =
        a.market_id == current.market_id
        && not (is_empty a.epoch_id)
        && a.epoch_id == current.epoch_id
        && eqb a.version current.version
        && a.phase == current.phase

    -- ValidateAdmission
    unfoldable pub validate_admission : Admission → Act W (Unit {0})
    validate_admission a = do
      current ← λ w. blocked (status w)
      fail_if (not (still_bound current a)) write_blocked
      fail_if (not (authorize parse_url current a.mode a.account_id)) write_blocked

    -- AuthorizeSafetyCancel
    unfoldable pub authorize_safety_cancel : Text → Act W (Unit {0})
    authorize_safety_cancel account = do admit safety_cancel_mode account; give tt

    -- AuthorizeBootstrapFund
    unfoldable pub authorize_bootstrap_fund : Text → Act W (Unit {0})
    authorize_bootstrap_fund account = do admit bootstrap_mode account; give tt

-- NewCoordinator; `none` is an error. No provenance stands for the variadic argument left out.
module _ (parse_url : Text → Option Url) (url_text : Url → Text) where
  abbrev pub coordinator_of : Text → Provenance → Coordinator
  coordinator_of market provenance = record {
    market_id = market;
    expected_provenance = provenance;
    last_observed_epoch = [];
    continuity_epoch = [];
    continuity_uncertain = false;
    continuity_error = [];
  }

  -- The variadic argument: at most one provenance, brought to its normal form.
  abbrev pub given_provenance : List Provenance → Option Provenance
  given_provenance [] = some no_provenance
  given_provenance (p ∷ []) = normalize_provenance parse_url url_text p
  given_provenance (p ∷ q ∷ ps) = none

  unfoldable pub new_coordinator : Text → List Provenance → Option Coordinator
  new_coordinator market given =
      if is_empty market
      then none
      else elim (given_provenance given) [ none ↦ none | some v ↦ some (coordinator_of market v) ]
