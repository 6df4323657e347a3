-- ===== src/Recovery/Writable.antt =====
-- A start of trading/recovery/coordinator.go that reaches the writable phase.
use qiu_market.Recovery.Rows.{SameCoordinator, row_version, same_observe}
use qiu_market.Prelude.Dict.{lookup}
use qiu_market.Prelude.Int.{word_mod}
use qiu_market.Recovery.Warmup.{Q, Clear, Went, change-Clear, no_clash, saved-Clear, status-Clear}
use qiu_market.Recovery.Status.{
  merge_proof, allowed_transition, requires_local_proof, local_proof_complete, Coordinator,
  observe_new_epoch, observe_epoch, matches_binding, may_write,
}
use qiu_market.Recovery.Coordinator.{
  advance, begin_epoch, advance_plan, load_row, first_status, promote, require_writable, change,
  save_first, promote_plan,
}
use qiu_market.Recovery.Provenance.{Url, valid_provenance, valid_transport_evidence}
use qiu_market.Prelude.Text.{Text, text_eq, is_empty}
use qiu_market.Recovery.Memory.{load, memory_store, conflicts}
use qiu_market.Recovery.Actions.{◌>>=◌, ◌>>◌, Act, done, Reply, and_then}
use qiu_market.Prelude.{
  ℕ, ◌+◌, ◌%◌, [], ◌∷◌, true, false, Option, none, some, ◌≡◌, refl, ap, subst, ◌∙◌, inl, inr,
  Option-cases, arith, ◌==◌, not, ◌&&◌, eqb, ==-refl, length, eqb_iff,
}
use qiu_market.Recovery.Types.{
  phase_eq, provenance_eq, Status, Binding, RecoveryError, LocalProof, Phase, TransportEvidence,
  writable, dependencies_ready, no_proof, trading_replay, reconciling, read_only, transport_warmup,
}

-- The binding that an operator copies from a status.
abbrev pub binding_of : Status → Binding
binding_of s = record {
  market_id = s.market_id;
  epoch_id = s.epoch_id;
  version = s.version;
  runtime_sequence = s.proof.runtime_sequence;
  state_hash = s.proof.state_hash;
  provenance = s.provenance;
}

sixty_four : (t : Text) → eqb (length t) 64 ≡ true → is_empty t ≡ false
sixty_four [] h = absurd (ground arith)
sixty_four (c ∷ cs) h = refl

is_warm : (p : Phase) → p ≡ transport_warmup → (p == transport_warmup) ≡ true
is_warm p e = ground arith

module _ (parse_url : Text → Option Url) (message : RecoveryError → Text) where
  -- Begin, the phases up to the warm-up of the transport, Promote, and RequireWritable.
  unfoldable pub warm_up : Text → LocalProof → TransportEvidence → ℕ → Act Q (Unit {0})
  warm_up epoch proof evidence now = do
    begin_epoch parse_url memory_store message (done epoch) now
    advance parse_url memory_store message dependencies_ready no_proof now
    advance parse_url memory_store message trading_replay no_proof now
    advance parse_url memory_store message reconciling no_proof now
    advance parse_url memory_store message read_only proof now
    s ← advance parse_url memory_store message transport_warmup proof now
    promote parse_url memory_store message (binding_of s) evidence now now
    require_writable parse_url memory_store message

  same_first :
      (c c' : Coordinator) (n : ℕ) (epoch : Text) (now : ℕ)
      → SameCoordinator c c'
      → first_status parse_url memory_store message c' n epoch now
        ≡ first_status parse_url memory_store message c n epoch now
  unfolding first_status
  same_first c c' n epoch now same = rw (same.market_eq, same.provenance_same) refl

  -- What the store and the coordinator ask of a first status over a row.
  record Fits (c : Coordinator) (o : Option Status) (s : Status) : Type 0 where
    market_eq : s.market_id ≡ c.market_id
    free : conflicts o (row_version o) s ≡ false
    provenance_same : s.provenance ≡ c.expected_provenance
    steady : s.continuity_uncertain ≡ false

  first_status-Fits :
      (c : Coordinator) (o : Option Status) (epoch : Text) (now : ℕ)
      → Fits c o (first_status parse_url memory_store message c (row_version o) epoch now)
  unfolding first_status
  first_status-Fits c none epoch now = record {
    market_eq = refl;
    free = refl;
    provenance_same = refl;
    steady = refl;
  }
  first_status-Fits c (some s) epoch now = record {
    market_eq = refl;
    free = no_clash s.version ((s.version + 1) % word_mod) refl;
    provenance_same = refl;
    steady = refl;
  }

  -- The rest of Begin, behind what it found.
  save_first-Went :
      (c : Coordinator) (v : Q) (o : Option Status) (epoch : Text) (now : ℕ)
      → SameCoordinator c v.coordinator
      → lookup v.coordinator.market_id v.shelf.current ≡ o
      → Went parse_url message
          (save_first parse_url memory_store message (row_version o) (done epoch) now)
          v
          (first_status parse_url memory_store message c (row_version o) epoch now)
  unfolding observe_new_epoch
  save_first-Went c v o epoch now same there =
      let first = same_first c v.coordinator (row_version o) epoch now same in
      let f = first_status-Fits v.coordinator o epoch now in
      let (sh, saved, found) =
        saved-Clear parse_url message v v.coordinator.market_id (row_version o) o
          (first_status parse_url memory_store message v.coordinator (row_version o) epoch now)
          f.market_eq there f.free in
      subst
        (λ (z : Status).
          Went parse_url message
            (save_first parse_url memory_store message (row_version o) (done epoch) now) v z)
        first
        (record {
          after = record { coordinator = observe_new_epoch v.coordinator epoch; shelf = sh };
          run_eq = rw saved refl;
          clear = record {
            certain = refl;
            row_eq = found;
            market_eq = f.market_eq;
            provenance_same = f.provenance_same;
            steady = f.steady;
          };
        })

  begin_epoch-Went :
      (w : Q) (epoch : Text) (now : ℕ)
      → valid_provenance parse_url w.coordinator.expected_provenance ≡ true
      → (n : ℕ) × Went parse_url message
          (begin_epoch parse_url memory_store message (done epoch) now)
          w
          (first_status parse_url memory_store message w.coordinator n epoch now)
  unfolding begin_epoch load_row load
  begin_epoch-Went w epoch now valid =
      elim (Option-cases (lookup w.coordinator.market_id w.shelf.current)) [
        | inl gone ↦
            let begun : begin_epoch parse_url memory_store message (done epoch) now w
                ≡ save_first parse_url memory_store message 0 (done epoch) now w =
              rw (begin_epoch, valid, load_row, gone) refl in
            let r =
              save_first-Went w.coordinator w none epoch now
                (record { market_eq = refl; provenance_same = refl }) gone in
            (0, record { after = r.after; run_eq = begun ∙ r.run_eq; clear = r.clear })
        | inr (s, there) ↦
            let same = same_observe w.coordinator s.epoch_id in
            let v : Q = record {
              coordinator = observe_epoch w.coordinator s.epoch_id;
              shelf = w.shelf;
            } in
            let begun : begin_epoch parse_url memory_store message (done epoch) now w
                ≡ save_first parse_url memory_store message s.version (done epoch) now v =
              rw (begin_epoch, valid, load_row, there) refl in
            let r =
              save_first-Went w.coordinator v (some s) epoch now same
                (ap (λ (t : Text). lookup t w.shelf.current) same.market_eq ∙ there) in
            (s.version, record { after = r.after; run_eq = begun ∙ r.run_eq; clear = r.clear })
      ]

  -- The status that Advance makes of one.
  abbrev advanced : Phase → LocalProof → ℕ → Status → Status
  advanced phase proof now s = record s {
    phase = phase;
    proof = merge_proof s.proof proof;
    writes_enabled = phase == writable;
    last_error = [];
    version = (s.version + 1) % word_mod;
    updated_at = now;
  }

  advance_past :
      (phase : Phase) (proof : LocalProof) (now : ℕ) (w : Q)
      → (phase == writable) ≡ false
      → advance parse_url memory_store message phase proof now w
        ≡ change parse_url memory_store message (advance_plan phase proof now) w
  unfolding advance
  advance_past phase proof now w e = rw (advance, e) refl

  advance-Went :
      (phase : Phase) (proof : LocalProof) (now : ℕ) (w : Q) (s : Status)
      → Clear parse_url message w s
      → (phase == writable) ≡ false
      → allowed_transition s.phase phase ≡ true
      → (requires_local_proof phase && not (local_proof_complete (merge_proof s.proof proof)))
        ≡ false
      → Went parse_url message
          (advance parse_url memory_store message phase proof now)
          w
          (advanced phase proof now s)
  unfolding advance_plan
  advance-Went phase proof now w s k unwritable allowed proved =
      let r =
        change-Clear parse_url message (advance_plan phase proof now) w s
          (advanced phase proof now s) k (rw (k.steady, allowed, proved) refl)
          (record { market_eq = refl; provenance_same = refl; version_eq = refl; steady = refl }) in
      record {
        after = r.after;
        run_eq = advance_past phase proof now w unwritable ∙ r.run_eq;
        clear = r.clear;
      }

  merge_proof_complete :
      (q p : LocalProof)
      → local_proof_complete p ≡ true
      → local_proof_complete (merge_proof q p) ≡ true
  unfolding merge_proof
  merge_proof_complete q p h =
      let hash : eqb (length p.state_hash) 64 ≡ true = ground arith in
      let shown = sixty_four p.state_hash hash in rw shown (ground arith)

  binding_of-matches :
      (s : Status)
      → is_empty s.epoch_id ≡ false
      → local_proof_complete s.proof ≡ true
      → valid_provenance parse_url s.provenance ≡ true
      → matches_binding parse_url s (binding_of s) ≡ true
  unfolding matches_binding
  binding_of-matches s named complete valid =
      let hash : eqb (length s.proof.state_hash) 64 ≡ true = ground arith in
      rw
        (
          ==-refl s.market_id,
          ==-refl s.epoch_id,
          ==-refl s.proof.state_hash,
          (eqb_iff s.version s.version).1 refl,
          (eqb_iff s.proof.runtime_sequence s.proof.runtime_sequence).1 refl,
          ==-refl s.provenance,
          named,
          hash,
          valid,
        )
        refl

  promoted : TransportEvidence → ℕ → Status → Status
  promoted evidence now s = record s {
    phase = writable;
    proof = record s.proof { transport_healthy = true };
    transport = evidence;
    writes_enabled = true;
    last_error = [];
    version = (s.version + 1) % word_mod;
    updated_at = now;
  }

  promote-Went :
      (evidence : TransportEvidence) (now : ℕ) (w : Q) (s : Status)
      → Clear parse_url message w s
      → s.phase ≡ transport_warmup
      → is_empty s.epoch_id ≡ false
      → local_proof_complete s.proof ≡ true
      → valid_provenance parse_url s.provenance ≡ true
      → valid_transport_evidence parse_url evidence s.provenance now ≡ true
      → Went parse_url message
          (promote parse_url memory_store message (binding_of s) evidence now now)
          w
          (promoted evidence now s)
  unfolding promote promote_plan promoted
  promote-Went evidence now w s k warm named complete valid good =
      change-Clear parse_url message (promote_plan parse_url (binding_of s) evidence now now) w s
        (promoted evidence now s) k
        (rw
          (
            binding_of-matches s named complete valid,
            is_warm s.phase warm,
            complete,
            good,
            k.steady,
          )
          refl)
        (record { market_eq = refl; provenance_same = refl; version_eq = refl; steady = refl })

  require_writable-Clear :
      (w : Q) (s : Status)
      → Clear parse_url message w s
      → may_write parse_url s ≡ true
      → (require_writable parse_url memory_store message w).1 ≡ done tt
  unfolding require_writable
  require_writable-Clear w s k e =
      rw (require_writable, status-Clear parse_url message w s k, e) refl

  then_done :
      {A B : Type 0} (p : Q × Reply A) (k : A → Act Q B) {v : Q} {a : A} {r : Reply B}
      → p ≡ (v, done a)
      → (k a v).1 ≡ r
      → (and_then p k).1 ≡ r
  then_done p k e h = rw e h

  -- Over the store in memory a start makes progress: from any state of the coordinator and of the
  -- store, Begin, the five advances with a complete local proof, and a promotion with evidence that
  -- is valid for the configured provenance all succeed, and RequireWritable then returns no error.
  pub warm_up_reaches_writable :
      (w : Q) (epoch : Text) (proof : LocalProof) (evidence : TransportEvidence) (now : ℕ)
      → is_empty epoch ≡ false
      → local_proof_complete proof ≡ true
      → valid_provenance parse_url w.coordinator.expected_provenance ≡ true
      → valid_transport_evidence parse_url evidence w.coordinator.expected_provenance now ≡ true
      → (warm_up epoch proof evidence now w).1 ≡ done tt
  unfolding warm_up first_status promoted
  warm_up_reaches_writable w epoch proof evidence now named complete valid good =
      let (n, r0) = begin_epoch-Went w epoch now valid in
      let s0 = first_status parse_url memory_store message w.coordinator n epoch now in
      let r1 = advance-Went dependencies_ready no_proof now r0.after s0 r0.clear refl refl refl in
      let s1 = advanced dependencies_ready no_proof now s0 in
      let r2 = advance-Went trading_replay no_proof now r1.after s1 r1.clear refl refl refl in
      let s2 = advanced trading_replay no_proof now s1 in
      let r3 = advance-Went reconciling no_proof now r2.after s2 r2.clear refl refl refl in
      let s3 = advanced reconciling no_proof now s2 in
      let c4 = merge_proof_complete s3.proof proof complete in
      let r4 = advance-Went read_only proof now r3.after s3 r3.clear refl refl (rw c4 refl) in
      let s4 = advanced read_only proof now s3 in
      let c5 = merge_proof_complete s4.proof proof complete in
      let r5 =
        advance-Went transport_warmup proof now r4.after s4 r4.clear refl refl (rw c5 refl) in
      let s5 = advanced transport_warmup proof now s4 in
      let r6 = promote-Went evidence now r5.after s5 r5.clear refl named c5 valid good in
      then_done _ _ r0.run_eq (
        then_done _ _ r1.run_eq (
          then_done _ _ r2.run_eq (
            then_done _ _ r3.run_eq (
              then_done _ _ r4.run_eq (
                then_done _ _ r5.run_eq (
                  then_done _ _ r6.run_eq (
                    require_writable-Clear r6.after (promoted evidence now s5) r6.clear
                      (rw (c5, valid) refl))))))))
