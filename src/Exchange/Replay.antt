-- ===== src/Exchange/Replay.antt =====
-- Restore of trading/exchange/exchange.go against the exchange that wrote the log.
use qiu_market.Exchange.Views.{build_projection}
use qiu_market.Exchange.Commands.{apply, validate_command_identity}
use qiu_market.Prelude.{
  true, false, ◌≡◌, refl, sym, ◌+◌, ◌%◌, none, ◌==◌, Eq, not, ◌||◌, if◌then◌else◌, length, subst,
  nat_eq,
}
use qiu_market.Prelude.Int.{pos, int_eq, word_mod}
use qiu_market.Prelude.Text.{Text, text_eq, is_empty}
use qiu_market.Prelude.Dict.{Dict, lookup, contains}
use qiu_market.Prelude.Result.{
  Result, ok, >>=-eq-ok, ◌>>=◌, ok-injective, reject_if, relabel, recovery_diverged, Error,
}
use qiu_market.Domain.{
  Outcome, Command, MarketConfig, key_eq, kind_eq, validate_key, IdempotencyKey,
}
use qiu_market.Domain.Equality.{outcome_eq}
use qiu_market.Ledger.{journal_from}
use qiu_market.Store.{EventRecord}
use qiu_market.Exchange.Types.{State, RequestRecord}
use qiu_market.Exchange.Validate.{compact_for_schema, validate_state, clone_state}
use qiu_market.Exchange.Runner.{Trial, run_trial, remember}
use qiu_market.Exchange.Equality.{journal_eq, projection_eq}
use qiu_market.Exchange.Restore.{replay_record, verify_replayed, replay_remember, replay_command}

-- The parts of a trial that succeeds.
record TrialParts (s : State) (c : Command) (t : Trial) : Type 0 where
  copy : State
  copy_eq : clone_state s ≡ ok copy
  applied : State
  applied_eq : apply (record copy { sequence = c.sequence }) c ≡ ok (applied, t.result)
  journal_found : journal_from applied.ledger (pos (length copy.ledger.journal)) ≡ ok t.journal
  projection_found : build_projection applied c t.result ≡ ok t.projection
  compact_eq : compact_for_schema (remember applied c t.result) 5 ≡ ok t.state
  valid_eq : validate_state t.state ≡ ok tt

trial_parts : (s : State) (c : Command) (t : Trial) → run_trial s c ≡ ok t → TrialParts s c t
unfolding run_trial
trial_parts s c t e =
    let (copy, ec, e1) = >>=-eq-ok (clone_state s) _ e in
    let (a, ea, e2) = >>=-eq-ok (apply (record copy { sequence = c.sequence }) c) _ e1 in
    let (j, ej, e3) = >>=-eq-ok (journal_from a.0.ledger _) _ e2 in
    let (p, ep, e4) = >>=-eq-ok (build_projection a.0 c a.1) _ e3 in
    let (z, ez, e5) = >>=-eq-ok (compact_for_schema (remember a.0 c a.1) 5) _ e4 in
    let (_, ev, e6) = >>=-eq-ok (validate_state z) _ e5 in
    subst (TrialParts s c) (ok-injective e6) (record {
      copy = copy;
      copy_eq = ec;
      applied = a.0;
      applied_eq = ea;
      journal_found = ej;
      projection_found = ep;
      compact_eq = ez;
      valid_eq = ev;
    })

pub bind_ok :
    {A B : Type 0} (first : Result A) (rest : A → Result B) {a : A} {b : B}
    → first ≡ ok a
    → rest a ≡ ok b
    → (first >>= rest) ≡ ok b
bind_ok first rest e h = rw e h

relabel_ok {ℓ} : {A : Type ℓ} (e : Error) (r : Result A) {a : A} → r ≡ ok a → relabel e r ≡ ok a
relabel_ok e r h = rw h refl

pub same_value {ℓ} : {A : Type ℓ} ⦃e : Eq A⦄ (a b : A) → a ≡ b → (a == b) ≡ true
same_value ⦃e⦄ a b h = (e.beq_iff a b).1 h

identity-key :
    (c : Command) → validate_command_identity c ≡ ok tt → validate_key c.request_key ≡ ok tt
unfolding validate_command_identity
identity-key c e = (>>=-eq-ok (validate_key c.request_key) _ e).1

replay_remember-current :
    (s : State) (c : Command) (out : Outcome) → replay_remember 5 s c out ≡ remember s c out
unfolding replay_remember remember
replay_remember-current s c out = refl

missing-contains :
    (k : IdempotencyKey) (d : Dict IdempotencyKey RequestRecord)
    → lookup k d ≡ none
    → contains k d ≡ false
unfolding contains
missing-contains k d e = rw (contains, e) refl

module _ (state_hash : State → Text) where
  -- A record of the current schema is replayed to the state that its trial made.
  pub replay-trial :
      (m : MarketConfig) (s : State) (r : EventRecord) (t : Trial)
      → r.schema_version ≡ 5
      → r.command.sequence ≡ (s.sequence + 1) % word_mod
      → is_empty r.command.fingerprint ≡ false
      → (r.command.request_key.market_id == m.id) ≡ true
      → validate_command_identity r.command ≡ ok tt
      → lookup r.command.request_key s.requests ≡ none
      → run_trial s r.command ≡ ok t
      → r.result ≡ t.result
      → r.journal ≡ t.journal
      → r.projection ≡ t.projection
      → r.state_hash ≡ state_hash t.state
      → replay_record state_hash m s r true ≡ ok t.state
  unfolding replay_record replay_command verify_replayed
  replay-trial m s r t v q f k i fresh e er ej ep eh =
      let p = trial_parts s r.command t e in
      let g1 : reject_if (not (r.command.sequence == (s.sequence + 1) % word_mod)) recovery_diverged
          ≡ ok tt =
        rw (same_value r.command.sequence ((s.sequence + 1) % word_mod) q) refl in
      let g2 : reject_if
            (is_empty r.command.fingerprint || not (r.command.request_key.market_id == m.id))
            recovery_diverged
          ≡ ok tt =
        rw (f, k) refl in
      let g3 : reject_if (contains r.command.request_key s.requests) recovery_diverged ≡ ok tt =
        rw (missing-contains r.command.request_key s.requests fresh) refl in
      let g4 : (if r.schema_version == 5 then clone_state s else ok s) ≡ ok p.copy =
        rw v p.copy_eq in
      let g5 : compact_for_schema (replay_remember r.schema_version p.applied r.command t.result)
            r.schema_version
          ≡ ok t.state =
        rw (v, replay_remember-current p.applied r.command t.result) p.compact_eq in
      let g6 : reject_if
            (not (t.result == r.result)
              || not (t.journal == r.journal)
              || not (t.projection == r.projection))
            recovery_diverged
          ≡ ok tt =
        rw
          (
            same_value t.result r.result (sym er),
            same_value t.journal r.journal (sym ej),
            same_value t.projection r.projection (sym ep),
          )
          refl in
      let g7 : reject_if (not (state_hash t.state == r.state_hash)) recovery_diverged ≡ ok tt =
        rw (same_value (state_hash t.state) r.state_hash (sym eh)) refl in
      let replayed : replay_command state_hash m s r ≡ ok t.state = bind_ok _ _ g1 (
        bind_ok _ _ g2 (
          bind_ok _ _ (relabel_ok recovery_diverged _ i) (
            bind_ok _ _ (relabel_ok recovery_diverged _ (identity-key r.command i)) (
              bind_ok _ _ g3 (
                bind_ok _ _ g4 (
                  bind_ok _ _ (relabel_ok recovery_diverged _ p.applied_eq) (
                    bind_ok _ _ p.journal_found (
                      bind_ok _ _ p.projection_found
                        (bind_ok _ _ g5 (bind_ok _ _ g6 refl)))))))))) in
      bind_ok _ _ replayed
        (bind_ok _ _ (relabel_ok recovery_diverged _ p.valid_eq) (bind_ok _ _ g7 refl))
