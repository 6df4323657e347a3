-- ===== src/Recovery/Durable.antt =====
-- The calls that coordinators of trading/recovery/coordinator.go make on the row of a market, and
-- what each does to it.
use qiu_market.Recovery.Actions.{done, done-injective, unless-done}
use qiu_market.Prelude.Int.{word_mod}
use qiu_market.Recovery.Status.{
  may_write, matches_binding, allowed_transition, local_proof_complete, requires_local_proof,
  merge_proof,
}
use qiu_market.Recovery.Coordinator.{advance_plan, fail_plan, promote_plan}
use qiu_market.Recovery.Provenance.{Url, valid_transport_evidence, valid_provenance}
use qiu_market.Prelude.Text.{Text}
use qiu_market.Prelude.{
  ℕ, ◌+◌, ◌%◌, true, false, Bool, Option, ◌≡◌, refl, subst, arith, ◌==◌, ◌&&◌, not, ◌||◌, ==-eq,
}
use qiu_market.Recovery.Types.{
  phase_eq, provenance_eq, Status, Binding, Phase, LocalProof, TransportEvidence, writable,
  write_blocked, transport_warmup, binding_mismatch, invalid_transition, bad_transport_evidence,
  proof_incomplete, Provenance,
}

abbrev pub IsPromoted : (parse_url : Text → Option Url) → Status → Type 0
IsPromoted parse_url s =
    (may_write parse_url s ≡ true)
    × ((now : ℕ) × (valid_transport_evidence parse_url s.transport s.provenance now ≡ true))

-- A status that a plan makes of one: its market and version, and what lets it write.
pub record Follows (parse_url : Text → Option Url) (s next : Status) : Type 0 where
  pub market_eq : next.market_id ≡ s.market_id
  pub version_eq : next.version ≡ (s.version + 1) % word_mod
  pub promoted : next.writes_enabled ≡ true → IsPromoted parse_url next

nor_split : (a b : Bool) → (not a || not b) ≡ false → (a ≡ true) × (b ≡ true)
nor_split true true h = (refl, refl)
nor_split true false h = absurd (ground arith)
nor_split false b h = absurd (ground arith)

module _ (parse_url : Text → Option Url) where
  -- A binding that matches has the provenance of the status, which is valid.
  pub bound-provenance :
      (s : Status) (b : Binding)
      → matches_binding parse_url s b ≡ true
      → valid_provenance parse_url s.provenance ≡ true
  unfolding matches_binding
  bound-provenance s b h =
      let same : (b.provenance == s.provenance) ≡ true = ground arith in
      let valid : valid_provenance parse_url b.provenance ≡ true = ground arith in
      subst (λ (p : Provenance). valid_provenance parse_url p ≡ true)
        (==-eq b.provenance s.provenance same) valid

  pub advance_plan-Follows :
      (phase : Phase) (proof : LocalProof) (now : ℕ) (s next : Status)
      → (phase == writable) ≡ false
      → advance_plan phase proof now s ≡ done next
      → Follows parse_url s next
  unfolding advance_plan
  advance_plan-Follows phase proof now s next p e =
      let (_, e1) = unless-done s.continuity_uncertain write_blocked _ e in
      let (_, e2) = unless-done (not (allowed_transition s.phase phase)) invalid_transition _ e1 in
      let (_, e3) =
        unless-done
          (requires_local_proof phase && not (local_proof_complete (merge_proof s.proof proof)))
          proof_incomplete _ e2 in
      subst (Follows parse_url s) (done-injective e3) (record {
        market_eq = refl;
        version_eq = refl;
        promoted = λ h. absurd (let q = rw p at h in ground arith);
      })

  pub fail_plan-Follows :
      (phase : Phase) (cause : Option Text) (now : ℕ) (s next : Status)
      → fail_plan phase cause now s ≡ done next
      → Follows parse_url s next
  unfolding fail_plan
  fail_plan-Follows phase cause now s next e =
      subst (Follows parse_url s) (done-injective e)
        (record { market_eq = refl; version_eq = refl; promoted = λ h. absurd (ground arith) })

  pub promote_plan-Follows :
      (binding : Binding) (evidence : TransportEvidence) (checked now : ℕ) (s next : Status)
      → promote_plan parse_url binding evidence checked now s ≡ done next
      → Follows parse_url s next
  unfolding promote_plan
  promote_plan-Follows binding evidence checked now s next e =
      let (_, e1) = unless-done s.continuity_uncertain write_blocked _ e in
      let (a, e2) =
        unless-done (not (s.phase == transport_warmup) || not (matches_binding parse_url s binding))
          binding_mismatch _ e1 in
      let (b, e3) =
        unless-done
          (not (local_proof_complete s.proof)
            || not (valid_transport_evidence parse_url evidence s.provenance checked))
          bad_transport_evidence _ e2 in
      let (_, bound) =
        nor_split (s.phase == transport_warmup) (matches_binding parse_url s binding) a in
      let (complete, valid) =
        nor_split (local_proof_complete s.proof)
          (valid_transport_evidence parse_url evidence s.provenance checked) b in
      let provenance = bound-provenance s binding bound in
      subst (Follows parse_url s) (done-injective e3) (record {
        market_eq = refl;
        version_eq = refl;
        promoted = λ h. (rw (complete, provenance) refl, (checked, valid));
      })
