-- ===== src/Recovery/Types.antt =====
-- The types of trading/recovery/coordinator.go. A time.Time is its nanoseconds since the zero
-- time, so 0 is the one for which IsZero holds.
use qiu_market.Prelude.{ℕ, Bool, true, false, ◌≡◌, ◌↔◌, Eq, arith, []}
use qiu_market.Prelude.Int.{ℤ}
use qiu_market.Prelude.Text.{Text}
use qiu_market.Prelude.Decided.{eq_of_discrete}
use native.Mathlib.Decide.{ℕ_discrete}

-- The errors of the package; `joined` is errors.Join, and `other` is an error of a store or of a
-- library, by its text.
pub data RecoveryError : Type 0 where
  not_initialized write_blocked invalid_transition proof_incomplete : RecoveryError
  version_conflict binding_mismatch bad_transport_evidence bad_provenance : RecoveryError
  other : Text → RecoveryError
  joined : RecoveryError → RecoveryError → RecoveryError

-- Phase
pub data Phase : Type 0 where
  bootstrap dependencies_ready trading_replay reconciling read_only : Phase
  transport_warmup writable offline manual_review : Phase

abbrev pub phase_beq : Phase → Phase → Bool
phase_beq bootstrap bootstrap = true
phase_beq dependencies_ready dependencies_ready = true
phase_beq trading_replay trading_replay = true
phase_beq reconciling reconciling = true
phase_beq read_only read_only = true
phase_beq transport_warmup transport_warmup = true
phase_beq writable writable = true
phase_beq offline offline = true
phase_beq manual_review manual_review = true
phase_beq _ _ = false

pub phase_beq_iff : (a b : Phase) → (phase_beq a b ≡ true) ↔ (a ≡ b)
phase_beq_iff a b = ground arith

instance abbrev pub phase_eq : Eq Phase
phase_eq = record { beq = phase_beq; beq_iff = phase_beq_iff }

-- Proof
pub record LocalProof : Type 0 where
  pub runtime_sequence : ℕ
  pub state_hash : Text
  pub ledger_balanced : Bool
  pub event_continuous : Bool
  pub projection_caught_up : Bool
  pub outbox_caught_up : Bool
  pub transport_healthy : Bool

-- Provenance
pub record Provenance : Type 0 where
  pub production_origin : Text
  pub deployment_id : Text
  pub deployment_url : Text
  pub release_commit : Text
  pub source_digest : Text

unfoldable pub Provenance-discrete : Discrete Provenance
Provenance-discrete = hlevel ℕ_discrete

instance abbrev pub provenance_eq : Eq Provenance
provenance_eq = eq_of_discrete Provenance-discrete

-- Binding
pub record Binding : Type 0 where
  pub market_id : Text
  pub epoch_id : Text
  pub version : ℕ
  pub runtime_sequence : ℕ
  pub state_hash : Text
  pub provenance : Provenance

-- TransportEvidence
pub record TransportEvidence : Type 0 where
  pub sample_count : ℤ
  pub first_sample_at : ℕ
  pub last_sample_at : ℕ
  pub maximum_gap_ms : ℤ
  pub evidence_sha256 : Text
  pub provenance : Provenance

-- AdmissionMode; `other_mode` stands for any other string.
pub data AdmissionMode : Type 0 where
  normal_mode safety_cancel_mode bootstrap_mode other_mode : AdmissionMode

-- Admission
pub record Admission : Type 0 where
  pub market_id : Text
  pub epoch_id : Text
  pub version : ℕ
  pub phase : Phase
  pub mode : AdmissionMode
  pub account_id : Text

-- Status
pub record Status : Type 0 where
  pub schema_version : ℕ
  pub market_id : Text
  pub epoch_id : Text
  pub phase : Phase
  pub proof : LocalProof
  pub transport : TransportEvidence
  pub provenance : Provenance
  pub writes_enabled : Bool
  pub last_error : Text
  pub version : ℕ
  pub started_at : ℕ
  pub updated_at : ℕ
  pub continuity_uncertain : Bool
  pub continuity_error : Text

abbrev pub recovery_schema_version : ℕ
recovery_schema_version = 2

-- The zero values of Proof, Provenance and TransportEvidence.
abbrev pub no_proof : LocalProof
no_proof = record {
  runtime_sequence = 0;
  state_hash = [];
  ledger_balanced = false;
  event_continuous = false;
  projection_caught_up = false;
  outbox_caught_up = false;
  transport_healthy = false;
}

abbrev pub no_provenance : Provenance
no_provenance = record {
  production_origin = [];
  deployment_id = [];
  deployment_url = [];
  release_commit = [];
  source_digest = [];
}

abbrev pub no_evidence : TransportEvidence
no_evidence = record {
  sample_count = ℤ.pos 0;
  first_sample_at = 0;
  last_sample_at = 0;
  maximum_gap_ms = ℤ.pos 0;
  evidence_sha256 = [];
  provenance = no_provenance;
}
