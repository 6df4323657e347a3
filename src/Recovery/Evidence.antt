-- ===== src/Recovery/Evidence.antt =====
-- What validTransportEvidence of trading/recovery/coordinator.go accepts.
use qiu_market.Domain.ArithLaws.{ceil_div_bounds}
use native.Mathlib.Nat.{mul-le-mul_right}
use qiu_market.Prelude.Text.{Text}
use qiu_market.Recovery.Provenance.{
  required_intervals, Url, valid_transport_evidence, time_sub, valid_provenance, decodes_to,
}
use qiu_market.Prelude.{
  ℕ, ◌+◌, ◌-◌, ◌*◌, ◌≤◌, ◌<◌, true, false, Bool, Option, ◌≡◌, refl, arith, ◌==◌, not, ◌||◌, leb,
  ltb, eqb, if◌then◌else◌,
}
use qiu_market.Recovery.Types.{provenance_eq, TransportEvidence, Provenance}
use qiu_market.Prelude.Int.{pos, pos_part, max_word, ℤ, ltb_ℤ, leb_ℤ, negsuc}

intervals_cover : (span gap n : ℕ) → 0 < gap → required_intervals span gap ≤ n → span ≤ n * gap
intervals_cover span gap n h e =
    let up : span ≤ required_intervals span gap * gap = (ceil_div_bounds span gap h).0 in
    let more : required_intervals span gap * gap ≤ n * gap = mul-le-mul_right gap e in ground arith

last_within :
    (last first k : ℕ) → last - first ≤ max_word → time_sub last first ≤ k → last ≤ first + k
last_within last first k h e = ground arith

-- The tests of the evidence but for the intervals, and what they say of the numbers.
numbers :
    (count gap : ℤ) (first last now span : ℕ) (a b d : Bool)
    → span ≡ time_sub last first
    → (ltb_ℤ count (pos 7)
        || a
        || b
        || eqb first 0
        || ltb last first
        || leb_ℤ gap (pos 0)
        || ltb_ℤ (pos 8000) gap
        || ltb (now + 1000000000) last
        || ltb 8000000000 (time_sub now last)
        || d
        || ltb span 30000000000)
      ≡ false
    → (7 ≤ pos_part count)
      × (first + 30000000000 ≤ last)
      × (last ≤ now + 1000000000)
      × (now ≤ last + 8000000000)
      × ((0 < pos_part gap) × (pos_part gap ≤ 8000))
numbers (pos count) (pos gap) first last now span a b d e h =
    (ground arith, ground arith, ground arith, ground arith, (ground arith, ground arith))
numbers (negsuc count) gap first last now span a b d e h = absurd (ground arith)
numbers (pos count) (negsuc gap) first last now span a b d e h = absurd (ground arith)

module _ (parse_url : Text → Option Url) where
  unless_true : (b c : Bool) → (if b then false else c) ≡ true → (b ≡ false) × (c ≡ true)
  unless_true true c h = absurd (ground arith)
  unless_true false c h = (refl, h)

  -- Evidence that is accepted has at least seven samples over at least thirty seconds, the last of
  -- them no more than eight seconds old and no more than one second ahead, with gaps of at most
  -- eight seconds, and so many samples that gaps of that length can cover the time from the first
  -- to the last. Times are in nanoseconds and the time covered is below the largest duration.
  pub evidence_covers :
      (e : TransportEvidence) (expected : Provenance) (now : ℕ)
      → valid_transport_evidence parse_url e expected now ≡ true
      → e.last_sample_at - e.first_sample_at ≤ max_word
      → (7 ≤ pos_part e.sample_count)
        × (e.first_sample_at + 30000000000 ≤ e.last_sample_at)
        × (e.last_sample_at ≤ now + 1000000000)
        × (now ≤ e.last_sample_at + 8000000000)
        × (pos_part e.maximum_gap_ms ≤ 8000)
        × (e.last_sample_at
            ≤ e.first_sample_at
              + (pos_part e.sample_count - 1) * (pos_part e.maximum_gap_ms * 1000000))
  unfolding valid_transport_evidence
  evidence_covers e expected now h small =
      let gap = pos_part e.maximum_gap_ms * 1000000 in
      let span = time_sub e.last_sample_at e.first_sample_at in
      let (guards, enough) =
        unless_true
          (ltb_ℤ e.sample_count (pos 7)
            || not (e.provenance == expected)
            || not (valid_provenance parse_url e.provenance)
            || eqb e.first_sample_at 0
            || ltb e.last_sample_at e.first_sample_at
            || leb_ℤ e.maximum_gap_ms (pos 0)
            || ltb_ℤ (pos 8000) e.maximum_gap_ms
            || ltb (now + 1000000000) e.last_sample_at
            || ltb 8000000000 (time_sub now e.last_sample_at)
            || not (decodes_to 32 e.evidence_sha256)
            || ltb span 30000000000)
          (leb (required_intervals span gap) (pos_part e.sample_count - 1)) h in
      let (count, window, ahead, old, (some_gap, most)) =
        numbers e.sample_count e.maximum_gap_ms e.first_sample_at e.last_sample_at now span
          (not (e.provenance == expected)) (not (valid_provenance parse_url e.provenance))
          (not (decodes_to 32 e.evidence_sha256)) refl guards in
      let covered =
        intervals_cover span gap (pos_part e.sample_count - 1) (ground arith) (ground arith) in
      (
        count,
        window,
        ahead,
        old,
        most,
        last_within e.last_sample_at e.first_sample_at _ small covered,
      )
