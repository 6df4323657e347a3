-- ===== src/Recovery/Provenance.antt =====
-- NormalizeProvenance, validProvenance and validTransportEvidence of
-- trading/recovery/coordinator.go. url.Parse is a parameter, and so is the text of a parsed URL;
-- a URL is the fields that the source reads. Texts are lowered and trimmed as ASCII.
use qiu_market.Recovery.Types.{Provenance, TransportEvidence}
use qiu_market.Decimal.{is_space}
use qiu_market.Prelude.Text.{Text, bytes, has_prefix, is_empty, text_beq, text_eq}
use qiu_market.Prelude.{
  ℕ, ◌+◌, ◌-◌, ◌*◌, ◌/◌, ◌%◌, Bool, true, false, not, ◌&&◌, ◌||◌, if◌then◌else◌, ltb, leb, eqb,
  Option, none, some, [], ◌∷◌, length, drop, ◌==◌, nat_eq,
}
use qiu_market.Recovery.Types.{provenance_eq}
use qiu_market.Prelude.Int.{pos, pos_part, ltb_ℤ, leb_ℤ, max_word}

-- The fields of url.URL that are read; `has_user` is `User != nil`.
pub record Url : Type 0 where
  pub scheme : Text
  pub host : Text
  pub hostname : Text
  pub port : Text
  pub path : Text
  pub raw_query : Text
  pub fragment : Text
  pub has_user : Bool

-- strings.ToLower on ASCII
abbrev pub lower : Text → Text
lower [] = []
lower (c ∷ cs) = (if leb 65 c && leb c 90 then c + 32 else c) ∷ lower cs

-- strings.HasSuffix
abbrev pub has_suffix : Text → Text → Bool
has_suffix [] p = is_empty p
has_suffix (c ∷ cs) p = let rest = has_suffix cs p in if text_beq (c ∷ cs) p then true else rest

-- strings.TrimSpace on ASCII: in front, and at the end.
abbrev pub trim_left : Text → Text
trim_left [] = []
trim_left (c ∷ cs) = let rest = trim_left cs in if is_space c then rest else c ∷ cs

abbrev pub trim_right : Text → Text
trim_right [] = []
trim_right (c ∷ cs) =
    let rest = trim_right cs in if is_space c && is_empty rest then [] else c ∷ rest

abbrev pub trim_space : Text → Text
trim_space s = trim_right (trim_left s)

-- strings.TrimSuffix(s, "/")
abbrev pub trim_slash : Text → Text
trim_slash [] = []
trim_slash (c ∷ cs) = let rest = trim_slash cs in if is_empty cs && eqb c 47 then [] else c ∷ rest

abbrev pub is_hex : ℕ → Bool
is_hex c = (leb 48 c && leb c 57) || (leb 65 c && leb c 70) || (leb 97 c && leb c 102)

abbrev pub all_hex : Text → Bool
all_hex [] = true
all_hex (c ∷ cs) = is_hex c && all_hex cs

-- hex.DecodeString without an error, to this number of bytes.
abbrev pub decodes_to : ℕ → Text → Bool
decodes_to n s = all_hex s && eqb (length s) (2 * n)

abbrev pub is_alphanumeric : ℕ → Bool
is_alphanumeric c = (leb 48 c && leb c 57) || (leb 65 c && leb c 90) || (leb 97 c && leb c 122)

abbrev pub all_alphanumeric : Text → Bool
all_alphanumeric [] = true
all_alphanumeric (c ∷ cs) = is_alphanumeric c && all_alphanumeric cs

-- deploymentIdentifier.MatchString
unfoldable pub is_deployment_identifier : Text → Bool
is_deployment_identifier s =
    let rest = drop 4 s in
    has_prefix s (bytes "dpl_")
    && all_alphanumeric rest
    && leb 8 (length rest)
    && leb (length rest) 128

-- The number of intervals that the evidence needs: the span over the gap, rounded up.
abbrev pub required_intervals : ℕ → ℕ → ℕ
required_intervals span gap = if eqb (span % gap) 0 then span / gap else span / gap + 1

-- `a.Sub(b)` for b not after a, which stops at the largest duration.
abbrev pub time_sub : ℕ → ℕ → ℕ
time_sub a b = if ltb max_word (a - b) then max_word else a - b

module _ (parse_url : Text → Option Url) where
  abbrev pub is_production : Option Url → Bool
  is_production none = false
  is_production (some u) =
      not (is_empty u.host)
      && not u.has_user
      && is_empty u.raw_query
      && is_empty u.fragment
      && is_empty u.path
      && u.scheme == bytes "https"

  abbrev pub is_deployment : Option Url → Bool
  is_deployment none = false
  is_deployment (some u) =
      u.scheme == bytes "https"
      && not (is_empty u.host)
      && is_empty u.port
      && not u.has_user
      && is_empty u.raw_query
      && is_empty u.fragment
      && is_empty u.path
      && has_suffix (lower u.hostname) (bytes ".vercel.app")

  -- validProvenance
  unfoldable pub valid_provenance : Provenance → Bool
  valid_provenance v =
      if not (is_production (parse_url v.production_origin))
        || not (is_deployment (parse_url v.deployment_url))
        || v.deployment_url == v.production_origin
        || not (is_deployment_identifier v.deployment_id)
        || is_empty v.deployment_url
        || not (length v.release_commit == 40)
        || not (length v.source_digest == 64)
      then false
      else decodes_to 20 v.release_commit && decodes_to 32 v.source_digest

  -- validTransportEvidence. The subtraction of a later time comes to 0 here and to less than 0 in
  -- the source; both are below the bound.
  unfoldable pub valid_transport_evidence : TransportEvidence → Provenance → ℕ → Bool
  valid_transport_evidence e expected now =
      let gap = pos_part e.maximum_gap_ms * 1000000 in
      let span = time_sub e.last_sample_at e.first_sample_at in
      if ltb_ℤ e.sample_count (pos 7)
        || not (e.provenance == expected)
        || not (valid_provenance e.provenance)
        || eqb e.first_sample_at 0
        || ltb e.last_sample_at e.first_sample_at
        || leb_ℤ e.maximum_gap_ms (pos 0)
        || ltb_ℤ (pos 8000) e.maximum_gap_ms
        || ltb (now + 1000000000) e.last_sample_at
        || ltb 8000000000 (time_sub now e.last_sample_at)
        || not (decodes_to 32 e.evidence_sha256)
        || ltb span 30000000000
      then false
      else leb (required_intervals span gap) (pos_part e.sample_count - 1)

  module _ (url_text : Url → Text) where
    -- `parsed.Path != "" && parsed.Path != "/"`, negated.
    abbrev pub root_path : Text → Bool
    root_path p = is_empty p || text_beq p (bytes "/")

    -- The origin that a production URL is brought to.
    unfoldable pub normalize_production : Text → Option Text
    normalize_production raw = elim (parse_url (trim_space raw)) [
      | none ↦ none
      | some u ↦
          if is_empty u.host
            || u.has_user
            || not (is_empty u.raw_query)
            || not (is_empty u.fragment)
            || not (root_path u.path)
            || not (u.scheme == bytes "https")
          then none
          else some (trim_slash (url_text (record u { path = [] })))
    ]

    unfoldable pub normalize_deployment : Text → Option Text
    normalize_deployment raw = elim (parse_url (trim_space raw)) [
      | none ↦ none
      | some u ↦
          if not (u.scheme == bytes "https")
            || not (has_suffix (lower u.hostname) (bytes ".vercel.app"))
            || u.has_user
            || not (is_empty u.raw_query)
            || not (is_empty u.fragment)
            || not (root_path u.path)
          then none
          else some (trim_slash (url_text (record u { path = [] })))
    ]

    -- NormalizeProvenance; `none` stands for its errors.
    unfoldable pub normalize_provenance : Provenance → Option Provenance
    normalize_provenance v = elim (normalize_production v.production_origin) [
      | none ↦ none
      | some origin ↦ elim (normalize_deployment v.deployment_url) [
        | none ↦ none
        | some deployment ↦
            let w : Provenance = record {
              production_origin = origin;
              deployment_id = trim_space v.deployment_id;
              deployment_url = deployment;
              release_commit = lower (trim_space v.release_commit);
              source_digest = lower (trim_space v.source_digest);
            } in
            if deployment == origin || not (valid_provenance w) then none else some w
      ]
    ]
