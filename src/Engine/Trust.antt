-- ===== src/Engine/Trust.antt =====
-- packages/core/src/belief_ledger_core/engine/trust.py: the admission of a belief by the trust
-- matrix, and the competence of a source.
use Prim.Native.String.{String}
use text.Mathlib.Text.{◌==◌ as str_eq}
use belief_ledger_pramana.Prelude.{
  ℕ, Bool, true, false, ◌&&◌, Option, none, some, List, [], ◌∷◌, ltb, on_option, if◌then◌else◌,
}
use belief_ledger_pramana.Models.{
  Belief, Source, SourceKind, Integrity, Pramana, Status, Perishability, Stakes, VerificationMethod,
  Value, Values, max_stakes,
}
use belief_ledger_pramana.Engine.Floats.{Floats}

pub data Profile : Type 0 where
  pratyaksha_tool anupalabdhi_profile anumana_registered user_self user_world : Profile
  shabda_web_semi shabda_web_untrusted shabda_internal_trusted : Profile

-- The `mode` of a cell; any word but the four that are tested rejects.
pub data Mode : Type 0 where
  svatah yogyata paratah quarantine reject : Mode

pub record Cell : Type 0 where
  pub mode : Mode
  pub k : ℕ
  pub method : Option VerificationMethod

-- `config["trust"]`, validated: every profile has a cell at every stakes.
pub record TrustConfig : Type 0 where
  pub matrix : Profile → Stakes → Cell
  pub minimum_samples : ℕ
  pub alpha_prior : ℕ
  pub beta_prior : ℕ
  pub floor : ℕ
  pub ceiling : ℕ

pub record TrustDecision : Type 0 where
  pub status : Status
  pub profile : Profile
  pub mode : Mode
  pub effective_stakes : Stakes
  pub k_required : ℕ
  pub method : Option VerificationMethod
  pub reason : String

-- `d.get(key)`
abbrev pub get {ℓ} : {V : Type ℓ} → String → List (String × V) → Option V
get key [] = none
get key ((k, v) ∷ d) = if str_eq k key then some v else get key d

-- `bool(value)`; a number is falsy at zero, text and lists when they are empty.
abbrev pub truthy : Value → Bool
truthy Value.null = false
truthy (Value.boolean b) = b
truthy (Value.number n) = ltb 0 n
truthy (Value.text s) = if str_eq s "" then false else true
truthy (Value.array Values.nil) = false
truthy (Value.array (Values.cons _ _)) = true

abbrev pub get_truthy : String → List (String × Value) → Bool
get_truthy key d = on_option (get key d) false truthy

-- The last rules of `trust_profile`, for testimony.
abbrev pub testimony_profile : Bool → SourceKind → Integrity → Profile
testimony_profile about_self SourceKind.user _ = if about_self then user_self else user_world
testimony_profile _ SourceKind.web Integrity.semi = shabda_web_semi
testimony_profile _ SourceKind.web _ = shabda_web_untrusted
testimony_profile _ _ Integrity.trusted = shabda_internal_trusted
testimony_profile _ _ _ = shabda_web_untrusted

abbrev pub profile_of : Pramana → Profile → Profile
profile_of Pramana.pratyaksha _ = pratyaksha_tool
profile_of Pramana.anupalabdhi _ = anupalabdhi_profile
profile_of Pramana.anumana _ = anumana_registered
profile_of Pramana.arthapatti _ = anumana_registered
profile_of Pramana.upamana _ = anumana_registered
profile_of Pramana.shabda p = p

-- `trust_profile`
unfoldable pub trust_profile : Belief → Source → Profile
trust_profile belief source =
    profile_of belief.pramana
      (testimony_profile (get_truthy "about_self" belief.validity) source.kind source.integrity)

abbrev pub is_ledger : SourceKind → Bool
is_ledger SourceKind.ledger = true
is_ledger _ = false

abbrev pub is_live : Perishability → Bool
is_live Perishability.live = true
is_live _ = false

abbrev pub status_of_mode : Mode → Status
status_of_mode svatah = Status.in_
status_of_mode yogyata = Status.in_
status_of_mode paratah = Status.pending
status_of_mode quarantine = Status.quarantined
status_of_mode reject = Status.out

abbrev pub reason_of_mode : Mode → String
reason_of_mode svatah = "admitted by configured policy"
reason_of_mode yogyata = "admitted by configured policy"
reason_of_mode paratah = "verification required"
reason_of_mode quarantine = "source is quarantined at effective stakes"
reason_of_mode reject = "type is not admitted at effective stakes"

-- The effective stakes of `determine_admission`.
unfoldable pub effective_stakes : Belief → Stakes → Option Stakes → Stakes
effective_stakes belief episode_stakes action_stakes =
    max_stakes (episode_stakes ∷ belief.stakes ∷ on_option action_stakes Stakes.low (λ s. s) ∷ [])

-- `determine_admission`
unfoldable pub determine_admission :
    Belief → Source → TrustConfig → Stakes → Option Stakes → TrustDecision
determine_admission belief source config episode_stakes action_stakes =
    let effective = effective_stakes belief episode_stakes action_stakes in
    let profile = trust_profile belief source in
    let cell = config.matrix profile effective in
    if is_ledger source.kind && is_live belief.perishability
    then record {
      status = Status.pending;
      profile = profile;
      mode = paratah;
      effective_stakes = effective;
      k_required = 1;
      method = some VerificationMethod.tool_recheck;
      reason = "prior LIVE belief requires re-observation";
    }
    else record {
      status = status_of_mode cell.mode;
      profile = profile;
      mode = cell.mode;
      effective_stakes = effective;
      k_required = cell.k;
      method = cell.method;
      reason = reason_of_mode cell.mode;
    }

module _ (f : Floats) where
  -- Python's `min` and `max` of two values: the first unless the second is strictly better.
  abbrev pub least : ℕ → ℕ → ℕ
  least a b = if f.lt b a then b else a

  abbrev pub greatest : ℕ → ℕ → ℕ
  greatest a b = if f.lt a b then b else a

  -- `_bounded`
  unfoldable pub bounded : ℕ → TrustConfig → ℕ
  bounded value apta = greatest apta.floor (least apta.ceiling value)

  abbrev pub prior_of : Source → String → ℕ
  prior_of source domain =
      on_option (get domain source.competence)
        (on_option (get "general" source.competence) f.one_half (λ x. x)) (λ x. x)

  -- `effective_competence`
  unfoldable pub effective_competence : Source → String → TrustConfig → ℕ
  effective_competence source domain apta =
      if ltb source.stats.samples apta.minimum_samples
      then bounded (prior_of source domain) apta
      else (let alpha = f.add apta.alpha_prior (f.from_int source.stats.confirmed) in
          let beta = f.add apta.beta_prior (f.from_int source.stats.defeated) in
          let posterior = f.divide alpha (f.add alpha beta) in
          bounded (f.half (f.add (prior_of source domain) posterior)) apta)
