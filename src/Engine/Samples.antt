-- ===== src/Engine/Samples.antt =====
-- packages/core/src/belief_ledger_core/engine: the small inputs that the tests share.
use belief_ledger_pramana.Prelude.{ℕ, ◌+◌, none, List, [], ◌∷◌, arith, ltb, pos}
use belief_ledger_pramana.Models.{
  Belief, Integrity, Perishability, Pramana, Source, SourceKind, Stakes, Status,
}
use belief_ledger_pramana.Engine.Floats.{Floats, IsOrdered}
use belief_ledger_pramana.Engine.Trust.{TrustConfig, Mode}
use belief_ledger_pramana.Engine.Priority.{EngineConfig}

-- Whole numbers in place of floats.
abbrev pub whole : Floats
whole = record {
  lt = ltb;
  ge = λ a b. ltb b (1 + a);
  add = λ a b. a + b;
  divide = λ a b. a;
  from_int = λ n. n;
  half = λ a. a;
  round_milli = λ a. pos a;
  one_half = 5;
  four_fifths = 8;
}

pub whole-IsOrdered : IsOrdered whole
whole-IsOrdered = record { irreflexive = λ a. ground arith; asymmetric = λ a b h. ground arith }

abbrev pub trust : TrustConfig
trust = record {
  matrix = λ p s. record { mode = Mode.svatah; k = 0; method = none };
  minimum_samples = 3;
  alpha_prior = 1;
  beta_prior = 1;
  floor = 2;
  ceiling = 9;
}

abbrev pub config : EngineConfig
config = record {
  trust = trust;
  integrity_rank = λ i. elim i [ Integrity.trusted ↦ pos 2 | _ ↦ pos 1 ];
  type_ranks = λ k. none;
  domain_ranks = λ d k. none;
  high_band = none;
  medium_band = none;
  specificity_keys = [];
}

abbrev pub source : ℕ → Integrity → Source
source id integrity = record {
  id = id;
  episode_id = 1;
  kind = SourceKind.tool;
  integrity = integrity;
  name = "sensor";
  root = "sensor";
  competence = [];
  stats = record { confirmed = 0; defeated = 0; samples = 0 };
}

abbrev pub sources : List Source
sources = source 1 Integrity.trusted ∷ source 2 Integrity.semi ∷ []

abbrev pub belief : ℕ → Pramana → ℕ → Belief
belief id pramana source_id = record {
  id = id;
  episode_id = 1;
  content = "the door is open";
  normalized_content = "the door is open";
  pramana = pramana;
  source_id = source_id;
  evidence = [];
  justifications = [];
  qualifiers = [];
  perishability = Perishability.slow;
  observed_at = 1_000;
  stakes = Stakes.low;
  status = Status.in_;
  admission_status = Status.in_;
  domain = "general";
  confidence = none;
  corroboration = 1;
  validity = [];
}
