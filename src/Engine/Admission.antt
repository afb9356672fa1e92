-- ===== src/Engine/Admission.antt =====
-- packages/core/src/belief_ledger_core/engine/trust.py and max_stakes of models.py: when a belief is
-- admitted as IN, how stakes combine, and the range of a competence.
use Prim.Native.String.{String}
use belief_ledger_pramana.Prelude.{
  ℕ, ◌≤◌, ◌≡◌, ◌↔◌, ◌⊎◌, inl, inr, false, ◌&&◌, Option, some, arith, ltb, Bool-cases,
}
use belief_ledger_pramana.Models.{Belief, Source, Status, Stakes, stake_rank, max_stakes}
use belief_ledger_pramana.Engine.Floats.{Floats, IsOrdered}
use belief_ledger_pramana.Engine.Trust.{
  TrustConfig, Mode, svatah, yogyata, is_ledger, is_live, trust_profile, effective_stakes,
  determine_admission, bounded, least, effective_competence,
}

-- The cell of the matrix that decides an admission.
abbrev pub mode_for : Belief → Source → TrustConfig → Stakes → Option Stakes → Mode
mode_for belief source config episode action =
    (config.matrix (trust_profile belief source) (effective_stakes belief episode action)).mode

-- A belief is admitted as IN exactly when it is not a LIVE belief that comes from the ledger itself
-- and its cell at the effective stakes says `svatah` or `yogyata`.
pub determine_admission-in_iff :
    (belief : Belief) (source : Source) (config : TrustConfig) (episode : Stakes)
    (action : Option Stakes)
    → ((determine_admission belief source config episode action).status ≡ Status.in_) ↔ (
        ((is_ledger source.kind && is_live belief.perishability) ≡ false)
        × ((mode_for belief source config episode action ≡ svatah)
            ⊎ (mode_for belief source config episode action ≡ yogyata)))
unfolding determine_admission
determine_admission-in_iff belief source config episode action = ground arith

-- With the stakes of an action given, the effective stakes are at least the episode's, the belief's
-- and the action's, and are one of the three.
pub effective_stakes-bounds :
    (belief : Belief) (episode action : Stakes)
    → let e = effective_stakes belief episode (some action) in
      (stake_rank episode ≤ stake_rank e)
      × (stake_rank belief.stakes ≤ stake_rank e)
      × (stake_rank action ≤ stake_rank e)
      × ((e ≡ episode) ⊎ ((e ≡ belief.stakes) ⊎ (e ≡ action)))
unfolding effective_stakes max_stakes
effective_stakes-bounds belief episode action = ground arith

bounded_range :
    (f : Floats) (value : ℕ) (apta : TrustConfig)
    → IsOrdered f
    → f.lt apta.ceiling apta.floor ≡ false
    → (f.lt (bounded f value apta) apta.floor ≡ false)
      × (f.lt apta.ceiling (bounded f value apta) ≡ false)
unfolding bounded
bounded_range f value apta o h = ground (
  arith,
  o.irreflexive apta.floor,
  o.irreflexive apta.ceiling,
  o.asymmetric apta.floor (least f apta.ceiling value),
  o.asymmetric value apta.ceiling,
)

-- Where `<` is irreflexive and asymmetric and the configured ceiling is not below the floor, a
-- competence is neither below the floor nor above the ceiling, whatever the source's history.
pub effective_competence_bounds :
    (f : Floats) (source : Source) (domain : String) (apta : TrustConfig)
    → IsOrdered f
    → f.lt apta.ceiling apta.floor ≡ false
    → let c = effective_competence f source domain apta in
      (f.lt c apta.floor ≡ false) × (f.lt apta.ceiling c ≡ false)
unfolding effective_competence
effective_competence_bounds f source domain apta o h =
    elim (Bool-cases (ltb source.stats.samples apta.minimum_samples)) [
      | inl few ↦ rw few (bounded_range f _ apta o h)
      | inr many ↦ rw many (bounded_range f _ apta o h)
    ]
