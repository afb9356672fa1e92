-- ===== src/Engine/Defeat/Support.antt =====
-- packages/core/src/belief_ledger_core/engine/defeat.py: the status table, the support of a belief
-- and the status that it is a candidate for.
use belief_ledger_pramana.Prelude.{
  ℕ, ◌+◌, ◌*◌, Bool, true, false, ◌&&◌, not, Option, none, some, List, [], ◌∷◌, any, all, select,
  find, ltb, on_option, ◌==◌, if◌then◌else◌,
}
use belief_ledger_pramana.Models.{
  Belief, DefeatEdge, IngestionSupport, Justification, Pramana, Perishability, Status, is_in,
  is_rebut,
}

-- A `dict[str, Status]` over the identifiers of the beliefs.
abbrev pub Statuses : Type 0
Statuses = List (ℕ × Status)

abbrev pub status_of : ℕ → Statuses → Option Status
status_of id [] = none
status_of id ((k, st) ∷ rest) = if k == id then some st else status_of id rest

-- `statuses[id] = st` at a key that is there.
abbrev pub set_status : ℕ → Status → Statuses → Statuses
set_status id st [] = []
set_status id st ((k, old) ∷ rest) = (k, if k == id then st else old) ∷ set_status id st rest

-- `statuses.get(id) is Status.IN`
abbrev pub is_in_at : ℕ → Statuses → Bool
is_in_at id statuses = on_option (status_of id statuses) false is_in

-- The graph, its lists in the order in which `relabel` walks them.
pub record Graph : Type 0 where
  pub beliefs : List Belief
  pub justifications : List Justification
  pub supports : List IngestionSupport
  pub defeats : List DefeatEdge

abbrev pub belief_of : Graph → ℕ → Option Belief
belief_of g id = find (λ b. b.id == id) g.beliefs

abbrev pub rebuts : Graph → List DefeatEdge
rebuts g = select (λ e. is_rebut e.kind) g.defeats

-- `undercuts.get(target, ())`
abbrev pub undercuts : Graph → ℕ → List DefeatEdge
undercuts g target = select (λ e. not (is_rebut e.kind) && (e.target == target)) g.defeats

-- `pramana in _BASIC_TYPES`
abbrev pub is_basic : Pramana → Bool
is_basic Pramana.pratyaksha = true
is_basic Pramana.shabda = true
is_basic Pramana.anupalabdhi = true
is_basic _ = false

-- `_has_active_undercut`
unfoldable pub has_active_undercut : Graph → ℕ → Statuses → Bool
has_active_undercut g target statuses = any (λ e. is_in_at e.attacker statuses) (undercuts g target)

abbrev pub supports_of : Graph → Belief → List IngestionSupport
supports_of g b = select (λ s. s.belief_id == b.id) g.supports

abbrev pub justifications_of : Graph → Belief → List Justification
justifications_of g b = select (λ j. j.belief_id == b.id) g.justifications

-- `_is_supported`
unfoldable pub is_supported : Graph → Statuses → Belief → Bool
is_supported g statuses b =
    if is_basic b.pramana
    then any (λ s. s.active && not (has_active_undercut g s.id statuses)) (supports_of g b)
    else any
        (λ j.
          all (λ p. is_in_at p statuses) j.premises && not (has_active_undercut g j.id statuses))
        (justifications_of g b)

-- `_candidate_status`, on the admission status.
abbrev pub candidate : Status → Bool → Status
candidate Status.quarantined _ = Status.quarantined
candidate Status.out _ = Status.out
candidate _ false = Status.out
candidate Status.pending true = Status.pending
candidate Status.in_ true = Status.in_

unfoldable pub candidate_status : Belief → Bool → Status
candidate_status b supported = candidate b.admission_status supported

-- A `perishability_ttl` entry: absent, not a number or negative, or a number of seconds.
pub data Ttl : Type 0 where
  no_ttl malformed : Ttl
  seconds : ℕ → Ttl

abbrev pub outlived : Ttl → ℕ → ℕ → Bool
outlived no_ttl observed_at now = false
outlived malformed observed_at now = true
outlived (seconds s) observed_at now = ltb (observed_at + s * 1_000_000) now

-- `_is_stale`, of two aware instants.
unfoldable pub is_stale : Belief → (Perishability → Ttl) → ℕ → Bool
is_stale b ttl now = outlived (ttl b.perishability) b.observed_at now
