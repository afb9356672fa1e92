-- ===== src/Engine/Defeat/Relabel.antt =====
-- packages/core/src/belief_ledger_core/engine/defeat.py: `relabel`, with its three exits.
use belief_ledger_pramana.Prelude.{
  ℕ, zero, suc, ◌-◌, Bool, true, false, ◌&&◌, not, Option, none, some, List, [], ◌∷◌, ◌++◌, map,
  any, select, on_option, ◌==◌, if◌then◌else◌,
}
use belief_ledger_pramana.Models.{
  Belief, DefeatEdge, Justification, IngestionSupport, Perishability, Source, Status, is_in,
  is_rebut, same_status,
}
use belief_ledger_pramana.Engine.Floats.{Floats}
use belief_ledger_pramana.Engine.Priority.{EngineConfig, compare_priority}
use belief_ledger_pramana.Engine.Defeat.Support.{
  Statuses, status_of, set_status, is_in_at, Graph, belief_of, rebuts, undercuts, is_basic,
  supports_of, justifications_of, is_supported, candidate_status, Ttl, is_stale,
}
use belief_ledger_pramana.Engine.Defeat.Round.{
  Cause, Progress, Comparisons, is_win, decided, ends, open_conflicts, defeat_targets,
}

pub record RelabelResult : Type 0 where
  pub statuses : Statuses
  pub active_edges : List (ℕ × Bool)
  pub conflicts : List (ℕ × ℕ)
  pub causes : List (ℕ × Cause)
  pub iterations : ℕ
  pub oscillation : Bool

-- The loop that fills `rebut_comparisons`; `none` is the `KeyError` of `compare_priority`.
abbrev pub comparisons_from :
    Floats → Graph → List Source → EngineConfig → List DefeatEdge → Option Comparisons
comparisons_from f g sources config [] = some []
comparisons_from f g sources config (e ∷ edges) =
    let rest = comparisons_from f g sources config edges in
    on_option (ends g e) rest (λ x.
      on_option (compare_priority f x.0 x.1 sources config) none
        (λ c. on_option rest none (λ cs. some ((e.id, c) ∷ cs))))

-- The first attacker that is IN among the undercuts of some targets, with its target.
abbrev pub undercut_from : Graph → Statuses → List ℕ → Option (ℕ × ℕ)
undercut_from g statuses [] = none
undercut_from g statuses (target ∷ rest) =
    let later = undercut_from g statuses rest in
    elim (select (λ (e : DefeatEdge). is_in_at e.attacker statuses) (undercuts g target)) [
      | [] ↦ later
      | e ∷ _ ↦ some (e.attacker, target)
    ]

abbrev pub fallen_premises : Statuses → List Justification → List ℕ
fallen_premises statuses [] = []
fallen_premises statuses (j ∷ rest) =
    select (λ p. not (is_in_at p statuses)) j.premises ++ fallen_premises statuses rest

-- `_support_loss_cause`; the premises that fell are listed in the order of the justifications.
unfoldable pub support_loss_cause : Graph → Statuses → Belief → Cause
support_loss_cause g statuses b =
    if is_basic b.pramana
    then on_option
        (undercut_from g statuses (map (λ (s : IngestionSupport). s.id) (supports_of g b)))
        Cause.invalid_or_missing_support (λ x. Cause.undercut_by x.0 x.1)
    else elim (fallen_premises statuses (justifications_of g b)) [
      | [] ↦
          on_option
            (undercut_from g statuses (map (λ (j : Justification). j.id) (justifications_of g b)))
            Cause.no_live_justification (λ x. Cause.undercut_by x.0 x.1)
      | p ∷ ps ↦ Cause.premise_out (p ∷ ps)
    ]

-- `_active_edges`
unfoldable pub active_edges : Graph → Comparisons → Statuses → List DefeatEdge → List (ℕ × Bool)
active_edges g comparisons statuses [] = []
active_edges g comparisons statuses (e ∷ rest) =
    (
      e.id,
      if is_rebut e.kind
          then on_option (ends g e) false
              (λ _. is_in_at e.attacker statuses && decided is_win comparisons e)
          else is_in_at e.attacker statuses,
    )
    ∷ active_edges g comparisons statuses rest

-- Equality of two state keys, of status tables over the same identifiers.
abbrev pub same_key : Statuses → Statuses → Bool
same_key [] [] = true
same_key ((i, x) ∷ xs) ((j, y) ∷ ys) = (i == j) && same_status x y && same_key xs ys
same_key _ _ = false

-- The status before the rebuts: the candidate, PENDING where it has outlived its lifetime.
abbrev pub aged : Bool → Status → Status
aged stale st = if stale && is_in st then Status.pending else st

module _ (g : Graph) (comparisons : Comparisons) (ttl : Perishability → Ttl) (now : Option ℕ) where
  -- `now is not None and _is_stale(belief, config, now)`
  abbrev pub has_expired : Belief → Bool
  has_expired b = on_option now false (is_stale b ttl)

  unfoldable pub base : Statuses → Belief → Status
  base current b = aged (has_expired b) (candidate_status b (is_supported g current b))

  abbrev pub base_statuses : Statuses → List Belief → Statuses
  base_statuses current [] = []
  base_statuses current (b ∷ rest) = (b.id, base current b) ∷ base_statuses current rest

  -- The causes of the loop over stale beliefs.
  abbrev pub stale_causes : Statuses → List Belief → List (ℕ × Cause) → List (ℕ × Cause)
  stale_causes current [] causes = causes
  stale_causes current (b ∷ rest) causes = stale_causes current rest (
      if has_expired b && is_in (candidate_status b (is_supported g current b))
      then (b.id, Cause.stale b.perishability) ∷ causes
      else causes)

  -- The causes of the last loop of an iteration.
  abbrev pub final_causes : Statuses → Statuses → List Belief → List (ℕ × Cause) → List (ℕ × Cause)
  final_causes current next [] causes = causes
  final_causes current next (b ∷ rest) causes = final_causes current next rest (
      if not (is_supported g current b)
      then (b.id, support_loss_cause g current b) ∷ causes
      else if is_in_at b.id next
          && on_option (status_of b.id current) false (same_status Status.out)
      then (b.id, Cause.reinstated) ∷ causes
      else causes)

  -- One iteration of the loop.
  unfoldable pub iterate : Statuses → List (ℕ × Cause) → Progress
  iterate current causes =
      let start : Progress = record {
        statuses = base_statuses current g.beliefs;
        conflicts = [];
        causes = stale_causes current g.beliefs causes;
      } in
      let p =
        defeat_targets g comparisons current (rebuts g)
          (open_conflicts g comparisons current (rebuts g) start) in
      record p { causes = final_causes current p.statuses g.beliefs p.causes }

  -- The loop `for belief_id in involved` of the two last exits, on the beliefs that `kept` says are
  -- supported.
  abbrev pub suspend : (ℕ → Bool) → Cause → List ℕ → Progress → Progress
  suspend kept cause [] p = p
  suspend kept cause (id ∷ rest) p = suspend kept cause rest (
      if kept id
      then record p {
        statuses = set_status id Status.pending p.statuses;
        causes = (id, cause) ∷ p.causes;
      }
      else p)

  -- `supported.get(belief_id)`
  abbrev pub supported_at : Statuses → ℕ → Bool
  supported_at current id = on_option (belief_of g id) false (is_supported g current)

  abbrev pub result_of : Progress → ℕ → Bool → RelabelResult
  result_of p iterations oscillation = record {
    statuses = p.statuses;
    active_edges = active_edges g comparisons p.statuses g.defeats;
    conflicts = p.conflicts;
    causes = p.causes;
    iterations = iterations;
    oscillation = oscillation;
  }

  -- The loop of the last exit that puts the unsupported beliefs OUT, on `supported` as it was.
  abbrev pub drop : Statuses → List Belief → Progress → Progress
  drop current [] p = p
  drop current (b ∷ rest) p = drop current rest (
      if is_supported g current b
      then p
      else let statuses' = set_status b.id (candidate_status b false) p.statuses in
        record p {
          statuses = statuses';
          causes = (b.id, support_loss_cause g statuses' b) ∷ p.causes;
        })

  -- `_defeat_cycle_nodes(...) or set(ordered_ids)`
  abbrev pub involved : List ℕ → List ℕ
  involved [] = map (λ (b : Belief). b.id) g.beliefs
  involved (id ∷ ids) = id ∷ ids

  -- What follows the loop: the iteration ceiling.
  unfoldable pub ceiling : List ℕ → ℕ → Progress → RelabelResult
  ceiling cycle max_iterations p =
      result_of
        (suspend (supported_at p.statuses) Cause.ceiling_reached (involved cycle)
          (drop p.statuses g.beliefs p))
        max_iterations true

  -- The two exits of the loop, and `rest` where it goes on.
  unfoldable pub finish :
      List ℕ → ℕ → Statuses → List Statuses → Progress → RelabelResult → RelabelResult
  finish cycle iteration current seen next rest =
      if same_key next.statuses current
      then result_of next iteration false
      else if any (same_key next.statuses) seen
      then result_of (suspend (supported_at current) Cause.defeat_cycle cycle next) iteration true
      else rest

  -- The loop, from the number of iterations that are left; `last` holds `current`, and what the
  -- iteration before wrote.
  unfoldable pub loop : List ℕ → ℕ → ℕ → List Statuses → Progress → RelabelResult
  loop cycle max_iterations zero seen last = ceiling cycle max_iterations last
  loop cycle max_iterations (suc left) seen last =
      let next = iterate last.statuses last.causes in
      let seen' = last.statuses ∷ seen in
      let rest = loop cycle max_iterations left seen' next in
      finish cycle (max_iterations - left) last.statuses seen' next rest

abbrev pub initial_statuses : List Belief → Statuses
initial_statuses [] = []
initial_statuses (b ∷ rest) = (b.id, b.status) ∷ initial_statuses rest

-- What the loop starts from.
abbrev pub first : Graph → Progress
first g = record { statuses = initial_statuses g.beliefs; conflicts = []; causes = [] }

-- `relabel`, from the nodes that `_defeat_cycle_nodes` finds.
unfoldable pub relabel :
    Floats
    → Graph
    → List ℕ
    → List Source
    → EngineConfig
    → (Perishability → Ttl)
    → Option ℕ
    → ℕ
    → Option RelabelResult
relabel f g cycle sources config ttl now max_iterations =
    on_option (comparisons_from f g sources config (rebuts g)) none (λ comparisons.
      some (loop g comparisons ttl now cycle max_iterations max_iterations [] (first g)))
