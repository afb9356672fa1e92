-- ===== src/Engine/Defeat/FixedPoint.antt =====
-- packages/core/src/belief_ledger_core/engine/defeat.py: what the labels of a result mean, at each
-- of the exits of `relabel`.
use belief_ledger_pramana.Prelude.{
  ℕ, zero, suc, ◌≡◌, refl, Bool, true, false, Option, some, List, [], ◌∷◌, All, any, arith,
  on_option, find, ◌==◌, ==_iff, if◌then◌else◌,
}
use belief_ledger_pramana.Models.{Belief, Perishability, Status, is_in, same_status}
use belief_ledger_pramana.Engine.Defeat.Support.{
  Statuses, status_of, is_in_at, Graph, rebuts, is_supported, candidate, candidate_status, Ttl,
}
use belief_ledger_pramana.Engine.Defeat.Round.{Cause, Progress, Comparisons}
use belief_ledger_pramana.Engine.Defeat.Relabel.{
  RelabelResult, same_key, aged, has_expired, base, base_statuses, iterate, supported_at, involved,
  result_of, suspend, ceiling, finish, loop,
}
use belief_ledger_pramana.Engine.Defeat.Demotion.{
  Fewer, BothOut, IsDemoted, open_conflicts-demotes, defeat_targets-demotes, suspend-demotes,
  drop-demotes,
}

same_status_sound : (x y : Status) → same_status x y ≡ true → x ≡ y
same_status_sound x y h = ground arith

same_key_sound : (xs ys : Statuses) → same_key xs ys ≡ true → xs ≡ ys
same_key_sound [] [] h = refl
same_key_sound [] ((j, y) ∷ ys) h = absurd (ground arith)
same_key_sound ((i, x) ∷ xs) [] h = absurd (ground arith)
same_key_sound ((i, x) ∷ xs) ((j, y) ∷ ys) h =
    ground (arith, ==_iff i j, same_status_sound x y, same_key_sound xs ys)

module _ (g : Graph) (comparisons : Comparisons) (ttl : Perishability → Ttl) (now : Option ℕ) where
  -- Everything that an iteration writes demotes its base statuses.
  iterate-demotes :
      (current : Statuses) (causes : List (ℕ × Cause))
      → IsDemoted
          (base_statuses g comparisons ttl now current g.beliefs)
          (iterate g comparisons ttl now current causes)
  unfolding iterate
  iterate-demotes current causes =
      let start = base_statuses g comparisons ttl now current g.beliefs in
      let d = defeat_targets-demotes g comparisons current start (rebuts g) _ (
        open_conflicts-demotes g comparisons current start (rebuts g) _
          (record { fewer = λ id e. e; apart = _ })) in
      record { fewer = d.fewer; apart = d.apart }

  -- A belief that is IN among the base statuses is one of the graph, with IN as its base status.
  pub base_statuses-in :
      (current : Statuses) (beliefs : List Belief) (id : ℕ)
      → is_in_at id (base_statuses g comparisons ttl now current beliefs) ≡ true
      → (b : Belief) × (find (λ (c : Belief). c.id == id) beliefs ≡ some b)
        × (is_in (base g comparisons ttl now current b) ≡ true)
  base_statuses-in current [] id h = absurd (ground arith)
  base_statuses-in current (b ∷ rest) id h =
      split (b.id == id) h (λ e. base_statuses-in current rest id e)
    where
      later : Type 0
      later =
          is_in_at id (base_statuses g comparisons ttl now current rest) ≡ true
          → (c : Belief) × (find (λ (x : Belief). x.id == id) rest ≡ some c)
            × (is_in (base g comparisons ttl now current c) ≡ true)

      split :
          (t : Bool)
          → on_option
              (if t
                then some (base g comparisons ttl now current b)
                else status_of id (base_statuses g comparisons ttl now current rest))
              false
              is_in
            ≡ true
          → later
          → (c : Belief) × ((if t then some b else find (λ (c : Belief). c.id == id) rest) ≡ some c)
            × (is_in (base g comparisons ttl now current c) ≡ true)
      split true e k = (b, refl, e)
      split false e k = k e

  -- What IN as a base status says of a belief.
  pub base-in :
      (current : Statuses) (b : Belief)
      → is_in (base g comparisons ttl now current b) ≡ true
      → (b.admission_status ≡ Status.in_)
        × (is_supported g current b ≡ true)
        × (has_expired g comparisons ttl now b ≡ false)
  unfolding base candidate_status
  base-in current b h =
      split (has_expired g comparisons ttl now b) b.admission_status (is_supported g current b) h
    where
      split :
          (stale : Bool) (admitted : Status) (supported : Bool)
          → is_in (aged stale (candidate admitted supported)) ≡ true
          → (admitted ≡ Status.in_) × (supported ≡ true) × (stale ≡ false)
      split stale admitted supported e = ground arith

  -- The labels of a result demote the base statuses of some table, which is the result's own where
  -- the loop converged.
  pub record IsLabelled (r : RelabelResult) : Type 0 where
    pub current : Statuses
    pub causes : List (ℕ × Cause)
    pub fewer : Fewer r.statuses (base_statuses g comparisons ttl now current g.beliefs)
    pub apart : All (BothOut r.statuses) r.conflicts
    pub settled :
        r.oscillation ≡ false
        → (r.statuses ≡ current)
          × (r.statuses ≡ (iterate g comparisons ttl now current causes).statuses)

  ceiling-IsLabelled :
      (cycle : List ℕ) (max_iterations : ℕ) (current : Statuses) (p : Progress)
      → IsDemoted (base_statuses g comparisons ttl now current g.beliefs) p
      → IsLabelled (ceiling g comparisons ttl now cycle max_iterations p)
  unfolding ceiling
  ceiling-IsLabelled cycle max_iterations current p d =
      let start = base_statuses g comparisons ttl now current g.beliefs in
      let q =
        suspend-demotes g comparisons ttl now start (supported_at g comparisons ttl now p.statuses)
          Cause.ceiling_reached (involved g comparisons ttl now cycle) _
          (drop-demotes g comparisons ttl now start p.statuses g.beliefs p d) in
      record {
        current = current;
        causes = [];
        fewer = q.fewer;
        apart = q.apart;
        settled = λ h. absurd (ground arith);
      }

  finish-IsLabelled :
      (cycle : List ℕ) (iteration : ℕ) (current : Statuses) (causes : List (ℕ × Cause))
      (seen : List Statuses) (rest : RelabelResult)
      → IsLabelled rest
      → IsLabelled (
          finish g comparisons ttl now cycle iteration current seen
            (iterate g comparisons ttl now current causes)
            rest)
  unfolding finish
  finish-IsLabelled cycle iteration current causes seen rest later =
      let next = iterate g comparisons ttl now current causes in
      converges (same_key next.statuses current) (same_key_sound next.statuses current)
    where
      next : Progress
      next = iterate g comparisons ttl now current causes

      d : IsDemoted (base_statuses g comparisons ttl now current g.beliefs) next
      d = iterate-demotes current causes

      repeats :
          (t : Bool)
          → IsLabelled (
              if t
              then result_of g comparisons ttl now
                  (suspend g comparisons ttl now
                    (supported_at g comparisons ttl now current)
                    Cause.defeat_cycle
                    cycle
                    next)
                  iteration
                  true
              else rest)
      repeats true =
          let q = suspend-demotes g comparisons ttl now _ _ _ cycle next d in
          record {
            current = current;
            causes = [];
            fewer = q.fewer;
            apart = q.apart;
            settled = λ h. absurd (ground arith);
          }
      repeats false = later

      converges :
          (t : Bool)
          → (t ≡ true → next.statuses ≡ current)
          → IsLabelled (
              if t
              then result_of g comparisons ttl now next iteration false
              else if any (same_key next.statuses) seen
              then result_of g comparisons ttl now
                  (suspend g comparisons ttl now
                    (supported_at g comparisons ttl now current)
                    Cause.defeat_cycle
                    cycle
                    next)
                  iteration
                  true
              else rest)
      converges true same = record {
        current = current;
        causes = causes;
        fewer = d.fewer;
        apart = d.apart;
        settled = λ _. (same refl, refl);
      }
      converges false _ = repeats (any (same_key next.statuses) seen)

  pub loop-IsLabelled :
      (cycle : List ℕ) (max_iterations left : ℕ) (seen : List Statuses) (previous : Statuses)
      (last : Progress)
      → IsDemoted (base_statuses g comparisons ttl now previous g.beliefs) last
      → IsLabelled (loop g comparisons ttl now cycle max_iterations left seen last)
  unfolding loop
  loop-IsLabelled cycle max_iterations zero seen previous last d =
      ceiling-IsLabelled cycle max_iterations previous last d
  loop-IsLabelled cycle max_iterations (suc left) seen previous last d =
      finish-IsLabelled cycle _ last.statuses last.causes _ _ (
        loop-IsLabelled cycle max_iterations left _ last.statuses _
          (iterate-demotes last.statuses last.causes))

  pub first-IsLabelled :
      (cycle : List ℕ) (n : ℕ) (last : Progress)
      → IsLabelled (loop g comparisons ttl now cycle (suc n) (suc n) [] last)
  unfolding loop
  first-IsLabelled cycle n last = finish-IsLabelled cycle _ last.statuses last.causes _ _ (
      loop-IsLabelled cycle (suc n) n _ last.statuses _ (iterate-demotes last.statuses last.causes))
