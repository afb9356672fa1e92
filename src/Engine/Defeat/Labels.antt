-- ===== src/Engine/Defeat/Labels.antt =====
-- packages/core/src/belief_ledger_core/engine/defeat.py: what `relabel` promises of its labels.
use belief_ledger_pramana.Prelude.{
  All-In, ℕ, suc, ◌≡◌, refl, sym, subst, true, false, Option, none, some, List, [], In, arith,
  on_option,
}
use belief_ledger_pramana.Models.{Belief, Perishability, Source, Status}
use belief_ledger_pramana.Engine.Floats.{Floats}
use belief_ledger_pramana.Engine.Priority.{EngineConfig}
use belief_ledger_pramana.Engine.Defeat.Support.{
  is_in_at, Graph, belief_of, rebuts, is_supported, Ttl, is_stale,
}
use belief_ledger_pramana.Engine.Defeat.Round.{Comparisons}
use belief_ledger_pramana.Engine.Defeat.Relabel.{
  RelabelResult, comparisons_from, loop, first, relabel,
}
use belief_ledger_pramana.Engine.Defeat.Demotion.{BothOut}
use belief_ledger_pramana.Engine.Defeat.FixedPoint.{
  IsLabelled, base_statuses-in, base-in, first-IsLabelled,
}

unwrap : {x y : RelabelResult} → Path (Option RelabelResult) (some x) (some y) → x ≡ y
unwrap h = cc

-- The comparisons that a run of `relabel` used, with what its labels are.
pub labelled :
    (f : Floats) (g : Graph) (cycle : List ℕ) (sources : List Source) (config : EngineConfig)
    (ttl : Perishability → Ttl) (now : Option ℕ) (n : ℕ) (r : RelabelResult)
    → relabel f g cycle sources config ttl now (suc n) ≡ some r
    → (comparisons : Comparisons) × (comparisons_from f g sources config (rebuts g)
        ≡ some comparisons)
      × IsLabelled g comparisons ttl now r
unfolding relabel
labelled f g cycle sources config ttl now n r h =
    split (comparisons_from f g sources config (rebuts g)) refl h
  where
    split :
        (o : Option Comparisons)
        → comparisons_from f g sources config (rebuts g) ≡ o
        → on_option o none (λ cs. some (loop g cs ttl now cycle (suc n) (suc n) [] (first g)))
          ≡ some r
        → (comparisons : Comparisons) × (comparisons_from f g sources config (rebuts g)
            ≡ some comparisons)
          × IsLabelled g comparisons ttl now r
    split none e k = absurd (ground arith)
    split (some cs) e k = (
      cs,
      e,
      subst (IsLabelled g cs ttl now) (unwrap k) (first-IsLabelled g cs ttl now cycle n (first g)),
    )

module _ (f : Floats) (g : Graph) (cycle : List ℕ) (sources : List Source) (config : EngineConfig)
    (ttl : Perishability → Ttl) (now : Option ℕ) (n : ℕ) (r : RelabelResult)
    (ran : relabel f g cycle sources config ttl now (suc n) ≡ some r) where
  -- With at least one iteration, every exit leaves IN only beliefs of the graph that were admitted as IN and have not outlived
  -- their lifetime at `now`.
  pub relabel-in_admitted :
      (id : ℕ)
      → is_in_at id r.statuses ≡ true
      → (b : Belief) × (belief_of g id ≡ some b)
        × (b.admission_status ≡ Status.in_)
        × (on_option now false (is_stale b ttl) ≡ false)
  relabel-in_admitted id h =
      let (cs, _, l) = labelled f g cycle sources config ttl now n r ran in
      let (b, found, is_base) =
        base_statuses-in g cs ttl now l.current g.beliefs id (l.fewer id h) in
      let (admitted, _, fresh) = base-in g cs ttl now l.current b is_base in
      (b, found, admitted, fresh)

  -- With at least one iteration, every exit leaves both sides of each conflict that it reports out of IN.
  pub relabel-conflicts_apart :
      (x : ℕ × ℕ)
      → In x r.conflicts
      → (is_in_at x.0 r.statuses ≡ false) × (is_in_at x.1 r.statuses ≡ false)
  relabel-conflicts_apart x h =
      let (_, _, l) = labelled f g cycle sources config ttl now n r ran in
      All-In (BothOut r.statuses) x r.conflicts l.apart h

  -- Where the loop converged (no oscillation, at least one iteration), a belief that is IN has a support that is live under the very labels
  -- of the result.
  pub relabel-in_supported :
      r.oscillation ≡ false
      → (id : ℕ) → is_in_at id r.statuses ≡ true
      → (b : Belief) × (belief_of g id ≡ some b) × (is_supported g r.statuses b ≡ true)
  relabel-in_supported converged id h =
      let (cs, _, l) = labelled f g cycle sources config ttl now n r ran in
      let (b, found, is_base) =
        base_statuses-in g cs ttl now l.current g.beliefs id (l.fewer id h) in
      let (_, supported, _) = base-in g cs ttl now l.current b is_base in
      (b, found, subst (λ s. is_supported g s b ≡ true) (sym (l.settled converged).0) supported)
