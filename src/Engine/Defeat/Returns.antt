-- ===== src/Engine/Defeat/Returns.antt =====
-- packages/core/src/belief_ledger_core/engine/defeat.py: when `relabel` has a result.
use belief_ledger_pramana.Prelude.{
  ℕ, ◌≡◌, ◌≢◌, refl, sym, ap, ◌⊎◌, inl, inr, Bool, true, false, Option, none, some, List, [], ◌∷◌,
  All, All-In, In, arith, find, on_option, if◌then◌else◌,
}
use belief_ledger_pramana.Models.{Belief, DefeatEdge, Perishability, Source}
use belief_ledger_pramana.Engine.Floats.{Floats}
use belief_ledger_pramana.Engine.Priority.{
  EngineConfig, PriorityComparison, source_of, priority_trace, compare_traces, compare_priority,
}
use belief_ledger_pramana.Engine.Defeat.Support.{Graph, belief_of, rebuts, Ttl}
use belief_ledger_pramana.Engine.Defeat.Round.{Comparisons}
use belief_ledger_pramana.Engine.Defeat.Relabel.{comparisons_from, loop, first, relabel}

-- A comparison is made wherever both sources are there.
compare_priority-some :
    (f : Floats) (a t : Belief) (sources : List Source) (config : EngineConfig)
    → source_of f sources a ≢ none
    → source_of f sources t ≢ none
    → compare_priority f a t sources config ≢ none
unfolding compare_priority
compare_priority-some f a t sources config h k =
    split (source_of f sources a) (source_of f sources t) h k
  where
    split :
        (o u : Option Source)
        → o ≢ none
        → u ≢ none
        → on_option o none (λ s. on_option u none (λ r. some (
            compare_traces a.pramana t.pramana
              (priority_trace f a s config)
              (priority_trace f t r config))))
          ≢ none
    split none u p q e = p refl
    split (some s) none p q e = q refl
    split (some s) (some r) p q e = absurd (ground (arith, e))

find-In :
    (test : Belief → Bool) (beliefs : List Belief) (b : Belief)
    → find test beliefs ≡ some b
    → In b beliefs
find-In test [] b h = absurd (ground (arith, h))
find-In test (x ∷ rest) b h = split (test x) h (find-In test rest b)
  where
    split :
        (t : Bool)
        → (if t then some x else find test rest) ≡ some b
        → (find test rest ≡ some b → In b rest)
        → (b ≡ x) ⊎ In b rest
    split true k later = inl (ap (λ (o : Option Belief). on_option o x (λ y. y)) (sym k))
    split false k later = inr (later k)

-- The comparisons of edges are made where every belief has its source.
comparisons_from-some :
    (f : Floats) (g : Graph) (sources : List Source) (config : EngineConfig)
    (edges : List DefeatEdge)
    → All (λ b. source_of f sources b ≢ none) g.beliefs
    → comparisons_from f g sources config edges ≢ none
comparisons_from-some f g sources config [] all = λ e. absurd (ground (arith, e))
comparisons_from-some f g sources config (x ∷ edges) all =
    at_ends (belief_of g x.attacker) (belief_of g x.target) refl refl
      (comparisons_from-some f g sources config edges all)
  where
    rest : Option Comparisons
    rest = comparisons_from f g sources config edges

    has_source : (id : ℕ) (b : Belief) → belief_of g id ≡ some b → source_of f sources b ≢ none
    has_source id b h =
        All-In (λ c. source_of f sources c ≢ none) b g.beliefs all (find-In _ g.beliefs b h)

    extend :
        (o : Option PriorityComparison)
        → o ≢ none
        → rest ≢ none
        → on_option o none (λ c. on_option rest none (λ cs. some ((x.id, c) ∷ cs))) ≢ none
    extend none p q = λ e. p refl
    extend (some c) p q = push rest q
      where
        push :
            (u : Option Comparisons)
            → u ≢ none
            → on_option u none (λ cs. some ((x.id, c) ∷ cs)) ≢ none
        push none r e = r refl
        push (some cs) r e = absurd (ground (arith, e))

    at_ends :
        (o u : Option Belief)
        → belief_of g x.attacker ≡ o
        → belief_of g x.target ≡ u
        → rest ≢ none
        → on_option
            (on_option {B = Option (Belief × Belief)} o none
              (λ a. on_option u none (λ t. some (a, t))))
            rest
            (λ y.
              on_option
                (compare_priority f y.0 y.1 sources config)
                none
                (λ c. on_option rest none (λ cs. some ((x.id, c) ∷ cs))))
          ≢ none
    at_ends none u h k q = q
    at_ends (some a) none h k q = q
    at_ends (some a) (some t) h k q =
        extend (compare_priority f a t sources config)
          (compare_priority-some f a t sources config (has_source x.attacker a h)
            (has_source x.target t k))
          q

-- Where every belief of the graph has its source, `relabel` returns a result, whatever the graph, its
-- cycles and the number of iterations.
pub relabel-some :
    (f : Floats) (g : Graph) (cycle : List ℕ) (sources : List Source) (config : EngineConfig)
    (ttl : Perishability → Ttl) (now : Option ℕ) (max_iterations : ℕ)
    → All (λ b. source_of f sources b ≢ none) g.beliefs
    → relabel f g cycle sources config ttl now max_iterations ≢ none
unfolding relabel
relabel-some f g cycle sources config ttl now max_iterations all =
    split (comparisons_from f g sources config (rebuts g))
      (comparisons_from-some f g sources config (rebuts g) all)
  where
    split :
        (o : Option Comparisons)
        → o ≢ none
        → on_option o none
            (λ cs. some (loop g cs ttl now cycle max_iterations max_iterations [] (first g)))
          ≢ none
    split none h e = h refl
    split (some cs) h e = absurd (ground (arith, e))
