-- ===== src/Context/Tests.antt =====
-- packages/core/src/belief_ledger_core/context: small choices and renderings.
use belief_ledger_pramana.Prelude.{
  ℕ, ◌+◌, ◌≤◌, ◌≡◌, refl, true, none, List, [], ◌∷◌, All, contains, length, arith,
}
use belief_ledger_pramana.Models.{Belief}
use belief_ledger_pramana.Ledger.Samples.{belief}
use belief_ledger_pramana.Context.Budget.{Text, new_budget, add, add_each, render, render-add_each}
use belief_ledger_pramana.Context.Select.{ids, add_premises, add_with_premises, choose}
use belief_ledger_pramana.Context.Bounded.{IsLive}
use belief_ledger_pramana.Context.Chosen.{distinct, choose-first}

abbrev running : Unit {0}
unfolding add add_each add_premises add_with_premises choose
running = tt

abbrev texts : List Text
texts = (1 ∷ 2 ∷ []) ∷ (3 ∷ 4 ∷ 5 ∷ []) ∷ (6 ∷ []) ∷ []

-- The second text does not fit.
rendered : render (add_each texts (new_budget 4)) ≡ 1 ∷ 2 ∷ 10 ∷ 6 ∷ []
unfolding running
rendered = refl

render-add_each_example :
    (length (render (add_each texts (new_budget 4))) ≡ (add_each texts (new_budget 4)).used)
    × (length (render (add_each texts (new_budget 4))) ≤ 4)
render-add_each_example = render-add_each 4 texts

abbrev derived : ℕ → List ℕ → Belief
derived id premises = record belief {
  id = id;
  justifications =
      (record {
        id = 90 + id;
        belief_id = id;
        premises = premises;
        warrant = "w";
        audit = none;
        alternatives = [];
      })
      ∷ [];
}

-- 1 rests on 2 and 3, and 3 on 1 again.
abbrev beliefs : List Belief
beliefs = derived 1 (3 ∷ 2 ∷ []) ∷ derived 2 [] ∷ derived 3 (1 ∷ []) ∷ derived 4 [] ∷ []

chosen : ids (choose 2 beliefs 3 beliefs []) ≡ 2 ∷ 3 ∷ 1 ∷ []
unfolding running
chosen = refl

crowded : ids (choose 2 beliefs 2 beliefs []) ≡ 2 ∷ 1 ∷ []
unfolding running
crowded = refl

choose-first_example :
    (length (choose 2 beliefs 2 beliefs []) ≤ 2)
    × (distinct (ids (choose 2 beliefs 2 beliefs [])) ≡ true)
    × All IsLive (choose 2 beliefs 2 beliefs [])
    × (contains 1 (ids (choose 2 beliefs 2 beliefs [])) ≡ true)
choose-first_example =
    choose-first beliefs 2 2 (derived 1 (3 ∷ 2 ∷ []))
      (derived 2 [] ∷ derived 3 (1 ∷ []) ∷ derived 4 [] ∷ []) (refl, (refl, (refl, (refl, _))))
      (omega arith)
