-- ===== src/Context/Select.antt =====
-- packages/core/src/belief_ledger_core/context/select.py: the choice of beliefs in the order of their
-- rank, each after its premises.
use belief_ledger_pramana.Prelude.{
  ℕ, zero, suc, ◌-◌, Bool, true, false, ◌&&◌, ◌||◌, not, Option, List, [], ◌∷◌, ◌++◌, map, contains,
  find, length, on_option, ltb, leb, ◌==◌, if◌then◌else◌,
}
use belief_ledger_pramana.Models.{Belief, Justification, Status}
use belief_ledger_pramana.Engine.Acyclic.Descendants.{sorted}

-- `premise.status in {Status.IN, Status.PENDING}`
abbrev pub is_live : Status → Bool
is_live Status.in_ = true
is_live Status.pending = true
is_live _ = false

-- The premises of all justifications, in the order of their identifiers and each once.
abbrev pub all_premises : List Justification → List ℕ
all_premises [] = []
all_premises (j ∷ js) = j.premises ++ all_premises js

-- `chosen_ids`
abbrev pub ids : List Belief → List ℕ
ids chosen = map (λ b. b.id) chosen

-- `belief_map.get`
abbrev pub get_belief : List Belief → ℕ → Option Belief
get_belief beliefs identifier = find (λ b. b.id == identifier) beliefs

-- The end of `_add_with_premises`.
abbrev pub add_conclusion : ℕ → Belief → List Belief → List Belief
add_conclusion limit b chosen =
    if not (contains b.id (ids chosen)) && ltb (length chosen) limit
    then chosen ++ (b ∷ [])
    else chosen

-- The loop over the premises, with the call for one of them.
unfoldable pub add_premises :
    (Belief → List Belief → List Belief) → List Belief → ℕ → List ℕ → List Belief → List Belief
add_premises add beliefs limit [] chosen = chosen
add_premises add beliefs limit (p ∷ ps) chosen =
    on_option (get_belief beliefs p) (add_premises add beliefs limit ps chosen) (λ premise.
      elim (is_live premise.status) [
        | false ↦ add_premises add beliefs limit ps chosen
        | true ↦ elim (leb limit (length chosen)) [
          | true ↦ chosen
          | false ↦ add_premises add beliefs limit ps (add premise chosen)
        ]
      ])

-- `_add_with_premises`, by recursion on `max_depth - depth`. The path is the set `visiting`, from which
-- a belief is taken again at the end.
unfoldable pub add_with_premises : ℕ → List Belief → ℕ → List ℕ → Belief → List Belief → List Belief
unfolding add_premises
add_with_premises zero beliefs limit path b chosen =
    if contains b.id (ids chosen) || leb limit (length chosen) || contains b.id path
    then chosen
    else add_conclusion limit b chosen
add_with_premises (suc depth) beliefs limit path b chosen =
    let after =
      add_premises (add_with_premises depth beliefs (limit - 1) (b.id ∷ path)) beliefs (limit - 1)
        (sorted (all_premises b.justifications)) chosen in
    if contains b.id (ids chosen) || leb limit (length chosen) || contains b.id path
    then chosen
    else add_conclusion limit b after

-- The loop of `select_beliefs` over the ranked candidates.
unfoldable pub choose : ℕ → List Belief → ℕ → List Belief → List Belief → List Belief
choose depth beliefs limit [] chosen = chosen
choose depth beliefs limit (b ∷ candidates) chosen = elim (leb limit (length chosen)) [
  | true ↦ chosen
  | false ↦
      choose depth beliefs limit candidates (add_with_premises depth beliefs limit [] b chosen)
]
