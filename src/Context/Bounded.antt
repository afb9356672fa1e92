-- ===== src/Context/Bounded.antt =====
-- packages/core/src/belief_ledger_core/context/select.py: what the choice of beliefs keeps to.
use belief_ledger_pramana.Prelude.{
  ℕ, zero, suc, ◌-◌, ◌≡◌, refl, Bool, true, false, ◌&&◌, ◌||◌, not, Option, none, some, List, [],
  ◌∷◌, ◌++◌, All, contains, length, on_option, ltb, leb, if◌then◌else◌,
}
use belief_ledger_pramana.Models.{Belief}
use belief_ledger_pramana.Engine.Acyclic.Descendants.{sorted}
use belief_ledger_pramana.Context.Select.{
  is_live, all_premises, ids, get_belief, add_conclusion, add_premises, add_with_premises, choose,
}

abbrev pub IsLive : Belief → Type 0
IsLive b = is_live b.status ≡ true

-- What every single addition of a live belief that is not there keeps, the choice keeps.
module _ (beliefs : List Belief) (P : List Belief → Type 0)
    (keeps : (b : Belief) (chosen : List Belief)
      → IsLive b
      → contains b.id (ids chosen) ≡ false
      → P chosen
      → P (chosen ++ (b ∷ []))) where
  conclusion-keeps :
      (limit : ℕ) (b : Belief) (chosen : List Belief)
      → IsLive b
      → P chosen
      → P (add_conclusion limit b chosen)
  conclusion-keeps limit b chosen live p =
      go (contains b.id (ids chosen)) (ltb (length chosen) limit) refl
    where
      go :
          (c t : Bool)
          → contains b.id (ids chosen) ≡ c
          → P (if not c && t then chosen ++ (b ∷ []) else chosen)
      go true t e = p
      go false true e = keeps b chosen live e p
      go false false e = p

  premises-keep :
      (add : Belief → List Belief → List Belief)
      → ((b : Belief) (chosen : List Belief) → IsLive b → P chosen → P (add b chosen))
      → (limit : ℕ) (ps : List ℕ) (chosen : List Belief) → P chosen
      → P (add_premises add beliefs limit ps chosen)
  unfolding add_premises
  premises-keep add h limit [] chosen p = p
  premises-keep add h limit (q ∷ ps) chosen p =
      go (get_belief beliefs q) (premises-keep add h limit ps)
    where
      go :
          (o : Option Belief)
          → ((chosen : List Belief) → P chosen → P (add_premises add beliefs limit ps chosen))
          → P (
              on_option o (add_premises add beliefs limit ps chosen) (λ premise.
                elim (is_live premise.status) [
                  | false ↦ add_premises add beliefs limit ps chosen
                  | true ↦ elim (leb limit (length chosen)) [
                    | true ↦ chosen
                    | false ↦ add_premises add beliefs limit ps (add premise chosen)
                  ]
                ]))
      go none rest = rest chosen p
      go (some premise) rest = live (is_live premise.status) (leb limit (length chosen)) refl
        where
          live :
              (t full : Bool)
              → is_live premise.status ≡ t
              → P (elim t as (λ _. List Belief) [
                | false ↦ add_premises add beliefs limit ps chosen
                | true ↦ elim full [
                  | true ↦ chosen
                  | false ↦ add_premises add beliefs limit ps (add premise chosen)
                ]
              ])
          live false full e = rest chosen p
          live true true e = p
          live true false e = rest (add premise chosen) (h premise chosen e p)

  pub add-keeps :
      (depth limit : ℕ) (path : List ℕ) (b : Belief) (chosen : List Belief)
      → IsLive b
      → P chosen
      → P (add_with_premises depth beliefs limit path b chosen)
  unfolding add_with_premises
  add-keeps zero limit path b chosen live p =
      guarded (contains b.id (ids chosen) || leb limit (length chosen) || contains b.id path)
        (conclusion-keeps limit b chosen live p)
    where
      guarded :
          (t : Bool)
          → P (add_conclusion limit b chosen)
          → P (if t then chosen else add_conclusion limit b chosen)
      guarded true q = p
      guarded false q = q
  add-keeps (suc depth) limit path b chosen live p =
      guarded (contains b.id (ids chosen) || leb limit (length chosen) || contains b.id path) (
        conclusion-keeps limit b after live (
          premises-keep (add_with_premises depth beliefs (limit - 1) (b.id ∷ path))
            (add-keeps depth (limit - 1) (b.id ∷ path)) (limit - 1)
            (sorted (all_premises b.justifications)) chosen p))
    where
      after : List Belief
      after =
          add_premises (add_with_premises depth beliefs (limit - 1) (b.id ∷ path)) beliefs
            (limit - 1) (sorted (all_premises b.justifications)) chosen

      guarded :
          (t : Bool)
          → P (add_conclusion limit b after)
          → P (if t then chosen else add_conclusion limit b after)
      guarded true q = p
      guarded false q = q

  pub choose-keeps :
      (depth limit : ℕ) (candidates chosen : List Belief)
      → All IsLive candidates
      → P chosen
      → P (choose depth beliefs limit candidates chosen)
  unfolding choose
  choose-keeps depth limit [] chosen live p = p
  choose-keeps depth limit (b ∷ candidates) chosen live p = go (leb limit (length chosen)) (
      choose-keeps depth limit candidates (add_with_premises depth beliefs limit [] b chosen) live.1
        (add-keeps depth limit [] b chosen live.0 p))
    where
      go :
          (t : Bool)
          → P (
              choose depth beliefs limit candidates
                (add_with_premises depth beliefs limit [] b chosen))
          → P (elim t as (λ _. List Belief) [
            | true ↦ chosen
            | false ↦
                choose depth beliefs limit candidates
                  (add_with_premises depth beliefs limit [] b chosen)
          ])
      go true q = p
      go false q = q
