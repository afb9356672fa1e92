-- ===== src/Context/Chosen.antt =====
-- packages/core/src/belief_ledger_core/context/select.py: the beliefs that are chosen under a limit.
use belief_ledger_pramana.Prelude.{
  ℕ, zero, suc, ◌-◌, ◌≤◌, ◌<◌, ◌≡◌, refl, Bool, true, false, ◌&&◌, ◌||◌, not, Option, none, some,
  List, [], ◌∷◌, ◌++◌, All, All-append, contains, length, length-append, on_option, leb, ◌==◌,
  ==_refl, arith, if◌then◌else◌,
}
use belief_ledger_pramana.Models.{Belief}
use belief_ledger_pramana.Engine.Acyclic.Descendants.{sorted}
use belief_ledger_pramana.Context.Select.{
  is_live, all_premises, ids, get_belief, add_conclusion, add_premises, add_with_premises, choose,
}
use belief_ledger_pramana.Context.Bounded.{IsLive, choose-keeps}

abbrev pub distinct : List ℕ → Bool
distinct [] = true
distinct (k ∷ ks) = not (contains k ks) && distinct ks

contains-snoc :
    (k : ℕ) (chosen : List Belief) (b : Belief)
    → contains k (ids (chosen ++ (b ∷ []))) ≡ (contains k (ids chosen) || (k == b.id))
contains-snoc k [] b = ground arith
contains-snoc k (x ∷ chosen) b = ground (arith, contains-snoc k chosen b)

distinct-snoc :
    (chosen : List Belief) (b : Belief)
    → contains b.id (ids chosen) ≡ false
    → distinct (ids chosen) ≡ true
    → distinct (ids (chosen ++ (b ∷ []))) ≡ true
distinct-snoc [] b h d = refl
distinct-snoc (x ∷ chosen) b h d =
    let rest = distinct-snoc chosen b (ground arith) (ground arith) in
    ground (arith, rest, contains-snoc x.id chosen b)

module _ (beliefs : List Belief) where
  -- The choice that a limit bounds.
  abbrev IsBounding : ℕ → (Belief → List Belief → List Belief) → Type 0
  IsBounding limit add =
      (b : Belief) (chosen : List Belief) → length chosen ≤ limit → length (add b chosen) ≤ limit

  premises-bounded :
      (add : Belief → List Belief → List Belief) (limit : ℕ)
      → IsBounding limit add
      → (ps : List ℕ) (chosen : List Belief) → length chosen ≤ limit
      → length (add_premises add beliefs limit ps chosen) ≤ limit
  unfolding add_premises
  premises-bounded add limit h [] chosen le = le
  premises-bounded add limit h (q ∷ ps) chosen le =
      go (get_belief beliefs q) (premises-bounded add limit h ps)
    where
      go :
          (o : Option Belief)
          → ((chosen : List Belief)
              → length chosen ≤ limit
              → length (add_premises add beliefs limit ps chosen) ≤ limit)
          → length (
              on_option o (add_premises add beliefs limit ps chosen) (λ premise.
                elim (is_live premise.status) [
                  | false ↦ add_premises add beliefs limit ps chosen
                  | true ↦ elim (leb limit (length chosen)) [
                    | true ↦ chosen
                    | false ↦ add_premises add beliefs limit ps (add premise chosen)
                  ]
                ]))
            ≤ limit
      go none rest = rest chosen le
      go (some premise) rest = live (is_live premise.status) (leb limit (length chosen))
        where
          live :
              (t full : Bool)
              → length (elim t as (λ _. List Belief) [
                | false ↦ add_premises add beliefs limit ps chosen
                | true ↦ elim full [
                  | true ↦ chosen
                  | false ↦ add_premises add beliefs limit ps (add premise chosen)
                ]
              ])
                ≤ limit
          live false full = rest chosen le
          live true true = le
          live true false = rest (add premise chosen) (h premise chosen le)

  conclusion-bounded :
      (limit : ℕ) (b : Belief) (chosen : List Belief)
      → length chosen ≤ limit
      → length (add_conclusion limit b chosen) ≤ limit
  conclusion-bounded limit b chosen le = ground (arith, length-append chosen (b ∷ []))

  add-bounded :
      (depth limit : ℕ) (path : List ℕ)
      → IsBounding limit (add_with_premises depth beliefs limit path)
  unfolding add_with_premises
  add-bounded zero limit path b chosen le =
      go (contains b.id (ids chosen) || leb limit (length chosen) || contains b.id path)
    where
      go : (t : Bool) → length (if t then chosen else add_conclusion limit b chosen) ≤ limit
      go true = le
      go false = conclusion-bounded limit b chosen le
  add-bounded (suc depth) limit path b chosen le =
      go (contains b.id (ids chosen)) (leb limit (length chosen)) (contains b.id path) refl (
        premises-bounded (add_with_premises depth beliefs (limit - 1) (b.id ∷ path)) (limit - 1)
          (add-bounded depth (limit - 1) (b.id ∷ path)) (sorted (all_premises b.justifications))
          chosen)
    where
      after : List Belief
      after =
          add_premises (add_with_premises depth beliefs (limit - 1) (b.id ∷ path)) beliefs
            (limit - 1) (sorted (all_premises b.justifications)) chosen

      go :
          (c full p : Bool)
          → leb limit (length chosen) ≡ full
          → (length chosen ≤ limit - 1 → length after ≤ limit - 1)
          → length (if c || full || p then chosen else add_conclusion limit b after) ≤ limit
      go true full p e h = le
      go false true p e h = le
      go false false true e h = le
      go false false false e h = conclusion-bounded limit b after (omega (arith, h (ground arith)))

  -- With room for one more, the belief itself comes to be chosen, whatever its premises take up.
  pub conclusion-chosen :
      (depth limit : ℕ) (b : Belief) (chosen : List Belief)
      → length chosen < limit
      → contains b.id (ids (add_with_premises depth beliefs limit [] b chosen)) ≡ true
  unfolding add_with_premises
  conclusion-chosen zero limit b chosen lt =
      go (contains b.id (ids chosen)) (leb limit (length chosen)) refl refl
    where
      go :
          (c full : Bool)
          → contains b.id (ids chosen) ≡ c
          → leb limit (length chosen) ≡ full
          → contains b.id
              (ids (if c || full || false then chosen else add_conclusion limit b chosen))
            ≡ true
      go true full e f = e
      go false true e f = absurd (ground arith)
      go false false e f = ground (arith, contains-snoc b.id chosen b, ==_refl b.id)
  conclusion-chosen (suc depth) limit b chosen lt =
      go (contains b.id (ids chosen)) (leb limit (length chosen)) refl refl (
        premises-bounded (add_with_premises depth beliefs (limit - 1) (b.id ∷ [])) (limit - 1)
          (add-bounded depth (limit - 1) (b.id ∷ [])) (sorted (all_premises b.justifications))
          chosen (omega arith))
    where
      after : List Belief
      after =
          add_premises (add_with_premises depth beliefs (limit - 1) (b.id ∷ [])) beliefs (limit - 1)
            (sorted (all_premises b.justifications)) chosen

      go :
          (c full : Bool)
          → contains b.id (ids chosen) ≡ c
          → leb limit (length chosen) ≡ full
          → length after ≤ limit - 1
          → contains b.id
              (ids (if c || full || false then chosen else add_conclusion limit b after))
            ≡ true
      go true full e f h = e
      go false true e f h = absurd (ground arith)
      go false false e f h = ground (arith, contains-snoc b.id after b, ==_refl b.id)

  choose-bounded :
      (depth limit : ℕ) (candidates chosen : List Belief)
      → length chosen ≤ limit
      → length (choose depth beliefs limit candidates chosen) ≤ limit
  unfolding choose
  choose-bounded depth limit [] chosen le = le
  choose-bounded depth limit (b ∷ candidates) chosen le = go (leb limit (length chosen)) (
      choose-bounded depth limit candidates (add_with_premises depth beliefs limit [] b chosen)
        (add-bounded depth limit [] b chosen le))
    where
      go :
          (t : Bool)
          → length (
              choose depth beliefs limit candidates
                (add_with_premises depth beliefs limit [] b chosen))
            ≤ limit
          → length (elim t as (λ _. List Belief) [
            | true ↦ chosen
            | false ↦
                choose depth beliefs limit candidates
                  (add_with_premises depth beliefs limit [] b chosen)
          ])
            ≤ limit
      go true q = le
      go false q = q

  -- For candidates that are IN or PENDING and a positive limit: at most `limit` beliefs are chosen,
  -- no identifier twice, each IN or PENDING, and the best candidate is among them, at whatever depth
  -- its premises are followed.
  pub choose-first :
      (depth limit : ℕ) (b : Belief) (candidates : List Belief)
      → All IsLive (b ∷ candidates)
      → 1 ≤ limit
      → (length (choose depth beliefs limit (b ∷ candidates) []) ≤ limit)
        × (distinct (ids (choose depth beliefs limit (b ∷ candidates) [])) ≡ true)
        × All IsLive (choose depth beliefs limit (b ∷ candidates) [])
        × (contains b.id (ids (choose depth beliefs limit (b ∷ candidates) [])) ≡ true)
  unfolding choose
  choose-first depth limit b candidates live one = (
    choose-bounded depth limit (b ∷ candidates) [] (omega arith),
    choose-keeps beliefs (λ c. distinct (ids c) ≡ true) (λ x c _ new d. distinct-snoc c x new d)
        depth limit (b ∷ candidates) [] live refl,
    choose-keeps beliefs (All IsLive) (λ x c l _ h. All-append IsLive c (x ∷ []) h (l, _)) depth
        limit (b ∷ candidates) [] live _,
    first (leb limit 0) refl,
  )
    where
      start : List Belief
      start = add_with_premises depth beliefs limit [] b []

      first :
          (t : Bool)
          → leb limit 0 ≡ t
          → contains b.id (
              ids (elim t as (λ _. List Belief) [
                | true ↦ []
                | false ↦ choose depth beliefs limit candidates start
              ]))
            ≡ true
      first true e = absurd (ground arith)
      first false e =
          choose-keeps beliefs (λ c. contains b.id (ids c) ≡ true)
            (λ x c _ _ h. ground (arith, contains-snoc b.id c x)) depth limit candidates start
            live.1 (conclusion-chosen depth limit b [] (omega arith))
