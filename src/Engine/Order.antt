-- ===== src/Engine/Order.antt =====
-- packages/core/src/belief_ledger_core/engine/priority.py: the comparison of traces as an order.
use belief_ledger_pramana.Prelude.{◌≡◌, refl, Bool, none, some, List, [], ◌∷◌, arith, ℤ, on_option}
use belief_ledger_pramana.Models.{Pramana, is_anupalabdhi}
use belief_ledger_pramana.Engine.Priority.{
  PriorityTrace, Verdict, attacker_wins, target_wins, tied, Field, compare_key, value, fields,
  compare_values, fixed_rule_of, compare_traces,
}

-- The verdict seen from the other side.
abbrev pub flip : Verdict → Verdict
flip attacker_wins = target_wins
flip target_wins = attacker_wins
flip tied = tied

compare_key-flip :
    (a b : ℤ) → compare_key b a ≡ on_option (compare_key a b) none (λ v. some (flip v))
compare_key-flip a b = ground arith

compare_values-flip :
    (fs : List Field) (xs ys : List ℤ)
    → compare_values fs ys xs ≡ (flip (compare_values fs xs ys).0, (compare_values fs xs ys).1)
unfolding compare_values
compare_values-flip (f ∷ fs) (x ∷ xs) (y ∷ ys) =
    ground (arith, compare_key-flip x y, compare_values-flip fs xs ys)
compare_values-flip [] xs ys = refl
compare_values-flip (f ∷ fs) [] [] = refl
compare_values-flip (f ∷ fs) [] (y ∷ ys) = refl
compare_values-flip (f ∷ fs) (x ∷ xs) [] = refl

fixed_rule_of-flip :
    (p q : Bool) → fixed_rule_of q p ≡ on_option (fixed_rule_of p q) none (λ v. some (flip v))
unfolding fixed_rule_of
fixed_rule_of-flip p q = ground arith

-- On the traces of two beliefs, swapping the two sides swaps the verdict and keeps the decisive field.
pub compare_traces-flip :
    (p q : Pramana) (a t : PriorityTrace)
    → ((compare_traces q p t a).result ≡ flip (compare_traces p q a t).result)
      × ((compare_traces q p t a).decisive_field ≡ (compare_traces p q a t).decisive_field)
unfolding compare_traces
compare_traces-flip p q a t = ground (
  arith,
  fixed_rule_of-flip (is_anupalabdhi p) (is_anupalabdhi q),
  compare_values-flip fields (value a) (value t),
)

compare_values_trans :
    (fs : List Field) (xs ys zs : List ℤ)
    → (compare_values fs xs ys).0 ≡ attacker_wins
    → (compare_values fs ys zs).0 ≡ attacker_wins
    → (compare_values fs xs zs).0 ≡ attacker_wins
unfolding compare_values
compare_values_trans (f ∷ fs) (x ∷ xs) (y ∷ ys) (z ∷ zs) h k =
    ground (arith, compare_values_trans fs xs ys zs)
compare_values_trans [] xs ys zs h k = cc
compare_values_trans (f ∷ fs) [] ys zs h k = absurd (ground arith)
compare_values_trans (f ∷ fs) (x ∷ xs) [] zs h k = absurd (ground arith)
compare_values_trans (f ∷ fs) (x ∷ xs) (y ∷ ys) [] h k = absurd (ground arith)

-- On the traces of three beliefs, winning is transitive, also across the fixed rule.
pub compare_traces_trans :
    (p q r : Pramana) (a b c : PriorityTrace)
    → (compare_traces p q a b).result ≡ attacker_wins
    → (compare_traces q r b c).result ≡ attacker_wins
    → (compare_traces p r a c).result ≡ attacker_wins
unfolding compare_traces fixed_rule_of
compare_traces_trans p q r a b c h k =
    ground (arith, compare_values_trans fields (value a) (value b) (value c))
