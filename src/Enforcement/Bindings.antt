-- ===== src/Enforcement/Bindings.antt =====
-- packages/core/src/belief_ledger_core/enforcement.py: `_binding_mismatch` against equality.
use belief_ledger_pramana.Prelude.{
  ℕ, ◌≡◌, refl, ◌↔◌, Bool, true, false, Option, none, some, List, [], ◌∷◌, arith, All, ==_refl,
  ==_iff, subst, sym, option_eq, option_eq_sound,
}
use belief_ledger_pramana.Enforcement.Tables.{ActionBinding, Reason}
use belief_ledger_pramana.Enforcement.Premises.{same_ids, first_failure, checks, binding_mismatch}

same_ids_sound : (xs ys : List ℕ) → same_ids xs ys ≡ true → xs ≡ ys
same_ids_sound [] [] h = refl
same_ids_sound (x ∷ xs) (y ∷ ys) h = ground (arith, same_ids_sound xs ys)
same_ids_sound [] (y ∷ ys) h = ground arith
same_ids_sound (x ∷ xs) [] h = ground arith

same_ids_refl : (xs : List ℕ) → same_ids xs xs ≡ true
same_ids_refl [] = refl
same_ids_refl (x ∷ xs) = ground (arith, same_ids_refl xs)

option_eq_refl : (o : Option ℕ) → option_eq o o ≡ true
option_eq_refl none = refl
option_eq_refl (some a) = ==_refl a

passed-All :
    (tests : List (Bool × Reason)) → first_failure tests ≡ none → All (λ t. t.0 ≡ true) tests
passed-All [] h = tt
passed-All ((true, reason) ∷ rest) h = (refl, passed-All rest h)
passed-All ((false, reason) ∷ rest) h = absurd (ground arith)

agreement :
    (x y : ActionBinding)
    → All (λ t. t.0 ≡ true) (checks x y)
    → x ≡ record y { schema_version = x.schema_version }
agreement x y q i = record {
  schema_version = x.schema_version;
  episode_id = (==_iff x.episode_id y.episode_id).0 (q.0) i;
  turn_id = (==_iff x.turn_id y.turn_id).0 (q.1.0) i;
  namespace = (==_iff x.namespace y.namespace).0 (q.1.1.0) i;
  tool_name = (==_iff x.tool_name y.tool_name).0 (q.1.1.1.0) i;
  arguments_hash = (==_iff x.arguments_hash y.arguments_hash).0 (q.1.1.1.1.0) i;
  target = (==_iff x.target y.target).0 (q.1.1.1.1.1.0) i;
  policy_id = (==_iff x.policy_id y.policy_id).0 (q.1.1.1.1.1.1.0) i;
  policy_revision = (==_iff x.policy_revision y.policy_revision).0 (q.1.1.1.1.1.1.1.0) i;
  canonicalization_version =
      (==_iff x.canonicalization_version y.canonicalization_version).0 (q.1.1.1.1.1.1.1.1.0) i;
  policy_content_digest =
      (==_iff x.policy_content_digest y.policy_content_digest).0 (q.1.1.1.1.1.1.1.1.1.0) i;
  config_content_digest =
      (==_iff x.config_content_digest y.config_content_digest).0 (q.1.1.1.1.1.1.1.1.1.1.0) i;
  stakes = (==_iff x.stakes y.stakes).0 (q.1.1.1.1.1.1.1.1.1.1.1.0) i;
  supporting_belief_ids =
      same_ids_sound x.supporting_belief_ids y.supporting_belief_ids (q.1.1.1.1.1.1.1.1.1.1.1.1.0)
        i;
  blocking_conflict_ids =
      same_ids_sound x.blocking_conflict_ids y.blocking_conflict_ids (q.1.1.1.1.1.1.1.1.1.1.1.1.1.0)
        i;
  approval_receipt_digest =
      option_eq_sound x.approval_receipt_digest y.approval_receipt_digest
        (q.1.1.1.1.1.1.1.1.1.1.1.1.1.1.0) i;
}

self_passes : (x : ActionBinding) → binding_mismatch x x ≡ none
unfolding binding_mismatch
self_passes x = simp (==_refl, same_ids_refl, option_eq_refl)

-- `_binding_mismatch` finds nothing exactly when the two bindings agree in every field but the
-- schema version.
pub binding_mismatch-eq_none_iff :
    (x y : ActionBinding)
    → (binding_mismatch x y ≡ none) ↔ (x ≡ record y { schema_version = x.schema_version })
unfolding binding_mismatch
binding_mismatch-eq_none_iff x y = (forward, backward)
  where
    forward : binding_mismatch x y ≡ none → x ≡ record y { schema_version = x.schema_version }
    forward h = agreement x y (passed-All (checks x y) h)

    backward : x ≡ record y { schema_version = x.schema_version } → binding_mismatch x y ≡ none
    backward e = subst (λ z. binding_mismatch z y ≡ none) (sym e) (self_passes y)
