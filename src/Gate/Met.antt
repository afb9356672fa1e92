-- ===== src/Gate/Met.antt =====
-- packages/core/src/belief_ledger_core/gate/decision.py and preconditions.py: what a precondition that
-- the gate takes as met stands for.
use belief_ledger_pramana.Prelude.{
  ℕ, ◌≡◌, refl, ap, ◌⊎◌, inl, inr, Bool, true, false, ◌||◌, not, Option, none, some, List, [], ◌∷◌,
  ◌++◌, map, any, In, arith, on_option, if◌then◌else◌,
}
use Prim.Native.String.{String}
use belief_ledger_pramana.Models.{Belief, Stakes, Value}
use belief_ledger_pramana.Gate.Preconditions.{
  Name, Texts, PreconditionResult, is_confirmation, target_of, proposition, entailing_belief,
  conflict_affects_target, resolve_name,
}
use belief_ledger_pramana.Gate.Decision.{
  ActionPolicy, GateConfig, LedgerView, names_for, elevate, missing_of, checks_for,
}
use belief_ledger_pramana.Gate.Checks.{IsAdmitted, elevate-satisfied, missing_of-none}

is_confirmation-In :
    (names : List Name)
    → any is_confirmation names ≡ true
    → In Name.explicit_user_confirmation names
is_confirmation-In [] h = absurd (ground (arith, h))
is_confirmation-In (n ∷ rest) h = split n h (is_confirmation-In rest)
  where
    split :
        (m : Name)
        → (is_confirmation m || any is_confirmation rest) ≡ true
        → (any is_confirmation rest ≡ true → In Name.explicit_user_confirmation rest)
        → (Name.explicit_user_confirmation ≡ m) ⊎ In Name.explicit_user_confirmation rest
    split Name.explicit_user_confirmation k later = inl refl
    split Name.no_open_conflict k later = inr (later k)
    split Name.target_exists k later = inr (later k)
    split Name.parent_exists k later = inr (later k)
    split Name.environment_known k later = inr (later k)
    split Name.resource_identity k later = inr (later k)
    split Name.operator_policy k later = inr (later k)
    split Name.version_freshness k later = inr (later k)
    split (Name.named x) k later = inr (later k)

In-last : (n : Name) (names : List Name) → In n (names ++ n ∷ [])
In-last n [] = inl refl
In-last n (m ∷ rest) = inr (In-last n rest)

-- Where critical actions want a confirmation, it is among the names of a critical action.
pub names_for-confirmation :
    (config : GateConfig) (policy : ActionPolicy) (stakes : Stakes)
    → config.critical_human_confirmation ≡ true
    → stakes ≡ Stakes.critical
    → In Name.explicit_user_confirmation (names_for config policy stakes)
unfolding names_for
names_for-confirmation config policy stakes wanted is_top =
    rw (is_top, wanted)
      (split (any is_confirmation policy.preconditions) (is_confirmation-In policy.preconditions))
  where
    split :
        (t : Bool)
        → (t ≡ true → In Name.explicit_user_confirmation policy.preconditions)
        → In Name.explicit_user_confirmation (
            if not t
            then policy.preconditions ++ Name.explicit_user_confirmation ∷ []
            else policy.preconditions)
    split true k = k refl
    split false k = In-last Name.explicit_user_confirmation policy.preconditions

not-true : (b : Bool) → not b ≡ true → b ≡ false
not-true b h = ground arith

-- An element of a list has its image in the mapped list.
map-In : {A B : Type 0} (f : A → B) (a : A) (xs : List A) → In a xs → In (f a) (map f xs)
map-In f a [] k = absurd k
map-In f a (x ∷ xs) (inl e) = inl (ap f e)
map-In f a (x ∷ xs) (inr k) = inr (map-In f a xs k)

module _ (texts : Texts) (config : GateConfig) (view : LedgerView) (policy : ActionPolicy)
    (args : List (String × Value)) (stakes : Stakes) where
  -- What a name stands for when the gate takes it as met: no conflict affects the target, or the
  -- proposition of the name is the content of a belief that is IN and is admitted at the stakes.
  pub data IsMet : Name → Type 0 where
    unconflicted :
        any
            (conflict_affects_target texts (target_of texts args policy.target_fields) view.beliefs)
            view.conflicts
          ≡ false
        → IsMet Name.no_open_conflict
    entailed :
        (n : Name) (b : Belief)
        → is_confirmation n ≡ false
        → entailing_belief texts
            (proposition texts (target_of texts args policy.target_fields) n).0
            view.beliefs
            view.sources
            policy.minimum_priority
          ≡ some b
        → IsAdmitted config view stakes b.id
        → IsMet n

  abbrev resolved : Name → PreconditionResult
  resolved n =
      resolve_name texts (target_of texts args policy.target_fields) view.beliefs view.sources
        view.conflicts policy.minimum_priority n

  entails-IsMet :
      (n : Name)
      → is_confirmation n ≡ false
      → let o =
          entailing_belief texts
            (proposition texts (target_of texts args policy.target_fields) n).0
            view.beliefs
            view.sources
            policy.minimum_priority in
        on_option o false (λ _. true) ≡ true
        → ((id : ℕ)
            → on_option o none (λ (b : Belief). some b.id) ≡ some id
            → IsAdmitted config view stakes id)
        → IsMet n
  entails-IsMet n plain h admitted =
      split
        (entailing_belief texts (proposition texts (target_of texts args policy.target_fields) n).0
          view.beliefs view.sources policy.minimum_priority)
        refl h admitted
    where
      split :
          (o : Option Belief)
          → entailing_belief texts
              (proposition texts (target_of texts args policy.target_fields) n).0
              view.beliefs
              view.sources
              policy.minimum_priority
            ≡ o
          → on_option o false (λ _. true) ≡ true
          → ((id : ℕ)
              → on_option o none (λ (b : Belief). some b.id) ≡ some id
              → IsAdmitted config view stakes id)
          → IsMet n
      split none e k a = absurd (ground (arith, k))
      split (some b) e k a = entailed n b plain e (a b.id refl)

  -- A confirmation is never met by the ledger.
  pub IsMet-plain : (n : Name) → IsMet n → is_confirmation n ≡ false
  IsMet-plain n (unconflicted h) = refl
  IsMet-plain n (entailed m b plain e a) = plain

  resolved-IsMet :
      (n : Name)
      → (resolved n).satisfied ≡ true
      → ((id : ℕ) → (resolved n).belief_id ≡ some id → IsAdmitted config view stakes id)
      → IsMet n
  unfolding resolve_name
  resolved-IsMet Name.no_open_conflict h admitted = unconflicted (not-true _ h)
  resolved-IsMet Name.explicit_user_confirmation h admitted = absurd (ground (arith, h))
  resolved-IsMet Name.target_exists h admitted = entails-IsMet Name.target_exists refl h admitted
  resolved-IsMet Name.parent_exists h admitted = entails-IsMet Name.parent_exists refl h admitted
  resolved-IsMet Name.environment_known h admitted =
      entails-IsMet Name.environment_known refl h admitted
  resolved-IsMet Name.resource_identity h admitted =
      entails-IsMet Name.resource_identity refl h admitted
  resolved-IsMet Name.operator_policy h admitted =
      entails-IsMet Name.operator_policy refl h admitted
  resolved-IsMet Name.version_freshness h admitted =
      entails-IsMet Name.version_freshness refl h admitted
  resolved-IsMet (Name.named x) h admitted = entails-IsMet (Name.named x) refl h admitted

  -- Where no check is missing, every name is met.
  pub checks_for-IsMet :
      missing_of (checks_for texts config view policy args stakes) ≡ []
      → (n : Name) → In n (names_for config policy stakes)
      → IsMet n
  unfolding checks_for
  checks_for-IsMet h n member =
      let check =
        map-In (elevate config view stakes) (resolved n) _
          (map-In resolved n (names_for config policy stakes) member) in
      let (satisfied, admitted) =
        elevate-satisfied config view stakes (resolved n)
          (missing_of-none _ (elevate config view stakes (resolved n)) h check) in
      resolved-IsMet n satisfied admitted
