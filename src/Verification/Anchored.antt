-- ===== src/Verification/Anchored.antt =====
-- packages/core/src/belief_ledger_core/verification/anchors.py: what a comparison with the anchors
-- tells, and what an append leaves of it.
use belief_ledger_pramana.Prelude.{
  ℕ, ◌≡◌, refl, sym, ap, ◌∙◌, Bool, true, false, ◌&&◌, not, none, some, List, [], ◌∷◌, all, select,
  ltb, ◌==◌, arith, if◌then◌else◌,
}
use belief_ledger_pramana.Ledger.Results.{Result, ok, raise, when_ok, ◌>>=◌, bind-ok}
use belief_ledger_pramana.Ledger.Events.{Ports}
use belief_ledger_pramana.Ledger.Projections.{Heads}
use belief_ledger_pramana.Ledger.Chain.{chain_state}
use belief_ledger_pramana.Ledger.Store.{Ledger}
use belief_ledger_pramana.Verification.Anchors.{
  AnchorRecord, AnchorStatus, AnchorComparison, AnchorReport, is_match, by_height, sort_by_height,
  compare_record, compare_each, compare_against_anchors, fetch, is_nil, root_at,
  anchor_verification,
}

ok_injective : {A : Type 0} {a b : A} → ok a ≡ ok b → a ≡ b
ok_injective h = ground (arith, h)

swap : (a b c : Bool) → a && (b && c) ≡ b && (a && c)
swap true b c = refl
swap false true c = refl
swap false false c = refl

module _ (test : AnchorRecord → Bool) where
  all-by_height :
      (r : AnchorRecord) (rs : List AnchorRecord)
      → all test (by_height r rs) ≡ (test r && all test rs)
  all-by_height r [] = refl
  all-by_height r (x ∷ xs) = go (ltb x.chain_height r.chain_height) (all-by_height r xs)
    where
      go :
          (b : Bool)
          → all test (by_height r xs) ≡ test r && all test xs
          → all test (if b then x ∷ by_height r xs else r ∷ x ∷ xs)
            ≡ test r && (test x && all test xs)
      go true e = ap (λ b. test x && b) e ∙ swap (test x) (test r) (all test xs)
      go false e = refl

  all-sort_by_height : (rs : List AnchorRecord) → all test (sort_by_height rs) ≡ all test rs
  all-sort_by_height [] = refl
  all-sort_by_height (r ∷ rs) =
      all-by_height r (sort_by_height rs) ∙ ap (λ b. test r && b) (all-sort_by_height rs)

-- A record whose height is reached and whose root is the local one.
abbrev pub agrees : (ℕ → Result ℕ) → ℕ → AnchorRecord → Bool
agrees local_root_at current_height r =
    not (ltb current_height r.chain_height)
    && when_ok (local_root_at r.chain_height) (λ e. false) (λ local. local == r.root_hash)

is_match-compare_record :
    (local_root_at : ℕ → Result ℕ) (current_height : ℕ) (r : AnchorRecord) (c : AnchorComparison)
    → compare_record local_root_at current_height r ≡ ok c
    → is_match c ≡ agrees local_root_at current_height r
unfolding compare_record ◌>>=◌
is_match-compare_record local_root_at current_height r c h =
    go (ltb current_height r.chain_height) (local_root_at r.chain_height) h
  where
    found : ℕ → AnchorComparison
    found local = record {
      chain_height = r.chain_height;
      anchored_root = r.root_hash;
      local_root = some local;
      status = if local == r.root_hash then AnchorStatus.matched else AnchorStatus.mismatch;
    }

    judged :
        (b : Bool)
        → (elim (if b then AnchorStatus.matched else AnchorStatus.mismatch) as (λ _. Bool) [
          | AnchorStatus.matched ↦ true
          | AnchorStatus.mismatch ↦ false
          | AnchorStatus.unreachable ↦ false
        ])
          ≡ b
    judged true = refl
    judged false = refl

    go :
        (b : Bool) (o : Result ℕ)
        → (if b
            then ok (record {
              chain_height = r.chain_height;
              anchored_root = r.root_hash;
              local_root = none;
              status = AnchorStatus.unreachable;
            })
            else when_ok o raise (λ local. ok (found local)))
          ≡ ok c
        → is_match c ≡ (not b && when_ok o (λ e. false) (λ local. local == r.root_hash))
    go true o k = ap {B = Bool} is_match (sym (ok_injective k))
    go false (ok local) k =
        ap {B = Bool} is_match (sym (ok_injective k)) ∙ judged (local == r.root_hash)
    go false (raise e) k = ground (arith, k)

all-compare_each :
    (local_root_at : ℕ → Result ℕ) (current_height : ℕ) (rs : List AnchorRecord)
    (cs : List AnchorComparison)
    → compare_each local_root_at current_height rs ≡ ok cs
    → all is_match cs ≡ all (agrees local_root_at current_height) rs
unfolding compare_each
all-compare_each local_root_at current_height [] cs h = ground (arith, h)
all-compare_each local_root_at current_height (r ∷ rs) cs h =
    let (c, e1, h1) = bind-ok _ _ cs h in
    let (rest, e2, h2) = bind-ok _ _ cs h1 in
    let same : c ∷ rest ≡ cs = ground (arith, h2) in
    ap (all is_match) (sym same)
    ∙ ap (λ b. b && all is_match rest) (is_match-compare_record local_root_at current_height r c e1)
    ∙ ap (λ b. agrees local_root_at current_height r && b)
        (all-compare_each local_root_at current_height rs rest e2)

pub is_nil-select :
    (cs : List AnchorComparison) → is_nil (select (λ c. not (is_match c)) cs) ≡ all is_match cs
is_nil-select [] = refl
is_nil-select (c ∷ cs) = go (is_match c) (is_nil-select cs)
  where
    go :
        (b : Bool)
        → is_nil (select (λ c. not (is_match c)) cs) ≡ all is_match cs
        → is_nil (
            if not b
            then c ∷ select (λ c. not (is_match c)) cs
            else select (λ c. not (is_match c)) cs)
          ≡ (b && all is_match cs)
    go true e = e
    go false e = refl

module _ (ports : Ports) (root : Heads → ℕ) where
  -- Where the verification of the anchors answers with a report: the report says that all is well
  -- exactly where each record of the file from the given height on has a height that the chain has
  -- reached and the root that the chain has at that height.
  pub anchor_verification_iff :
      (since_height : ℕ) (lines : List AnchorRecord) (l : Ledger) (report : AnchorReport)
      → anchor_verification ports root since_height lines l ≡ ok report
      → report.is_sound
        ≡ all (agrees (root_at ports root l) report.current_height) (fetch since_height lines)
  unfolding anchor_verification
  anchor_verification_iff since_height lines l report h =
      let (state, e1, h1) = bind-ok (chain_state ports root none l.auth l.events) _ report h in
      let (cs, e2, h2) =
        bind-ok
          (compare_against_anchors (root_at ports root l) state.chain_height
            (fetch since_height lines))
          _ report h1 in
      let same = ok_injective h2 in
      let height : report.current_height ≡ state.chain_height =
        ap (λ (r : AnchorReport). r.current_height) (sym same) in
      ap (λ (r : AnchorReport). r.is_sound) (sym same)
      ∙ is_nil-select cs
      ∙ all-compare_each (root_at ports root l) state.chain_height
          (sort_by_height (fetch since_height lines)) cs e2
      ∙ all-sort_by_height (agrees (root_at ports root l) state.chain_height)
          (fetch since_height lines)
      ∙ ap (λ n. all (agrees (root_at ports root l) n) (fetch since_height lines)) (sym height)
