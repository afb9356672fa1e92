-- ===== src/Verification/Anchors.antt =====
-- packages/core/src/belief_ledger_core/verification/anchors.py, and the commands of
-- belief_ledger_pramana/hermes/cli.py that publish an anchor of the hash chain and compare the
-- anchors with the chain. A line of the sink's file stands for the record that its JSON encodes.
use belief_ledger_pramana.Prelude.{
  ℕ, Bool, true, false, not, Option, none, some, List, [], ◌∷◌, ◌++◌, select, ltb, ◌==◌,
  if◌then◌else◌,
}
use belief_ledger_pramana.Ledger.Results.{Result, ok, ◌>>=◌}
use belief_ledger_pramana.Ledger.Events.{Ports}
use belief_ledger_pramana.Ledger.Projections.{Heads}
use belief_ledger_pramana.Ledger.Chain.{ChainState, chain_state}
use belief_ledger_pramana.Ledger.Store.{Ledger}

pub record AnchorRecord : Type 0 where
  pub ledger_id : ℕ
  pub scope : ℕ
  pub chain_height : ℕ
  pub root_hash : ℕ
  pub hash_algorithm : ℕ
  pub created_at : ℕ
  pub package_version : ℕ
  pub record_version : ℕ

-- The texts of `status`.
pub data AnchorStatus : Type 0 where
  matched mismatch unreachable : AnchorStatus

pub record AnchorComparison : Type 0 where
  pub chain_height : ℕ
  pub anchored_root : ℕ
  pub local_root : Option ℕ
  pub status : AnchorStatus

-- `AnchorComparison.ok`
abbrev pub is_match : AnchorComparison → Bool
is_match c = elim c.status as (λ _. Bool) [
  | AnchorStatus.matched ↦ true
  | AnchorStatus.mismatch ↦ false
  | AnchorStatus.unreachable ↦ false
]

-- What names the ledger, the scope, the algorithm, the time and the package of a record.
pub record AnchorLabels : Type 0 where
  pub ledger_id : ℕ
  pub scope : ℕ
  pub hash_algorithm : ℕ
  pub created_at : ℕ
  pub package_version : ℕ

abbrev pub build_record : AnchorLabels → ChainState → AnchorRecord
build_record labels state = record {
  ledger_id = labels.ledger_id;
  scope = labels.scope;
  chain_height = state.chain_height;
  root_hash = state.root_hash;
  hash_algorithm = labels.hash_algorithm;
  created_at = labels.created_at;
  package_version = labels.package_version;
  record_version = 1;
}

-- `sorted(records, key=...)`, which keeps the order of records of one height.
abbrev pub by_height : AnchorRecord → List AnchorRecord → List AnchorRecord
by_height r [] = r ∷ []
by_height r (x ∷ xs) =
    let rest = by_height r xs in if ltb x.chain_height r.chain_height then x ∷ rest else r ∷ x ∷ xs

abbrev pub sort_by_height : List AnchorRecord → List AnchorRecord
sort_by_height [] = []
sort_by_height (r ∷ rs) = by_height r (sort_by_height rs)

-- The body of the loop of `compare_against_anchors`.
unfoldable pub compare_record : (ℕ → Result ℕ) → ℕ → AnchorRecord → Result AnchorComparison
compare_record local_root_at current_height r =
    if ltb current_height r.chain_height
    then ok (record {
      chain_height = r.chain_height;
      anchored_root = r.root_hash;
      local_root = none;
      status = AnchorStatus.unreachable;
    })
    else local_root_at r.chain_height >>= λ local. ok (record {
      chain_height = r.chain_height;
      anchored_root = r.root_hash;
      local_root = some local;
      status = if local == r.root_hash then AnchorStatus.matched else AnchorStatus.mismatch;
    })

unfoldable pub compare_each :
    (ℕ → Result ℕ) → ℕ → List AnchorRecord → Result (List AnchorComparison)
compare_each local_root_at current_height [] = ok []
compare_each local_root_at current_height (r ∷ rs) = do
  c ← compare_record local_root_at current_height r
  cs ← compare_each local_root_at current_height rs
  ok (c ∷ cs)

abbrev pub compare_against_anchors :
    (ℕ → Result ℕ) → ℕ → List AnchorRecord → Result (List AnchorComparison)
compare_against_anchors local_root_at current_height records =
    compare_each local_root_at current_height (sort_by_height records)

-- `FileAnchorSink.publish` and `fetch` on the lines of the file.
abbrev pub publish : AnchorRecord → List AnchorRecord → List AnchorRecord
publish r lines = lines ++ (r ∷ [])

abbrev pub fetch : ℕ → List AnchorRecord → List AnchorRecord
fetch since_height lines = select (λ r. not (ltb r.chain_height since_height)) lines

pub record AnchorReport : Type 0 where
  pub is_sound : Bool
  pub current_height : ℕ
  pub current_root : ℕ
  pub failures : List AnchorComparison
  pub comparisons : List AnchorComparison

abbrev pub is_nil : List AnchorComparison → Bool
is_nil [] = true
is_nil (_ ∷ _) = false

module _ (ports : Ports) (root : Heads → ℕ) where
  -- `store.chain_state(up_to_height=height).root_hash`
  abbrev pub root_at : Ledger → ℕ → Result ℕ
  root_at l height =
      chain_state ports root (some height) l.auth l.events >>= λ state. ok state.root_hash

  -- `_anchor_publish`, with the lines of the sink before and after.
  unfoldable pub anchor_publish :
      AnchorLabels → Ledger → List AnchorRecord → Result (List AnchorRecord)
  anchor_publish labels l lines = do
    state ← chain_state ports root none l.auth l.events
    ok (publish (build_record labels state) lines)

  -- `_anchor_verification`
  unfoldable pub anchor_verification : ℕ → List AnchorRecord → Ledger → Result AnchorReport
  anchor_verification since_height lines l = do
    state ← chain_state ports root none l.auth l.events
    cs ← compare_against_anchors (root_at l) state.chain_height (fetch since_height lines)
    let failures = select (λ c. not (is_match c)) cs
    ok (record {
      is_sound = is_nil failures;
      current_height = state.chain_height;
      current_root = state.root_hash;
      failures = failures;
      comparisons = cs;
    })
