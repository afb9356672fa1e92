-- ===== src/Verification/Published.antt =====
-- packages/core/src/belief_ledger_core/verification/anchors.py with store.py: calls of the store mixed
-- with publications of anchors, and what the verification then reports.
use belief_ledger_pramana.Prelude.{
  ℕ, ◌≤◌, ◌≡◌, refl, sym, ap, subst, ◌∙◌, Bool, true, false, not, none, some, List, [], ◌∷◌, all,
  select, All, All-append, ltb, ==_refl, arith, if◌then◌else◌,
}
use belief_ledger_pramana.Ledger.Results.{Result, ok, when_ok, ◌>>=◌}
use belief_ledger_pramana.Ledger.Events.{Ports}
use belief_ledger_pramana.Ledger.Projections.{Heads}
use belief_ledger_pramana.Ledger.Chain.{ChainState, chain_state, max_head}
use belief_ledger_pramana.Ledger.Store.{Ledger, empty_ledger, max_seq}
use belief_ledger_pramana.Ledger.Runs.{Call, step, verified_heads-IsValid}
use belief_ledger_pramana.Ledger.Batches.{All-imp}
use belief_ledger_pramana.Ledger.Kept.{
  Keeps, step-Keeps, IsSound, empty_ledger-IsSound, step-IsSound, verified_heads-newest,
}
use belief_ledger_pramana.Verification.Anchors.{
  AnchorLabels, AnchorRecord, AnchorStatus, AnchorComparison, AnchorReport, is_match, build_record,
  by_height, sort_by_height, compare_record, compare_each, publish, fetch, is_nil, root_at,
  anchor_publish, anchor_verification,
}
use belief_ledger_pramana.Verification.Anchored.{is_nil-select}

-- A call of the store, or a publication of the chain as it is.
pub data AnchorCall : Type 0 where
  store_call : Call → AnchorCall
  publish_call : AnchorLabels → AnchorCall

module _ (ports : Ports) (root : Heads → ℕ) where
  -- The database and the lines of the sink after a call. A publication that raises writes nothing.
  unfoldable pub anchor_step : AnchorCall → Ledger × List AnchorRecord → Ledger × List AnchorRecord
  anchor_step (AnchorCall.store_call c) s = (step ports c s.0, s.1)
  anchor_step (AnchorCall.publish_call labels) s =
      (s.0, when_ok (anchor_publish ports root labels s.0 s.1) (λ e. s.1) (λ lines. lines))

  unfoldable pub anchor_run :
      List AnchorCall → Ledger × List AnchorRecord → Ledger × List AnchorRecord
  anchor_run [] s = s
  anchor_run (c ∷ cs) s = anchor_run cs (anchor_step c s)

module _ (P : AnchorRecord → Type 0) where
  All-by_height :
      (r : AnchorRecord) (rs : List AnchorRecord) → P r → All P rs → All P (by_height r rs)
  All-by_height r [] p h = (p, _)
  All-by_height r (x ∷ xs) p h = go (ltb x.chain_height r.chain_height) (All-by_height r xs p h.1)
    where
      go :
          (b : Bool) → All P (by_height r xs) → All P (if b then x ∷ by_height r xs else r ∷ x ∷ xs)
      go true k = (h.0, k)
      go false k = (p, h)

  All-sort_by_height : (rs : List AnchorRecord) → All P rs → All P (sort_by_height rs)
  All-sort_by_height [] h = _
  All-sort_by_height (r ∷ rs) h =
      All-by_height r (sort_by_height rs) h.0 (All-sort_by_height rs h.1)

  All-fetch : (since : ℕ) (rs : List AnchorRecord) → All P rs → All P (fetch since rs)
  All-fetch since [] h = _
  All-fetch since (r ∷ rs) h = go (not (ltb r.chain_height since)) (All-fetch since rs h.1)
    where
      go :
          (b : Bool)
          → All P (fetch since rs)
          → All P (if b then r ∷ fetch since rs else fetch since rs)
      go true k = (h.0, k)
      go false k = k

-- The comparisons of records that stand in the chain.
abbrev IsLocal : (ℕ → Result ℕ) → ℕ → AnchorRecord → Type 0
IsLocal local_root_at current_height r =
    (r.chain_height ≤ current_height) × (local_root_at r.chain_height ≡ ok r.root_hash)

abbrev match_of : AnchorRecord → AnchorComparison
match_of r = record {
  chain_height = r.chain_height;
  anchored_root = r.root_hash;
  local_root = some r.root_hash;
  status = AnchorStatus.matched;
}

compare_record-IsLocal :
    (local_root_at : ℕ → Result ℕ) (current_height : ℕ) (r : AnchorRecord)
    → IsLocal local_root_at current_height r
    → compare_record local_root_at current_height r ≡ ok (match_of r)
unfolding compare_record ◌>>=◌
compare_record-IsLocal local_root_at current_height r h =
    let here : ltb current_height r.chain_height ≡ false = ground (arith, h.0) in
    rw (here, h.1, ==_refl r.root_hash) refl

compare_each-IsLocal :
    (local_root_at : ℕ → Result ℕ) (current_height : ℕ) (rs : List AnchorRecord)
    → All (IsLocal local_root_at current_height) rs
    → (cs : List AnchorComparison) × (compare_each local_root_at current_height rs ≡ ok cs)
      × (all is_match cs ≡ true)
unfolding compare_each ◌>>=◌
compare_each-IsLocal local_root_at current_height [] h = ([], refl, refl)
compare_each-IsLocal local_root_at current_height (r ∷ rs) h =
    let (cs, e, m) = compare_each-IsLocal local_root_at current_height rs h.1 in
    (match_of r ∷ cs, rw (compare_record-IsLocal local_root_at current_height r h.0, e) refl, m)

module _ (ports : Ports) (root : Heads → ℕ) where
  -- A record that stands in the chain of a database.
  abbrev Stands : Ledger → AnchorRecord → Type 0
  Stands l r = IsLocal (root_at ports root l) (max_seq l.events) r

  -- What the lines of the sink are to the database.
  record IsAnchored (s : Ledger × List AnchorRecord) : Type 0 where
    pub sound : IsSound ports s.0
    pub anchored : All (Stands s.0) s.1

  Stands-Keeps : (l l' : Ledger) (r : AnchorRecord) → Keeps ports l l' → Stands l r → Stands l' r
  unfolding chain_state
  Stands-Keeps l l' r keeps h = (
    omega (arith, keeps.0, h.0),
    ap
          (λ heads.
            (heads >>= λ hs.
            ok (record { chain_height = max_head hs; root_hash = root hs; heads = hs }))
            >>= λ (state : ChainState). ok state.root_hash)
          (keeps.1 r.chain_height h.0)
        ∙ h.1,
  )

  abbrev state_of : Heads → ChainState
  state_of heads = record { chain_height = max_head heads; root_hash = root heads; heads = heads }

  chain_state-IsSound :
      (l : Ledger)
      → IsSound ports l
      → chain_state ports root none l.auth l.events ≡ ok (state_of l.projections.heads)
  unfolding chain_state ◌>>=◌
  chain_state-IsSound l v = rw (verified_heads-IsValid ports l v.valid) refl

  build_record-Stands :
      (labels : AnchorLabels) (l : Ledger)
      → IsSound ports l
      → Stands l (build_record labels (state_of l.projections.heads))
  unfolding chain_state ◌>>=◌
  build_record-Stands labels l v =
      (omega (arith, v.newest.headed), rw (verified_heads-newest ports l v) refl)

  anchor_publish-IsSound :
      (labels : AnchorLabels) (l : Ledger) (lines : List AnchorRecord)
      → IsSound ports l
      → anchor_publish ports root labels l lines
        ≡ ok (publish (build_record labels (state_of l.projections.heads)) lines)
  unfolding anchor_publish ◌>>=◌
  anchor_publish-IsSound labels l lines v = rw (chain_state-IsSound l v) refl

  anchor_step-IsAnchored :
      (c : AnchorCall) (s : Ledger × List AnchorRecord)
      → IsAnchored s
      → IsAnchored (anchor_step ports root c s)
  unfolding anchor_step
  anchor_step-IsAnchored (AnchorCall.store_call c) s v = record {
    sound = step-IsSound ports c s.0 v.sound;
    anchored =
        All-imp (Stands s.0) (Stands (step ports c s.0))
          (λ r h. Stands-Keeps s.0 (step ports c s.0) r (step-Keeps ports c s.0 v.sound.valid) h)
          s.1 v.anchored;
  }
  anchor_step-IsAnchored (AnchorCall.publish_call labels) s v = record {
    sound = v.sound;
    anchored =
        subst (λ r. All (Stands s.0) (when_ok r (λ e. s.1) (λ lines. lines)))
          (sym (anchor_publish-IsSound labels s.0 s.1 v.sound))
          (All-append (Stands s.0) s.1 (build_record labels (state_of s.0.projections.heads) ∷ [])
            v.anchored (build_record-Stands labels s.0 v.sound, _));
  }

  anchor_run-IsAnchored :
      (cs : List AnchorCall) (s : Ledger × List AnchorRecord)
      → IsAnchored s
      → IsAnchored (anchor_run ports root cs s)
  unfolding anchor_run
  anchor_run-IsAnchored [] s v = v
  anchor_run-IsAnchored (c ∷ cs) s v =
      anchor_run-IsAnchored cs (anchor_step ports root c s) (anchor_step-IsAnchored c s v)

  anchor_verification-IsAnchored :
      (since_height : ℕ) (s : Ledger × List AnchorRecord)
      → IsAnchored s
      → (report : AnchorReport) × (anchor_verification ports root since_height s.1 s.0 ≡ ok report)
        × (report.is_sound ≡ true)
        × (report.current_height ≡ max_seq s.0.events)
  unfolding anchor_verification ◌>>=◌
  anchor_verification-IsAnchored since_height s v =
      let heads = s.0.projections.heads in
      let local = IsLocal (root_at ports root s.0) in
      let here : All (local (max_head heads)) s.1 =
        subst (λ n. All (local n) s.1) (sym v.sound.newest.headed) v.anchored in
      let (cs, e, m) =
        compare_each-IsLocal (root_at ports root s.0) (max_head heads)
          (sort_by_height (fetch since_height s.1))
          (All-sort_by_height (local (max_head heads)) (fetch since_height s.1)
            (All-fetch (local (max_head heads)) since_height s.1 here)) in
      (
        record {
          is_sound = is_nil (select (λ c. not (is_match c)) cs);
          current_height = max_head heads;
          current_root = root heads;
          failures = select (λ c. not (is_match c)) cs;
          comparisons = cs;
        },
        rw (chain_state-IsSound s.0 v.sound, e) refl,
        is_nil-select cs ∙ m,
        v.sound.newest.headed,
      )

  -- After any sequence of calls of the store and publications of anchors that begins with an empty
  -- database and an empty file, calls that raised included: the verification of the anchors answers
  -- with a report from whatever height, the report says that all is well, and the current height in
  -- it is that of the newest event.
  pub anchor_verification-calls :
      (calls : List AnchorCall) (since_height : ℕ)
      → (report : AnchorReport) × (anchor_verification ports root since_height
            (anchor_run ports root calls (empty_ledger, [])).1
            (anchor_run ports root calls (empty_ledger, [])).0
          ≡ ok report)
        × (report.is_sound ≡ true)
        × (report.current_height
            ≡ max_seq (anchor_run ports root calls (empty_ledger, [])).0.events)
  anchor_verification-calls calls since_height =
      anchor_verification-IsAnchored since_height (anchor_run ports root calls (empty_ledger, [])) (
        anchor_run-IsAnchored calls (empty_ledger, [])
          (record { sound = empty_ledger-IsSound ports; anchored = _ }))
