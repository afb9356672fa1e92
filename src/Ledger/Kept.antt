-- ===== src/Ledger/Kept.antt =====
-- packages/core/src/belief_ledger_core/store.py: what a call leaves of the chain up to a height that was
-- reached, and that the chain up to the newest event is the whole chain.
use belief_ledger_pramana.Prelude.{
  ℕ, ◌≤◌, ◌≡◌, refl, sym, ap, subst, ◌∙◌, Bool, true, false, Option, none, some, List, [], ◌∷◌, map,
  All, ltb, arith,
}
use belief_ledger_pramana.Ledger.Results.{Result, ok, raise, when_ok, ◌>>=◌}
use belief_ledger_pramana.Ledger.Events.{Event, EventDraft, Correlation, Ports}
use belief_ledger_pramana.Ledger.Projections.{Heads}
use belief_ledger_pramana.Ledger.Chain.{max_head, check_event, scan, verified_heads}
use belief_ledger_pramana.Ledger.Budget.{release_llm_reservation}
use belief_ledger_pramana.Ledger.Reserved.{reserve_llm_budget-kept}
use belief_ledger_pramana.Ledger.Store.{
  Ledger, empty_ledger, max_seq, append, append_events, transaction, clean_correlation,
}
use belief_ledger_pramana.Ledger.Valid.{IsValid, empty_ledger-IsValid}
use belief_ledger_pramana.Ledger.Appends.{Appended, append-Appended, IsStored-IsValid}
use belief_ledger_pramana.Ledger.Heights.{max_seq-append, append_events-heads}
use belief_ledger_pramana.Ledger.Runs.{Call, step, step-IsValid, verified_heads-IsValid}
use belief_ledger_pramana.Ledger.Scan.{tagged, verified_heads_lem}
use belief_ledger_pramana.Ledger.Headed.{IsHeaded, append-IsHeaded}

-- What an append that raises, and one that answers, leave of a property of the database.
append_events_keeps :
    (ports : Ports) (fresh : ℕ → ℕ × ℕ) (episode_id : ℕ) (ds : List EventDraft) (c : Correlation)
    (key required : Option ℕ) (l : Ledger) (P : Ledger → Type 0)
    → P l
    → ((d : EventDraft) (ds : List EventDraft) (l' : Ledger) (es : List Event)
        → append ports fresh episode_id (d ∷ ds) (clean_correlation key c) key required l
          ≡ ok (es, l')
        → P l')
    → P (append_events ports fresh episode_id ds c key required l).1
unfolding append_events transaction
append_events_keeps ports fresh episode_id [] c key required l P p answered = p
append_events_keeps ports fresh episode_id (d ∷ ds) c key required l P p answered =
    go (append ports fresh episode_id (d ∷ ds) (clean_correlation key c) key required l) refl
  where
    go :
        (r : Result (List Event × Ledger))
        → append ports fresh episode_id (d ∷ ds) (clean_correlation key c) key required l ≡ r
        → P
            (when_ok {B = Result (List Event) × Ledger} r
              (λ e. (raise e, l))
              (λ r. (ok r.0, r.1))).1
    go (raise e) h = p
    go (ok (es, l')) h = answered d ds l' es h

module _ (ports : Ports) where
  step-IsHeaded : (c : Call) (l : Ledger) → IsHeaded l → IsHeaded (step ports c l)
  unfolding step release_llm_reservation
  step-IsHeaded (Call.append_call fresh episode_id ds c key required) l v =
      append_events_keeps ports fresh episode_id ds c key required l IsHeaded v (λ d ds l' es h.
        append-IsHeaded ports fresh episode_id (d ∷ ds) (clean_correlation key c) key required l l'
          es v h)
  step-IsHeaded (Call.reserve_call id now episode_id turn limits input output stale_after) l v =
      reserve_llm_budget-kept id now episode_id turn limits input output stale_after l IsHeaded
        (λ rows. record { headed = v.headed })
  step-IsHeaded (Call.release_call id) l v = record { headed = v.headed }

  max_seq-Appended :
      (episode_id : ℕ) (ds : List EventDraft) (c : Correlation) (key : Option ℕ) (l l' : Ledger)
      (es : List Event)
      → Appended ports episode_id ds c key l l' es
      → max_seq l.events ≤ max_seq l'.events
  max_seq-Appended episode_id ds c key l l' es (Appended.idle same nothing) =
      subst (λ x. max_seq l.events ≤ max_seq x.events) (sym same) (omega arith)
  max_seq-Appended episode_id ds c key l l' es (Appended.earlier k row _ _ _ same) =
      subst (λ x. max_seq l.events ≤ max_seq x.events) (sym same) (omega arith)
  max_seq-Appended episode_id ds c key l l' es (Appended.stored s) =
      subst (λ xs. max_seq l.events ≤ max_seq xs)
        (sym (IsStored-IsValid ports episode_id _ key _ l l' es s).1) (max_seq-append l.events es)

  -- What a call leaves of the chain up to a height that was reached.
  abbrev pub Keeps : Ledger → Ledger → Type 0
  Keeps l l' =
      (max_seq l.events ≤ max_seq l'.events)
      × ((height : ℕ)
          → height ≤ max_seq l.events
          → verified_heads ports (some height) l'.auth l'.events
            ≡ verified_heads ports (some height) l.auth l.events)

  pub step-Keeps : (c : Call) (l : Ledger) → IsValid ports l → Keeps l (step ports c l)
  unfolding step release_llm_reservation
  step-Keeps (Call.append_call fresh episode_id ds c key required) l v = (
    append_events_keeps ports fresh episode_id ds c key required l
        (λ l'. max_seq l.events ≤ max_seq l'.events) (omega arith)
        (λ d ds l' es h.
          max_seq-Appended episode_id (d ∷ ds) c key l l' es
            (append-Appended ports fresh episode_id d ds c key required l l' es v h)),
    λ height h. append_events-heads ports height fresh episode_id ds c key required l v h,
  )
  step-Keeps (Call.reserve_call id now episode_id turn limits input output stale_after) l v =
      reserve_llm_budget-kept id now episode_id turn limits input output stale_after l (Keeps l)
        (λ rows. (omega arith, λ height h. refl))
  step-Keeps (Call.release_call id) l v = (omega arith, λ height h. refl)

  -- A database that calls have left: valid, with the newest event at the greatest head.
  pub record IsSound (l : Ledger) : Type 0 where
    pub valid : IsValid ports l
    pub newest : IsHeaded l

  pub empty_ledger-IsSound : IsSound empty_ledger
  empty_ledger-IsSound = record {
    valid = empty_ledger-IsValid ports;
    newest = record { headed = refl };
  }

  pub step-IsSound : (c : Call) (l : Ledger) → IsSound l → IsSound (step ports c l)
  step-IsSound c l v = record {
    valid = step-IsValid ports c l v.valid;
    newest = step-IsHeaded c l v.newest;
  }

reached_by : (height : ℕ) (es : List Event) → max_seq es ≤ height → All (λ e. e.seq ≤ height) es
reached_by height [] h = _
reached_by height (e ∷ es) h = (ground (arith, h), reached_by height es (ground (arith, h)))

module _ (ports : Ports) where
  scan-reached :
      (height : ℕ) (es : List Event) (heads : Heads)
      → All (λ e. e.seq ≤ height) es
      → scan ports (some height) (map (tagged ports) es) heads
        ≡ scan ports none (map (tagged ports) es) heads
  unfolding scan ◌>>=◌
  scan-reached height [] heads h = refl
  scan-reached height (e ∷ es) heads h =
      go (ltb height e.seq) (ground (arith, h.0))
        (check_event ports e (ports.auth_tag e.id e.event_hash) heads)
        (λ hs. scan-reached height es hs h.1)
    where
      go :
          (b : Bool)
          → b ≡ false
          → (r : Result Heads)
          → ((hs : Heads)
              → scan ports (some height) (map (tagged ports) es) hs
                ≡ scan ports none (map (tagged ports) es) hs)
          → (elim b as (λ _. Result (Bool × Heads)) [
            | true ↦ ok (true, heads)
            | false ↦ r >>= scan ports (some height) (map (tagged ports) es)
          ])
            ≡ (r >>= scan ports none (map (tagged ports) es))
      go true e r rest = ground (arith, e)
      go false e (ok hs) rest = rest hs
      go false e (raise x) rest = refl

  -- The chain up to the newest event is the whole chain.
  pub verified_heads-newest :
      (l : Ledger)
      → IsSound ports l
      → verified_heads ports (some (max_head l.projections.heads)) l.auth l.events
        ≡ ok l.projections.heads
  verified_heads-newest l v =
      let height = max_head l.projections.heads in
      let reached = reached_by height l.events (omega (arith, v.newest.headed)) in
      verified_heads_lem ports (some height) l.auth l.events v.valid.authentic
      ∙ ap (λ r. r >>= λ r. ok r.1) (scan-reached height l.events [] reached)
      ∙ sym (verified_heads_lem ports none l.auth l.events v.valid.authentic)
      ∙ verified_heads-IsValid ports l v.valid
