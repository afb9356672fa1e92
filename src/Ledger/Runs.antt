-- ===== src/Ledger/Runs.antt =====
-- packages/core/src/belief_ledger_core/store.py: sequences of calls of the store's operations, and
-- what the verification of the hash chain finds after them.
use belief_ledger_pramana.Prelude.{
  ℕ, ◌≡◌, refl, sym, subst, ◌∙◌, Bool, true, false, Option, none, some, List, [], ◌∷◌, ==_refl, ℤ,
}
use belief_ledger_pramana.Ledger.Results.{Result, ok, raise, when_ok, ◌>>=◌}
use belief_ledger_pramana.Ledger.Events.{EventDraft, Correlation, Ports}
use belief_ledger_pramana.Ledger.Projections.{Heads, lookup}
use belief_ledger_pramana.Ledger.Chain.{verified_heads, same_head, agree_on, same_heads}
use belief_ledger_pramana.Ledger.Store.{
  Ledger, empty_ledger, transaction, append, append_events, clean_correlation, verify_hash_chain,
}
use belief_ledger_pramana.Ledger.Budget.{Limits, reserve_llm_budget, release_llm_reservation}
use belief_ledger_pramana.Ledger.Reserved.{reserve_llm_budget-kept}
use belief_ledger_pramana.Ledger.Scan.{verified_heads_lem}
use belief_ledger_pramana.Ledger.Valid.{IsValid, empty_ledger-IsValid}
use belief_ledger_pramana.Ledger.Appends.{Appended, append-Appended, IsStored-IsValid}

-- A call of an operation that writes, with what it draws from outside.
pub data Call : Type 0 where
  append_call : (ℕ → ℕ × ℕ) → ℕ → List EventDraft → Correlation → Option ℕ → Option ℕ → Call
  reserve_call : ℕ → ℕ → ℕ → ℕ → Limits → ℤ → ℤ → ℕ → Call
  release_call : ℕ → Call

module _ (ports : Ports) where
  -- The database after a call, whether it raised or not.
  unfoldable pub step : Call → Ledger → Ledger
  step (Call.append_call fresh episode_id drafts correlation key required) l =
      (append_events ports fresh episode_id drafts correlation key required l).1
  step (Call.reserve_call id now episode_id turn limits input output stale_after) l =
      (reserve_llm_budget id now episode_id turn limits input output stale_after l).1
  step (Call.release_call id) l = release_llm_reservation id l

  unfoldable pub run : List Call → Ledger → Ledger
  unfolding step
  run [] l = l
  run (c ∷ cs) l = run cs (step c l)

same_head_refl : (o : Option (ℕ × ℕ)) → same_head o o ≡ true
same_head_refl none = refl
same_head_refl (some (a, b)) = rw (==_refl a, ==_refl b) refl

agree_on_refl : (keys xs : Heads) → agree_on keys xs xs ≡ true
agree_on_refl [] xs = refl
agree_on_refl (k ∷ keys) xs = rw (same_head_refl (lookup k.0 xs), agree_on_refl keys xs) refl

same_heads_refl : (xs : Heads) → same_heads xs xs ≡ true
same_heads_refl xs = rw (agree_on_refl xs xs) refl

module _ (ports : Ports) where
  -- Only the reservations differ.
  pub reservations-IsValid :
      (l : Ledger) (rows : _) → IsValid ports l → IsValid ports (record l { reservations = rows })
  reservations-IsValid l rows v = record {
    chained = v.chained;
    authentic = v.authentic;
    projected = v.projected;
  }

  Appended-IsValid :
      (episode_id : ℕ) (ds : List EventDraft) (c : Correlation) (key : Option ℕ) (l l' : Ledger)
      (es : _)
      → IsValid ports l
      → Appended ports episode_id ds c key l l' es
      → IsValid ports l'
  Appended-IsValid episode_id ds c key l l' es v (Appended.idle same nothing) =
      subst (IsValid ports) (sym same) v
  Appended-IsValid episode_id ds c key l l' es v (Appended.earlier k row _ _ _ same) =
      subst (IsValid ports) (sym same) v
  Appended-IsValid episode_id ds c key l l' es v (Appended.stored s) =
      (IsStored-IsValid ports episode_id _ key _ l l' es s).0

  pub append_events-IsValid :
      (fresh : ℕ → ℕ × ℕ) (episode_id : ℕ) (ds : List EventDraft) (c : Correlation)
      (key required : Option ℕ) (l : Ledger)
      → IsValid ports l
      → IsValid ports (append_events ports fresh episode_id ds c key required l).1
  unfolding append_events transaction
  append_events-IsValid fresh episode_id [] c key required l v = v
  append_events-IsValid fresh episode_id (d ∷ ds) c key required l v =
      go (append ports fresh episode_id (d ∷ ds) (clean_correlation key c) key required l) refl
    where
      go :
          (r : _)
          → append ports fresh episode_id (d ∷ ds) (clean_correlation key c) key required l ≡ r
          → IsValid ports
              (when_ok {B = Result _ × Ledger} r (λ e. (raise e, l)) (λ r. (ok r.0, r.1))).1
      go (raise e) h = v
      go (ok (es, l')) h =
          Appended-IsValid episode_id (d ∷ ds) c key l l' es v
            (append-Appended ports fresh episode_id d ds c key required l l' es v h)

  pub step-IsValid : (c : Call) (l : Ledger) → IsValid ports l → IsValid ports (step ports c l)
  unfolding step release_llm_reservation
  step-IsValid (Call.append_call fresh episode_id ds c key required) l v =
      append_events-IsValid fresh episode_id ds c key required l v
  step-IsValid (Call.reserve_call id now episode_id turn limits input output stale_after) l v =
      reserve_llm_budget-kept id now episode_id turn limits input output stale_after l
        (IsValid ports) (λ rows. reservations-IsValid l rows v)
  step-IsValid (Call.release_call id) l v = reservations-IsValid l _ v

  run-keeps : (cs : List Call) (l : Ledger) → IsValid ports l → IsValid ports (run ports cs l)
  unfolding run
  run-keeps [] l v = v
  run-keeps (c ∷ cs) l v = run-keeps cs (step ports c l) (step-IsValid c l v)

  pub run-IsValid : (cs : List Call) → IsValid ports (run ports cs empty_ledger)
  run-IsValid cs = run-keeps cs empty_ledger (empty_ledger-IsValid ports)

  scan_to_heads :
      (r : Result (Bool × Heads)) (heads : Heads)
      → r ≡ ok (false, heads)
      → (r >>= λ r. ok r.1) ≡ ok heads
  unfolding ◌>>=◌
  scan_to_heads r heads e = rw e refl

  pub verified_heads-IsValid :
      (l : Ledger)
      → IsValid ports l
      → verified_heads ports none l.auth l.events ≡ ok l.projections.heads
  verified_heads-IsValid l v =
      verified_heads_lem ports none l.auth l.events v.authentic
      ∙ scan_to_heads _ l.projections.heads v.chained

  pub verify_hash_chain-IsValid :
      (l : Ledger) → IsValid ports l → verify_hash_chain ports l ≡ ok l.projections.heads
  unfolding verify_hash_chain ◌>>=◌
  verify_hash_chain-IsValid l v =
      rw (verified_heads-IsValid l v, same_heads_refl l.projections.heads) refl

  -- After any sequence of appends, reservations and releases from the empty database, those that
  -- raised included, the verification of the hash chain succeeds, and the heads that it computes
  -- from the events are the rows of `event_heads`.
  pub verify_hash_chain-calls :
      (cs : List Call)
      → verify_hash_chain ports (run ports cs empty_ledger)
        ≡ ok (run ports cs empty_ledger).projections.heads
  verify_hash_chain-calls cs =
      verify_hash_chain-IsValid (run ports cs empty_ledger) (run-IsValid cs)
