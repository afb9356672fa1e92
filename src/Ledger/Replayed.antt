-- ===== src/Ledger/Replayed.antt =====
-- packages/core/src/belief_ledger_core/store.py: a replay after any sequence of calls.
use mathlib.Core.List.{Perm}
use mathlib.Core.List.Perm
use mathlib.Mathlib.Data.Multiset.Defs.{Multiset, of_list, coe-eq-coe}
use belief_ledger_pramana.Prelude.{
  ℕ, ◌≡◌, refl, sym, ap, subst, ◌∙◌, true, not, List, [], ◌∷◌, all, All, ==_refl, arith, length,
}
use belief_ledger_pramana.Ledger.Results.{ok, ◌>>=◌, each, ok-bind}
use belief_ledger_pramana.Ledger.Events.{Ports}
use belief_ledger_pramana.Ledger.Tables.{Tables}
use belief_ledger_pramana.Ledger.Projections.{Heads, apply_event}
use belief_ledger_pramana.Ledger.Store.{
  Ledger, IdempotencyRow, empty_ledger, no_projections, transaction,
}
use belief_ledger_pramana.Ledger.Budget.{release_llm_reservation}
use belief_ledger_pramana.Ledger.Reserved.{reserve_llm_budget-kept}
use belief_ledger_pramana.Ledger.Valid.{IsValid, empty_ledger-IsValid}
use belief_ledger_pramana.Ledger.Runs.{Call, step, run, step-IsValid, verify_hash_chain-IsValid}
use belief_ledger_pramana.Ledger.Replay.{
  Batch, idempotency_batches, sort_batches, restore_batch, restore_idempotency, without_projections,
  rebuild, hash_of, replay,
}
use belief_ledger_pramana.Ledger.Keys.{
  storage, rows_onto, fit, fit-eq, taken, distinct-sort_batches, restore_each, rows_onto-sorted,
}
use belief_ledger_pramana.Ledger.Keyed.{
  IsKeyed, HasCallKey, empty_ledger-IsKeyed, append_events-IsKeyed,
}

module _ (ports : Ports) where
  all_free : (bs : List Batch) → all (λ b. not (taken ports (storage ports b) [])) bs ≡ true
  all_free [] = refl
  all_free (b ∷ bs) = all_free bs

  fit-sorted : (bs : List Batch) → fit ports bs [] ≡ true → fit ports (sort_batches bs) [] ≡ true
  fit-sorted bs h = ground (
    arith,
    fit-eq ports (sort_batches bs) [],
    fit-eq ports bs [],
    all_free bs,
    all_free (sort_batches bs),
    distinct-sort_batches ports bs,
  )

  -- The database that a replay leaves.
  abbrev pub replayed : Ledger → Ledger
  replayed l = record l {
    idempotency = rows_onto ports (sort_batches (idempotency_batches l.events)) [];
    reservations = [];
  }

  rebuild_lem : (l : Ledger) → IsValid ports l → IsKeyed ports l → rebuild ports l ≡ ok (replayed l)
  unfolding rebuild restore_idempotency
  rebuild_lem l v k =
      let bs = idempotency_batches l.events in
      ok-bind (each (apply_event ports) l.events no_projections) l.projections
        (λ p.
          each (restore_batch ports) (sort_batches bs)
            (record (without_projections ports l) { projections = p }))
        v.projected
      ∙ restore_each ports (sort_batches bs) (record l { idempotency = []; reservations = [] })
          (fit-sorted bs k.fits)

  module _ (projection_hash : Tables → Heads → Multiset IdempotencyRow → ℕ) where
    pub replay_lem :
        (l : Ledger)
        → IsValid ports l
        → IsKeyed ports l
        → replay ports projection_hash l ≡ (ok (length l.events), replayed l)
    unfolding replay transaction ◌>>=◌
    replay_lem l v k =
        let same : hash_of ports projection_hash l ≡ hash_of ports projection_hash (replayed l) =
          ap (projection_hash l.projections.tables l.projections.heads) (
            coe-eq-coe.1 (
              subst (λ xs. Perm xs (replayed l).idempotency) (sym k.restored)
                (rows_onto-sorted ports (idempotency_batches l.events)))) in
        rw
          (
            verify_hash_chain-IsValid ports l v,
            rebuild_lem l v k,
            sym same,
            ==_refl (hash_of ports projection_hash l),
          )
          refl

  -- A call whose correlation has no idempotency key but that of the call.
  abbrev pub KeysFromCall : Call → Type 0
  KeysFromCall (Call.append_call fresh episode_id drafts c key required) = HasCallKey ports key c
  KeysFromCall _ = Unit

  step-IsKeyed :
      (c : Call) (l : Ledger)
      → IsValid ports l
      → IsKeyed ports l
      → KeysFromCall c
      → IsKeyed ports (step ports c l)
  unfolding step release_llm_reservation
  step-IsKeyed (Call.append_call fresh episode_id ds c key required) l v k own =
      append_events-IsKeyed ports fresh episode_id ds c key required l v k own
  step-IsKeyed (Call.reserve_call id now episode_id turn limits input output stale_after) l v k
        own =
      reserve_llm_budget-kept id now episode_id turn limits input output stale_after l
        (IsKeyed ports) (λ rows. record { restored = k.restored; fits = k.fits })
  step-IsKeyed (Call.release_call id) l v k own = record { restored = k.restored; fits = k.fits }

  run-Replayable :
      (cs : List Call) (l : Ledger)
      → IsValid ports l
      → IsKeyed ports l
      → All KeysFromCall cs
      → IsValid ports (run ports cs l) × IsKeyed ports (run ports cs l)
  unfolding run
  run-Replayable [] l v k own = (v, k)
  run-Replayable (c ∷ cs) l v k own =
      run-Replayable cs (step ports c l) (step-IsValid ports c l v) (step-IsKeyed c l v k own.0)
        own.1

  -- Where every correlation has an idempotency key only if its call has one: after any sequence of
  -- appends, reservations and releases from the empty database, a replay of the events succeeds and
  -- counts them all. Events, authentication records, projection tables and heads come out as they
  -- were, the idempotency rows are the same up to their order, and no reservation is left.
  pub replay-run :
      (projection_hash : Tables → Heads → Multiset IdempotencyRow → ℕ) (cs : List Call)
      → All KeysFromCall cs
      → (rows : List IdempotencyRow) × (◌≡◌ {A = Multiset IdempotencyRow}
          (of_list rows)
          (of_list (run ports cs empty_ledger).idempotency))
        × (replay ports projection_hash (run ports cs empty_ledger) ≡ (
          ok (length (run ports cs empty_ledger).events),
          record (run ports cs empty_ledger) { idempotency = rows; reservations = [] },
        ))
  replay-run projection_hash cs own =
      let l = run ports cs empty_ledger in
      let (v, k) =
        run-Replayable cs empty_ledger (empty_ledger-IsValid ports) (empty_ledger-IsKeyed ports)
          own in
      (
        (replayed l).idempotency,
        coe-eq-coe.1 (
            Perm.symm (
              subst (λ xs. Perm xs (replayed l).idempotency) (sym k.restored)
                (rows_onto-sorted ports (idempotency_batches l.events)))),
        replay_lem projection_hash l v k,
      )
