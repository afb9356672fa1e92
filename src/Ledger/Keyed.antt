-- ===== src/Ledger/Keyed.antt =====
-- packages/core/src/belief_ledger_core/store.py: the idempotency rows of the database are those of
-- the batches of its events, as long as a correlation has a key only where the call has it.
use belief_ledger_pramana.Prelude.{
  ℕ, ◌≡◌, refl, sym, ap, subst, ◌∙◌, Bool, true, false, Option, none, some, List, [], ◌∷◌, ◌++◌,
  append-nil, append_assoc, any, All, on_option, ◌==◌, ==_refl, arith, length,
}
use belief_ledger_pramana.Ledger.Results.{Result, ok, raise, when_ok}
use belief_ledger_pramana.Ledger.Events.{Event, EventDraft, Correlation, Ports}
use belief_ledger_pramana.Ledger.Store.{
  Ledger, IdempotencyRow, empty_ledger, clean_correlation, append, append_events, transaction,
}
use belief_ledger_pramana.Ledger.Valid.{IsValid}
use belief_ledger_pramana.Ledger.Batches.{All-imp}
use belief_ledger_pramana.Ledger.Appends.{
  Appended, IsStored, append-Appended, insert_key-ok, key_row, IsStored-IsValid,
}
use belief_ledger_pramana.Ledger.Replay.{
  Batch, is_batch_of, add_to_batches, batches_from, idempotency_batches,
}
use belief_ledger_pramana.Ledger.Keys.{
  batches_from-append, add_to_batches-new, add_to_batches-last, storage, row_of, rows_onto,
  rows_onto-append, any-rows_onto, taken, fit,
}

abbrev Keyless : Event → Type 0
Keyless e = e.correlation.idempotency_key ≡ none

abbrev HasKey : ℕ → ℕ → Event → Type 0
HasKey episode_id key e = (e.correlation.idempotency_key ≡ some key) × (e.episode_id ≡ episode_id)

batches_from-Keyless :
    (es : List Event) (bs : List Batch) → All Keyless es → batches_from es bs ≡ bs
batches_from-Keyless [] bs h = refl
batches_from-Keyless (e ∷ es) bs h = rw h.0 (batches_from-Keyless es bs h.1)

batches_from-last :
    (es : List Event) (bs : List Batch) (b : Batch)
    → All (HasKey b.episode_id b.key) es
    → any (is_batch_of b.episode_id b.key) bs ≡ false
    → batches_from es (bs ++ (b ∷ [])) ≡ bs ++ ((record b { others = b.others ++ es }) ∷ [])
batches_from-last [] bs b h absent =
    ap (λ xs. bs ++ ((record b { others = xs }) ∷ [])) (sym (append-nil b.others))
batches_from-last (e ∷ es) bs b h absent =
    let longer : Batch = record b { others = b.others ++ (e ∷ []) } in
    let here : is_batch_of e.episode_id b.key b ≡ true =
      subst (λ i. is_batch_of i b.key b ≡ true) (sym (h.0.1))
        (rw (==_refl b.episode_id, ==_refl b.key) refl) in
    let absent' : any (is_batch_of e.episode_id b.key) bs ≡ false =
      subst (λ i. any (is_batch_of i b.key) bs ≡ false) (sym (h.0.1)) absent in
    ap
      (λ o.
        batches_from es
          (on_option o (bs ++ (b ∷ [])) (λ key. add_to_batches e key (bs ++ (b ∷ [])))))
      (h.0.0)
    ∙ ap (batches_from es) (add_to_batches-last e b.key bs b absent' here)
    ∙ batches_from-last es bs longer h.1 absent
    ∙ ap (λ xs. bs ++ ((record b { others = xs }) ∷ [])) (append_assoc b.others (e ∷ []) es)

-- The events of a new key are one more batch.
batches_from-new :
    (episode_id key : ℕ) (e : Event) (es : List Event) (bs : List Batch)
    → All (HasKey episode_id key) (e ∷ es)
    → any (is_batch_of episode_id key) bs ≡ false
    → batches_from (e ∷ es) bs
      ≡ bs ++ ((record { episode_id = episode_id; key = key; first = e; others = es }) ∷ [])
batches_from-new episode_id key e es bs h absent =
    let b : Batch = record { episode_id = episode_id; key = key; first = e; others = [] } in
    ap (λ o. batches_from es (on_option o bs (λ key. add_to_batches e key bs))) (h.0.0)
    ∙ ap (batches_from es) (
        add_to_batches-new e key bs
          (subst (λ i. any (is_batch_of i key) bs ≡ false) (sym (h.0.1)) absent))
    ∙ ap
        (λ i.
          batches_from es
            (bs ++ ((record { episode_id = i; key = key; first = e; others = [] }) ∷ [])))
        (h.0.1)
    ∙ batches_from-last es bs b h.1 absent

module _ (ports : Ports) where
  -- A key that no row has is one that no batch has.
  absent-batch :
      (episode_id key : ℕ) (bs : List Batch)
      → any (λ b. storage ports b == ports.storage_key episode_id key) bs ≡ false
      → any (is_batch_of episode_id key) bs ≡ false
  absent-batch episode_id key [] h = refl
  absent-batch episode_id key (b ∷ bs) h =
      rw (other (is_batch_of episode_id key b) refl, absent-batch episode_id key bs (ground arith))
        refl
    where
      other : (c : Bool) → is_batch_of episode_id key b ≡ c → is_batch_of episode_id key b ≡ false
      other false e = e
      other true e =
          let i : b.episode_id ≡ episode_id = ground arith in
          let k : b.key ≡ key = ground arith in
          let same : (storage ports b == ports.storage_key episode_id key) ≡ true =
            rw (i, k) (==_refl (ports.storage_key episode_id key)) in
          ground (arith, same)

  fit-append :
      (bs : List Batch) (b : Batch) (rows : List IdempotencyRow)
      → fit ports bs rows ≡ true
      → taken ports (storage ports b) (rows_onto ports bs rows) ≡ false
      → fit ports (bs ++ (b ∷ [])) rows ≡ true
  fit-append [] b rows h k = rw k refl
  fit-append (x ∷ bs) b rows h k =
      rw (fit-append bs b (row_of ports x ∷ rows) (ground arith) k) (ground arith)

  pub record IsKeyed (l : Ledger) : Type 0 where
    pub restored : l.idempotency ≡ rows_onto ports (idempotency_batches l.events) []
    pub fits : fit ports (idempotency_batches l.events) [] ≡ true

  pub empty_ledger-IsKeyed : IsKeyed empty_ledger
  unfolding idempotency_batches
  empty_ledger-IsKeyed = record { restored = refl; fits = refl }

  stored-Keyless :
      (l l' : Ledger) (es : List Event)
      → IsKeyed l
      → l'.events ≡ l.events ++ es
      → All Keyless es
      → l'.idempotency ≡ l.idempotency
      → IsKeyed l'
  unfolding idempotency_batches
  stored-Keyless l l' es k events h same =
      let e =
        ap (λ xs. batches_from xs []) events
        ∙ batches_from-append l.events es []
        ∙ batches_from-Keyless es (batches_from l.events []) h in
      record {
        restored = same ∙ k.restored ∙ ap (λ bs. rows_onto ports bs []) (sym e);
        fits = ap (λ bs. fit ports bs []) e ∙ k.fits;
      }

  stored-HasKey :
      (episode_id key : ℕ) (l l' : Ledger) (e : Event) (es : List Event)
      → IsKeyed l
      → l'.events ≡ l.events ++ (e ∷ es)
      → All (HasKey episode_id key) (e ∷ es)
      → taken ports (ports.storage_key episode_id key) l.idempotency ≡ false
      → l'.idempotency ≡ key_row (ports.storage_key episode_id key) episode_id e es ∷ l.idempotency
      → IsKeyed l'
  unfolding idempotency_batches
  stored-HasKey episode_id key l l' e es k events h new rows =
      let bs = batches_from l.events [] in
      let b : Batch = record { episode_id = episode_id; key = key; first = e; others = es } in
      let free : taken ports (storage ports b) (rows_onto ports bs []) ≡ false =
        subst (λ xs. taken ports (storage ports b) xs ≡ false) k.restored new in
      let absent =
        absent-batch episode_id key bs
          (any-rows_onto ports (λ r. r.key == ports.storage_key episode_id key) bs [] free).0 in
      let whole =
        ap (λ xs. batches_from xs []) events
        ∙ batches_from-append l.events (e ∷ es) []
        ∙ batches_from-new episode_id key e es bs h absent in
      record {
        restored =
            rows
            ∙ ap (◌∷◌ (row_of ports b)) k.restored
            ∙ sym (rows_onto-append ports bs (b ∷ []) [])
            ∙ ap (λ xs. rows_onto ports xs []) (sym whole);
        fits = ap (λ xs. fit ports xs []) whole ∙ fit-append bs b [] k.fits free;
      }

  -- The key of a correlation is that of its call.
  abbrev pub HasCallKey : Option ℕ → Correlation → Type 0
  HasCallKey none c = c.idempotency_key ≡ none
  HasCallKey (some key) c = Unit

  stored-IsKeyed :
      (episode_id : ℕ) (d : EventDraft) (ds : List EventDraft) (c : Correlation) (key : Option ℕ)
      (l l' : Ledger) (es : List Event)
      → IsKeyed l
      → HasCallKey key c
      → IsStored ports episode_id (clean_correlation key c) key (length (d ∷ ds)) l l' es
      → IsKeyed l'
  stored-IsKeyed episode_id d ds c none l l' es k own s =
      let same : s.before_key ≡ l' = ground (arith, s.keyed) in
      stored-Keyless l l' es k (IsStored-IsValid ports episode_id c none _ l l' es s).1
        (All-imp (λ e. (e.correlation ≡ c) × (e.episode_id ≡ episode_id)) Keyless
          (λ e h. ap (λ x. x.idempotency_key) (h.0) ∙ own) es s.batch.correlated)
        (ap (λ x. x.idempotency) (sym same) ∙ s.batch.same_keys)
  stored-IsKeyed episode_id d ds c (some key) l l' [] k own s =
      absurd (ground (arith, s.batch.counted))
  stored-IsKeyed episode_id d ds c (some key) l l' (e ∷ es) k own s =
      let (new, last) =
        insert_key-ok (ports.storage_key episode_id key) episode_id e es s.before_key l' s.keyed in
      stored-HasKey episode_id key l l' e es k
        (IsStored-IsValid ports episode_id (clean_correlation (some key) c) (some key) _ l l'
          (e ∷ es) s).1
        (All-imp
          (λ e. (e.correlation ≡ clean_correlation (some key) c) × (e.episode_id ≡ episode_id))
          (HasKey episode_id key) (λ e h. (ap (λ x. x.idempotency_key) (h.0), h.1)) (e ∷ es)
          s.batch.correlated)
        (subst (λ xs. taken ports (ports.storage_key episode_id key) xs ≡ false) s.batch.same_keys
          new)
        (ap (λ x. x.idempotency) last
          ∙ ap (◌∷◌ (key_row (ports.storage_key episode_id key) episode_id e es)) s.batch.same_keys)

  pub append_events-IsKeyed :
      (fresh : ℕ → ℕ × ℕ) (episode_id : ℕ) (ds : List EventDraft) (c : Correlation)
      (key required : Option ℕ) (l : Ledger)
      → IsValid ports l
      → IsKeyed l
      → HasCallKey key c
      → IsKeyed (append_events ports fresh episode_id ds c key required l).1
  unfolding append_events transaction
  append_events-IsKeyed fresh episode_id [] c key required l v k own = k
  append_events-IsKeyed fresh episode_id (d ∷ ds) c key required l v k own =
      go (append ports fresh episode_id (d ∷ ds) (clean_correlation key c) key required l) refl
    where
      settled : Result (List Event × Ledger) → Result (List Event) × Ledger
      settled r = when_ok r (λ e. (raise e, l)) (λ r. (ok r.0, r.1))

      kept :
          (l' : Ledger) (es : List Event)
          → Appended ports episode_id (d ∷ ds) c key l l' es
          → IsKeyed l'
      kept l' es (Appended.idle same nothing) = subst IsKeyed (sym same) k
      kept l' es (Appended.earlier key' row _ _ _ same) = subst IsKeyed (sym same) k
      kept l' es (Appended.stored s) = stored-IsKeyed episode_id d ds c key l l' es k own s

      go :
          (r : Result (List Event × Ledger))
          → append ports fresh episode_id (d ∷ ds) (clean_correlation key c) key required l ≡ r
          → IsKeyed (settled r).1
      go (raise e) h = k
      go (ok (es, l')) h =
          kept l' es (append-Appended ports fresh episode_id d ds c key required l l' es v h)
