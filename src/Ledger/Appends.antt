-- ===== src/Ledger/Appends.antt =====
-- packages/core/src/belief_ledger_core/store.py: what `append_events` does, on every path.
use belief_ledger_pramana.Prelude.{
  ℕ, ◌+◌, ◌≡◌, refl, sym, ap, subst, ◌∙◌, Bool, true, false, not, Option, none, some, List, [], ◌∷◌,
  ◌++◌, map, any, All, contains, select, on_option, ◌==◌, ==_refl, arith, if◌then◌else◌, length,
}
use belief_ledger_pramana.Ledger.Results.{
  Error, Result, ok, raise, when_ok, ◌>>=◌, require, bind-ok, ok-bind,
}
use belief_ledger_pramana.Ledger.Events.{Event, EventDraft, Correlation, Ports}
use belief_ledger_pramana.Ledger.Chain.{is_authentic, authenticated_events, previous_of}
use belief_ledger_pramana.Ledger.Store.{
  Ledger, IdempotencyRow, max_seq, append_drafts, events_by_ids, find_key, insert_key,
  earlier_events, append_new, append, transaction, clean_correlation, is_open_task,
  first_fingerprint, clash_of_fingerprints,
}
use belief_ledger_pramana.Ledger.Scan.{tagged, authenticated_lem}
use belief_ledger_pramana.Ledger.Valid.{IsValid}
use belief_ledger_pramana.Ledger.Batches.{All-imp, IsBatch, append_drafts-IsBatch}

select-none :
    (ids : List ℕ) (es : List Event)
    → All (λ x. contains x.id ids ≡ false) es
    → select (λ x. contains x.id ids) es ≡ []
select-none ids [] h = refl
select-none ids (x ∷ es) h = rw (h.0, select-none ids es h.1) refl

select-every :
    (ids : List ℕ) (es : List Event)
    → All (λ x. contains x.id ids ≡ true) es
    → select (λ x. contains x.id ids) es ≡ es
select-every ids [] h = refl
select-every ids (x ∷ es) h = rw (h.0, select-every ids es h.1) refl

select-append :
    {A : Type 0} (test : A → Bool) (xs ys : List A)
    → select test (xs ++ ys) ≡ select test xs ++ select test ys
select-append test [] ys = refl
select-append test (x ∷ xs) ys = go (test x) (select-append test xs ys)
  where
    go :
        (b : Bool)
        → select test (xs ++ ys) ≡ select test xs ++ select test ys
        → (if b then x ∷ select test (xs ++ ys) else select test (xs ++ ys))
          ≡ (if b then x ∷ select test xs else select test xs) ++ select test ys
    go true e = ap (◌∷◌ x) e
    go false e = e

contains-own : (es : List Event) → All (λ x. contains x.id (map (λ e. e.id) es) ≡ true) es
contains-own [] = _
contains-own (e ∷ es) = (
  rw (==_refl e.id) refl,
  All-imp (λ x. contains x.id (map (λ e. e.id) es) ≡ true)
      (λ x. contains x.id (e.id ∷ map (λ e. e.id) es) ≡ true) (λ x h. ground arith) es
      (contains-own es),
)

untagged : (ports : Ports) (es : List Event) → map (λ e. e.0) (map (tagged ports) es) ≡ es
untagged ports [] = refl
untagged ports (e ∷ es) = ap (◌∷◌ e) (untagged ports es)

-- The row that a batch leaves under its key.
abbrev pub key_row : ℕ → ℕ → Event → List Event → IdempotencyRow
key_row key episode_id e es = record {
  key = key;
  episode_id = episode_id;
  event_ids = map (λ x. x.id) (e ∷ es);
  created_at = e.timestamp;
}

pub insert_key-ok :
    (key episode_id : ℕ) (e : Event) (es : List Event) (l l' : Ledger)
    → insert_key key episode_id (e ∷ es) l ≡ ok l'
    → (any (λ r. r.key == key) l.idempotency ≡ false)
      × (l' ≡ record l { idempotency = key_row key episode_id e es ∷ l.idempotency })
unfolding insert_key
insert_key-ok key episode_id e es l l' h = go (any (λ r. r.key == key) l.idempotency) h
  where
    stored : Ledger
    stored = record l { idempotency = key_row key episode_id e es ∷ l.idempotency }

    go :
        (b : Bool)
        → (if b then raise Error.constraint else ok stored) ≡ ok l'
        → (b ≡ false) × (l' ≡ stored)
    go true k = ground (arith, k)
    go false k = (refl, ground (arith, k))

-- A transaction that answers with a value has run, and one that raises has changed nothing.
pub transaction-ok :
    {A : Type 0} (f : Ledger → Result (A × Ledger)) (l l' : Ledger) (a : A)
    → transaction f l ≡ (ok a, l')
    → f l ≡ ok (a, l')
unfolding transaction
transaction-ok {A} f l l' a h = go (f l) h
  where
    go :
        (r : Result (A × Ledger))
        → (let x : Result A × Ledger = when_ok r (λ e. (raise e, l)) (λ r. (ok r.0, r.1)) in x)
          ≡ (let x : Result A × Ledger = (ok a, l') in x)
        → r ≡ ok (a, l')
    go (ok x) k = ground (arith, k)
    go (raise e) k = ground (arith, k)

module _ (ports : Ports) where
  pub events_by_ids-batch :
      (episode_id next_seq : ℕ) (c : Correlation) (count : ℕ) (l l' : Ledger) (es : List Event)
      → IsBatch ports episode_id next_seq c count l l' es
      → events_by_ids ports (map (λ e. e.id) es) l' ≡ ok es
  unfolding events_by_ids
  events_by_ids-batch episode_id next_seq c count l l' es b =
      let ids = map (λ e. e.id) es in
      let found : select (λ e. contains e.id ids) l'.events ≡ es =
        ap (select (λ e. contains e.id ids)) b.appended
        ∙ select-append (λ e. contains e.id ids) l.events es
        ∙ ap (λ xs. xs ++ select (λ e. contains e.id ids) es) (select-none ids l.events b.new)
        ∙ select-every ids es (contains-own es) in
      let safe =
        subst (All (λ e. is_authentic ports l'.auth e ≡ true)) b.appended b.valid.authentic in
      ap (λ xs. authenticated_events ports l'.auth xs >>= λ es. ok (map (λ e. e.0) es)) found
      ∙ ok-bind (authenticated_events ports l'.auth es) (map (tagged ports) es)
          (λ es. ok (map (λ e. e.0) es))
          (authenticated_lem ports l'.auth es (all_right l.events es safe))
      ∙ ap ok (untagged ports es)
    where
      all_right :
          (xs ys : List Event)
          → All (λ e. is_authentic ports l'.auth e ≡ true) (xs ++ ys)
          → All (λ e. is_authentic ports l'.auth e ≡ true) ys
      all_right [] ys h = h
      all_right (x ∷ xs) ys h = all_right xs ys h.1

  -- A batch with the row of its key.
  pub record IsStored (episode_id : ℕ) (correlation : Correlation) (key : Option ℕ) (count : ℕ)
      (l l' : Ledger) (es : List Event) : Type 0 where
    pub before_key : Ledger
    pub batch : IsBatch ports episode_id (max_seq l.events + 1) correlation count l before_key es
    pub keyed :
        on_option key
          (ok before_key)
          (λ k. insert_key (ports.storage_key episode_id k) episode_id es before_key)
        ≡ ok l'

  pub append_new-IsStored :
      (fresh : ℕ → ℕ × ℕ) (episode_id : ℕ) (ds : List EventDraft) (c : Correlation) (key : Option ℕ)
      (l l' : Ledger) (es : List Event)
      → IsValid ports l
      → append_new ports fresh episode_id ds c key l ≡ ok (es, l')
      → IsStored episode_id c key (length ds) l l' es
  unfolding append_new
  append_new-IsStored fresh episode_id ds c key l l' es v h =
      let next = max_seq l.events + 1 in
      let previous = previous_of ports episode_id l.projections.heads in
      let (r, e1, h1) =
        bind-ok (append_drafts ports fresh episode_id next c 0 ds previous l) _ (es, l') h in
      let (l2, e2, h2) =
        bind-ok
          (on_option key (ok r.1)
            (λ k. insert_key (ports.storage_key episode_id k) episode_id r.0 r.1))
          _ (es, l') h1 in
      let same : r.0 ≡ es = ground (arith, h2) in
      let last : l2 ≡ l' = ground (arith, h2) in
      subst (IsStored episode_id c key (length ds) l l') same (
        subst (λ x. IsStored episode_id c key (length ds) l x r.0) last
          (record {
            before_key = r.1;
            batch =
                append_drafts-IsBatch ports fresh episode_id next c 0 ds previous l r.1 r.0 v refl
                  e1;
            keyed = e2;
          }))

  pub keyed_lem :
      (episode_id : ℕ) (key : Option ℕ) (es : List Event) (b l' : Ledger)
      → on_option key (ok b) (λ k. insert_key (ports.storage_key episode_id k) episode_id es b)
        ≡ ok l'
      → (rows : List IdempotencyRow) × (l' ≡ record b { idempotency = rows })
  unfolding insert_key
  keyed_lem episode_id none es b l' h = (b.idempotency, ground (arith, h))
  keyed_lem episode_id (some k) [] b l' h = (b.idempotency, ground (arith, h))
  keyed_lem episode_id (some k) (e ∷ es) b l' h =
      let key = ports.storage_key episode_id k in
      (key_row key episode_id e es ∷ b.idempotency, (insert_key-ok key episode_id e es b l' h).1)

  -- A key changes neither events nor projections.
  pub IsStored-IsValid :
      (episode_id : ℕ) (c : Correlation) (key : Option ℕ) (count : ℕ) (l l' : Ledger)
      (es : List Event)
      → IsStored episode_id c key count l l' es
      → IsValid ports l' × (l'.events ≡ l.events ++ es) × (l'.reservations ≡ l.reservations)
  IsStored-IsValid episode_id c key count l l' es s =
      let (rows, e) = keyed_lem episode_id key es s.before_key l' s.keyed in
      let v = s.batch.valid in
      (
        subst (IsValid ports) (sym e)
            (record { chained = v.chained; authentic = v.authentic; projected = v.projected }),
        ap (λ x. x.events) e ∙ s.batch.appended,
        ap (λ x. x.reservations) e ∙ s.batch.same_reservations,
      )

  -- The three ways in which an append ends with a value.
  pub data Appended (episode_id : ℕ) (ds : List EventDraft) (c : Correlation) (key : Option ℕ)
      (l l' : Ledger) (es : List Event) : Type 0 where
    idle : l' ≡ l → es ≡ [] → Appended episode_id ds c key l l' es
    earlier :
        (k : ℕ) (row : IdempotencyRow)
        → key ≡ some k
        → find_key episode_id (ports.storage_key episode_id k) l.idempotency ≡ some row
        → events_by_ids ports row.event_ids l ≡ ok es
        → l' ≡ l
        → Appended episode_id ds c key l l' es
    stored :
        IsStored episode_id (clean_correlation key c) key (length ds) l l' es
        → Appended episode_id ds c key l l' es

  earlier-ok :
      (row : IdempotencyRow) (c : Correlation) (l l' : Ledger) (es : List Event)
      → ◌>>=◌ {B = List Event × Ledger} (earlier_events ports row c l) (λ es. ok (es, l))
        ≡ ok (es, l')
      → (events_by_ids ports row.event_ids l ≡ ok es) × (l' ≡ l)
  unfolding earlier_events
  earlier-ok row c l l' es h =
      let (xs, e1, h1) = bind-ok (earlier_events ports row c l) _ (es, l') h in
      let (ys, e2, h2) = bind-ok (events_by_ids ports row.event_ids l) _ xs e1 in
      let (u, e3, h3) =
        bind-ok
          (require (not (clash_of_fingerprints (first_fingerprint ys) c.idempotency_fingerprint))
            Error.key_reused)
          _ xs h2 in
      let same : ys ≡ xs = ground (arith, h3) in
      let last : xs ≡ es = ground (arith, h1) in (e2 ∙ ap ok (same ∙ last), ground (arith, h1))

  pub append-Appended :
      (fresh : ℕ → ℕ × ℕ) (episode_id : ℕ) (d : EventDraft) (ds : List EventDraft) (c : Correlation)
      (key required : Option ℕ) (l l' : Ledger) (es : List Event)
      → IsValid ports l
      → append ports fresh episode_id (d ∷ ds) (clean_correlation key c) key required l
        ≡ ok (es, l')
      → Appended episode_id (d ∷ ds) c key l l' es
  unfolding append
  append-Appended fresh episode_id d ds c key required l l' es v h =
      open_or_not (on_option required false (λ task_id. not (is_open_task task_id episode_id l))) h
    where
      new : Option IdempotencyRow → Result (List Event × Ledger)
      new o =
          on_option o (append_new ports fresh episode_id (d ∷ ds) (clean_correlation key c) key l)
            (λ row. earlier_events ports row (clean_correlation key c) l >>= λ es. ok (es, l))

      found :
          (key' : Option ℕ)
          → key ≡ key'
          → (o : Option IdempotencyRow)
          → on_option key' none
              (λ k. find_key episode_id (ports.storage_key episode_id k) l.idempotency)
            ≡ o
          → new o ≡ ok (es, l')
          → Appended episode_id (d ∷ ds) c key l l' es
      found key' k none f n =
          Appended.stored (
            append_new-IsStored fresh episode_id (d ∷ ds) (clean_correlation key c) key l l' es v n)
      found none k (some row) f n = ground (arith, f)
      found (some key') k (some row) f n =
          let r = earlier-ok row (clean_correlation key c) l l' es n in
          Appended.earlier key' row k f r.0 r.1

      open_or_not :
          (b : Bool)
          → (if b
              then ok ([], l)
              else new (
                  on_option key none
                    (λ k. find_key episode_id (ports.storage_key episode_id k) l.idempotency)))
            ≡ ok (es, l')
          → Appended episode_id (d ∷ ds) c key l l' es
      open_or_not true n = Appended.idle (ground (arith, n)) (ground (arith, n))
      open_or_not false n = found key refl _ refl n
