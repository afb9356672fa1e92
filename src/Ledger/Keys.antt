-- ===== src/Ledger/Keys.antt =====
-- packages/core/src/belief_ledger_core/store.py: the batches of the events and the idempotency rows
-- that come of them.
use mathlib.Core.List.{Perm, perm_middle}
use mathlib.Core.List.Perm
use belief_ledger_pramana.Prelude.{
  ℕ, ◌≡◌, refl, ap, ◌∙◌, Bool, true, false, ◌&&◌, ◌||◌, not, List, [], ◌∷◌, ◌++◌, map, any, all,
  contains, ◌==◌, arith, if◌then◌else◌,
}
use belief_ledger_pramana.Ledger.Results.{Error, ok, raise, each, ok-bind}
use belief_ledger_pramana.Ledger.Events.{Event, Ports}
use belief_ledger_pramana.Ledger.Store.{Ledger, IdempotencyRow, insert_key}
use belief_ledger_pramana.Ledger.Appends.{key_row}
use belief_ledger_pramana.Ledger.Replay.{
  Batch, is_batch_of, add_to_batches, batches_from, is_before, insert_batch, sort_batches,
  restore_batch,
}

pub batches_from-append :
    (xs ys : List Event) (bs : List Batch)
    → batches_from (xs ++ ys) bs ≡ batches_from ys (batches_from xs bs)
batches_from-append [] ys bs = refl
batches_from-append (x ∷ xs) ys bs = batches_from-append xs ys _

-- An event of a key that no batch has.
pub add_to_batches-new :
    (e : Event) (key : ℕ) (bs : List Batch)
    → any (is_batch_of e.episode_id key) bs ≡ false
    → add_to_batches e key bs
      ≡ bs ++ ((record { episode_id = e.episode_id; key = key; first = e; others = [] }) ∷ [])
add_to_batches-new e key [] h = refl
add_to_batches-new e key (b ∷ bs) h =
    go (is_batch_of e.episode_id key b) h (add_to_batches-new e key bs)
  where
    new : List Batch
    new = (record { episode_id = e.episode_id; key = key; first = e; others = [] }) ∷ []

    go :
        (c : Bool)
        → (c || any (is_batch_of e.episode_id key) bs) ≡ false
        → (any (is_batch_of e.episode_id key) bs ≡ false → add_to_batches e key bs ≡ bs ++ new)
        → (if c
            then (record b { others = b.others ++ (e ∷ []) }) ∷ bs
            else b ∷ add_to_batches e key bs)
          ≡ b ∷ (bs ++ new)
    go true h rest = ground (arith, h)
    go false h rest = ap (◌∷◌ b) (rest h)

-- An event of the batch that stands last.
pub add_to_batches-last :
    (e : Event) (key : ℕ) (bs : List Batch) (b : Batch)
    → any (is_batch_of e.episode_id key) bs ≡ false
    → is_batch_of e.episode_id key b ≡ true
    → add_to_batches e key (bs ++ (b ∷ []))
      ≡ bs ++ ((record b { others = b.others ++ (e ∷ []) }) ∷ [])
add_to_batches-last e key [] b h k = rw k refl
add_to_batches-last e key (x ∷ bs) b h k =
    go (is_batch_of e.episode_id key x) h (λ h. add_to_batches-last e key bs b h k)
  where
    longer : List Batch
    longer = (record b { others = b.others ++ (e ∷ []) }) ∷ []

    go :
        (c : Bool)
        → (c || any (is_batch_of e.episode_id key) bs) ≡ false
        → (any (is_batch_of e.episode_id key) bs ≡ false
            → add_to_batches e key (bs ++ (b ∷ [])) ≡ bs ++ longer)
        → (if c
            then (record x { others = x.others ++ (e ∷ []) }) ∷ (bs ++ (b ∷ []))
            else x ∷ add_to_batches e key (bs ++ (b ∷ [])))
          ≡ x ∷ (bs ++ longer)
    go true h rest = ground (arith, h)
    go false h rest = ap (◌∷◌ x) (rest h)

module _ (ports : Ports) where
  abbrev pub storage : Batch → ℕ
  storage b = ports.storage_key b.episode_id b.key

  abbrev pub row_of : Batch → IdempotencyRow
  row_of b = key_row (storage b) b.episode_id b.first b.others

  -- The rows of the batches, each put before those that were there.
  abbrev pub rows_onto : List Batch → List IdempotencyRow → List IdempotencyRow
  rows_onto [] rows = rows
  rows_onto (b ∷ bs) rows = rows_onto bs (row_of b ∷ rows)

  pub rows_onto-append :
      (bs cs : List Batch) (rows : List IdempotencyRow)
      → rows_onto (bs ++ cs) rows ≡ rows_onto cs (rows_onto bs rows)
  rows_onto-append [] cs rows = refl
  rows_onto-append (b ∷ bs) cs rows = rows_onto-append bs cs (row_of b ∷ rows)

  -- A test that fails on the rows fails on the row of every batch.
  pub any-rows_onto :
      (test : IdempotencyRow → Bool) (bs : List Batch) (rows : List IdempotencyRow)
      → any test (rows_onto bs rows) ≡ false
      → (any (λ b. test (row_of b)) bs ≡ false) × (any test rows ≡ false)
  any-rows_onto test [] rows h = (refl, h)
  any-rows_onto test (b ∷ bs) rows h =
      let r = any-rows_onto test bs (row_of b ∷ rows) h in (ground arith, ground arith)

  abbrev pub taken : ℕ → List IdempotencyRow → Bool
  taken key rows = any (λ r. r.key == key) rows

  abbrev pub distinct : List ℕ → Bool
  distinct [] = true
  distinct (k ∷ ks) = not (contains k ks) && distinct ks

  -- The keys of the batches differ from each other and from those of the rows.
  abbrev pub fit : List Batch → List IdempotencyRow → Bool
  fit [] rows = true
  fit (b ∷ bs) rows = not (taken (storage b) rows) && fit bs (row_of b ∷ rows)

  fit-apart :
      (b : Batch) (bs : List Batch) (rows : List IdempotencyRow)
      → all (λ x. not (taken (storage x) (row_of b ∷ rows))) bs ≡ (
          not (contains (storage b) (map storage bs)) && all (λ x. not (taken (storage x) rows)) bs)
  fit-apart b [] rows = refl
  fit-apart b (x ∷ bs) rows = ground (arith, fit-apart b bs rows)

  pub fit-eq :
      (bs : List Batch) (rows : List IdempotencyRow)
      → fit bs rows ≡ (all (λ x. not (taken (storage x) rows)) bs && distinct (map storage bs))
  fit-eq [] rows = refl
  fit-eq (b ∷ bs) rows = ground (arith, fit-eq bs (row_of b ∷ rows), fit-apart b bs rows)

  pub insert_key-row :
      (b : Batch) (l : Ledger)
      → not (taken (storage b) l.idempotency) ≡ true
      → restore_batch ports b l ≡ ok (record l { idempotency = row_of b ∷ l.idempotency })
  unfolding insert_key
  insert_key-row b l h = go (taken (storage b) l.idempotency) h
    where
      go :
          (c : Bool)
          → not c ≡ true
          → (if c
              then raise Error.constraint
              else ok (record l { idempotency = row_of b ∷ l.idempotency }))
            ≡ ok (record l { idempotency = row_of b ∷ l.idempotency })
      go true h = ground (arith, h)
      go false h = refl

  -- Batches whose keys fit are restored, one row each.
  pub restore_each :
      (bs : List Batch) (l : Ledger)
      → fit bs l.idempotency ≡ true
      → each (restore_batch ports) bs l ≡ ok (record l { idempotency = rows_onto bs l.idempotency })
  unfolding each
  restore_each [] l h = refl
  restore_each (b ∷ bs) l h =
      let next : Ledger = record l { idempotency = row_of b ∷ l.idempotency } in
      ok-bind (restore_batch ports b l) next (each (restore_batch ports) bs)
        (insert_key-row b l (ground arith))
      ∙ restore_each bs next (ground arith)

  contains-insert_batch :
      (k : ℕ) (b : Batch) (bs : List Batch)
      → contains k (map storage (insert_batch b bs))
        ≡ ((k == storage b) || contains k (map storage bs))
  contains-insert_batch k b [] = refl
  contains-insert_batch k b (x ∷ bs) = go (is_before b x) (contains-insert_batch k b bs)
    where
      go :
          (c : Bool)
          → contains k (map storage (insert_batch b bs))
            ≡ ((k == storage b) || contains k (map storage bs))
          → contains k (map storage (if c then b ∷ x ∷ bs else x ∷ insert_batch b bs))
            ≡ ((k == storage b) || contains k (map storage (x ∷ bs)))
      go true h = refl
      go false h = ground (arith, h)

  distinct-insert_batch :
      (b : Batch) (bs : List Batch)
      → distinct (map storage (insert_batch b bs)) ≡ distinct (map storage (b ∷ bs))
  distinct-insert_batch b [] = refl
  distinct-insert_batch b (x ∷ bs) =
      go (is_before b x) (distinct-insert_batch b bs) (contains-insert_batch (storage x) b bs)
    where
      go :
          (c : Bool)
          → distinct (map storage (insert_batch b bs)) ≡ distinct (map storage (b ∷ bs))
          → contains (storage x) (map storage (insert_batch b bs))
            ≡ ((storage x == storage b) || contains (storage x) (map storage bs))
          → distinct (map storage (if c then b ∷ x ∷ bs else x ∷ insert_batch b bs))
            ≡ distinct (map storage (b ∷ x ∷ bs))
      go true h k = refl
      go false h k = ground (arith, h, k)

  contains-sort_batches :
      (k : ℕ) (bs : List Batch)
      → contains k (map storage (sort_batches bs)) ≡ contains k (map storage bs)
  contains-sort_batches k [] = refl
  contains-sort_batches k (b ∷ bs) =
      contains-insert_batch k b (sort_batches bs)
      ∙ ap ((k == storage b) ||◌) (contains-sort_batches k bs)

  pub distinct-sort_batches :
      (bs : List Batch) → distinct (map storage (sort_batches bs)) ≡ distinct (map storage bs)
  distinct-sort_batches [] = refl
  distinct-sort_batches (b ∷ bs) =
      distinct-insert_batch b (sort_batches bs)
      ∙ ground (arith, contains-sort_batches (storage b) bs, distinct-sort_batches bs)

  rows_onto-perm :
      (bs : List Batch) (rows : List IdempotencyRow)
      → Perm (rows_onto bs rows) (map row_of bs ++ rows)
  rows_onto-perm [] rows = Perm.refl rows
  rows_onto-perm (b ∷ bs) rows =
      Perm.trans (rows_onto-perm bs (row_of b ∷ rows)) (perm_middle (map row_of bs) rows)

insert_batch-perm : (b : Batch) (bs : List Batch) → Perm (insert_batch b bs) (b ∷ bs)
insert_batch-perm b [] = Perm.refl (b ∷ [])
insert_batch-perm b (x ∷ bs) = go (is_before b x) (insert_batch-perm b bs)
  where
    go :
        (c : Bool)
        → Perm (insert_batch b bs) (b ∷ bs)
        → Perm (if c then b ∷ x ∷ bs else x ∷ insert_batch b bs) (b ∷ x ∷ bs)
    go true h = Perm.refl (b ∷ x ∷ bs)
    go false h = Perm.trans (Perm.cons x h) (Perm.swap b x bs)

sort_batches-perm : (bs : List Batch) → Perm (sort_batches bs) bs
sort_batches-perm [] = Perm.refl []
sort_batches-perm (b ∷ bs) =
    Perm.trans (insert_batch-perm b (sort_batches bs)) (Perm.cons b (sort_batches-perm bs))

-- The rows of the batches in another order.
pub rows_onto-sorted :
    (ports : Ports) (bs : List Batch)
    → Perm (rows_onto ports bs []) (rows_onto ports (sort_batches bs) [])
rows_onto-sorted ports bs = Perm.trans (rows_onto-perm ports bs []) (
    Perm.trans (Perm.append_right [] (Perm.map (row_of ports) (Perm.symm (sort_batches-perm bs))))
      (Perm.symm (rows_onto-perm ports (sort_batches bs) [])))
