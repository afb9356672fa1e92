-- ===== src/Ledger/Replay.antt =====
-- packages/core/src/belief_ledger_core/store.py: the replay of the events into new projections, with
-- the idempotency rows that are restored from the correlations of the events.
use mathlib.Mathlib.Data.Multiset.Defs.{Multiset, of_list}
use belief_ledger_pramana.Prelude.{
  ℕ, ◌-◌, Bool, ◌&&◌, ◌||◌, List, [], ◌∷◌, ◌++◌, select, any, not, on_option, ltb, leb, ◌==◌,
  if◌then◌else◌, length,
}
use belief_ledger_pramana.Ledger.Results.{Error, Result, ok, ◌>>=◌, require, each}
use belief_ledger_pramana.Ledger.Events.{Event, Ports}
use belief_ledger_pramana.Ledger.Tables.{Tables}
use belief_ledger_pramana.Ledger.Projections.{Heads, apply_event}
use belief_ledger_pramana.Ledger.Store.{
  Ledger, IdempotencyRow, no_projections, empty_ledger, store_event, insert_key, transaction,
  verify_hash_chain,
}

-- An entry of the dictionary of `_idempotency_batches`: a key of an episode with its events, of
-- which there is one at least.
pub record Batch : Type 0 where
  pub episode_id : ℕ
  pub key : ℕ
  pub first : Event
  pub others : List Event

abbrev pub is_batch_of : ℕ → ℕ → Batch → Bool
is_batch_of episode_id key b = (b.episode_id == episode_id) && (b.key == key)

-- `batches.setdefault((event.episode_id, key), []).append(event)`
abbrev pub add_to_batches : Event → ℕ → List Batch → List Batch
add_to_batches e key [] =
    (record { episode_id = e.episode_id; key = key; first = e; others = [] }) ∷ []
add_to_batches e key (b ∷ bs) =
    let rest = add_to_batches e key bs in
    if is_batch_of e.episode_id key b
    then (record b { others = b.others ++ (e ∷ []) }) ∷ bs
    else b ∷ rest

-- The loop of `_idempotency_batches`.
abbrev pub batches_from : List Event → List Batch → List Batch
batches_from [] bs = bs
batches_from (e ∷ es) bs =
    batches_from es (on_option e.correlation.idempotency_key bs (λ key. add_to_batches e key bs))

unfoldable pub idempotency_batches : List Event → List Batch
idempotency_batches es = batches_from es []

-- The order of the pairs `(episode_id, key)`, which are numbered in the order of their texts.
abbrev pub is_before : Batch → Batch → Bool
is_before a b = ltb a.episode_id b.episode_id || ((a.episode_id == b.episode_id) && leb a.key b.key)

abbrev pub insert_batch : Batch → List Batch → List Batch
insert_batch b [] = b ∷ []
insert_batch b (x ∷ xs) =
    let rest = insert_batch b xs in if is_before b x then b ∷ x ∷ xs else x ∷ rest

-- `sorted(batches.items())`
abbrev pub sort_batches : List Batch → List Batch
sort_batches [] = []
sort_batches (b ∷ bs) = insert_batch b (sort_batches bs)

module _ (ports : Ports) where
  abbrev pub restore_batch : Batch → Ledger → Result Ledger
  restore_batch b l =
      insert_key (ports.storage_key b.episode_id b.key) b.episode_id (b.first ∷ b.others) l

  -- `_restore_idempotency`
  unfoldable pub restore_idempotency : List Batch → Ledger → Result Ledger
  restore_idempotency bs l = each restore_batch (sort_batches bs) l

  -- The deletions of `replay`.
  abbrev pub without_projections : Ledger → Ledger
  without_projections l = record l {
    projections = no_projections;
    idempotency = [];
    reservations = [];
  }

  -- The new projections and idempotency rows.
  unfoldable pub rebuild : Ledger → Result Ledger
  rebuild l = do
    p ← each (apply_event ports) l.events no_projections
    restore_idempotency (idempotency_batches l.events)
        (record (without_projections l) { projections = p })

  module _ (projection_hash : Tables → Heads → Multiset IdempotencyRow → ℕ) where
    -- `_projection_hash`: the rows of a table are sorted before they are digested, so that the
    -- order of the idempotency rows is not seen.
    abbrev pub hash_of : Ledger → ℕ
    hash_of l = projection_hash l.projections.tables l.projections.heads (of_list l.idempotency)

    -- `replay` from the origin: the number of the events read, and the new database.
    unfoldable pub replay : Ledger → Result ℕ × Ledger
    replay l =
        transaction
          (λ l. verify_hash_chain ports l >>= λ heads. rebuild l >>= λ rebuilt.
            require (hash_of l == hash_of rebuilt) Error.replay_mismatch >>= λ _.
            ok (length l.events, rebuilt))
          l

-- What `purge_episode` copies: the events of the other episodes.
abbrev pub preserved : ℕ → List Event → List Event
preserved episode_id es = select (λ e. not (e.episode_id == episode_id)) es

module _ (ports : Ports) where
  -- The copy of the events into a new database, with the tags they have, and its verification.
  unfoldable pub copy_without : ℕ → Ledger → Result Ledger
  copy_without episode_id l = do
    copied ← each (store_event ports) (preserved episode_id l.events) empty_ledger
    restored ←
        restore_idempotency ports (idempotency_batches (preserved episode_id l.events)) copied
    heads ← verify_hash_chain ports restored
    ok restored

  -- `purge_episode`: the numbers of the events removed and preserved, and the database that takes
  -- the place of the old one. `purge_episode episode_id confirmation`.
  unfoldable pub purge_episode : ℕ → ℕ → Ledger → Result (ℕ × ℕ) × Ledger
  purge_episode episode_id confirmation l =
      transaction
        (λ l. require (confirmation == episode_id) Error.wrong_confirmation >>= λ _.
          require (any (λ x. x.id == episode_id) l.projections.tables.episodes) Error.no_episode
          >>= λ _. verify_hash_chain ports l >>= λ heads. copy_without episode_id l >>= λ copied.
              let kept = length (preserved episode_id l.events) in
              ok ((length l.events - kept, kept), copied))
        l
