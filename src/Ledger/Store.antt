-- ===== src/Ledger/Store.antt =====
-- packages/core/src/belief_ledger_core/store.py: the database, and the append of a batch of events
-- in one transaction. A call is given its fresh identifiers and readings of the clock.
use belief_ledger_pramana.Prelude.{
  ℕ, suc, ◌+◌, Bool, false, ◌&&◌, ◌||◌, not, Option, none, some, List, [], ◌∷◌, ◌++◌, any, find,
  map, on_option, select, contains, ltb, ◌==◌, if◌then◌else◌,
}
use belief_ledger_pramana.Models.{TaskState, same_task_state}
use belief_ledger_pramana.Ledger.Results.{Error, Result, ok, raise, when_ok, ◌>>=◌, ◌>>◌, require}
use belief_ledger_pramana.Ledger.Events.{Event, EventDraft, Correlation, Ports, build_event}
use belief_ledger_pramana.Ledger.Tables.{no_tables}
use belief_ledger_pramana.Ledger.Projections.{Heads, Projections, apply_event}
use belief_ledger_pramana.Ledger.Chain.{
  AuthRow, authenticated_events, previous_of, verified_heads, same_heads,
}

pub record IdempotencyRow : Type 0 where
  pub key : ℕ
  pub episode_id : ℕ
  pub event_ids : List ℕ
  pub created_at : ℕ

pub record Reservation : Type 0 where
  pub id : ℕ
  pub episode_id : ℕ
  pub turn_number : ℕ
  pub input_tokens : ℕ
  pub output_tokens : ℕ
  pub created_at : ℕ

-- The database, its events in the order of `seq`.
pub record Ledger : Type 0 where
  pub events : List Event
  pub auth : List AuthRow
  pub projections : Projections
  pub idempotency : List IdempotencyRow
  pub reservations : List Reservation

abbrev pub no_projections : Projections
no_projections = record { tables = no_tables; heads = [] }

-- A migrated database without rows.
abbrev pub empty_ledger : Ledger
empty_ledger = record {
  events = [];
  auth = [];
  projections = no_projections;
  idempotency = [];
  reservations = [];
}

-- `SELECT MAX(seq) FROM events`, 0 where there is none.
abbrev pub max_seq : List Event → ℕ
max_seq [] = 0
max_seq (e ∷ es) = let rest = max_seq es in if ltb rest e.seq then e.seq else rest

-- `events.seq`, `events.id`, `events.event_hash` and `event_auth.event_id` are unique.
abbrev pub same_event : Event → Event → Bool
same_event e x = (x.seq == e.seq) || (x.id == e.id) || (x.event_hash == e.event_hash)

unfoldable pub insert_event : Event → ℕ → Ledger → Result Ledger
insert_event e tag l =
    if any (same_event e) l.events || any (λ r. r.event_id == e.id) l.auth
    then raise Error.constraint
    else ok (record l {
      events = l.events ++ (e ∷ []);
      auth = (record { event_id = e.id; event_hash = e.event_hash; auth_tag = tag }) ∷ l.auth;
    })

-- `BEGIN IMMEDIATE` with the rollback of what an error leaves behind.
unfoldable pub transaction :
    {A : Type 0} → (Ledger → Result (A × Ledger)) → Ledger → Result A × Ledger
transaction operation l = when_ok (operation l) (λ e. (raise e, l)) (λ r. (ok r.0, r.1))

-- `clean_correlation`, once the caller's key is written over it.
abbrev pub clean_correlation : Option ℕ → Correlation → Correlation
clean_correlation none c = c
clean_correlation (some key) c = record c { idempotency_key = some key }

abbrev pub first_fingerprint : List Event → Option ℕ
first_fingerprint [] = none
first_fingerprint (e ∷ _) = e.correlation.idempotency_fingerprint

-- Both fingerprints are there and differ.
abbrev pub clash_of_fingerprints : Option ℕ → Option ℕ → Bool
clash_of_fingerprints (some a) (some b) = not (a == b)
clash_of_fingerprints _ _ = false

abbrev pub find_key : ℕ → ℕ → List IdempotencyRow → Option IdempotencyRow
find_key episode_id key rows = find (λ r. (r.episode_id == episode_id) && (r.key == key)) rows

-- The state of the task that has to be open.
abbrev pub is_open_task : ℕ → ℕ → Ledger → Bool
is_open_task task_id episode_id l =
    on_option
      (find (λ t. (t.id == task_id) && (t.episode_id == episode_id))
        l.projections.tables.verification_tasks)
      false (λ t. same_task_state t.state TaskState.open_task)

-- `INSERT INTO idempotency`, with its primary key.
unfoldable pub insert_key : ℕ → ℕ → List Event → Ledger → Result Ledger
insert_key key episode_id [] l = ok l
insert_key key episode_id (e ∷ es) l =
    if any (λ r. r.key == key) l.idempotency
    then raise Error.constraint
    else ok (record l {
      idempotency =
          (record {
            key = key;
            episode_id = episode_id;
            event_ids = map (λ x. x.id) (e ∷ es);
            created_at = e.timestamp;
          })
          ∷ l.idempotency;
    })

module _ (ports : Ports) where
  unfoldable pub store_event : Event → Ledger → Result Ledger
  store_event e l = do
    inserted ← insert_event e (ports.auth_tag e.id e.event_hash) l
    projected ← apply_event ports e inserted.projections
    ok (record inserted { projections = projected })

  -- The loop of `append`: each draft becomes an event on the hash before it. `fresh` gives the
  -- identifier and the time of the draft of each offset.
  unfoldable pub append_drafts :
      (ℕ → ℕ × ℕ)
      → ℕ
      → ℕ
      → Correlation
      → ℕ
      → List EventDraft
      → ℕ
      → Ledger
      → Result (List Event × Ledger)
  append_drafts fresh episode_id next_seq correlation offset [] previous l = ok ([], l)
  append_drafts fresh episode_id next_seq correlation offset (d ∷ ds) previous l =
      let e =
        build_event ports (next_seq + offset) (fresh offset).0 (fresh offset).1 d previous
          correlation episode_id in
      store_event e l >>= λ stored.
      append_drafts fresh episode_id next_seq correlation (suc offset) ds e.event_hash stored
      >>= λ r. ok (e ∷ r.0, r.1)

  -- `_events_by_ids`
  unfoldable pub events_by_ids : List ℕ → Ledger → Result (List Event)
  events_by_ids ids l = do
    es ← authenticated_events ports l.auth (select (λ e. contains e.id ids) l.events)
    ok (map (λ e. e.0) es)

  unfoldable pub earlier_events : IdempotencyRow → Correlation → Ledger → Result (List Event)
  earlier_events row correlation l = do
    es ← events_by_ids row.event_ids l
    require (not (clash_of_fingerprints (first_fingerprint es) correlation.idempotency_fingerprint))
        Error.key_reused
    ok es

  -- What `append` does once there is no earlier batch.
  unfoldable pub append_new :
      (ℕ → ℕ × ℕ)
      → ℕ
      → List EventDraft
      → Correlation
      → Option ℕ
      → Ledger
      → Result (List Event × Ledger)
  append_new fresh episode_id drafts correlation key l = do
    r ←
        append_drafts fresh episode_id (max_seq l.events + 1) correlation 0 drafts
          (previous_of ports episode_id l.projections.heads) l
    keyed ←
        on_option key (ok r.1) (λ k. insert_key (ports.storage_key episode_id k) episode_id r.0 r.1)
    ok (r.0, keyed)

  -- The operation inside the transaction.
  unfoldable pub append :
      (ℕ → ℕ × ℕ)
      → ℕ
      → List EventDraft
      → Correlation
      → Option ℕ
      → Option ℕ
      → Ledger
      → Result (List Event × Ledger)
  append fresh episode_id drafts correlation key required l =
      if on_option required false (λ task_id. not (is_open_task task_id episode_id l))
      then ok ([], l)
      else on_option
          (on_option key none
            (λ k. find_key episode_id (ports.storage_key episode_id k) l.idempotency))
          (append_new fresh episode_id drafts correlation key l)
          (λ row. earlier_events row correlation l >>= λ es. ok (es, l))

  -- `append_events`. An empty key or task is `none`.
  unfoldable pub append_events :
      (ℕ → ℕ × ℕ)
      → ℕ
      → List EventDraft
      → Correlation
      → Option ℕ
      → Option ℕ
      → Ledger
      → Result (List Event) × Ledger
  append_events fresh episode_id [] correlation key required l = (ok [], l)
  append_events fresh episode_id (d ∷ ds) correlation key required l =
      transaction
        (append fresh episode_id (d ∷ ds) (clean_correlation key correlation) key required) l

  -- `verify_hash_chain`: the verified heads, which are those of `event_heads`.
  unfoldable pub verify_hash_chain : Ledger → Result Heads
  verify_hash_chain l = do
    heads ← verified_heads ports none l.auth l.events
    require (same_heads heads l.projections.heads) Error.chain_error
    ok heads
