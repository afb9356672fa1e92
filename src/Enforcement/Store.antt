-- ===== src/Enforcement/Store.antt =====
-- packages/core/src/belief_ledger_core/enforcement.py: the store, its transactions, the append of
-- a chained event. The clock, the identity
-- source, the token source and SHA-256 over canonical JSON come from outside.
use belief_ledger_pramana.Prelude.{
  ℕ, suc, ◌+◌, ◌||◌, Option, none, some, List, [], ◌∷◌, any, ◌==◌, if◌then◌else◌,
}
use belief_ledger_pramana.Enforcement.Tables.{
  ApprovalBinding, ActionBinding, Tables, Reason, Payload,
}

-- A row of `enforcement_events`; its payload schema version is always 1.
pub record Event : Type 0 where
  pub seq : ℕ
  pub id : ℕ
  pub at : ℕ
  pub payload : Payload
  pub previous_hash : ℕ
  pub event_hash : ℕ

-- What the store is given: the n-th reading of the clock, the n-th fresh identifier and token,
-- and the digests. `event_digest previous seq id at payload` is
-- `content_hash(previous + "\x00" + canonical_json(body))`.
pub record Dependencies : Type 0 where
  pub clock : ℕ → ℕ
  pub identity : ℕ → ℕ
  pub token : ℕ → ℕ
  pub genesis : ℕ
  pub token_hash : ℕ → ℕ
  pub receipt_digest : ℕ → ApprovalBinding → ℕ
  pub approval_digest : ApprovalBinding → ℕ
  pub action_digest : ActionBinding → ℕ
  pub event_digest : ℕ → ℕ → ℕ → ℕ → Payload → ℕ

-- The database with its events newest first, and how often each port was called.
pub record Store : Type 0 where
  pub tables : Tables
  pub events : List Event
  pub readings : ℕ
  pub identities : ℕ
  pub tokens : ℕ

pub data Error : Type 0 where
  ttl_not_positive integrity_error replay_mismatch : Error
  sequence_mismatch hash_mismatch : Error
  rejected : Reason → Error

pub data Outcome {ℓ} (A : Type ℓ) : Type ℓ where
  ok : A → Outcome A
  raise : Error → Outcome A

abbrev pub Tx : Type 0 → Type 0
Tx A = Store → Outcome A × Store

abbrev pub after {ℓ} :
    {A : Type 0} {B : Type ℓ} → Outcome A × Store → (A → Store → B) → (Error → Store → B) → B
after (ok a, s) f g = f a s
after (raise e, s) f g = g e s

infixl 5 ◌>>=◌ ◌>>◌
unfoldable pub ◌>>=◌ : {A B : Type 0} → Tx A → (A → Tx B) → Tx B
◌>>=◌ m f s = after (m s) f (λ e s'. (raise e, s'))

abbrev pub ◌>>◌ : {A B : Type 0} → Tx A → Tx B → Tx B
m >> k = m >>= λ _. k

module _ {A : Type 0} where
  unfoldable pub pure : A → Tx A
  pure a s = (ok a, s)

  unfoldable pub fail : Error → Tx A
  fail e s = (raise e, s)

  unfoldable pub gets : (Store → A) → Tx A
  gets f s = (ok (f s), s)

  -- `BEGIN IMMEDIATE` with `rollback` when the body raises; the ports stay called.
  unfoldable pub atomically : Tx A → Tx A
  atomically m s =
      after (m s) (λ a s'. (ok a, s'))
        (λ e s'. (raise e, record s' { tables = s.tables; events = s.events }))

-- A statement on the tables, `none` being an `IntegrityError`.
unfoldable pub run_sql : (Tables → Option Tables) → Tx (Unit {0})
run_sql f s = elim (f s.tables) [
  | none ↦ (raise integrity_error, s)
  | some t ↦ (ok tt, record s { tables = t })
]

-- `_append_event` finds the newest row, or starts at the genesis hash.
abbrev pub next_seq : List Event → ℕ
next_seq [] = 1
next_seq (e ∷ _) = e.seq + 1

module _ (deps : Dependencies) where
  unfoldable pub now : Tx ℕ
  now s = (ok (deps.clock s.readings), record s { readings = suc s.readings })

  unfoldable pub new_id : Tx ℕ
  new_id s = (ok (deps.identity s.identities), record s { identities = suc s.identities })

  unfoldable pub new_token : Tx ℕ
  new_token s = (ok (deps.token s.tokens), record s { tokens = suc s.tokens })

  abbrev pub head_hash : List Event → ℕ
  head_hash [] = deps.genesis
  head_hash (e ∷ _) = e.event_hash

  abbrev pub chained : List Event → ℕ → ℕ → Payload → Event
  chained es id at payload = record {
    seq = next_seq es;
    id = id;
    at = at;
    payload = payload;
    previous_hash = head_hash es;
    event_hash = deps.event_digest (head_hash es) (next_seq es) id at payload;
  }

  -- The `INSERT`, with the unique columns `id` and `event_hash`.
  unfoldable pub insert_event : Event → Tx (Unit {0})
  insert_event e s =
      if any (λ x. (x.id == e.id) || (x.event_hash == e.event_hash)) s.events
      then (raise integrity_error, s)
      else (ok tt, record s { events = e ∷ s.events })

  unfoldable pub append_event : Payload → Tx (Unit {0})
  append_event payload = do
    id ← new_id
    at ← now
    es ← gets (λ s. s.events)
    insert_event (chained es id at payload)
