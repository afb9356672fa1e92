-- ===== src/Ledger/Chain.antt =====
-- packages/core/src/belief_ledger_core/store.py: the authenticated reading of the events and the
-- verification of the hash chain of each episode. Events stand in the order of `seq`.
use belief_ledger_pramana.Prelude.{
  ℕ, Bool, true, false, ◌&&◌, Option, none, some, List, [], ◌∷◌, all, find, on_option, ltb, ◌==◌,
  if◌then◌else◌,
}
use belief_ledger_pramana.Ledger.Results.{Error, Result, ok, ◌>>=◌, ◌>>◌, require}
use belief_ledger_pramana.Ledger.Events.{Event, Ports, compute_event_hash}
use belief_ledger_pramana.Ledger.Projections.{Heads, upsert, lookup}
use belief_ledger_pramana.Ledger.Chunks.{chunks}

-- A row of `event_auth`.
pub record AuthRow : Type 0 where
  pub event_id : ℕ
  pub event_hash : ℕ
  pub auth_tag : ℕ

module _ (ports : Ports) where
  -- The record of authentication of an event is there and is what the key gives.
  abbrev pub is_authentic : List AuthRow → Event → Bool
  is_authentic auth e =
      on_option (find (λ r. r.event_id == e.id) auth) false
        (λ r. (r.event_hash == e.event_hash) && (r.auth_tag == ports.auth_tag e.id e.event_hash))

  -- `_authenticated_events`: the tag that an event is returned with is the one it was compared to.
  unfoldable pub authenticated_events : List AuthRow → List Event → Result (List (Event × ℕ))
  unfolding ◌>>=◌
  authenticated_events auth [] = ok []
  authenticated_events auth (e ∷ es) = do
    require (is_authentic auth e) Error.chain_error
    rest ← authenticated_events auth es
    ok ((e, ports.auth_tag e.id e.event_hash) ∷ rest)

  -- `expected_heads.get(episode_id, (0, ZERO_HASH))[1]`
  abbrev pub previous_of : ℕ → Heads → ℕ
  previous_of episode_id heads =
      on_option (lookup episode_id heads) ports.zero_hash (λ head. head.1)

  -- One event in the loop of `_verified_heads`.
  unfoldable pub check_event : Event → ℕ → Heads → Result Heads
  check_event e tag heads = do
    let previous = previous_of e.episode_id heads
    require (e.previous_hash == previous) Error.chain_error
    require (compute_event_hash ports previous e == e.event_hash) Error.chain_error
    require (tag == ports.auth_tag e.id e.event_hash) Error.chain_error
    ok (upsert e.episode_id (e.seq, e.event_hash) heads)

  abbrev pub is_beyond : Option ℕ → Event → Bool
  is_beyond none e = false
  is_beyond (some height) e = ltb height e.seq

  -- The loop over one batch, and whether `break` ended it.
  unfoldable pub scan : Option ℕ → List (Event × ℕ) → Heads → Result (Bool × Heads)
  scan height [] heads = ok (false, heads)
  scan height (e ∷ es) heads = elim (is_beyond height e.0) [
    | true ↦ ok (true, heads)
    | false ↦ check_event e.0 e.1 heads >>= scan height es
  ]

  unfoldable pub scan_batches : Option ℕ → List AuthRow → List (List Event) → Heads → Result Heads
  scan_batches height auth [] heads = ok heads
  scan_batches height auth (batch ∷ batches) heads = authenticated_events auth batch >>= λ es.
      scan height es heads >>= λ r. elim r.0 [
        | true ↦ ok r.1
        | false ↦ scan_batches height auth batches r.1
      ]

  -- `_verified_heads`, with the batches of `_iter_authenticated_events`.
  unfoldable pub verified_heads : Option ℕ → List AuthRow → List Event → Result Heads
  unfolding scan_batches
  verified_heads height auth events = scan_batches height auth (chunks 1000 events) []

-- Equality of two heads, and of two dictionaries of heads.
abbrev pub same_head : Option (ℕ × ℕ) → Option (ℕ × ℕ) → Bool
same_head none none = true
same_head (some (a, b)) (some (c, d)) = (a == c) && (b == d)
same_head _ _ = false

abbrev pub agree_on : Heads → Heads → Heads → Bool
agree_on keys xs ys = all (λ k. same_head (lookup k.0 xs) (lookup k.0 ys)) keys

abbrev pub same_heads : Heads → Heads → Bool
same_heads xs ys = agree_on xs xs ys && agree_on ys xs ys

-- `max((seq for seq, _ in heads.values()), default=0)`
abbrev pub max_head : Heads → ℕ
max_head [] = 0
max_head (x ∷ xs) = let rest = max_head xs in if ltb rest x.1.0 then x.1.0 else rest

-- `ChainState`; its `hash_algorithm` is a constant.
pub record ChainState : Type 0 where
  pub chain_height : ℕ
  pub root_hash : ℕ
  pub heads : Heads

-- `chain_state`, with the digest of the canonical JSON of the heads.
unfoldable pub chain_state :
    Ports → (Heads → ℕ) → Option ℕ → List AuthRow → List Event → Result ChainState
chain_state ports root up_to_height auth events = do
  heads ← verified_heads ports up_to_height auth events
  ok (record { chain_height = max_head heads; root_hash = root heads; heads = heads })
