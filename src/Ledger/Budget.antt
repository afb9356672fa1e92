-- ===== src/Ledger/Budget.antt =====
-- packages/core/src/belief_ledger_core/store.py: the reservations of model calls under the budgets of
-- a turn and of an episode.
use belief_ledger_pramana.Prelude.{
  ℕ, suc, ◌+◌, ◌-◌, ◌*◌, ◌≤◌, ◌≡◌, Bool, true, false, ◌&&◌, ◌||◌, not, List, [], ◌∷◌, any, find,
  select, on_option, length, ltb, ◌==◌, arith, if◌then◌else◌, ℤ, pos, negsuc, pos_part, ltb_ℤ,
}
use belief_ledger_pramana.Models.{Episode, LlmUsage}
use belief_ledger_pramana.Ledger.Results.{Error, Result, ok, raise, ◌>>=◌, ◌>>◌, require}
use belief_ledger_pramana.Ledger.Store.{Ledger, Reservation, transaction}

-- The limits that a call of `reserve_llm_budget` is given.
pub record Limits : Type 0 where
  pub calls_turn : ℤ
  pub calls_episode : ℤ
  pub input_tokens_episode : ℤ
  pub output_tokens_episode : ℤ

abbrev pub is_negative : ℤ → Bool
is_negative (pos n) = false
is_negative (negsuc n) = true

-- `a >= limit` and `a > limit`
abbrev pub reaches : ℕ → ℤ → Bool
reaches a limit = not (ltb_ℤ (pos a) limit)

abbrev pub exceeds : ℕ → ℤ → Bool
exceeds a limit = ltb_ℤ limit (pos a)

-- `SUM`
abbrev pub total : {A : Type 0} → (A → ℕ) → List A → ℕ
total f [] = 0
total f (x ∷ xs) = f x + total f xs

abbrev pub of_episode : ℕ → List Reservation → List Reservation
of_episode episode_id rows = select (λ r. r.episode_id == episode_id) rows

abbrev pub of_turn : ℕ → ℕ → List Reservation → List Reservation
of_turn episode_id turn rows =
    select (λ r. (r.episode_id == episode_id) && (r.turn_number == turn)) rows

abbrev pub used_in_turn : ℕ → ℕ → List LlmUsage → ℕ
used_in_turn episode_id turn rows =
    length (select (λ r. (r.episode_id == episode_id) && (r.turn_number == turn)) rows)

-- `max(1, stale_after_seconds)` in microseconds.
abbrev pub stale_span : ℕ → ℕ
stale_span seconds = (if ltb 1 seconds then seconds else 1) * 1000000

-- `DELETE FROM llm_reservations WHERE created_at<?`
abbrev pub drop_stale : ℕ → Ledger → Ledger
drop_stale cutoff l = record l {
  reservations = select (λ r. not (ltb r.created_at cutoff)) l.reservations;
}

unfoldable pub insert_reservation : Reservation → Ledger → Result Ledger
insert_reservation r l =
    if any (λ x. x.id == r.id) l.reservations
    then raise Error.constraint
    else ok (record l { reservations = r ∷ l.reservations })

-- The four tests, in the order of the code.
unfoldable pub check_limits : Limits → Episode → ℕ → ℕ → ℕ → Ledger → Result (Unit {0})
check_limits limits episode turn input output l = do
  let reserved = of_episode episode.id l.reservations
  let in_turn = length (of_turn episode.id turn l.reservations)
  require
      (not (
        reaches (used_in_turn episode.id turn l.projections.tables.llm_usage + in_turn)
          limits.calls_turn))
      Error.turn_calls_exhausted
  require (not (reaches (episode.llm_calls_used + length reserved) limits.calls_episode))
      Error.episode_calls_exhausted
  require
      (not (
        exceeds (episode.input_tokens_used + total (λ r. r.input_tokens) reserved + input)
          limits.input_tokens_episode))
      Error.input_tokens_exhausted
  require
      (not (
        exceeds (episode.output_tokens_used + total (λ r. r.output_tokens) reserved + output)
          limits.output_tokens_episode))
      Error.output_tokens_exhausted

-- `reserve` on a database whose stale reservations are gone.
unfoldable pub reserve : ℕ → ℕ → ℕ → ℕ → Limits → ℕ → ℕ → Ledger → Result (ℕ × Ledger)
reserve id now episode_id turn limits input output l =
    on_option (find (λ x. x.id == episode_id) l.projections.tables.episodes)
      (raise Error.no_episode)
      (λ episode. check_limits limits episode turn input output l >>= λ _.
        insert_reservation
          (record {
            id = id;
            episode_id = episode_id;
            turn_number = turn;
            input_tokens = input;
            output_tokens = output;
            created_at = now;
          })
          l
        >>= λ stored. ok (id, stored))

-- `reserve_llm_budget`, given its fresh identifier and its reading of the clock, which is later than
-- the span of a stale reservation.
unfoldable pub reserve_llm_budget : ℕ → ℕ → ℕ → ℕ → Limits → ℤ → ℤ → ℕ → Ledger → Result ℕ × Ledger
reserve_llm_budget id now episode_id turn limits input output stale_after l =
    if is_negative input
      || is_negative output
      || is_negative limits.calls_turn
      || is_negative limits.calls_episode
    then (raise Error.negative_budget, l)
    else transaction
        (λ l.
          reserve id now episode_id turn limits (pos_part input) (pos_part output)
            (drop_stale (now - stale_span stale_after) l))
        l

unfoldable pub release_llm_reservation : ℕ → Ledger → Ledger
release_llm_reservation id l = record l {
  reservations = select (λ r. not (r.id == id)) l.reservations;
}

-- What is used and reserved stays within the limits.
pub record WithinLimits (limits : Limits) (episode_id turn : ℕ) (episode : Episode) (l : Ledger)
    : Type 0 where
  pub turn_calls :
      used_in_turn episode_id turn l.projections.tables.llm_usage
        + length (of_turn episode_id turn l.reservations)
      ≤ pos_part limits.calls_turn
  pub episode_calls :
      episode.llm_calls_used + length (of_episode episode_id l.reservations)
      ≤ pos_part limits.calls_episode
  pub input_tokens :
      episode.input_tokens_used + total (λ r. r.input_tokens) (of_episode episode_id l.reservations)
      ≤ pos_part limits.input_tokens_episode
  pub output_tokens :
      episode.output_tokens_used
        + total (λ r. r.output_tokens) (of_episode episode_id l.reservations)
      ≤ pos_part limits.output_tokens_episode

pub reaches-below : (a : ℕ) (z : ℤ) → not (reaches a z) ≡ true → suc a ≤ pos_part z
reaches-below a (pos n) h = ground arith
reaches-below a (negsuc n) h = ground arith

pub exceeds-below : (a : ℕ) (z : ℤ) → not (exceeds a z) ≡ true → a ≤ pos_part z
exceeds-below a (pos n) h = ground arith
exceeds-below a (negsuc n) h = ground arith

pub insert_reservation-ok :
    (r : Reservation) (l l' : Ledger)
    → insert_reservation r l ≡ ok l'
    → l' ≡ record l { reservations = r ∷ l.reservations }
unfolding insert_reservation
insert_reservation-ok r l l' h = go (any (λ x. x.id == r.id) l.reservations) h
  where
    go :
        (b : Bool)
        → (if b
            then raise Error.constraint
            else ok (record l { reservations = r ∷ l.reservations }))
          ≡ ok l'
        → l' ≡ record l { reservations = r ∷ l.reservations }
    go true k = ground (arith, k)
    go false k = ground (arith, k)
