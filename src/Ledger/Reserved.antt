-- ===== src/Ledger/Reserved.antt =====
-- packages/core/src/belief_ledger_core/store.py: what a granted reservation leaves of the budgets.
use belief_ledger_pramana.Prelude.{
  ℕ, suc, ◌+◌, ◌-◌, ◌≤◌, ◌≡◌, refl, sym, ap, subst, ◌∙◌, Bool, true, false, ◌||◌, Option, none,
  some, List, ◌∷◌, find, find-some, on_option, length, ◌==◌, ==_refl, ==_iff, arith, if◌then◌else◌,
  ℤ, pos_part,
}
use belief_ledger_pramana.Models.{Episode}
use belief_ledger_pramana.Ledger.Results.{
  Error, Result, ok, raise, when_ok, ◌>>=◌, require-ok, bind-ok,
}
use belief_ledger_pramana.Ledger.Store.{Ledger, Reservation, transaction}
use belief_ledger_pramana.Ledger.Appends.{transaction-ok}
use belief_ledger_pramana.Ledger.Budget.{
  Limits, is_negative, total, of_episode, of_turn, used_in_turn, stale_span, drop_stale,
  insert_reservation, check_limits, reserve, reserve_llm_budget, WithinLimits, reaches-below,
  exceeds-below, insert_reservation-ok,
}

-- The tests passed: there is room for one call and for its tokens.
record HasRoom (limits : Limits) (episode : Episode) (turn input output : ℕ) (l : Ledger)
    : Type 0 where
  turn_room :
      suc (
        used_in_turn episode.id turn l.projections.tables.llm_usage
        + length (of_turn episode.id turn l.reservations))
      ≤ pos_part limits.calls_turn
  episode_room :
      suc (episode.llm_calls_used + length (of_episode episode.id l.reservations))
      ≤ pos_part limits.calls_episode
  input_room :
      episode.input_tokens_used
        + total (λ r. r.input_tokens) (of_episode episode.id l.reservations)
        + input
      ≤ pos_part limits.input_tokens_episode
  output_room :
      episode.output_tokens_used
        + total (λ r. r.output_tokens) (of_episode episode.id l.reservations)
        + output
      ≤ pos_part limits.output_tokens_episode

check_limits-ok :
    (limits : Limits) (episode : Episode) (turn input output : ℕ) (l : Ledger) (u : Unit {0})
    → check_limits limits episode turn input output l ≡ ok u
    → HasRoom limits episode turn input output l
unfolding check_limits
check_limits-ok limits episode turn input output l u h =
    let (_, e1, h1) = bind-ok _ _ u h in
    let (_, e2, h2) = bind-ok _ _ u h1 in
    let (_, e3, h3) = bind-ok _ _ u h2 in
    record {
      turn_room = reaches-below _ limits.calls_turn (require-ok _ _ _ e1);
      episode_room = reaches-below _ limits.calls_episode (require-ok _ _ _ e2);
      input_room = exceeds-below _ limits.input_tokens_episode (require-ok _ _ _ e3);
      output_room = exceeds-below _ limits.output_tokens_episode (require-ok _ _ _ h3);
    }

-- One more reservation of the episode and turn fits where there is room.
reserved-WithinLimits :
    (limits : Limits) (episode : Episode) (turn input output : ℕ) (l : Ledger) (id now : ℕ)
    → HasRoom limits episode turn input output l
    → WithinLimits limits episode.id turn episode (record l {
      reservations =
          (record {
            id = id;
            episode_id = episode.id;
            turn_number = turn;
            input_tokens = input;
            output_tokens = output;
            created_at = now;
          })
          ∷ l.reservations;
    })
reserved-WithinLimits limits episode turn input output l id now room = record {
  turn_calls = rw (==_refl episode.id, ==_refl turn) (omega (arith, room.turn_room));
  episode_calls = rw (==_refl episode.id) (omega (arith, room.episode_room));
  input_tokens = rw (==_refl episode.id) (omega (arith, room.input_room));
  output_tokens = rw (==_refl episode.id) (omega (arith, room.output_room));
}

-- A reservation changes the table of reservations only.
pub reserve-ok :
    (id now episode_id turn : ℕ) (limits : Limits) (input output : ℕ) (l l' : Ledger) (answer : ℕ)
    → reserve id now episode_id turn limits input output l ≡ ok (answer, l')
    → (rows : List Reservation) × (l' ≡ record l { reservations = rows })
unfolding reserve
reserve-ok id now episode_id turn limits input output l l' answer h =
    go (find (λ x. x.id == episode_id) l.projections.tables.episodes) h
  where
    row : Reservation
    row = record {
      id = id;
      episode_id = episode_id;
      turn_number = turn;
      input_tokens = input;
      output_tokens = output;
      created_at = now;
    }

    go :
        (o : Option Episode)
        → on_option {B = Result (ℕ × Ledger)} o (raise Error.no_episode) (λ episode.
          check_limits limits episode turn input output l >>= λ _.
          insert_reservation row l >>= λ stored. ok (id, stored))
          ≡ ok (answer, l')
        → (rows : List Reservation) × (l' ≡ record l { reservations = rows })
    go none k = ground (arith, k)
    go (some episode) k =
        let (u, e1, h1) = bind-ok _ _ (answer, l') k in
        let (stored, e2, h2) = bind-ok _ _ (answer, l') h1 in
        let last : l' ≡ stored = ground (arith, h2) in
        (row ∷ l.reservations, last ∙ insert_reservation-ok row l stored e2)

-- A granted reservation answers with its identifier; the episode exists, and what is used and
-- reserved, the new reservation included, is within the four limits of the call: the calls of the
-- turn, the calls of the episode, its input tokens and its output tokens.
pub reserve_llm_budget-WithinLimits :
    (id now episode_id turn : ℕ) (limits : Limits) (input output : ℤ) (stale_after : ℕ)
    (l l' : Ledger) (answer : ℕ)
    → reserve_llm_budget id now episode_id turn limits input output stale_after l ≡ (ok answer, l')
    → (answer ≡ id)
      × ((episode : Episode) × (find (λ x. x.id == episode_id) l.projections.tables.episodes
            ≡ some episode)
          × WithinLimits limits episode_id turn episode l')
unfolding reserve_llm_budget reserve
reserve_llm_budget-WithinLimits id now episode_id turn limits input output stale_after l l' answer
      h =
    go (find (λ x. x.id == episode_id) l.projections.tables.episodes) refl (
      granted
        (is_negative input
          || is_negative output
          || is_negative limits.calls_turn
          || is_negative limits.calls_episode)
        h)
  where
    start : Ledger
    start = drop_stale (now - stale_span stale_after) l

    body : Ledger → Result (ℕ × Ledger)
    body l =
        reserve id now episode_id turn limits (pos_part input) (pos_part output)
          (drop_stale (now - stale_span stale_after) l)

    granted :
        (b : Bool)
        → (if b then (raise Error.negative_budget, l) else transaction body l) ≡ (ok answer, l')
        → body l ≡ ok (answer, l')
    granted true k = ground (arith, ap (λ r. r.0) k)
    granted false k = transaction-ok body l l' answer k

    row : ℕ → Reservation
    row k = record {
      id = id;
      episode_id = k;
      turn_number = turn;
      input_tokens = pos_part input;
      output_tokens = pos_part output;
      created_at = now;
    }

    go :
        (o : Option Episode)
        → find (λ x. x.id == episode_id) l.projections.tables.episodes ≡ o
        → on_option {B = Result (ℕ × Ledger)} o (raise Error.no_episode) (λ episode.
          check_limits limits episode turn (pos_part input) (pos_part output) start >>= λ _.
          insert_reservation (row episode_id) start >>= λ stored. ok (id, stored))
          ≡ ok (answer, l')
        → (answer ≡ id)
          × ((episode : Episode) × (find (λ x. x.id == episode_id) l.projections.tables.episodes
                ≡ some episode)
              × WithinLimits limits episode_id turn episode l')
    go none f k = ground (arith, k)
    go (some episode) f k =
        let (u, e1, h1) = bind-ok _ _ (answer, l') k in
        let (stored, e2, h2) = bind-ok _ _ (answer, l') h1 in
        let same : episode.id ≡ episode_id =
          (==_iff episode.id episode_id).0
            (find-some (λ x. x.id == episode_id) l.projections.tables.episodes episode f) in
        let room =
          check_limits-ok limits episode turn (pos_part input) (pos_part output) start u e1 in
        let last : stored ≡ l' = ground (arith, h2) in
        let kept : WithinLimits limits episode_id turn episode
            (record start { reservations = row episode_id ∷ start.reservations }) =
          subst
            (λ k.
              WithinLimits limits k turn episode
                (record start { reservations = row k ∷ start.reservations }))
            same
            (reserved-WithinLimits limits episode turn (pos_part input) (pos_part output) start id
              now room) in
        (
          ground (arith, h2),
          (
            episode,
            f,
            subst (WithinLimits limits episode_id turn episode)
                (sym (insert_reservation-ok (row episode_id) start stored e2) ∙ last) kept,
          ),
        )

-- What holds of a database whatever its reservations holds after a call, granted or not.
pub reserve_llm_budget-kept :
    (id now episode_id turn : ℕ) (limits : Limits) (input output : ℤ) (stale_after : ℕ) (l : Ledger)
    (P : Ledger → Type 0)
    → ((rows : List Reservation) → P (record l { reservations = rows }))
    → P (reserve_llm_budget id now episode_id turn limits input output stale_after l).1
unfolding reserve_llm_budget transaction
reserve_llm_budget-kept id now episode_id turn limits input output stale_after l P kept = checked (
    is_negative input
    || is_negative output
    || is_negative limits.calls_turn
    || is_negative limits.calls_episode)
  where
    start : Ledger
    start = drop_stale (now - stale_span stale_after) l

    reserved : Result (ℕ × Ledger)
    reserved = reserve id now episode_id turn limits (pos_part input) (pos_part output) start

    settled : Result (ℕ × Ledger) → Result ℕ × Ledger
    settled r = when_ok r (λ e. (raise e, l)) (λ r. (ok r.0, r.1))

    go : (r : Result (ℕ × Ledger)) → reserved ≡ r → P (settled r).1
    go (raise e) h = kept l.reservations
    go (ok (answer, l')) h =
        let (rows, same) =
          reserve-ok id now episode_id turn limits (pos_part input) (pos_part output) start l'
            answer h in
        subst P (sym same) (kept rows)

    checked : (b : Bool) → P (if b then (raise Error.negative_budget, l) else settled reserved).1
    checked true = kept l.reservations
    checked false = go reserved refl
