-- ===== src/Verification/Scheduler.antt =====
-- packages/core/src/belief_ledger_core/verification/scheduler.py and apta.py: the request and the
-- completion of a verification task on the ledger store, and the counters of a source.
use belief_ledger_pramana.Prelude.{
  ℕ, ◌+◌, Bool, true, false, ◌&&◌, Option, none, some, List, [], ◌∷◌, find, select, map, on_option,
  ltb, ◌==◌, if◌then◌else◌, ℤ, pos, pos_part,
}
use belief_ledger_pramana.Models.{
  Source, TaskState, VerificationMethod, VerificationTask, method_rank, same_task_state,
}
use belief_ledger_pramana.Ledger.Results.{Error, Result, ok, raise, when_ok}
use belief_ledger_pramana.Ledger.Events.{Correlation, Event, EventDraft, Payload, Ports}
use belief_ledger_pramana.Ledger.Store.{Ledger, append_events}

-- The texts that `complete` takes.
pub data Outcome : Type 0 where
  confirmed disconfirmed inconclusive : Outcome
  other_outcome : ℕ → Outcome

abbrev pub outcome_text : Outcome → Option ℕ
outcome_text confirmed = some 1
outcome_text disconfirmed = some 2
outcome_text inconclusive = some 3
outcome_text (other_outcome _) = none

pub record VerificationResult : Type 0 where
  pub task : VerificationTask
  pub created : Bool
  pub event_ids : List ℕ

abbrev pub by_id : VerificationTask → List VerificationTask → List VerificationTask
by_id t [] = t ∷ []
by_id t (x ∷ xs) = let rest = by_id t xs in if ltb x.id t.id then x ∷ rest else t ∷ x ∷ xs

abbrev pub sort_by_id : List VerificationTask → List VerificationTask
sort_by_id [] = []
sort_by_id (t ∷ ts) = by_id t (sort_by_id ts)

-- `list_verification_tasks`, in the order of the identifiers.
unfoldable pub list_verification_tasks : ℕ → Option TaskState → Ledger → List VerificationTask
list_verification_tasks episode_id state l = sort_by_id (
    select
      (λ t. (t.episode_id == episode_id) && on_option state true (λ s. same_task_state t.state s))
      l.projections.tables.verification_tasks)

abbrev pub is_for : ℕ → VerificationMethod → VerificationTask → Bool
is_for belief_id method t =
    (t.belief_id == belief_id) && (method_rank t.method == method_rank method)

-- The open task of a belief and a method.
unfoldable pub find_open : ℕ → ℕ → VerificationMethod → Ledger → Option VerificationTask
find_open episode_id belief_id method l =
    find (is_for belief_id method) (list_verification_tasks episode_id (some TaskState.open_task) l)

-- `max(1, min(k, 20))` and `max(0, budget)`
abbrev pub clamped : ℤ → ℕ
clamped z = if ltb 20 (pos_part z) then 20 else if ltb (pos_part z) 1 then 1 else pos_part z

abbrev pub new_task : ℕ → ℕ → ℕ → VerificationMethod → ℤ → ℤ → VerificationTask
new_task id episode_id belief_id method k_required budget = record {
  id = id;
  episode_id = episode_id;
  belief_id = belief_id;
  method = method;
  k_required = clamped k_required;
  budget = pos_part budget;
  result = none;
  state = TaskState.open_task;
}

abbrev pub no_correlation : Correlation
no_correlation = record { idempotency_key = none; idempotency_fingerprint = none; others = [] }

-- `aggregate_type` is the number of `verification_task`.
abbrev pub task_draft : ℕ → Payload → EventDraft
task_draft id payload = record {
  aggregate_type = 1;
  aggregate_id = id;
  payload = payload;
  causal_event_id = none;
}

module _ (ports : Ports) where
  -- The append of a new task, and what is answered where it meets an integrity error.
  unfoldable pub create_task :
      (ℕ → ℕ × ℕ) → VerificationTask → Ledger → Result VerificationResult × Ledger
  create_task fresh task l =
      let (r, l') : Result (List Event) × Ledger =
        append_events ports fresh task.episode_id
          (task_draft task.id (Payload.verification_created task) ∷ []) no_correlation none none
          l in
      elim r [
        | ok es ↦ (ok (record { task = task; created = true; event_ids = map (λ e. e.id) es }), l')
        | raise Error.constraint ↦ (
          on_option (find_open task.episode_id task.belief_id task.method l')
              (raise Error.constraint)
              (λ t. ok (record { task = t; created = false; event_ids = [] })),
          l',
        )
        | raise e ↦ (raise e, l')
      ]

  -- `VerificationScheduler.request`, given the identifier of a new task.
  unfoldable pub request :
      (ℕ → ℕ × ℕ)
      → ℕ
      → ℕ
      → ℕ
      → VerificationMethod
      → ℤ
      → ℤ
      → Ledger
      → Result VerificationResult × Ledger
  request fresh id episode_id belief_id method k_required budget l =
      if on_option (find (λ b. b.id == belief_id) l.projections.tables.beliefs) false
        (λ b. b.episode_id == episode_id)
      then on_option (find_open episode_id belief_id method l)
          (create_task fresh (new_task id episode_id belief_id method k_required budget) l)
          (λ t. (ok (record { task = t; created = false; event_ids = [] }), l))
      else (raise Error.foreign_record, l)

  -- `VerificationScheduler.complete`
  unfoldable pub complete :
      (ℕ → ℕ × ℕ) → VerificationTask → Outcome → Ledger → Result (List ℕ) × Ledger
  complete fresh task outcome l =
      on_option (outcome_text outcome) (raise Error.invalid_result, l)
        (λ text.
          let (r, l') : Result (List Event) × Ledger =
            append_events ports fresh task.episode_id
              (task_draft task.id
                  (Payload.verification_completed (some text) (some TaskState.completed))
                ∷ [])
              no_correlation none (some task.id) l in
          (when_ok r raise (λ es. ok (map (λ e. e.id) es)), l'))

-- `updated_source` of apta.py: the counters of a source, `none` for a negative increment.
unfoldable pub updated_source : Source → ℤ → ℤ → Option Source
updated_source s (pos c) (pos d) = some (record s {
  stats = record {
    confirmed = s.stats.confirmed + c;
    defeated = s.stats.defeated + d;
    samples = s.stats.samples + c + d;
  };
})
updated_source s _ _ = none
