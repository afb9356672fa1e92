-- ===== src/Ledger/Completion.antt =====
-- packages/core/src/belief_ledger_core/store.py, projections.py and migrations.py: the completion of
-- a verification task under `UNIQUE(episode_id, belief_id, method, state)`.
use belief_ledger_pramana.Prelude.{
  ℕ, ◌+◌, ◌≡◌, refl, sym, Bool, true, false, ◌&&◌, ◌||◌, not, Option, none, some, List, [], ◌∷◌,
  ◌++◌, any, In, inl, inr, ◌==◌, ==_refl, arith, if◌then◌else◌,
}
use belief_ledger_pramana.Models.{TaskState, VerificationTask, method_rank, same_task_state}
use belief_ledger_pramana.Ledger.Results.{Error, Result, ok, raise, when_ok, ◌>>=◌}
use belief_ledger_pramana.Ledger.Events.{
  Event, EventDraft, Correlation, Payload, Ports, build_event,
}
use belief_ledger_pramana.Ledger.Tables.{Tables, entity_in_episode, task_entity}
use belief_ledger_pramana.Ledger.Inserts.{same_task}
use belief_ledger_pramana.Ledger.Updates.{update_unique, complete_task}
use belief_ledger_pramana.Ledger.Projections.{Projections, apply_event, handle}
use belief_ledger_pramana.Ledger.Chain.{previous_of}
use belief_ledger_pramana.Ledger.Store.{
  Ledger, max_seq, insert_event, store_event, append_drafts, append_new, append, append_events,
  transaction, is_open_task, same_event,
}

pub any-In :
    {A : Type 0} (test : A → Bool) (a : A) (xs : List A)
    → In a xs
    → test a ≡ true
    → any test xs ≡ true
any-In test a (x ∷ xs) (inl e) h = rw (sym e, h) refl
any-In test a (x ∷ xs) (inr k) h = ground (arith, any-In test a xs k h)
any-In test a [] k h = absurd k

-- Two tasks of one belief and one method, the first of them completed.
pub record IsRepeated (done task : VerificationTask) : Type 0 where
  pub completed : same_task_state TaskState.completed done.state ≡ true
  pub other : (done.id == task.id) ≡ false
  pub episode : done.episode_id ≡ task.episode_id
  pub belief : done.belief_id ≡ task.belief_id
  pub method : method_rank done.method ≡ method_rank task.method

raise-bind :
    {A B : Type 0} (r : Result A) (e : Error) (f : A → Result B) → r ≡ raise e → (r >>= f) ≡ raise e
unfolding ◌>>=◌
raise-bind r e f h = rw h refl

complete_task-again :
    (done task : VerificationTask) (result : Option ℕ) (t : Tables)
    → IsRepeated done task
    → In done t.verification_tasks
    → In task t.verification_tasks
    → complete_task task.id result TaskState.completed t ≡ raise Error.constraint
unfolding complete_task update_unique
complete_task-again done task result t same h k =
    let ready : VerificationTask = record task { result = result; state = TaskState.completed } in
    let clash : (not (done.id == task.id) && same_task ready done) ≡ true =
      rw
        (
          same.other,
          same.episode,
          same.belief,
          same.method,
          same.completed,
          ==_refl task.episode_id,
          ==_refl task.belief_id,
          ==_refl (method_rank task.method),
        )
        refl in
    let found : any (λ y. not (y.id == task.id) && same_task ready y) t.verification_tasks ≡ true =
      any-In (λ y. not (y.id == task.id) && same_task ready y) done t.verification_tasks h clash in
    let refused : any
          (λ x.
            (x.id == task.id)
            && any
                (λ y.
                  not (y.id == task.id)
                  && same_task (record x { result = result; state = TaskState.completed }) y)
                t.verification_tasks)
          t.verification_tasks
        ≡ true =
      any-In
        (λ x.
          (x.id == task.id)
          && any
              (λ y.
                not (y.id == task.id)
                && same_task (record x { result = result; state = TaskState.completed }) y)
              t.verification_tasks)
        task t.verification_tasks k (rw (==_refl task.id, found) refl) in
    raise-bind _ Error.constraint _ (rw refused refl)

module _ (ports : Ports) where
  completion_refused :
      (e : Event) (done task : VerificationTask) (result : Option ℕ) (p : Projections)
      → IsRepeated done task
      → In done p.tables.verification_tasks
      → In task p.tables.verification_tasks
      → e.payload ≡ Payload.verification_completed result none
      → e.aggregate_id ≡ task.id
      → entity_in_episode p.tables.verification_tasks task.id e.episode_id ≡ true
      → any (λ x. x.id == e.episode_id) p.tables.episodes ≡ true
      → apply_event ports e p ≡ raise Error.constraint
  unfolding apply_event handle ◌>>=◌
  completion_refused e done task result p same h k payload aggregate mine there =
      rw (payload, aggregate, there, mine, complete_task-again done task result p.tables same h k)
        refl

  store_event-refused :
      (e : Event) (l : Ledger)
      → apply_event ports e l.projections ≡ raise Error.constraint
      → store_event ports e l ≡ raise Error.constraint
  unfolding store_event insert_event ◌>>=◌
  store_event-refused e l h =
      go (any (same_event e) l.events || any (λ r. r.event_id == e.id) l.auth) h
    where
      stored : Ledger
      stored = record l {
        events = l.events ++ (e ∷ []);
        auth =
            (record {
              event_id = e.id;
              event_hash = e.event_hash;
              auth_tag = ports.auth_tag e.id e.event_hash;
            })
            ∷ l.auth;
      }

      go :
          (b : Bool)
          → apply_event ports e l.projections ≡ raise Error.constraint
          → when_ok (if b then raise Error.constraint else ok stored) raise (λ inserted.
            when_ok
              (apply_event ports e inserted.projections)
              raise
              (λ p. ok (record inserted { projections = p })))
            ≡ raise Error.constraint
      go true h = refl
      go false h = rw h refl

  -- Where a belief has a completed task and an open one of the same method, both in the episode,
  -- which exists: completing the open one raises an integrity error and changes nothing, whatever
  -- its result, its correlation and its fresh identifier.
  pub append_events-repeated :
      (fresh : ℕ → ℕ × ℕ) (done task : VerificationTask) (draft : EventDraft) (result : Option ℕ)
      (c : Correlation) (l : Ledger)
      → IsRepeated done task
      → In done l.projections.tables.verification_tasks
      → In task l.projections.tables.verification_tasks
      → draft.payload ≡ Payload.verification_completed result none
      → draft.aggregate_id ≡ task.id
      → is_open_task task.id task.episode_id l ≡ true
      → entity_in_episode l.projections.tables.verification_tasks task.id task.episode_id ≡ true
      → any (λ x. x.id == task.episode_id) l.projections.tables.episodes ≡ true
      → append_events ports fresh task.episode_id (draft ∷ []) c none (some task.id) l
        ≡ (raise Error.constraint, l)
  unfolding append_events transaction append append_new append_drafts ◌>>=◌
  append_events-repeated fresh done task draft result c l same h k payload aggregate waiting mine
        there =
      let e =
        build_event ports (max_seq l.events + 1 + 0) (fresh 0).0 (fresh 0).1 draft
          (previous_of ports task.episode_id l.projections.heads) c task.episode_id in
      rw
        (
          waiting,
          store_event-refused e l (
              completion_refused e done task result l.projections same h k payload aggregate mine
                there),
        )
        refl
