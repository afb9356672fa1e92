-- ===== src/Verification/Completed.antt =====
-- packages/core/src/belief_ledger_core/verification/scheduler.py with store.py and projections.py: a
-- task that is completed once, and a request for a task that is open.
use belief_ledger_pramana.Prelude.{
  ℕ, ◌+◌, ◌≡◌, refl, sym, ap, subst, ◌∙◌, Bool, true, false, ◌&&◌, not, Option, none, some, List,
  [], ◌∷◌, map, find, any, on_option, ◌==◌, arith, if◌then◌else◌,
}
use belief_ledger_pramana.Models.{TaskState, VerificationTask, same_task_state}
use belief_ledger_pramana.Ledger.Results.{Error, Result, ok, raise, when_ok, bind-ok}
use belief_ledger_pramana.Ledger.Events.{
  Correlation, Event, EventDraft, Payload, Ports, build_event,
}
use belief_ledger_pramana.Ledger.Tables.{Tables, update}
use belief_ledger_pramana.Ledger.Inserts.{same_task}
use belief_ledger_pramana.Ledger.Updates.{update_unique, complete_task}
use belief_ledger_pramana.Ledger.Projections.{Projections, apply_event, handle}
use belief_ledger_pramana.Ledger.Chain.{previous_of}
use belief_ledger_pramana.Ledger.Store.{
  Ledger, max_seq, store_event, append_drafts, append_new, append, append_events, transaction,
  is_open_task,
}
use belief_ledger_pramana.Ledger.Stored.{store_event-ok}
use belief_ledger_pramana.Ledger.Appends.{transaction-ok}
use belief_ledger_pramana.Verification.Scheduler.{
  Outcome, outcome_text, no_correlation, task_draft, complete,
}

update_unique-ok :
    {A : Type 0} (id_of : A → ℕ) (clash : A → A → Bool) (i : ℕ) (change : A → A)
    (rows rows' : List A)
    → update_unique id_of clash i change rows ≡ ok rows'
    → rows' ≡ update (λ x. id_of x == i) change rows
unfolding update_unique
update_unique-ok {A} id_of clash i change rows rows' h =
    go (any (λ x. (id_of x == i) && any (λ y. not (id_of y == i) && clash (change x) y) rows) rows)
      h
  where
    go :
        (b : Bool)
        → (if b then raise Error.constraint else ok (update (λ x. id_of x == i) change rows))
          ≡ ok rows'
        → rows' ≡ update (λ x. id_of x == i) change rows
    go true k = ground (arith, k)
    go false k = ground (arith, k)

-- After the update no row of the task is open.
closed :
    (i episode_id : ℕ) (result : Option ℕ) (rows : List VerificationTask)
    → on_option
        (find
          (λ t. (t.id == i) && (t.episode_id == episode_id))
          (update
            (λ x. x.id == i)
            (λ x. record x { result = result; state = TaskState.completed })
            rows))
        false
        (λ t. same_task_state t.state TaskState.open_task)
      ≡ false
unfolding update
closed i episode_id result [] = refl
closed i episode_id result (x ∷ rows) =
    go (x.id == i) (x.episode_id == episode_id) refl refl (closed i episode_id result rows)
  where
    change : VerificationTask → VerificationTask
    change x = record x { result = result; state = TaskState.completed }

    rest : Option VerificationTask
    rest =
        find (λ t. (t.id == i) && (t.episode_id == episode_id))
          (map (λ x. if x.id == i then change x else x) rows)

    go :
        (b c : Bool)
        → (x.id == i) ≡ b
        → (x.episode_id == episode_id) ≡ c
        → on_option rest false (λ t. same_task_state t.state TaskState.open_task) ≡ false
        → on_option
            (if ((if b then change x else x).id == i)
                && ((if b then change x else x).episode_id == episode_id)
              then some (if b then change x else x)
              else rest)
            false
            (λ t. same_task_state t.state TaskState.open_task)
          ≡ false
    go true true e f h = rw (e, f) refl
    go true false e f h = rw (e, f) h
    go false c e f h = rw e h

module _ (ports : Ports) where
  -- What one stored event of a draft is.
  abbrev IsOne : ℕ → EventDraft → Ledger → Ledger → Event → Type 0
  IsOne episode_id d l l' x =
      (store_event ports x l ≡ ok l')
      × (x.payload ≡ d.payload)
      × (x.aggregate_id ≡ d.aggregate_id)
      × (x.episode_id ≡ episode_id)

  append_new-IsOne :
      (fresh : ℕ → ℕ × ℕ) (episode_id : ℕ) (d : EventDraft) (c : Correlation) (l l' : Ledger)
      (es : List Event)
      → append_new ports fresh episode_id (d ∷ []) c none l ≡ ok (es, l')
      → (x : Event) × IsOne episode_id d l l' x
  unfolding append_new append_drafts
  append_new-IsOne fresh episode_id d c l l' es h =
      let x =
        build_event ports (max_seq l.events + 1 + 0) (fresh 0).0 (fresh 0).1 d
          (previous_of ports episode_id l.projections.heads) c episode_id in
      let (r, e1, h1) = bind-ok _ _ (es, l') h in
      let (stored, e2, h2) = bind-ok (store_event ports x l) _ r e1 in
      let (r', e3, h3) = bind-ok _ _ r h2 in
      let (keyed, e4, h4) = bind-ok _ _ (es, l') h1 in
      let a : r'.1 ≡ stored = ground (arith, e3) in
      let b : r.1 ≡ r'.1 = ground (arith, h3) in
      let c : keyed ≡ r.1 = ground (arith, e4) in
      let last : l' ≡ keyed = ground (arith, h4) in
      (x, (e2 ∙ ap ok (sym (last ∙ c ∙ b ∙ a)), refl, refl, refl))

  append-IsOne :
      (fresh : ℕ → ℕ × ℕ) (episode_id : ℕ) (d : EventDraft) (c : Correlation) (required : Option ℕ)
      (l l' : Ledger) (e : Event) (es : List Event)
      → append ports fresh episode_id (d ∷ []) c none required l ≡ ok (e ∷ es, l')
      → (x : Event) × IsOne episode_id d l l' x
  unfolding append
  append-IsOne fresh episode_id d c required l l' e es h =
      waiting (on_option required false (λ t. not (is_open_task t episode_id l))) h
    where
      waiting :
          (b : Bool)
          → (if b then ok ([], l) else append_new ports fresh episode_id (d ∷ []) c none l)
            ≡ ok (e ∷ es, l')
          → (x : Event) × IsOne episode_id d l l' x
      waiting true k = ground (arith, k)
      waiting false k = append_new-IsOne fresh episode_id d c l l' (e ∷ es) k

  -- The projection of a completion leaves no open row of its task.
  apply_event-closed :
      (x : Event) (text : ℕ) (episode_id i : ℕ) (p p' : Projections)
      → x.payload ≡ Payload.verification_completed (some text) (some TaskState.completed)
      → x.aggregate_id ≡ i
      → apply_event ports x p ≡ ok p'
      → on_option
          (find (λ t. (t.id == i) && (t.episode_id == episode_id)) p'.tables.verification_tasks)
          false
          (λ t. same_task_state t.state TaskState.open_task)
        ≡ false
  unfolding apply_event handle complete_task
  apply_event-closed x text episode_id i p p' payload aggregate h =
      let (u, e1, h1) = bind-ok _ _ p' h in
      let (t, e2, h2) = bind-ok (handle ports x x.payload p.tables) _ p' h1 in
      let handled : handle ports x
            (Payload.verification_completed (some text) (some TaskState.completed)) p.tables
          ≡ ok t =
        subst (λ y. handle ports x y p.tables ≡ ok t) payload e2 in
      let (u', e3, h3) = bind-ok _ _ t handled in
      let (rows, e4, h4) = bind-ok _ _ t h3 in
      let changed =
        update_unique-ok _ same_task x.aggregate_id _ p.tables.verification_tasks rows e4 in
      let whole : t ≡ p'.tables = ground (arith, h2) in
      let here : record p.tables { verification_tasks = rows } ≡ t = ground (arith, h4) in
      let last : rows ≡ p'.tables.verification_tasks =
        ap (λ (x : Tables). x.verification_tasks) (here ∙ whole) in
      subst
        (λ j.
          on_option
            (find (λ t. (t.id == j) && (t.episode_id == episode_id)) p'.tables.verification_tasks)
            false (λ t. same_task_state t.state TaskState.open_task)
          ≡ false)
        aggregate
        (subst
          (λ xs.
            on_option (find (λ t. (t.id == x.aggregate_id) && (t.episode_id == episode_id)) xs)
              false (λ t. same_task_state t.state TaskState.open_task)
            ≡ false)
          (sym changed ∙ last)
          (closed x.aggregate_id episode_id (some text) p.tables.verification_tasks))

  -- Once `complete` has answered with an event, the task is closed.
  complete-closed :
      (fresh : ℕ → ℕ × ℕ) (task : VerificationTask) (outcome : Outcome) (l l' : Ledger) (i : ℕ)
      (is : List ℕ)
      → complete ports fresh task outcome l ≡ (ok (i ∷ is), l')
      → is_open_task task.id task.episode_id l' ≡ false
  unfolding complete append_events
  complete-closed fresh task outcome l l' i is h = go (outcome_text outcome) h
    where
      draft : ℕ → EventDraft
      draft text =
          task_draft task.id (Payload.verification_completed (some text) (some TaskState.completed))

      body : ℕ → Ledger → Result (List Event × Ledger)
      body text =
          append ports fresh task.episode_id (draft text ∷ []) no_correlation none (some task.id)

      ids : Result (List Event) → Result (List ℕ)
      ids r = when_ok r raise (λ es. ok (map (λ e. e.id) es))

      answered :
          (text : ℕ) (r : Result (List Event) × Ledger)
          → transaction (body text) l ≡ r
          → (let x : Result (List ℕ) × Ledger = (ids r.0, r.1) in x) ≡ (ok (i ∷ is), l')
          → is_open_task task.id task.episode_id l' ≡ false
      answered text (raise e, m) e1 k = ground (arith, k)
      answered text (ok [], m) e1 k = ground (arith, k)
      answered text (ok (e ∷ es), m) e1 k =
          let same : m ≡ l' = ground (arith, k) in
          let (x, (stored, payload, aggregate, _)) =
            append-IsOne fresh task.episode_id (draft text) no_correlation (some task.id) l m e es
              (transaction-ok (body text) l m (e ∷ es) e1) in
          subst (λ y. is_open_task task.id task.episode_id y ≡ false) same
            (apply_event-closed x text task.episode_id task.id l.projections m.projections payload
              aggregate ((store_event-ok ports x l m stored).1))

      go :
          (o : Option ℕ)
          → on_option {B = Result (List ℕ) × Ledger} o
              (raise Error.invalid_result, l)
              (λ text. (ids (transaction (body text) l).0, (transaction (body text) l).1))
            ≡ (ok (i ∷ is), l')
          → is_open_task task.id task.episode_id l' ≡ false
      go none k = ground (arith, k)
      go (some text) k = answered text (transaction (body text) l) refl k

  idle :
      (fresh : ℕ → ℕ × ℕ) (task : VerificationTask) (outcome : Outcome) (text : ℕ) (l : Ledger)
      → outcome_text outcome ≡ some text
      → is_open_task task.id task.episode_id l ≡ false
      → complete ports fresh task outcome l ≡ (ok [], l)
  unfolding complete append_events append transaction
  idle fresh task outcome text l valid shut = rw (valid, shut) refl

  -- Once `complete` has answered with an event, completing the task again, with whatever valid
  -- result, answers with no event and leaves the database as it is.
  pub complete-again :
      (fresh fresh' : ℕ → ℕ × ℕ) (task : VerificationTask) (outcome outcome' : Outcome) (text : ℕ)
      (l l' : Ledger) (i : ℕ) (is : List ℕ)
      → complete ports fresh task outcome l ≡ (ok (i ∷ is), l')
      → outcome_text outcome' ≡ some text
      → complete ports fresh' task outcome' l' ≡ (ok [], l')
  complete-again fresh fresh' task outcome outcome' text l l' i is h valid =
      idle fresh' task outcome' text l' valid (complete-closed fresh task outcome l l' i is h)
