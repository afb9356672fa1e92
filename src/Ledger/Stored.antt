-- ===== src/Ledger/Stored.antt =====
-- packages/core/src/belief_ledger_core/store.py: a stored event, a stored batch and the transaction
-- round it keep the invariant of the database.
use belief_ledger_pramana.Prelude.{
  ◌≡◌, refl, sym, ap, subst, ◌∙◌, true, false, none, [], ◌∷◌, ◌++◌, map, any, All, All-append,
  on_option, arith, if◌then◌else◌,
}
use belief_ledger_pramana.Ledger.Results.{ok, ◌>>=◌, each, bind-ok, ok-bind}
use belief_ledger_pramana.Ledger.Events.{Event, Ports, compute_event_hash}
use belief_ledger_pramana.Ledger.Projections.{
  Heads, Projections, apply_event, handle, upsert, creates_episode, require_episode_exists,
}
use belief_ledger_pramana.Ledger.Chain.{AuthRow, is_authentic, previous_of, scan}
use belief_ledger_pramana.Ledger.Store.{
  Ledger, no_projections, same_event, insert_event, store_event,
}
use belief_ledger_pramana.Ledger.Scan.{map-append, tagged, scan-append, resume, lookup-upsert}
use belief_ledger_pramana.Ledger.Valid.{
  IsValid, insert_event-ok, each-snoc, authentic-old, is_authentic-new, check_event-built,
}

-- The projection of an event puts it at the head of its episode.
pub apply_event-heads :
    (ports : Ports) (e : Event) (p p' : Projections)
    → apply_event ports e p ≡ ok p'
    → p'.heads ≡ upsert e.episode_id (e.seq, e.event_hash) p.heads
unfolding apply_event
apply_event-heads ports e p p' h =
    let (u, e1, h1) =
      bind-ok
        (if creates_episode e.payload then ok tt else require_episode_exists e.episode_id p.tables)
        _ p' h in
    let (t, e2, h2) = bind-ok (handle ports e e.payload p.tables) _ p' h1 in ground (arith, h2)

module _ (ports : Ports) where
  -- What a stored event has come from, and what it leaves.
  pub store_event-ok :
      (e : Event) (l l' : Ledger)
      → store_event ports e l ≡ ok l'
      → (any (same_event e) l.events ≡ false)
        × (apply_event ports e l.projections ≡ ok l'.projections)
        × (l'.events ≡ l.events ++ (e ∷ []))
        × (l'.auth ≡ (
            (record {
              event_id = e.id;
              event_hash = e.event_hash;
              auth_tag = ports.auth_tag e.id e.event_hash;
            })
            ∷ l.auth))
        × (l'.idempotency ≡ l.idempotency)
        × (l'.reservations ≡ l.reservations)
  unfolding store_event
  store_event-ok e l l' h =
      let tag = ports.auth_tag e.id e.event_hash in
      let (inserted, e1, h1) = bind-ok (insert_event e tag l) _ l' h in
      let (p, e2, h2) = bind-ok (apply_event ports e inserted.projections) _ l' h1 in
      let (new, fresh, same) = insert_event-ok e tag l inserted e1 in
      let done : l' ≡ record inserted { projections = p } = ground (arith, h2) in
      (
        new,
        subst (λ x. apply_event ports e x.projections ≡ ok l'.projections) same
            (e2 ∙ ap (λ x. ok x.projections) (sym done)),
        ap (λ x. x.events) done ∙ ap (λ x. x.events) same,
        ap (λ x. x.auth) done ∙ ap (λ x. x.auth) same,
        ap (λ x. x.idempotency) done ∙ ap (λ x. x.idempotency) same,
        ap (λ x. x.reservations) done ∙ ap (λ x. x.reservations) same,
      )

  module _ where
    scan-built :
        (e : Event) (heads : Heads)
        → e.previous_hash ≡ previous_of ports e.episode_id heads
        → e.event_hash ≡ compute_event_hash ports e.previous_hash e
        → scan ports none (tagged ports e ∷ []) heads
          ≡ ok (false, upsert e.episode_id (e.seq, e.event_hash) heads)
    unfolding scan ◌>>=◌
    scan-built e heads p h = rw (check_event-built ports e heads p h) refl

    pub store_event-IsValid :
        (e : Event) (l l' : Ledger)
        → IsValid ports l
        → e.previous_hash ≡ previous_of ports e.episode_id l.projections.heads
        → e.event_hash ≡ compute_event_hash ports e.previous_hash e
        → store_event ports e l ≡ ok l'
        → IsValid ports l'
    store_event-IsValid e l l' v p h s =
        let (new, applied, events, auth, _, _) = store_event-ok e l l' s in
        let row : AuthRow = record {
          event_id = e.id;
          event_hash = e.event_hash;
          auth_tag = ports.auth_tag e.id e.event_hash;
        } in
        record {
          chained =
              ap (λ es. scan ports none (map (tagged ports) es) []) events
              ∙ ap (λ es. scan ports none es []) (map-append (tagged ports) l.events (e ∷ []))
              ∙ scan-append ports none (map (tagged ports) l.events) (tagged ports e ∷ []) []
              ∙ ok-bind (scan ports none (map (tagged ports) l.events) [])
                  (false, l.projections.heads) (resume ports none (tagged ports e ∷ [])) v.chained
              ∙ scan-built e l.projections.heads p h
              ∙ ap (λ x. ok (false, x))
                  (sym (apply_event-heads ports e l.projections l'.projections applied));
          authentic =
              subst (λ es. All (λ x. is_authentic ports l'.auth x ≡ true) es) (sym events)
                (subst (λ a. All (λ x. is_authentic ports a x ≡ true) (l.events ++ (e ∷ [])))
                  (sym auth)
                  (All-append (λ x. is_authentic ports (row ∷ l.auth) x ≡ true) l.events (e ∷ [])
                    (authentic-old ports e row l.auth l.events refl new v.authentic)
                    (is_authentic-new ports e l.auth, _)));
          projected =
              subst (λ es. each (apply_event ports) es no_projections ≡ ok l'.projections)
                (sym events)
                (each-snoc (apply_event ports) l.events e no_projections l.projections
                  l'.projections v.projected applied);
        }

    -- The head of the episode after an event of it is that event.
    pub previous_of-stored :
        (e : Event) (l l' : Ledger)
        → store_event ports e l ≡ ok l'
        → previous_of ports e.episode_id l'.projections.heads ≡ e.event_hash
    previous_of-stored e l l' s =
        let applied = (store_event-ok e l l' s).1 in
        ap (λ hs. previous_of ports e.episode_id hs)
          (apply_event-heads ports e l.projections l'.projections applied)
        ∙ ap (λ o. on_option o ports.zero_hash (λ head. head.1))
            (lookup-upsert e.episode_id (e.seq, e.event_hash) l.projections.heads)
