-- ===== src/Ledger/Valid.antt =====
-- packages/core/src/belief_ledger_core/store.py: the invariant of the database, and what one stored
-- event does to it.
use belief_ledger_pramana.Prelude.{
  ℕ, ◌≡◌, refl, sym, ◌∙◌, Bool, true, false, ◌||◌, none, List, [], ◌∷◌, ◌++◌, map, any, All, ◌==◌,
  ==_refl, arith, if◌then◌else◌,
}
use belief_ledger_pramana.Ledger.Results.{
  Error, Result, ok, raise, ◌>>=◌, require, each, ok-bind, each-append,
}
use belief_ledger_pramana.Ledger.Events.{Event, Ports, compute_event_hash}
use belief_ledger_pramana.Ledger.Projections.{Heads, apply_event, upsert}
use belief_ledger_pramana.Ledger.Chain.{AuthRow, is_authentic, previous_of, check_event, scan}
use belief_ledger_pramana.Ledger.Store.{
  Ledger, no_projections, empty_ledger, same_event, insert_event,
}
use belief_ledger_pramana.Ledger.Scan.{tagged}

module _ {A S : Type 0} (f : A → S → Result S) where
  each-single : (x : A) (s s' : S) → f x s ≡ ok s' → each f (x ∷ []) s ≡ ok s'
  unfolding each ◌>>=◌
  each-single x s s' e = rw e refl

  pub each-snoc :
      (xs : List A) (x : A) (s s1 s2 : S)
      → each f xs s ≡ ok s1
      → f x s1 ≡ ok s2
      → each f (xs ++ (x ∷ [])) s ≡ ok s2
  each-snoc xs x s s1 s2 e1 e2 =
      each-append f xs (x ∷ []) s
      ∙ ok-bind (each f xs s) s1 (each f (x ∷ [])) e1
      ∙ each-single x s1 s2 e2

module _ (ports : Ports) where
  -- The chains of the events verify up to the stored heads, each event is authenticated, and the
  -- projections are those of the events.
  pub record IsValid (l : Ledger) : Type 0 where
    pub chained : scan ports none (map (tagged ports) l.events) [] ≡ ok (false, l.projections.heads)
    pub authentic : All (λ e. is_authentic ports l.auth e ≡ true) l.events
    pub projected : each (apply_event ports) l.events no_projections ≡ ok l.projections

  pub empty_ledger-IsValid : IsValid empty_ledger
  unfolding scan each
  empty_ledger-IsValid = record { chained = refl; authentic = _; projected = refl }

-- What `_insert_event` has checked and what it leaves.
pub insert_event-ok :
    (e : Event) (tag : ℕ) (l l' : Ledger)
    → insert_event e tag l ≡ ok l'
    → (any (same_event e) l.events ≡ false)
      × (any (λ r. r.event_id == e.id) l.auth ≡ false)
      × (l' ≡ record l {
        events = l.events ++ (e ∷ []);
        auth = (record { event_id = e.id; event_hash = e.event_hash; auth_tag = tag }) ∷ l.auth;
      })
unfolding insert_event
insert_event-ok e tag l l' h =
    go (any (same_event e) l.events) (any (λ r. r.event_id == e.id) l.auth) h
  where
    stored : Ledger
    stored = record l {
      events = l.events ++ (e ∷ []);
      auth = (record { event_id = e.id; event_hash = e.event_hash; auth_tag = tag }) ∷ l.auth;
    }

    go :
        (b c : Bool)
        → (if b || c then raise Error.constraint else ok stored) ≡ ok l'
        → (b ≡ false) × (c ≡ false) × (l' ≡ stored)
    go true c k = ground (arith, k)
    go false true k = ground (arith, k)
    go false false k = (refl, refl, ground (arith, k))

module _ (ports : Ports) where
  pub is_authentic-new :
      (e : Event) (auth : List AuthRow)
      → is_authentic ports
          ((record {
            event_id = e.id;
            event_hash = e.event_hash;
            auth_tag = ports.auth_tag e.id e.event_hash;
          })
            ∷ auth)
          e
        ≡ true
  is_authentic-new e auth =
      rw (==_refl e.id, ==_refl e.event_hash, ==_refl (ports.auth_tag e.id e.event_hash)) refl

  -- A record of another event changes nothing.
  is_authentic-old :
      (row : AuthRow) (auth : List AuthRow) (e : Event)
      → (row.event_id == e.id) ≡ false
      → is_authentic ports auth e ≡ true
      → is_authentic ports (row ∷ auth) e ≡ true
  is_authentic-old row auth e other h = rw other h

  pub authentic-old :
      (e : Event) (row : AuthRow) (auth : List AuthRow) (es : List Event)
      → row.event_id ≡ e.id
      → any (same_event e) es ≡ false
      → All (λ x. is_authentic ports auth x ≡ true) es
      → All (λ x. is_authentic ports (row ∷ auth) x ≡ true) es
  authentic-old e row auth [] i new h = _
  authentic-old e row auth (x ∷ es) i new h = (
    is_authentic-old row auth x (ground arith) h.0,
    authentic-old e row auth es i (ground arith) h.1,
  )

  pub check_event-built :
      (e : Event) (heads : Heads)
      → e.previous_hash ≡ previous_of ports e.episode_id heads
      → e.event_hash ≡ compute_event_hash ports e.previous_hash e
      → check_event ports e (ports.auth_tag e.id e.event_hash) heads
        ≡ ok (upsert e.episode_id (e.seq, e.event_hash) heads)
  unfolding check_event ◌>>=◌
  check_event-built e heads p h = go (previous_of ports e.episode_id heads) p
    where
      go :
          (previous : ℕ)
          → e.previous_hash ≡ previous
          → (require (e.previous_hash == previous) Error.chain_error >>= λ _.
              require (compute_event_hash ports previous e == e.event_hash) Error.chain_error
              >>= λ _.
                  require
                    (ports.auth_tag e.id e.event_hash == ports.auth_tag e.id e.event_hash)
                    Error.chain_error
                  >>= λ _. ok (upsert e.episode_id (e.seq, e.event_hash) heads))
            ≡ ok (upsert e.episode_id (e.seq, e.event_hash) heads)
      go previous q =
          rw
            (
              sym q,
              sym h,
              ==_refl e.previous_hash,
              ==_refl e.event_hash,
              ==_refl (ports.auth_tag e.id e.event_hash),
            )
            refl
