-- ===== src/Ledger/Purge.antt =====
-- packages/core/src/belief_ledger_core/store.py: the chain of the events that a purge preserves.
use belief_ledger_pramana.Prelude.{
  ℕ, ◌≡◌, refl, sym, ap, subst, ◌∙◌, Bool, true, false, not, none, some, List, [], ◌∷◌, map, All,
  select, on_option, ◌==◌, ==_refl, arith, if◌then◌else◌,
}
use belief_ledger_pramana.Ledger.Results.{Error, ok, ◌>>=◌, require, bind-ok, ok-bind}
use belief_ledger_pramana.Ledger.Events.{Event, Ports, compute_event_hash}
use belief_ledger_pramana.Ledger.Projections.{Heads, upsert, lookup}
use belief_ledger_pramana.Ledger.Chain.{is_authentic, check_event, scan, verified_heads}
use belief_ledger_pramana.Ledger.Store.{empty_ledger}
use belief_ledger_pramana.Ledger.Replay.{preserved}
use belief_ledger_pramana.Ledger.Scan.{tagged, verified_heads_lem}
use belief_ledger_pramana.Ledger.Runs.{Call, run, run-IsValid}

-- The heads of the other episodes.
abbrev pub without : ℕ → Heads → Heads
without episode_id heads = select (λ x. not (x.0 == episode_id)) heads

lookup-without :
    (k episode_id : ℕ) (heads : Heads)
    → (k == episode_id) ≡ false
    → lookup k (without episode_id heads) ≡ lookup k heads
unfolding lookup
lookup-without k episode_id [] h = refl
lookup-without k episode_id (x ∷ xs) h =
    go (x.0 == episode_id) refl (lookup-without k episode_id xs h)
  where
    go :
        (b : Bool)
        → (x.0 == episode_id) ≡ b
        → lookup k (without episode_id xs) ≡ lookup k xs
        → lookup k (if not b then x ∷ without episode_id xs else without episode_id xs)
          ≡ (if k == x.0 then some x.1 else lookup k xs)
    go true e rest = let other : (k == x.0) ≡ false = ground arith in rw other rest
    go false e rest = rw rest refl

without-upsert-same :
    (episode_id : ℕ) (v : ℕ × ℕ) (heads : Heads)
    → without episode_id (upsert episode_id v heads) ≡ without episode_id heads
unfolding upsert
without-upsert-same episode_id v [] = rw (==_refl episode_id) refl
without-upsert-same episode_id v (x ∷ xs) =
    go (episode_id == x.0) refl (without-upsert-same episode_id v xs)
  where
    go :
        (b : Bool)
        → (episode_id == x.0) ≡ b
        → without episode_id (upsert episode_id v xs) ≡ without episode_id xs
        → without episode_id (if b then (episode_id, v) ∷ xs else x ∷ upsert episode_id v xs)
          ≡ without episode_id (x ∷ xs)
    go true e rest =
        let same : (x.0 == episode_id) ≡ true = ground arith in rw (same, ==_refl episode_id) refl
    go false e rest =
        let other : (x.0 == episode_id) ≡ false = ground arith in rw (other, rest) refl

without-upsert-other :
    (k episode_id : ℕ) (v : ℕ × ℕ) (heads : Heads)
    → (k == episode_id) ≡ false
    → without episode_id (upsert k v heads) ≡ upsert k v (without episode_id heads)
unfolding upsert
without-upsert-other k episode_id v [] h = rw h refl
without-upsert-other k episode_id v (x ∷ xs) h =
    go (k == x.0) (x.0 == episode_id) refl refl (without-upsert-other k episode_id v xs h)
  where
    go :
        (b c : Bool)
        → (k == x.0) ≡ b
        → (x.0 == episode_id) ≡ c
        → without episode_id (upsert k v xs) ≡ upsert k v (without episode_id xs)
        → without episode_id (if b then (k, v) ∷ xs else x ∷ upsert k v xs)
          ≡ upsert k v (if not c then x ∷ without episode_id xs else without episode_id xs)
    go true true e f rest = ground arith
    go true false e f rest = rw (h, e) refl
    go false true e f rest = rw (f, rest) refl
    go false false e f rest = rw (f, e, rest) refl

module _ (ports : Ports) where
  -- An event of another episode checks against the other heads as it did against all.
  check_event-without :
      (episode_id : ℕ) (e : Event) (tag : ℕ) (heads heads' : Heads)
      → (e.episode_id == episode_id) ≡ false
      → check_event ports e tag heads ≡ ok heads'
      → check_event ports e tag (without episode_id heads) ≡ ok (without episode_id heads')
  unfolding check_event
  check_event-without episode_id e tag heads heads' other h =
      let (u1, e1, h1) = bind-ok _ _ heads' h in
      let (u2, e2, h2) = bind-ok _ _ heads' h1 in
      let (u3, e3, h3) = bind-ok _ _ heads' h2 in
      let same =
        ap (λ o. on_option o ports.zero_hash (λ head. head.1))
          (lookup-without e.episode_id episode_id heads other) in
      ok-bind _ u1 _ (ap (λ p. require (e.previous_hash == p) Error.chain_error) same ∙ e1)
      ∙ ok-bind _ u2 _ (
          ap (λ p. require (compute_event_hash ports p e == e.event_hash) Error.chain_error) same
          ∙ e2)
      ∙ ok-bind _ u3 _ e3
      ∙ ap ok (
          sym (without-upsert-other e.episode_id episode_id (e.seq, e.event_hash) heads other)
          ∙ ap (without episode_id) (ground (arith, h3)))

  -- An event of the episode leaves the other heads.
  check_event-own :
      (e : Event) (tag : ℕ) (heads heads' : Heads)
      → check_event ports e tag heads ≡ ok heads'
      → without e.episode_id heads' ≡ without e.episode_id heads
  unfolding check_event
  check_event-own e tag heads heads' h =
      let (u1, e1, h1) = bind-ok _ _ heads' h in
      let (u2, e2, h2) = bind-ok _ _ heads' h1 in
      let (u3, e3, h3) = bind-ok _ _ heads' h2 in
      let last : heads' ≡ upsert e.episode_id (e.seq, e.event_hash) heads = ground (arith, h3) in
      ap (without e.episode_id) last ∙ without-upsert-same e.episode_id (e.seq, e.event_hash) heads

  scan-cons :
      (e : Event) (es : List (Event × ℕ)) (tag : ℕ) (heads heads' : Heads)
      → check_event ports e tag heads ≡ ok heads'
      → scan ports none ((e, tag) ∷ es) heads ≡ scan ports none es heads'
  unfolding scan ◌>>=◌
  scan-cons e es tag heads heads' h = rw h refl

  scan-split :
      (e : Event) (es : List (Event × ℕ)) (tag : ℕ) (heads last : Heads)
      → scan ports none ((e, tag) ∷ es) heads ≡ ok (false, last)
      → (heads' : Heads) × (check_event ports e tag heads ≡ ok heads')
        × (scan ports none es heads' ≡ ok (false, last))
  unfolding scan
  scan-split e es tag heads last h = bind-ok (check_event ports e tag heads) _ (false, last) h

  scan-preserved :
      (episode_id : ℕ) (es : List Event) (heads last : Heads)
      → scan ports none (map (tagged ports) es) heads ≡ ok (false, last)
      → scan ports none (map (tagged ports) (preserved episode_id es)) (without episode_id heads)
        ≡ ok (false, without episode_id last)
  unfolding scan
  scan-preserved episode_id [] heads last h =
      ap (λ x. ok (false, without episode_id x)) (ground (arith, h))
  scan-preserved episode_id (e ∷ es) heads last h =
      let tag = ports.auth_tag e.id e.event_hash in
      let (heads', e1, rest) = scan-split e (map (tagged ports) es) tag heads last h in
      go (e.episode_id == episode_id) refl heads' e1 (scan-preserved episode_id es heads' last rest)
    where
      go :
          (b : Bool)
          → (e.episode_id == episode_id) ≡ b
          → (heads' : Heads)
          → check_event ports e (ports.auth_tag e.id e.event_hash) heads ≡ ok heads'
          → scan ports none
              (map (tagged ports) (preserved episode_id es))
              (without episode_id heads')
            ≡ ok (false, without episode_id last)
          → scan ports none
              (map
                (tagged ports)
                (if not b then e ∷ preserved episode_id es else preserved episode_id es))
              (without episode_id heads)
            ≡ ok (false, without episode_id last)
      go true same heads' c rest =
          let i : e.episode_id ≡ episode_id = ground arith in
          ap (scan ports none (map (tagged ports) (preserved episode_id es))) (
            subst (λ i. without i heads ≡ without i heads') i
              (sym (check_event-own e (ports.auth_tag e.id e.event_hash) heads heads' c)))
          ∙ rest
      go false other heads' c rest =
          scan-cons e (map (tagged ports) (preserved episode_id es))
            (ports.auth_tag e.id e.event_hash) (without episode_id heads)
            (without episode_id heads')
            (check_event-without episode_id e (ports.auth_tag e.id e.event_hash) heads heads' other
              c)
          ∙ rest

  All-preserved :
      (P : Event → Type 0) (episode_id : ℕ) (es : List Event)
      → All P es
      → All P (preserved episode_id es)
  All-preserved P episode_id [] h = _
  All-preserved P episode_id (e ∷ es) h =
      go (e.episode_id == episode_id) (All-preserved P episode_id es h.1)
    where
      go :
          (b : Bool)
          → All P (preserved episode_id es)
          → All P (if not b then e ∷ preserved episode_id es else preserved episode_id es)
      go true rest = rest
      go false rest = (h.0, rest)

  -- After any sequence of calls from the empty database: the events that are not of an episode,
  -- which is what a purge of it keeps, are authenticated and chained as they stand, and their heads
  -- are the heads of the other episodes.
  pub verified_heads-preserved :
      (episode_id : ℕ) (cs : List Call)
      → verified_heads ports none
          (run ports cs empty_ledger).auth
          (preserved episode_id (run ports cs empty_ledger).events)
        ≡ ok (without episode_id (run ports cs empty_ledger).projections.heads)
  unfolding ◌>>=◌
  verified_heads-preserved episode_id cs =
      let l = run ports cs empty_ledger in
      let v = run-IsValid ports cs in
      verified_heads_lem ports none l.auth (preserved episode_id l.events)
        (All-preserved (λ e. is_authentic ports l.auth e ≡ true) episode_id l.events v.authentic)
      ∙ ok-bind _ (false, without episode_id l.projections.heads) (λ r. ok r.1)
          (scan-preserved episode_id l.events [] l.projections.heads v.chained)
