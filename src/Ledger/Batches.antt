-- ===== src/Ledger/Batches.antt =====
-- packages/core/src/belief_ledger_core/store.py: the loop of `append`, the transaction round it, and
-- the invariant that they keep.
use belief_ledger_pramana.Prelude.{
  ℕ, suc, ◌+◌, ◌≤◌, ◌≡◌, refl, sym, ap, subst, ◌∙◌, false, List, [], ◌∷◌, ◌++◌, map, any, All,
  All-parts, append-nil, append_assoc, contains, ◌==◌, arith, length,
}
use belief_ledger_pramana.Ledger.Results.{ok, bind-ok}
use belief_ledger_pramana.Ledger.Events.{Event, EventDraft, Correlation, Ports, build_event}
use belief_ledger_pramana.Ledger.Chain.{previous_of}
use belief_ledger_pramana.Ledger.Store.{Ledger, same_event, store_event, append_drafts}
use belief_ledger_pramana.Ledger.Valid.{IsValid}
use belief_ledger_pramana.Ledger.Stored.{store_event-ok, store_event-IsValid, previous_of-stored}

pub All-imp :
    {A : Type 0} (P Q : A → Type 0) → ((a : A) → P a → Q a) → (xs : List A) → All P xs → All Q xs
All-imp P Q f [] h = _
All-imp P Q f (x ∷ xs) h = (f x h.0, All-imp P Q f xs h.1)

pub All-both :
    {A : Type 0} (P Q R : A → Type 0)
    → ((a : A) → P a → Q a → R a)
    → (xs : List A) → All P xs
    → All Q xs
    → All R xs
All-both P Q R f [] h k = _
All-both P Q R f (x ∷ xs) h k = (f x h.0 k.0, All-both P Q R f xs h.1 k.1)

-- No event has the identifier of a new one.
other_ids :
    (e : Event) (es : List Event)
    → any (same_event e) es ≡ false
    → All (λ x. (x.id == e.id) ≡ false) es
other_ids e [] h = _
other_ids e (x ∷ es) h = (ground arith, other_ids e es (ground arith))

module _ (ports : Ports) where
  -- What a stored batch is.
  pub record IsBatch (episode_id next_seq : ℕ) (correlation : Correlation) (count : ℕ)
      (l l' : Ledger) (es : List Event) : Type 0 where
    pub valid : IsValid ports l'
    pub appended : l'.events ≡ l.events ++ es
    pub counted : length es ≡ count
    pub numbered : All (λ e. next_seq ≤ e.seq) es
    pub correlated : All (λ e. (e.correlation ≡ correlation) × (e.episode_id ≡ episode_id)) es
    pub new : All (λ x. contains x.id (map (λ e. e.id) es) ≡ false) l.events
    pub same_keys : l'.idempotency ≡ l.idempotency
    pub same_reservations : l'.reservations ≡ l.reservations

  pub append_drafts-IsBatch :
      (fresh : ℕ → ℕ × ℕ) (episode_id next_seq : ℕ) (c : Correlation) (offset : ℕ)
      (ds : List EventDraft) (previous : ℕ) (l l' : Ledger) (es : List Event)
      → IsValid ports l
      → previous ≡ previous_of ports episode_id l.projections.heads
      → append_drafts ports fresh episode_id next_seq c offset ds previous l ≡ ok (es, l')
      → IsBatch episode_id next_seq c (length ds) l l' es
  unfolding append_drafts
  append_drafts-IsBatch fresh episode_id next_seq c offset [] previous l l' es v p h =
      let nothing : es ≡ [] = ground (arith, h) in
      let same : l' ≡ l = ground (arith, h) in
      subst (λ xs. IsBatch episode_id next_seq c 0 l l' xs) (sym nothing)
        (subst (λ x. IsBatch episode_id next_seq c 0 l x []) (sym same)
          (record {
            valid = v;
            appended = sym (append-nil l.events);
            counted = refl;
            numbered = _;
            correlated = _;
            new = all_new l.events;
            same_keys = refl;
            same_reservations = refl;
          }))
    where
      all_new : (xs : List Event) → All (λ x. contains x.id [] ≡ false) xs
      all_new [] = _
      all_new (x ∷ xs) = (refl, all_new xs)
  append_drafts-IsBatch fresh episode_id next_seq c offset (d ∷ ds) previous l l' es v p h =
      let e =
        build_event ports (next_seq + offset) (fresh offset).0 (fresh offset).1 d previous c
          episode_id in
      let (l1, e1, h1) = bind-ok (store_event ports e l) _ (es, l') h in
      let (r, e2, h2) =
        bind-ok (append_drafts ports fresh episode_id next_seq c (suc offset) ds e.event_hash l1) _
          (es, l') h1 in
      let v1 = store_event-IsValid ports e l l1 v p refl e1 in
      let rest =
        append_drafts-IsBatch fresh episode_id next_seq c (suc offset) ds e.event_hash l1 r.1 r.0 v1
          (sym (previous_of-stored ports e l l1 e1)) e2 in
      let stored = store_event-ok ports e l l1 e1 in
      let parts =
        All-parts (λ x. contains x.id (map (λ e. e.id) r.0) ≡ false) l.events (e ∷ [])
          (subst (All (λ x. contains x.id (map (λ e. e.id) r.0) ≡ false)) (stored.2) rest.new) in
      let whole : es ≡ e ∷ r.0 = ground (arith, h2) in
      let same : l' ≡ r.1 = ground (arith, h2) in
      subst (λ xs. IsBatch episode_id next_seq c (suc (length ds)) l l' xs) (sym whole)
        (subst (λ x. IsBatch episode_id next_seq c (suc (length ds)) l x (e ∷ r.0)) (sym same)
          (record {
            valid = rest.valid;
            appended =
                rest.appended
                ∙ ap (λ xs. xs ++ r.0) (stored.2)
                ∙ append_assoc l.events (e ∷ []) r.0;
            counted = ap suc rest.counted;
            numbered = (omega arith, rest.numbered);
            correlated = ((refl, refl), rest.correlated);
            new =
                All-both (λ x. (x.id == e.id) ≡ false)
                  (λ x. contains x.id (map (λ e. e.id) r.0) ≡ false)
                  (λ x. contains x.id (e.id ∷ map (λ e. e.id) r.0) ≡ false) (λ x a b. ground arith)
                  l.events (other_ids e l.events stored.0) parts.0;
            same_keys = rest.same_keys ∙ stored.4;
            same_reservations = rest.same_reservations ∙ stored.5;
          }))
