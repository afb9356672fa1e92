-- ===== src/Ledger/Headed.antt =====
-- packages/core/src/belief_ledger_core/store.py: an append keeps the newest event at the greatest head.
use belief_ledger_pramana.Prelude.{
  ℕ, suc, ◌+◌, ◌≤◌, ◌<◌, ◌≡◌, sym, ap, subst, ◌∙◌, Bool, true, false, not, Option, none, some, List,
  [], ◌∷◌, ◌++◌, on_option, ◌==◌, arith, if◌then◌else◌,
}
use belief_ledger_pramana.Ledger.Results.{Result, ok, ◌>>=◌, bind-ok}
use belief_ledger_pramana.Ledger.Events.{Event, EventDraft, Correlation, Ports, build_event}
use belief_ledger_pramana.Ledger.Projections.{Heads, upsert}
use belief_ledger_pramana.Ledger.Chain.{max_head, previous_of}
use belief_ledger_pramana.Ledger.Store.{
  Ledger, IdempotencyRow, max_seq, store_event, append_drafts, append_new, append, is_open_task,
  find_key, earlier_events,
}
use belief_ledger_pramana.Ledger.Stored.{store_event-ok, apply_event-heads}
use belief_ledger_pramana.Ledger.Appends.{keyed_lem}

max_head-upsert :
    (k s h : ℕ) (heads : Heads) → max_head heads ≤ s → max_head (upsert k (s, h) heads) ≡ s
unfolding upsert
max_head-upsert k s h [] e = ground arith
max_head-upsert k s h (x ∷ xs) e =
    go (k == x.0) (ground (arith, e)) (ground (arith, e))
      (max_head-upsert k s h xs (ground (arith, e)))
  where
    go :
        (b : Bool)
        → max_head xs ≤ s
        → x.1.0 ≤ s
        → max_head (upsert k (s, h) xs) ≡ s
        → max_head (if b then (k, (s, h)) ∷ xs else x ∷ upsert k (s, h) xs) ≡ s
    go true a b rest = ground (arith, a)
    go false a b rest = ground (arith, b, rest)

max_seq-snoc : (es : List Event) (e : Event) → max_seq es ≤ e.seq → max_seq (es ++ (e ∷ [])) ≡ e.seq
max_seq-snoc [] e h = ground arith
max_seq-snoc (x ∷ es) e h = ground (arith, h, max_seq-snoc es e (ground (arith, h)))

-- The greatest of the stored heads is the newest event.
pub record IsHeaded (l : Ledger) : Type 0 where
  pub headed : max_head l.projections.heads ≡ max_seq l.events

module _ (ports : Ports) where
  store_event-IsHeaded :
      (e : Event) (l l' : Ledger)
      → IsHeaded l
      → max_seq l.events ≤ e.seq
      → store_event ports e l ≡ ok l'
      → IsHeaded l' × (max_seq l'.events ≡ e.seq)
  store_event-IsHeaded e l l' v h s =
      let (_, applied, events, _, _, _) = store_event-ok ports e l l' s in
      let last = ap max_seq events ∙ max_seq-snoc l.events e h in
      let reached : max_head l.projections.heads ≤ e.seq = omega (arith, h, v.headed) in
      (
        record {
          headed =
              ap max_head (apply_event-heads ports e l.projections l'.projections applied)
              ∙ max_head-upsert e.episode_id e.seq e.event_hash l.projections.heads reached
              ∙ sym last;
        },
        last,
      )

  append_drafts-IsHeaded :
      (fresh : ℕ → ℕ × ℕ) (episode_id next_seq : ℕ) (c : Correlation) (offset : ℕ)
      (ds : List EventDraft) (previous : ℕ) (l l' : Ledger) (es : List Event)
      → IsHeaded l
      → max_seq l.events < next_seq + offset
      → append_drafts ports fresh episode_id next_seq c offset ds previous l ≡ ok (es, l')
      → IsHeaded l'
  unfolding append_drafts
  append_drafts-IsHeaded fresh episode_id next_seq c offset [] previous l l' es v b h =
      subst IsHeaded (ground (arith, h)) v
  append_drafts-IsHeaded fresh episode_id next_seq c offset (d ∷ ds) previous l l' es v b h =
      let e =
        build_event ports (next_seq + offset) (fresh offset).0 (fresh offset).1 d previous c
          episode_id in
      let (l1, e1, h1) = bind-ok (store_event ports e l) _ (es, l') h in
      let (r, e2, h2) =
        bind-ok (append_drafts ports fresh episode_id next_seq c (suc offset) ds e.event_hash l1) _
          (es, l') h1 in
      let (v1, last) = store_event-IsHeaded e l l1 v (omega (arith, b)) e1 in
      subst IsHeaded (ground (arith, h2)) (
        append_drafts-IsHeaded fresh episode_id next_seq c (suc offset) ds e.event_hash l1 r.1 r.0
          v1 (omega (arith, last)) e2)

  append_new-IsHeaded :
      (fresh : ℕ → ℕ × ℕ) (episode_id : ℕ) (ds : List EventDraft) (c : Correlation) (key : Option ℕ)
      (l l' : Ledger) (es : List Event)
      → IsHeaded l
      → append_new ports fresh episode_id ds c key l ≡ ok (es, l')
      → IsHeaded l'
  unfolding append_new
  append_new-IsHeaded fresh episode_id ds c key l l' es v h =
      let next = max_seq l.events + 1 in
      let previous = previous_of ports episode_id l.projections.heads in
      let (r, e1, h1) =
        bind-ok (append_drafts ports fresh episode_id next c 0 ds previous l) _ (es, l') h in
      let (l2, e2, h2) = bind-ok _ _ (es, l') h1 in
      let (rows, e) = keyed_lem ports episode_id key r.0 r.1 l2 e2 in
      let v1 =
        append_drafts-IsHeaded fresh episode_id next c 0 ds previous l r.1 r.0 v (omega arith) e1 in
      subst IsHeaded (sym e ∙ ground (arith, h2)) (record { headed = v1.headed })

  pub append-IsHeaded :
      (fresh : ℕ → ℕ × ℕ) (episode_id : ℕ) (ds : List EventDraft) (c : Correlation)
      (key required : Option ℕ) (l l' : Ledger) (es : List Event)
      → IsHeaded l
      → append ports fresh episode_id ds c key required l ≡ ok (es, l')
      → IsHeaded l'
  unfolding append
  append-IsHeaded fresh episode_id ds c key required l l' es v h =
      waiting (on_option required false (λ task_id. not (is_open_task task_id episode_id l))) h
    where
      new : Option IdempotencyRow → Result (List Event × Ledger)
      new o =
          on_option o (append_new ports fresh episode_id ds c key l)
            (λ row. earlier_events ports row c l >>= λ es. ok (es, l))

      found : (o : Option IdempotencyRow) → new o ≡ ok (es, l') → IsHeaded l'
      found none k = append_new-IsHeaded fresh episode_id ds c key l l' es v k
      found (some row) k =
          let (xs, e1, h1) = bind-ok (earlier_events ports row c l) _ (es, l') k in
          subst IsHeaded (ground (arith, h1)) v

      waiting :
          (b : Bool)
          → (if b
              then ok ([], l)
              else new (
                  on_option key none
                    (λ k. find_key episode_id (ports.storage_key episode_id k) l.idempotency)))
            ≡ ok (es, l')
          → IsHeaded l'
      waiting true k = subst IsHeaded (ground (arith, k)) v
      waiting false k = found _ k
