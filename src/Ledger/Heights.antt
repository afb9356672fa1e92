-- ===== src/Ledger/Heights.antt =====
-- packages/core/src/belief_ledger_core/store.py: the state of the chain as it stood at an earlier
-- height.
use belief_ledger_pramana.Prelude.{
  ℕ, ◌+◌, ◌≤◌, ◌<◌, ◌≡◌, refl, sym, ap, ◌∙◌, Bool, true, false, Option, some, List, [], ◌∷◌, ◌++◌,
  map, All, arith,
}
use belief_ledger_pramana.Ledger.Results.{Result, ok, raise, when_ok, ◌>>=◌}
use belief_ledger_pramana.Ledger.Events.{Event, EventDraft, Correlation, Ports}
use belief_ledger_pramana.Ledger.Projections.{Heads}
use belief_ledger_pramana.Ledger.Chain.{scan, verified_heads, max_head, chain_state}
use belief_ledger_pramana.Ledger.Store.{
  Ledger, max_seq, transaction, append, append_events, clean_correlation,
}
use belief_ledger_pramana.Ledger.Scan.{
  tagged, scan-append, resume, scan-stopped, map-append, verified_heads_lem,
}
use belief_ledger_pramana.Ledger.Valid.{IsValid}
use belief_ledger_pramana.Ledger.Batches.{All-imp}
use belief_ledger_pramana.Ledger.Appends.{Appended, append-Appended, IsStored-IsValid}

pub max_seq-append : (xs ys : List Event) → max_seq xs ≤ max_seq (xs ++ ys)
max_seq-append [] ys = omega arith
max_seq-append (x ∷ xs) ys = ground (arith, max_seq-append xs ys)

module _ (ports : Ports) where
  -- Nothing that stands above the height is read.
  resume-stopped :
      (height : ℕ) (es : List Event) (r : Result (Bool × Heads))
      → All (λ e. height < e.seq) es
      → ((r >>= resume ports (some height) (map (tagged ports) es)) >>= λ r. ok r.1)
        ≡ (r >>= λ r. ok r.1)
  unfolding ◌>>=◌
  resume-stopped height es (ok (true, hs)) h = refl
  resume-stopped height es (ok (false, hs)) h = scan-stopped ports height es hs h
  resume-stopped height es (raise e) h = refl

  scan-above :
      (height : ℕ) (xs es : List Event)
      → All (λ e. height < e.seq) es
      → (scan ports (some height) (map (tagged ports) (xs ++ es)) [] >>= λ r. ok r.1)
        ≡ (scan ports (some height) (map (tagged ports) xs) [] >>= λ r. ok r.1)
  scan-above height xs es h =
      ap (λ ts. scan ports (some height) ts [] >>= λ r. ok r.1) (map-append (tagged ports) xs es)
      ∙ ap (λ r. r >>= λ r. ok r.1)
          (scan-append ports (some height) (map (tagged ports) xs) (map (tagged ports) es) [])
      ∙ resume-stopped height es (scan ports (some height) (map (tagged ports) xs) []) h

module _ (ports : Ports) where
  -- The events of a valid database, extended by events above a height.
  heads-above :
      (height : ℕ) (l l' : Ledger) (es : List Event)
      → IsValid ports l
      → IsValid ports l'
      → l'.events ≡ l.events ++ es
      → All (λ e. height < e.seq) es
      → verified_heads ports (some height) l'.auth l'.events
        ≡ verified_heads ports (some height) l.auth l.events
  heads-above height l l' es v v' e h =
      verified_heads_lem ports (some height) l'.auth l'.events v'.authentic
      ∙ ap (λ xs. scan ports (some height) (map (tagged ports) xs) [] >>= λ r. ok r.1) e
      ∙ scan-above ports height l.events es h
      ∙ sym (verified_heads_lem ports (some height) l.auth l.events v.authentic)

  Appended-heads :
      (height episode_id : ℕ) (ds : List EventDraft) (c : Correlation) (key : Option ℕ)
      (l l' : Ledger) (es : List Event)
      → IsValid ports l
      → height ≤ max_seq l.events
      → Appended ports episode_id ds c key l l' es
      → verified_heads ports (some height) l'.auth l'.events
        ≡ verified_heads ports (some height) l.auth l.events
  Appended-heads height episode_id ds c key l l' es v h (Appended.idle same nothing) =
      ap (λ x. verified_heads ports (some height) x.auth x.events) same
  Appended-heads height episode_id ds c key l l' es v h (Appended.earlier k row _ _ _ same) =
      ap (λ x. verified_heads ports (some height) x.auth x.events) same
  Appended-heads height episode_id ds c key l l' es v h (Appended.stored s) =
      let (v', events, _) = IsStored-IsValid ports episode_id _ key _ l l' es s in
      heads-above height l l' es v v' events (
        All-imp (λ e. max_seq l.events + 1 ≤ e.seq) (λ e. height < e.seq) (λ e k. omega arith) es
          s.batch.numbered)

  pub append_events-heads :
      (height : ℕ) (fresh : ℕ → ℕ × ℕ) (episode_id : ℕ) (ds : List EventDraft) (c : Correlation)
      (key required : Option ℕ) (l : Ledger)
      → IsValid ports l
      → height ≤ max_seq l.events
      → verified_heads ports
          (some height)
          (append_events ports fresh episode_id ds c key required l).1.auth
          (append_events ports fresh episode_id ds c key required l).1.events
        ≡ verified_heads ports (some height) l.auth l.events
  unfolding append_events transaction
  append_events-heads height fresh episode_id [] c key required l v h = refl
  append_events-heads height fresh episode_id (d ∷ ds) c key required l v h =
      go (append ports fresh episode_id (d ∷ ds) (clean_correlation key c) key required l) refl
    where
      settled : Result (List Event × Ledger) → Result (List Event) × Ledger
      settled r = when_ok r (λ e. (raise e, l)) (λ r. (ok r.0, r.1))

      go :
          (r : Result (List Event × Ledger))
          → append ports fresh episode_id (d ∷ ds) (clean_correlation key c) key required l ≡ r
          → verified_heads ports (some height) (settled r).1.auth (settled r).1.events
            ≡ verified_heads ports (some height) l.auth l.events
      go (raise e) k = refl
      go (ok (es, l')) k =
          Appended-heads height episode_id (d ∷ ds) c key l l' es v h
            (append-Appended ports fresh episode_id d ds c key required l l' es v k)

  -- On a valid database, at a height that it has reached: the state of the chain at that height is
  -- what it was before, whatever an append adds, so that an anchor taken earlier stays checkable.
  pub chain_state-append_events :
      (root : Heads → ℕ) (height : ℕ) (fresh : ℕ → ℕ × ℕ) (episode_id : ℕ) (ds : List EventDraft)
      (c : Correlation) (key required : Option ℕ) (l : Ledger)
      → IsValid ports l
      → height ≤ max_seq l.events
      → chain_state ports root
          (some height)
          (append_events ports fresh episode_id ds c key required l).1.auth
          (append_events ports fresh episode_id ds c key required l).1.events
        ≡ chain_state ports root (some height) l.auth l.events
  unfolding chain_state
  chain_state-append_events root height fresh episode_id ds c key required l v h =
      ap
        (λ r. r >>= λ heads.
          ok (record { chain_height = max_head heads; root_hash = root heads; heads = heads }))
        (append_events-heads height fresh episode_id ds c key required l v h)
