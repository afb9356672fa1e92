-- ===== src/Ledger/Scan.antt =====
-- packages/core/src/belief_ledger_core/store.py: what the batches of the verification amount to, and
-- how it reads events that were appended later.
use belief_ledger_pramana.Prelude.{
  ℕ, ◌<◌, ◌≡◌, refl, sym, ap, subst, ◌∙◌, Bool, true, false, Option, some, List, [], ◌∷◌, ◌++◌, map,
  All, All-parts, ◌==◌, ==_refl, arith, if◌then◌else◌,
}
use belief_ledger_pramana.Ledger.Results.{Result, ok, raise, ◌>>=◌, ok-bind}
use belief_ledger_pramana.Ledger.Events.{Event, Ports}
use belief_ledger_pramana.Ledger.Projections.{Heads, upsert, lookup}
use belief_ledger_pramana.Ledger.Chunks.{concat, chunks, concat-chunks}
use belief_ledger_pramana.Ledger.Chain.{
  AuthRow, is_authentic, authenticated_events, check_event, is_beyond, scan, scan_batches,
  verified_heads,
}

pub lookup-upsert :
    {A : Type 0} (k : ℕ) (v : A) (xs : List (ℕ × A)) → lookup k (upsert k v xs) ≡ some v
unfolding lookup upsert
lookup-upsert k v [] = rw (==_refl k) refl
lookup-upsert k v (x ∷ xs) = go (k == x.0) refl (lookup-upsert k v xs)
  where
    go :
        (b : Bool)
        → (k == x.0) ≡ b
        → lookup k (upsert k v xs) ≡ some v
        → lookup k (if b then (k, v) ∷ xs else x ∷ upsert k v xs) ≡ some v
    go true e rest = rw (==_refl k) refl
    go false e rest = rw e rest

pub map-append :
    {A B : Type 0} (f : A → B) (xs ys : List A) → map f (xs ++ ys) ≡ map f xs ++ map f ys
map-append f [] ys = refl
map-append f (x ∷ xs) ys = ap (◌∷◌ (f x)) (map-append f xs ys)

module _ (ports : Ports) where
  -- An event with the tag that the key gives it.
  abbrev pub tagged : Event → Event × ℕ
  tagged e = (e, ports.auth_tag e.id e.event_hash)

  pub authenticated_lem :
      (auth : List AuthRow) (es : List Event)
      → All (λ e. is_authentic ports auth e ≡ true) es
      → authenticated_events ports auth es ≡ ok (map tagged es)
  unfolding authenticated_events ◌>>=◌
  authenticated_lem auth [] h = refl
  authenticated_lem auth (e ∷ es) h = rw (h.0, authenticated_lem auth es h.1) refl

  -- Goes on where the loop was not ended.
  abbrev pub resume : Option ℕ → List (Event × ℕ) → Bool × Heads → Result (Bool × Heads)
  resume height es (true, heads) = ok (true, heads)
  resume height es (false, heads) = scan ports height es heads

  pub scan-append :
      (height : Option ℕ) (xs ys : List (Event × ℕ)) (heads : Heads)
      → scan ports height (xs ++ ys) heads ≡ (scan ports height xs heads >>= resume height ys)
  unfolding scan ◌>>=◌
  scan-append height [] ys heads = refl
  scan-append height (x ∷ xs) ys heads =
      go (is_beyond ports height x.0) (check_event ports x.0 x.1 heads) (scan-append height xs ys)
    where
      go :
          (b : Bool) (r : Result Heads)
          → ((heads : Heads)
              → scan ports height (xs ++ ys) heads
                ≡ (scan ports height xs heads >>= resume height ys))
          → (let x : Result (Bool × Heads) = elim b [
            | true ↦ ok (true, heads)
            | false ↦ r >>= scan ports height (xs ++ ys)
          ] in
              x)
            ≡ ((let x : Result (Bool × Heads) = elim b [
              | true ↦ ok (true, heads)
              | false ↦ r >>= scan ports height xs
            ] in
                  x)
                >>= resume height ys)
      go true r rest = refl
      go false (ok h) rest = rest h
      go false (raise e) rest = refl

  pub scan-stopped :
      (height : ℕ) (es : List Event) (heads : Heads)
      → All (λ e. height < e.seq) es
      → (scan ports (some height) (map tagged es) heads >>= λ r. ok r.1) ≡ ok heads
  unfolding scan ◌>>=◌
  scan-stopped height [] heads h = refl
  scan-stopped height (e ∷ es) heads h = ground (arith, h.0)

  pub scan-nil :
      (height : Option ℕ) (heads : Heads) → (scan ports height [] heads >>= λ r. ok r.1) ≡ ok heads
  unfolding scan ◌>>=◌
  scan-nil height heads = refl

  -- What follows one batch.
  abbrev later_batches : Option ℕ → List AuthRow → List (List Event) → Bool × Heads → Result Heads
  later_batches height auth batches r = elim r.0 [
    | true ↦ ok r.1
    | false ↦ scan_batches ports height auth batches r.1
  ]

  resume-later :
      (height : Option ℕ) (auth : List AuthRow) (batches : List (List Event))
      (es : List (Event × ℕ)) (r : Result (Bool × Heads))
      → ((hs : Heads)
          → scan_batches ports height auth batches hs ≡ (scan ports height es hs >>= λ r. ok r.1))
      → (r >>= later_batches height auth batches) ≡ ((r >>= resume height es) >>= λ r. ok r.1)
  unfolding ◌>>=◌
  resume-later height auth batches es (ok (true, hs)) rest = refl
  resume-later height auth batches es (ok (false, hs)) rest = rest hs
  resume-later height auth batches es (raise e) rest = refl

  pub scan_batches_lem :
      (height : Option ℕ) (auth : List AuthRow) (batches : List (List Event)) (heads : Heads)
      → All (λ e. is_authentic ports auth e ≡ true) (concat batches)
      → scan_batches ports height auth batches heads
        ≡ (scan ports height (map tagged (concat batches)) heads >>= λ r. ok r.1)
  unfolding scan_batches
  scan_batches_lem height auth [] heads h = sym (scan-nil height heads)
  scan_batches_lem height auth (batch ∷ batches) heads h =
      let (now, later) =
        All-parts (λ e. is_authentic ports auth e ≡ true) batch (concat batches) h in
      let es = map tagged (concat batches) in
      ok-bind (authenticated_events ports auth batch) (map tagged batch)
        (λ es. scan ports height es heads >>= later_batches height auth batches)
        (authenticated_lem auth batch now)
      ∙ resume-later height auth batches es (scan ports height (map tagged batch) heads)
          (λ hs. scan_batches_lem height auth batches hs later)
      ∙ sym (
          ap (λ r. r >>= λ r. ok r.1)
            (ap (λ es. scan ports height es heads) (map-append tagged batch (concat batches))
              ∙ scan-append height (map tagged batch) es heads))

  pub verified_heads_lem :
      (height : Option ℕ) (auth : List AuthRow) (es : List Event)
      → All (λ e. is_authentic ports auth e ≡ true) es
      → verified_heads ports height auth es ≡ (scan ports height (map tagged es) [] >>= λ r. ok r.1)
  unfolding verified_heads
  verified_heads_lem height auth es h =
      let whole = (concat-chunks 1000 es (omega arith)).0 in
      scan_batches_lem height auth (chunks 1000 es) []
        (subst (All (λ e. is_authentic ports auth e ≡ true)) (sym whole) h)
      ∙ ap (λ xs. scan ports height (map tagged xs) [] >>= λ r. ok r.1) whole
