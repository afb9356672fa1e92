-- ===== src/Enforcement/Rules.antt =====
-- packages/core/src/belief_ledger_core/enforcement.py: rules for what a transaction does to an
-- invariant of the tables and the events, one for each way in which a transaction is built.
use belief_ledger_pramana.Prelude.{
  ℕ, suc, ◌≤◌, ◌≡◌, refl, Bool, true, false, ◌&&◌, ◌||◌, Option, none, some, List, ◌∷◌, any, select,
  length, ◌==◌, on_option, if◌then◌else◌,
}
use belief_ledger_pramana.Enforcement.Tables.{Tables, Payload, DecisionRow, is_issued}
use belief_ledger_pramana.Enforcement.Store.{
  Event, Dependencies, Store, Outcome, ok, raise, Error, Tx, after, ◌>>=◌, pure, fail, gets,
  atomically, run_sql, now, new_id, new_token, chained, insert_event, append_event,
}
use belief_ledger_pramana.Enforcement.Replay.{apply_event}

module _ (P : Tables → List Event → Type 0) where
  -- The invariant after a success; what a failure leaves behind is rolled back.
  abbrev pub Holds : {A : Type 0} → Outcome A × Store → Type 0
  Holds (ok _, s) = P s.tables s.events
  Holds (raise _, s) = Unit

  pub record Commits {A : Type 0} (m : Tx A) : Type 0 where
    pub commits : (s : Store) → P s.tables s.events → Holds (m s)

  -- The invariant after every outcome.
  pub record Keeps {A : Type 0} (m : Tx A) : Type 0 where
    pub keeps : (s : Store) → P s.tables s.events → P (m s).1.tables (m s).1.events

  pub Commits-bind :
      {A B : Type 0} (m : Tx A) (f : A → Tx B)
      → Commits m
      → ((a : A) → Commits (f a))
      → Commits (m >>= f)
  unfolding ◌>>=◌
  Commits-bind {A} {B} m f hm hf = record { commits = λ s p. go (m s) (hm.commits s p) }
    where
      go : (r : Outcome A × Store) → Holds r → Holds (after r f (λ e s'. (raise e, s')))
      go (ok a, s') h = (hf a).commits s' h
      go (raise e, s') h = tt

  pub Keeps-atomically : {A : Type 0} (m : Tx A) → Commits m → Keeps (atomically m)
  unfolding atomically
  Keeps-atomically {A} m hm = record { keeps = λ s p. go s p (m s) (hm.commits s p) }
    where
      done : Store → Outcome A × Store → Outcome A × Store
      done s r =
          after r (λ a s'. (ok a, s'))
            (λ e s'. (raise e, record s' { tables = s.tables; events = s.events }))

      go :
          (s : Store)
          → P s.tables s.events
          → (r : Outcome A × Store) → Holds r
          → P (done s r).1.tables (done s r).1.events
      go s p (ok a, s') h = h
      go s p (raise e, s') h = p

  pub Keeps-bind :
      {A B : Type 0} (m : Tx A) (f : A → Tx B) → Keeps m → ((a : A) → Keeps (f a)) → Keeps (m >>= f)
  unfolding ◌>>=◌
  Keeps-bind {A} {B} m f hm hf = record { keeps = λ s p. go (m s) (hm.keeps s p) }
    where
      go :
          (r : Outcome A × Store)
          → P r.1.tables r.1.events
          → P
              (after r f (λ e s'. (raise e, s'))).1.tables
              (after r f (λ e s'. (raise e, s'))).1.events
      go (ok a, s') h = (hf a).keeps s' h
      go (raise e, s') h = h

  pub Commits-if :
      {A : Type 0} (b : Bool) (m k : Tx A) → Commits m → Commits k → Commits (if b then m else k)
  Commits-if true m k hm hk = hm
  Commits-if false m k hm hk = hk

  pub Keeps-if :
      {A : Type 0} (b : Bool) (m k : Tx A) → Keeps m → Keeps k → Keeps (if b then m else k)
  Keeps-if true m k hm hk = hm
  Keeps-if false m k hm hk = hk

  pub Commits-pure : {A : Type 0} (a : A) → Commits (pure a)
  unfolding pure
  Commits-pure a = record { commits = λ s p. p }

  pub Keeps-pure : {A : Type 0} (a : A) → Keeps (pure a)
  unfolding pure
  Keeps-pure a = record { keeps = λ s p. p }

  pub Keeps-fail : {A : Type 0} (e : Error) → Keeps (fail {A = A} e)
  unfolding fail
  Keeps-fail e = record { keeps = λ s p. p }

  pub Commits-on_option :
      {A B : Type 0} (o : Option A) (m : Tx B) (f : A → Tx B)
      → Commits m
      → ((a : A) → Commits (f a))
      → Commits (on_option o m f)
  Commits-on_option none m f hm hf = hm
  Commits-on_option (some a) m f hm hf = hf a

  pub Commits-gets :
      {A B : Type 0} (f : Store → A) (k : A → Tx B)
      → ((a : A) → Commits (k a))
      → Commits (gets f >>= k)
  unfolding gets ◌>>=◌
  Commits-gets f k hk = record { commits = λ s h. (hk (f s)).commits s h }

  pub Keeps-on_option :
      {A B : Type 0} (o : Option A) (m : Tx B) (f : A → Tx B)
      → Keeps m
      → ((a : A) → Keeps (f a))
      → Keeps (on_option o m f)
  Keeps-on_option none m f hm hf = hm
  Keeps-on_option (some a) m f hm hf = hf a

  pub Keeps-gets :
      {A B : Type 0} (f : Store → A) (k : A → Tx B) → ((a : A) → Keeps (k a)) → Keeps (gets f >>= k)
  unfolding gets ◌>>=◌
  Keeps-gets f k hk = record { keeps = λ s h. (hk (f s)).keeps s h }

-- The rows that `UPDATE action_decisions ... WHERE token_digest=? AND state='issued'` counts.
abbrev pub issued_with : ℕ → List DecisionRow → List DecisionRow
issued_with digest rows = select (λ x. (x.token_digest == digest) && is_issued x.state) rows

-- What the transactions rely on of an invariant: an event that is chained on the newest one and
-- whose replay the tables have seen keeps it, and a token has one issued row at most.
pub record IsLogged (deps : Dependencies) (P : Tables → List Event → Type 0) : Type 0 where
  pub step :
      (t t' : Tables) (es : List Event) (id at : ℕ) (p : Payload)
      → P t es
      → apply_event p t ≡ some t'
      → P t' (chained deps es id at p ∷ es)
  pub single :
      (t : Tables) (es : List Event) (digest : ℕ)
      → P t es
      → length (issued_with digest t.decisions) ≤ 1

module _ {deps : Dependencies} (P : Tables → List Event → Type 0) (logged : IsLogged deps P) where
  bind_if :
      {A : Type 0} (b : Bool) (x y : Outcome (Unit {0}) × Store) (k : Unit {0} → Tx A)
      → Holds P (after x k (λ e s'. (raise e, s')))
      → Holds P (after y k (λ e s'. (raise e, s')))
      → Holds P (after (if b then x else y) k (λ e s'. (raise e, s')))
  bind_if true x y k hx hy = hx
  bind_if false x y k hx hy = hy

  append-Holds :
      {A : Type 0} (p : Payload) (k : Unit {0} → Tx A)
      → ((u : Unit {0}) → Commits P (k u))
      → (t : Tables) (s : Store) → P t s.events
      → apply_event p t ≡ some s.tables
      → Holds P ((append_event deps p >>= k) s)
  unfolding append_event insert_event ◌>>=◌ gets now new_id
  append-Holds p k hk t s h e =
      let id = deps.identity s.identities in
      let at = deps.clock s.readings in
      let ev = chained deps s.events id at p in
      let s' : Store = record s { readings = suc s.readings; identities = suc s.identities } in
      let s'' : Store = record s' { events = ev ∷ s.events } in
      bind_if (any (λ x. (x.id == ev.id) || (x.event_hash == ev.event_hash)) s.events)
        (raise Error.integrity_error, s') (ok tt, s'') k (tt {0})
        ((hk tt).commits s'' (logged.step t s.tables s.events id at p h e))

  -- A statement followed by the event that replays it.
  pub Commits-write :
      {A : Type 0} (f : Tables → Option Tables) (p : Payload) (k : Unit {0} → Tx A)
      → ((t : Tables) → apply_event p t ≡ f t)
      → ((u : Unit {0}) → Commits P (k u))
      → Commits P (run_sql f >>= (λ _. append_event deps p >>= k))
  unfolding run_sql ◌>>=◌
  Commits-write {A} f p k replays hk = record {
    commits = λ s h. go s h (f s.tables) (replays s.tables);
  }
    where
      go :
          (s : Store)
          → P s.tables s.events
          → (r : Option Tables) → apply_event p s.tables ≡ r
          → Holds P {A = A} (
              after
                (let x : Outcome (Unit {0}) × Store = elim r [
                  | none ↦ (raise Error.integrity_error, s)
                  | some t ↦ (ok tt, record s { tables = t })
                ] in
                  x)
                (λ _. append_event deps p >>= k)
                (λ e s'. (raise e, s')))
      go s h none e = tt
      go s h (some t') e = append-Holds p k hk s.tables (record s { tables = t' }) h e

  -- An event that changes no table.
  pub Commits-note :
      {A : Type 0} (p : Payload) (k : Unit {0} → Tx A)
      → ((t : Tables) → apply_event p t ≡ some t)
      → ((u : Unit {0}) → Commits P (k u))
      → Commits P (append_event deps p >>= k)
  unfolding ◌>>=◌
  Commits-note p k replays hk = record {
    commits = λ s h. append-Holds p k hk s.tables s h (replays s.tables);
  }

  -- A statement whose event is appended only where it changed something.
  pub Commits-counted :
      {A B : Type 0} (f : Store → B) (test : B → Bool) (g : Tables → Option Tables) (p : Payload)
      (k : Unit {0} → Tx A) (m : Tx A)
      → ((t : Tables) → apply_event p t ≡ g t)
      → ((u : Unit {0}) → Commits P (k u))
      → Commits P m
      → ((s : Store) → P s.tables s.events → test (f s) ≡ false → g s.tables ≡ some s.tables)
      → Commits P
          (gets f >>= (λ n. run_sql g >>= (λ _. if test n then append_event deps p >>= k else m)))
  unfolding gets run_sql ◌>>=◌
  Commits-counted {A} f test g p k m replays hk hm idle = record {
    commits = λ s h. go s h (test (f s)) refl;
  }
    where
      rest : Bool → Unit {0} → Tx A
      rest b _ = if b then append_event deps p >>= k else m

      go :
          (s : Store)
          → P s.tables s.events
          → (b : Bool) → test (f s) ≡ b
          → Holds P ((run_sql g >>= rest b) s)
      go s h true e = (Commits-write g p k replays hk).commits s h
      go s h false e = rw (idle s h e, run_sql) (hm.commits s h)

  pub Commits-now :
      {A : Type 0} (k : ℕ → Tx A) → ((a : ℕ) → Commits P (k a)) → Commits P (now deps >>= k)
  unfolding now ◌>>=◌
  Commits-now k hk = record {
    commits =
        λ s h. (hk (deps.clock s.readings)).commits (record s { readings = suc s.readings }) h;
  }

  pub Keeps-now : {A : Type 0} (k : ℕ → Tx A) → ((a : ℕ) → Keeps P (k a)) → Keeps P (now deps >>= k)
  unfolding now ◌>>=◌
  Keeps-now k hk = record {
    keeps = λ s h. (hk (deps.clock s.readings)).keeps (record s { readings = suc s.readings }) h;
  }

  pub Keeps-new_id :
      {A : Type 0} (k : ℕ → Tx A) → ((a : ℕ) → Keeps P (k a)) → Keeps P (new_id deps >>= k)
  unfolding new_id ◌>>=◌
  Keeps-new_id k hk = record {
    keeps = λ s h.
        (hk (deps.identity s.identities)).keeps (record s { identities = suc s.identities }) h;
  }

  pub Keeps-new_token :
      {A : Type 0} (k : ℕ → Tx A) → ((a : ℕ) → Keeps P (k a)) → Keeps P (new_token deps >>= k)
  unfolding new_token ◌>>=◌
  Keeps-new_token k hk = record {
    keeps = λ s h. (hk (deps.token s.tokens)).keeps (record s { tokens = suc s.tokens }) h;
  }
