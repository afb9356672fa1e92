-- ===== src/Ledger/Results.antt =====
-- packages/core/src/belief_ledger_core/errors.py and the exceptions that the ledger store raises: a
-- result or the error, and the order in which statements run until one of them raises.
use belief_ledger_pramana.Prelude.{◌≡◌, refl, Bool, true, false, List, [], ◌∷◌, ◌++◌, arith}

-- `foreign_record` and `no_episode` are `ValueError`s of the projections, `constraint` is an
-- `sqlite3.IntegrityError`, `chain_error` a `HashChainError`, `key_reused` and `replay_mismatch`
-- are `StoreError`s, and the last ones are `LlmReservationError`s.
pub data Error : Type 0 where
  foreign_record no_episode constraint chain_error key_reused replay_mismatch : Error
  wrong_confirmation invalid_result : Error
  negative_budget turn_calls_exhausted episode_calls_exhausted : Error
  input_tokens_exhausted output_tokens_exhausted : Error

pub data Result {ℓ} (A : Type ℓ) : Type ℓ where
  ok : A → Result A
  raise : Error → Result A

abbrev pub when_ok {ℓ κ} : {A : Type ℓ} {B : Type κ} → Result A → (Error → B) → (A → B) → B
when_ok (ok a) g f = f a
when_ok (raise e) g f = g e

infixl 5 ◌>>=◌ ◌>>◌
unfoldable pub ◌>>=◌ : {A B : Type 0} → Result A → (A → Result B) → Result B
◌>>=◌ r f = when_ok r raise f

abbrev pub ◌>>◌ : {A B : Type 0} → Result A → Result B → Result B
r >> s = r >>= λ _. s

-- `if not test: raise error`
abbrev pub require : Bool → Error → Result (Unit {0})
require true e = ok tt
require false e = raise e

-- A loop that each turn changes a state or raises.
unfoldable pub each : {A S : Type 0} → (A → S → Result S) → List A → S → Result S
unfolding ◌>>=◌
each f [] s = ok s
each f (x ∷ xs) s = f x s >>= each f xs

module _ {A B : Type 0} where
  -- What a success says of the two parts of a sequence.
  pub bind-ok :
      (r : Result A) (f : A → Result B) (b : B)
      → (r >>= f) ≡ ok b
      → (a : A) × (r ≡ ok a) × (f a ≡ ok b)
  unfolding ◌>>=◌
  bind-ok (ok a) f b e = (a, refl, e)
  bind-ok (raise x) f b e = ground (arith, e)

  pub ok-bind : (r : Result A) (a : A) (f : A → Result B) → r ≡ ok a → (r >>= f) ≡ f a
  unfolding ◌>>=◌
  ok-bind r a f e = rw e refl

pub require-ok : (b : Bool) (e : Error) (u : Unit {0}) → require b e ≡ ok u → b ≡ true
require-ok true e u h = refl
require-ok false e u h = ground (arith, h)

module _ {A S : Type 0} (f : A → S → Result S) where
  pub each-append : (xs ys : List A) (s : S) → each f (xs ++ ys) s ≡ (each f xs s >>= each f ys)
  unfolding each ◌>>=◌
  each-append [] ys s = refl
  each-append (x ∷ xs) ys s = go (f x s) (each-append xs ys)
    where
      go :
          (r : Result S)
          → ((s : S) → each f (xs ++ ys) s ≡ (each f xs s >>= each f ys))
          → (r >>= each f (xs ++ ys)) ≡ ((r >>= each f xs) >>= each f ys)
      go (ok s') rest = rest s'
      go (raise e) rest = refl

  -- An invariant of every turn is one of the loop.
  pub each_keeps :
      (P : S → Type 0)
      → ((x : A) (s s' : S) → P s → f x s ≡ ok s' → P s')
      → (xs : List A) (s s' : S) → P s
      → each f xs s ≡ ok s'
      → P s'
  unfolding each
  each_keeps P keeps [] s s' p e = ground (arith, e)
  each_keeps P keeps (x ∷ xs) s s' p e =
      let (s1, e1, e2) = bind-ok (f x s) (each f xs) s' e in
      each_keeps P keeps xs s1 s' (keeps x s s1 p e1) e2
