-- ===== src/Delivery/Calls.antt =====
-- packages/core/src/belief_ledger_core/buffering.py: sequences of calls on one gate.
use belief_ledger_pramana.Prelude.{
  ℕ, ◌≤◌, ◌≡◌, refl, sym, subst, ◌⊎◌, inl, inr, Bool, true, false, Option, none, some, List, [],
  ◌∷◌, length, length-append, arith, All, ltb, on_option, if◌then◌else◌,
}
use belief_ledger_pramana.Delivery.Gate.{
  Bytes, ResponseGate, Sink, Ports, append, cancel, finalize, open_gate, verdict, dispatch,
}
use belief_ledger_pramana.Delivery.Accepted.{
  IsLinted, Delivers, outcome, dispatch-Delivers, verdict-IsLinted,
}

pub data Call : Type 0 where
  append_call : ℕ → Bytes → Call
  cancel_call finalize_call : Call

abbrev pub empty_sink : Sink
empty_sink = record { prepared = []; deliveries = [] }

module _ (ports : Ports) where
  unfoldable pub step : Call → ResponseGate → Sink → ResponseGate × Sink
  step (append_call index payload) gate sink = (append index payload gate, sink)
  step cancel_call gate sink = (cancel gate, sink)
  step finalize_call gate sink = let (_, gate', sink') = finalize ports gate sink in (gate', sink')

  unfoldable pub run : List Call → ResponseGate → Sink → ResponseGate × Sink
  unfolding step
  run [] gate sink = (gate, sink)
  run (c ∷ rest) gate sink = run rest (step c gate sink).0 (step c gate sink).1

  -- What may be handed over: the report, or bytes within the bound whose text the linter passed.
  abbrev pub IsAllowed : ℕ → Bytes → Bytes → Type 0
  IsAllowed max_bytes block_report payload =
      (payload ≡ block_report) ⊎ (IsLinted ports payload × (length payload ≤ max_bytes))

  -- The invariant of a gate with its sink.
  pub record IsSafe (max_bytes : ℕ) (block_report : Bytes) (gate : ResponseGate) (sink : Sink)
      : Type 0 where
    pub same_max : gate.max_bytes ≡ max_bytes
    pub same_report : gate.block_report ≡ block_report
    pub fits : length gate.buffer ≤ max_bytes
    pub once : length sink.deliveries ≤ (if gate.finalized then 1 else 0)
    pub allowed : All (IsAllowed max_bytes block_report) sink.deliveries

  opened :
      (m : ℕ) (b : Bytes) (gate : ResponseGate)
      → open_gate m b ≡ some gate
      → IsSafe m b gate empty_sink
  unfolding open_gate
  opened m b gate h = split (ltb 0 m) (ltb 4_096 (length b)) h
    where
      new : ResponseGate
      new = record {
        max_bytes = m;
        block_report = b;
        buffer = [];
        next_index = 0;
        failed_reason = none;
        finalized = false;
      }

      safe : IsSafe m b new empty_sink
      safe = record {
        same_max = refl;
        same_report = refl;
        fits = omega arith;
        once = omega arith;
        allowed = _;
      }

      split :
          (x y : Bool)
          → (if x then if y then none else some new else none) ≡ some gate
          → IsSafe m b gate empty_sink
      split true true k = absurd (ground (arith, k))
      split true false k =
          subst (λ (o : Option ResponseGate). IsSafe m b (on_option o new (λ g. g)) empty_sink) k
            safe
      split false y k = absurd (ground (arith, k))

  at_most_one : (n : ℕ) (t : Bool) → n ≤ (if t then 1 else 0) → n ≤ 1
  at_most_one n t h = ground arith

  append-IsSafe :
      (index : ℕ) (payload : Bytes) (m : ℕ) (b : Bytes) (gate : ResponseGate) (sink : Sink)
      → IsSafe m b gate sink
      → IsSafe m b (append index payload gate) sink
  unfolding append
  append-IsSafe index payload m b gate sink s = record {
    same_max = ground (arith, s.same_max);
    same_report = ground (arith, s.same_report);
    fits = ground (arith, s.fits, s.same_max, length-append gate.buffer payload);
    once = ground (arith, s.once);
    allowed = s.allowed;
  }

  cancel-IsSafe :
      (m : ℕ) (b : Bytes) (gate : ResponseGate) (sink : Sink)
      → IsSafe m b gate sink
      → IsSafe m b (cancel gate) sink
  unfolding cancel
  cancel-IsSafe m b gate sink s = record {
    same_max = s.same_max;
    same_report = s.same_report;
    fits = s.fits;
    once = s.once;
    allowed = s.allowed;
  }

  -- What one `finalize` hands over is allowed, and is the first delivery.
  delivered :
      (m : ℕ) (gate : ResponseGate) (before after : List Bytes)
      → length gate.buffer ≤ m
      → Delivers ports gate before after
      → length before ≤ 0
      → All (IsAllowed m gate.block_report) before
      → (length after ≤ 1) × All (IsAllowed m gate.block_report) after
  delivered m gate before after fits (inl same) none_yet a =
      subst (λ l. (length l ≤ 1) × All (IsAllowed m gate.block_report) l) (sym same)
        (omega (arith, none_yet), a)
  delivered m gate before after fits (inr (inl same)) none_yet a =
      subst (λ l. (length l ≤ 1) × All (IsAllowed m gate.block_report) l) (sym same)
        (omega (arith, none_yet), (inl refl, a))
  delivered m gate before after fits (inr (inr (linted, same))) none_yet a =
      subst (λ l. (length l ≤ 1) × All (IsAllowed m gate.block_report) l) (sym same)
        (omega (arith, none_yet), (inr (linted, fits), a))

  finalize-IsSafe :
      (m : ℕ) (b : Bytes) (gate : ResponseGate) (sink : Sink)
      → IsSafe m b gate sink
      → IsSafe m b (finalize ports gate sink).1 (finalize ports gate sink).2
  unfolding finalize
  finalize-IsSafe m b gate sink s = split gate.finalized refl
    where
      split :
          (t : Bool)
          → gate.finalized ≡ t
          → IsSafe m b (outcome ports gate sink t).1 (outcome ports gate sink t).2
      split true e = s
      split false e =
          let none_yet : length sink.deliveries ≤ 0 = ground (arith, s.once, e) in
          let (once, allowed) =
            delivered m gate sink.deliveries _ s.fits
              (dispatch-Delivers ports (verdict ports gate) gate sink
                (λ h. (verdict-IsLinted ports gate h).1))
              none_yet
              (subst (λ r. All (IsAllowed m r) sink.deliveries) (sym s.same_report) s.allowed) in
          record {
            same_max = s.same_max;
            same_report = s.same_report;
            fits = s.fits;
            once = once;
            allowed =
                subst
                  (λ r.
                    All (IsAllowed m r)
                      (dispatch ports (verdict ports gate) gate sink).1.deliveries)
                  s.same_report allowed;
          }

  step-IsSafe :
      (c : Call) (m : ℕ) (b : Bytes) (gate : ResponseGate) (sink : Sink)
      → IsSafe m b gate sink
      → IsSafe m b (step c gate sink).0 (step c gate sink).1
  unfolding step
  step-IsSafe (Call.append_call index payload) m b gate sink s =
      append-IsSafe index payload m b gate sink s
  step-IsSafe Call.cancel_call m b gate sink s = cancel-IsSafe m b gate sink s
  step-IsSafe Call.finalize_call m b gate sink s = finalize-IsSafe m b gate sink s

  run-IsSafe :
      (calls : List Call) (m : ℕ) (b : Bytes) (gate : ResponseGate) (sink : Sink)
      → IsSafe m b gate sink
      → IsSafe m b (run calls gate sink).0 (run calls gate sink).1
  unfolding run
  run-IsSafe [] m b gate sink s = s
  run-IsSafe (c ∷ rest) m b gate sink s = run-IsSafe rest m b _ _ (step-IsSafe c m b gate sink s)

  -- Whatever sequence of calls a new gate is given, its sink is handed over at most one payload, each
  -- payload is the report or at most `max_bytes` bytes whose text the linter passed, and the buffer
  -- stays within `max_bytes`.
  pub run-deliveries :
      (max_bytes : ℕ) (block_report : Bytes) (gate : ResponseGate) (calls : List Call)
      → open_gate max_bytes block_report ≡ some gate
      → let (gate', sink') = run calls gate empty_sink in
        (length sink'.deliveries ≤ 1)
        × All (IsAllowed max_bytes block_report) sink'.deliveries
        × (length gate'.buffer ≤ max_bytes)
  run-deliveries m b gate calls h =
      let s = run-IsSafe calls m b gate empty_sink (opened m b gate h) in
      (at_most_one _ (run calls gate empty_sink).0.finalized s.once, s.allowed, s.fits)
