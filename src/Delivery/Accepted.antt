-- ===== src/Delivery/Accepted.antt =====
-- packages/core/src/belief_ledger_core/buffering.py: what `finalize` hands to the sink, and when it
-- accepts a response.
use Prim.Native.String.{String}
use belief_ledger_pramana.Prelude.{
  ◌≡◌, refl, ◌⊎◌, inl, inr, Bool, true, false, Option, none, some, List, ◌∷◌, length, arith,
  on_option, if◌then◌else◌,
}
use belief_ledger_pramana.Delivery.Gate.{
  Bytes, ReasonCode, BufferResult, ResponseGate, Sink, Ports, verdict, refusal, prepared_for,
  hand_over, dispatch, finalize,
}

-- A property of both branches.
if_both :
    (P : BufferResult × Sink → Type 0) (b : Bool) (x y : BufferResult × Sink)
    → P x
    → P y
    → P (if b then x else y)
if_both P true x y h k = h
if_both P false x y h k = k

module _ (ports : Ports) where
  -- The linter has passed the text of these bytes.
  pub record IsLinted (payload : Bytes) : Type 0 where
    pub text : String
    pub is_text : ports.decode payload ≡ some text
    pub passes : ports.lint text ≡ some true

  -- The gate finds no reason against a buffer only if the linter passed it.
  pub verdict-IsLinted :
      (gate : ResponseGate)
      → verdict ports gate ≡ none
      → (gate.failed_reason ≡ none) × IsLinted gate.buffer
  unfolding verdict
  verdict-IsLinted gate h = failed gate.failed_reason h
    where
      linted :
          (t : String) (o : Option Bool)
          → ports.decode gate.buffer ≡ some t
          → ports.lint t ≡ o
          → on_option o
              (some ReasonCode.linter_error)
              (λ passed. if passed then none else some ReasonCode.lint_blocked)
            ≡ none
          → IsLinted gate.buffer
      linted t none e l k = absurd (ground arith)
      linted t (some true) e l k = record { text = t; is_text = e; passes = l }
      linted t (some false) e l k = absurd (ground arith)

      decoded :
          (o : Option String)
          → ports.decode gate.buffer ≡ o
          → on_option o (some ReasonCode.invalid_utf8) (λ text.
            on_option
              (ports.lint text)
              (some ReasonCode.linter_error)
              (λ passed. if passed then none else some ReasonCode.lint_blocked))
            ≡ none
          → IsLinted gate.buffer
      decoded none e k = absurd (ground arith)
      decoded (some t) e k = linted t (ports.lint t) e refl k

      failed :
          (o : Option ReasonCode)
          → on_option o
              (on_option (ports.decode gate.buffer) (some ReasonCode.invalid_utf8) (λ text.
                on_option
                  (ports.lint text)
                  (some ReasonCode.linter_error)
                  (λ passed. if passed then none else some ReasonCode.lint_blocked)))
              some
            ≡ none
          → (o ≡ none) × IsLinted gate.buffer
      failed none k = (refl, decoded (ports.decode gate.buffer) refl k)
      failed (some r) k = absurd (ground arith)

  -- What one call of `finalize` adds to the deliveries: nothing, the report, or a buffer that the
  -- linter passed.
  abbrev pub Delivers : ResponseGate → List Bytes → List Bytes → Type 0
  Delivers gate before after =
      (after ≡ before)
      ⊎ ((after ≡ gate.block_report ∷ before)
          ⊎ (IsLinted gate.buffer × (after ≡ gate.buffer ∷ before)))

  hand_over-deliveries :
      (reason : Option ReasonCode) (payload : Bytes) (sink : Sink)
      → (hand_over ports reason payload sink).1.deliveries ≡ payload ∷ sink.deliveries
  unfolding hand_over
  hand_over-deliveries reason payload sink = ground arith

  -- An accepted result of the hand-over had no reason against it.
  hand_over-accepted :
      (reason : Option ReasonCode) (payload : Bytes) (sink : Sink)
      → (hand_over ports reason payload sink).0.accepted ≡ true
      → (reason ≡ none) × ((hand_over ports reason payload sink).0.delivered_bytes ≡ length payload)
  unfolding hand_over
  hand_over-accepted reason payload sink h = ground arith

  pub dispatch-Delivers :
      (reason : Option ReasonCode) (gate : ResponseGate) (sink : Sink)
      → (reason ≡ none → IsLinted gate.buffer)
      → Delivers gate sink.deliveries (dispatch ports reason gate sink).1.deliveries
  unfolding dispatch
  dispatch-Delivers none gate sink h =
      if_both P (ports.prepares sink (length gate.buffer)) _ _
        (inr (inr (h refl, hand_over-deliveries none gate.buffer _)))
        (if_both P _ _ _ (inr (inl (hand_over-deliveries _ gate.block_report _))) (inl refl))
    where
      P : BufferResult × Sink → Type 0
      P q = Delivers gate sink.deliveries q.1.deliveries
  dispatch-Delivers (some r) gate sink h =
      if_both (λ q. Delivers gate sink.deliveries q.1.deliveries)
        (ports.prepares sink (length gate.block_report)) _ _
        (inr (inl (hand_over-deliveries (some r) gate.block_report _))) (inl refl)

  -- What an accepted result says of the response.
  abbrev IsSent : ResponseGate → Sink → Option ReasonCode → BufferResult × Sink → Type 0
  IsSent gate sink reason q =
      q.0.accepted ≡ true
      → (reason ≡ none)
        × (q.1.deliveries ≡ gate.buffer ∷ sink.deliveries)
        × (q.0.delivered_bytes ≡ length gate.buffer)

  refused-IsSent :
      (gate : ResponseGate) (sink sink' : Sink) (reason : Option ReasonCode) (r : ReasonCode)
      → IsSent gate sink reason (refusal ports r, sink')
  refused-IsSent gate sink sink' reason r h = absurd (ground (arith, h))

  dispatch-accepted :
      (reason : Option ReasonCode) (gate : ResponseGate) (sink : Sink)
      → IsSent gate sink reason (dispatch ports reason gate sink)
  unfolding dispatch
  dispatch-accepted none gate sink =
      if_both (IsSent gate sink none) (ports.prepares sink (length gate.buffer)) _ _
        (λ h.
          let (_, size) = hand_over-accepted none gate.buffer _ h in
          (refl, hand_over-deliveries none gate.buffer _, size))
        (if_both (IsSent gate sink none) _ _ _
          (replaced ReasonCode.sink_prepare_failed
            (prepared_for ports gate.block_report (prepared_for ports gate.buffer sink)))
          (refused-IsSent gate sink
            (prepared_for ports gate.block_report (prepared_for ports gate.buffer sink)) none
            ReasonCode.sink_prepare_failed))
    where
      replaced :
          (r : ReasonCode) (s : Sink)
          → IsSent gate sink none (hand_over ports (some r) gate.block_report s)
      replaced r s h = absurd (ground (arith, hand_over-accepted (some r) gate.block_report s h))
  dispatch-accepted (some r) gate sink =
      if_both (IsSent gate sink (some r)) (ports.prepares sink (length gate.block_report)) _ _
        (λ h. absurd (
          ground (
            arith,
            hand_over-accepted (some r) gate.block_report
                (prepared_for ports gate.block_report sink) h,
          )))
        (refused-IsSent gate sink (prepared_for ports gate.block_report sink) (some r)
          ReasonCode.sink_prepare_failed)

  -- The two branches of `finalize`.
  abbrev pub outcome : ResponseGate → Sink → Bool → BufferResult × ResponseGate × Sink
  outcome gate sink b =
      if b
      then (refusal ports ReasonCode.multiple_final, gate, sink)
      else let (result, sink') = dispatch ports (verdict ports gate) gate sink in
        (result, record gate { finalized = true }, sink')

  -- Whatever the gate, the sink and the linter do, one `finalize` hands over nothing, the report, or
  -- the buffer after the linter passed its text.
  pub finalize-Delivers :
      (gate : ResponseGate) (sink : Sink)
      → Delivers gate sink.deliveries (finalize ports gate sink).2.deliveries
  unfolding finalize
  finalize-Delivers gate sink = split gate.finalized
    where
      split : (b : Bool) → Delivers gate sink.deliveries (outcome gate sink b).2.deliveries
      split true = inl refl
      split false =
          dispatch-Delivers (verdict ports gate) gate sink (λ h. (verdict-IsLinted gate h).1)

  -- An accepted result comes from a gate that was not finalized and had not failed, whose text the
  -- linter passed; the sink got exactly the buffer, and its size is reported.
  pub finalize-accepted :
      (gate : ResponseGate) (sink : Sink)
      → (finalize ports gate sink).0.accepted ≡ true
      → (gate.finalized ≡ false)
        × (gate.failed_reason ≡ none)
        × IsLinted gate.buffer
        × ((finalize ports gate sink).2.deliveries ≡ gate.buffer ∷ sink.deliveries)
        × ((finalize ports gate sink).0.delivered_bytes ≡ length gate.buffer)
  unfolding finalize
  finalize-accepted gate sink h = split gate.finalized refl h
    where
      split :
          (b : Bool)
          → gate.finalized ≡ b
          → (outcome gate sink b).0.accepted ≡ true
          → (b ≡ false)
            × (gate.failed_reason ≡ none)
            × IsLinted gate.buffer
            × ((outcome gate sink b).2.deliveries ≡ gate.buffer ∷ sink.deliveries)
            × ((outcome gate sink b).0.delivered_bytes ≡ length gate.buffer)
      split true e k = absurd (ground (arith, k))
      split false e k =
          let (clear, sent, size) = dispatch-accepted (verdict ports gate) gate sink k in
          let (unfailed, linted) = verdict-IsLinted gate clear in
          (refl, unfailed, linted, sent, size)
