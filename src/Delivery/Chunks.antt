-- ===== src/Delivery/Chunks.antt =====
-- packages/core/src/belief_ledger_core/buffering.py: sequences of calls of `append`.
use belief_ledger_pramana.Prelude.{
  ℕ, ◌+◌, ◌≤◌, ◌≡◌, refl, ◌↔◌, Bool, true, false, not, ◌&&◌, none, some, List, [], ◌∷◌, ◌++◌,
  length, length-append, append-nil, append_assoc, arith, ltb, on_option, ◌==◌, if◌then◌else◌,
  Bool-cases, inl, inr, subst, sym, ◌∙◌,
}
use belief_ledger_pramana.Delivery.Gate.{Bytes, ReasonCode, ResponseGate, fail_with, append}

-- A sequence of calls of `append`.
abbrev pub append_each : List (ℕ × Bytes) → ResponseGate → ResponseGate
append_each [] gate = gate
append_each ((index, payload) ∷ rest) gate = append_each rest (append index payload gate)

-- The bytes of a sequence of chunks.
abbrev pub joined : List (ℕ × Bytes) → Bytes
joined [] = []
joined ((_, payload) ∷ rest) = payload ++ joined rest

-- Whether the chunks are numbered from `first` on without a gap.
abbrev pub is_numbered : ℕ → List (ℕ × Bytes) → Bool
is_numbered first [] = true
is_numbered first ((index, _) ∷ rest) = (index == first) && is_numbered (first + 1) rest

append-failed :
    (index : ℕ) (payload : Bytes) (gate : ResponseGate) (r : ReasonCode)
    → gate.failed_reason ≡ some r
    → (append index payload gate).failed_reason ≡ some r
unfolding append
append-failed index payload gate r h = ground arith

append_each-failed :
    (chunks : List (ℕ × Bytes)) (gate : ResponseGate) (r : ReasonCode)
    → gate.failed_reason ≡ some r
    → (append_each chunks gate).failed_reason ≡ some r
append_each-failed [] gate r h = h
append_each-failed ((index, payload) ∷ rest) gate r h =
    append_each-failed rest (append index payload gate) r (append-failed index payload gate r h)

stays_failed :
    (chunks : List (ℕ × Bytes)) (gate : ResponseGate) (r : ReasonCode)
    → gate.failed_reason ≡ some r
    → (append_each chunks gate).failed_reason ≡ none
    → ⊥
stays_failed chunks gate r h k = absurd (ground (arith, append_each-failed chunks gate r h, k))

-- A gate that has not failed, is still open, and whose buffer keeps the bound.
pub record IsOpen (gate : ResponseGate) : Type 0 where
  pub unfailed : gate.failed_reason ≡ none
  pub unfinished : gate.finalized ≡ false
  pub fits : length gate.buffer ≤ gate.max_bytes

-- What `append` does with a chunk in order that fits.
append-fitting :
    (index : ℕ) (payload : Bytes) (gate : ResponseGate)
    → IsOpen gate
    → (index == gate.next_index) ≡ true
    → length gate.buffer + length payload ≤ gate.max_bytes
    → append index payload gate
      ≡ record gate { next_index = gate.next_index + 1; buffer = gate.buffer ++ payload }
unfolding append
append-fitting index payload gate o h k = rw (o.unfinished, h, in_bounds) refl
  where
    in_bounds : ltb gate.max_bytes (length gate.buffer + length payload) ≡ false
    in_bounds = ground arith

-- A chunk out of order, or one too many, fails the gate.
append-refused :
    (index : ℕ) (payload : Bytes) (gate : ResponseGate)
    → ((index == gate.next_index) && not (ltb gate.max_bytes (length gate.buffer + length payload)))
      ≡ false
    → (r : ReasonCode) × ((append index payload gate).failed_reason ≡ some r)
unfolding append
append-refused index payload gate h =
    split gate.finalized (index == gate.next_index)
      (ltb gate.max_bytes (length gate.buffer + length payload)) h
  where
    old : ReasonCode → ReasonCode
    old r = on_option gate.failed_reason r (λ x. x)

    split :
        (a b c : Bool)
        → (b && not c) ≡ false
        → (r : ReasonCode) × ((if a
              then fail_with ReasonCode.multiple_final gate
              else if b
              then if c
                then fail_with ReasonCode.buffer_overflow
                    (record gate { next_index = gate.next_index + 1 })
                else record gate {
                  next_index = gate.next_index + 1;
                  buffer = gate.buffer ++ payload;
                }
              else fail_with ReasonCode.invalid_chunk_order gate).failed_reason
            ≡ some r)
    split true b c k = (old ReasonCode.multiple_final, refl)
    split false false c k = (old ReasonCode.invalid_chunk_order, refl)
    split false true true k = (old ReasonCode.buffer_overflow, refl)
    split false true false k = absurd (ground arith)

-- The gate after a chunk in order that fits.
abbrev extended : Bytes → ResponseGate → ResponseGate
extended payload gate = record gate {
  next_index = gate.next_index + 1;
  buffer = gate.buffer ++ payload;
}

extended-IsOpen :
    (payload : Bytes) (gate : ResponseGate)
    → IsOpen gate
    → length gate.buffer + length payload ≤ gate.max_bytes
    → IsOpen (extended payload gate)
extended-IsOpen payload gate o h = record {
  unfailed = o.unfailed;
  unfinished = o.unfinished;
  fits = omega (arith, length-append gate.buffer payload);
}

-- On an open gate that has not failed, whose buffer is within the bound, a sequence of chunks leaves
-- it without a failure exactly when the chunks are numbered from its next index on without a gap
-- and all their bytes fit.
pub append_each-kept_iff :
    (chunks : List (ℕ × Bytes)) (gate : ResponseGate)
    → IsOpen gate
    → ((append_each chunks gate).failed_reason ≡ none) ↔ (
        (is_numbered gate.next_index chunks ≡ true)
        × (length gate.buffer + length (joined chunks) ≤ gate.max_bytes))
append_each-kept_iff [] gate o = (λ _. (refl, omega (arith, o.fits)), λ _. o.unfailed)
append_each-kept_iff ((index, payload) ∷ rest) gate o =
    elim (Bool-cases (
      (index == gate.next_index)
      && not (ltb gate.max_bytes (length gate.buffer + length payload)))) [
        | inl good ↦
            let good_index : (index == gate.next_index) ≡ true = ground arith in
            let good_size : length gate.buffer + length payload ≤ gate.max_bytes = ground arith in
            let step = append-fitting index payload gate o good_index good_size in
            let ih =
              append_each-kept_iff rest (extended payload gate)
                (extended-IsOpen payload gate o good_size) in
            (
              λ h.
                  let (n, l) =
                    ih.0 (subst (λ q. (append_each rest q).failed_reason ≡ none) step h) in
                  (
                    rw good_index n,
                    omega (
                      arith,
                      l,
                      length-append gate.buffer payload,
                      length-append payload (joined rest),
                    ),
                  ),
              λ h.
                  subst (λ q. (append_each rest q).failed_reason ≡ none) (sym step)
                    (ih.1 (
                      ground (arith, h.0),
                      omega (
                        arith,
                        h.1,
                        length-append gate.buffer payload,
                        length-append payload (joined rest),
                      ),
                    )),
            )
        | inr bad ↦
            let (r, failed) = append-refused index payload gate bad in
            (
              λ h. absurd (stays_failed rest (append index payload gate) r failed h),
              λ h. absurd (ground (arith, h.0, h.1, length-append payload (joined rest), bad)),
            )
      ]

-- On an open gate that has not failed, whose buffer is within the bound, a sequence of chunks that
-- leaves it without a failure appends exactly their bytes in order, and stays within the bound.
pub append_each-buffer :
    (chunks : List (ℕ × Bytes)) (gate : ResponseGate)
    → IsOpen gate
    → (append_each chunks gate).failed_reason ≡ none
    → ((append_each chunks gate).buffer ≡ gate.buffer ++ joined chunks)
      × (length (append_each chunks gate).buffer ≤ gate.max_bytes)
append_each-buffer [] gate o h = (sym (append-nil gate.buffer), o.fits)
append_each-buffer ((index, payload) ∷ rest) gate o h =
    elim (Bool-cases (
      (index == gate.next_index)
      && not (ltb gate.max_bytes (length gate.buffer + length payload)))) [
        | inl good ↦
            let good_index : (index == gate.next_index) ≡ true = ground arith in
            let good_size : length gate.buffer + length payload ≤ gate.max_bytes = ground arith in
            let step = append-fitting index payload gate o good_index good_size in
            let ih =
              append_each-buffer rest (extended payload gate)
                (extended-IsOpen payload gate o good_size)
                (subst (λ q. (append_each rest q).failed_reason ≡ none) step h) in
            subst
              (λ q.
                ((append_each rest q).buffer ≡ gate.buffer ++ (payload ++ joined rest))
                × (length (append_each rest q).buffer ≤ gate.max_bytes))
              (sym step) (ih.0 ∙ append_assoc gate.buffer payload (joined rest), ih.1)
        | inr bad ↦
            let (r, failed) = append-refused index payload gate bad in
            absurd (stays_failed rest (append index payload gate) r failed h)
      ]
