-- ===== src/Delivery/Gate.antt =====
-- packages/core/src/belief_ledger_core/buffering.py: `ResponseGate` and its methods.
use Prim.Native.String.{String}
use belief_ledger_pramana.Prelude.{
  ℕ, ◌+◌, Bool, true, false, Option, none, some, List, [], ◌∷◌, ◌++◌, length, ltb, on_option, ◌==◌,
  if◌then◌else◌,
}

-- A chunk or a payload, as bytes.
abbrev pub Bytes : Type 0
Bytes = List ℕ

pub data ReasonCode : Type 0 where
  multiple_final invalid_chunk_order buffer_overflow cancelled invalid_utf8 : ReasonCode
  lint_blocked linter_error sink_prepare_failed sink_delivery_failed accepted_code : ReasonCode

pub record BufferResult : Type 0 where
  pub accepted : Bool
  pub reason_code : ReasonCode
  pub delivered_bytes : ℕ

pub record ResponseGate : Type 0 where
  pub max_bytes : ℕ
  pub block_report : Bytes
  pub buffer : Bytes
  pub next_index : ℕ
  pub failed_reason : Option ReasonCode
  pub finalized : Bool

-- What a sink has been asked, the latest first.
pub record Sink : Type 0 where
  pub prepared : List ℕ
  pub deliveries : List Bytes

-- The code that the gate is given: whether a call of the sink returns, the strict UTF-8 decoder, and
-- the linter, `none` where it raises.
pub record Ports : Type 0 where
  pub prepares : Sink → ℕ → Bool
  pub delivers : Sink → Bytes → Bool
  pub decode : Bytes → Option String
  pub lint : String → Option Bool

-- `__init__`; `none` is a `ValueError`.
unfoldable pub open_gate : ℕ → Bytes → Option ResponseGate
open_gate max_bytes block_report =
    if ltb 0 max_bytes
    then if ltb 4_096 (length block_report)
      then none
      else some (record {
        max_bytes = max_bytes;
        block_report = block_report;
        buffer = [];
        next_index = 0;
        failed_reason = none;
        finalized = false;
      })
    else none

-- `self._failed_reason = self._failed_reason or reason`
abbrev pub fail_with : ReasonCode → ResponseGate → ResponseGate
fail_with reason gate = record gate {
  failed_reason = some (on_option gate.failed_reason reason (λ r. r));
}

-- `append`, on the encoded chunk.
unfoldable pub append : ℕ → Bytes → ResponseGate → ResponseGate
append index payload gate =
    if gate.finalized
    then fail_with ReasonCode.multiple_final gate
    else if index == gate.next_index
    then if ltb gate.max_bytes (length gate.buffer + length payload)
      then fail_with ReasonCode.buffer_overflow (record gate { next_index = gate.next_index + 1 })
      else record gate { next_index = gate.next_index + 1; buffer = gate.buffer ++ payload }
    else fail_with ReasonCode.invalid_chunk_order gate

-- `cancel`
unfoldable pub cancel : ResponseGate → ResponseGate
cancel gate = fail_with ReasonCode.cancelled gate

module _ (ports : Ports) where
  -- The reason of `finalize` before the sink is asked.
  unfoldable pub verdict : ResponseGate → Option ReasonCode
  verdict gate =
      on_option gate.failed_reason
        (on_option (ports.decode gate.buffer) (some ReasonCode.invalid_utf8) (λ text.
          on_option (ports.lint text) (some ReasonCode.linter_error)
            (λ passed. if passed then none else some ReasonCode.lint_blocked)))
        some

  abbrev pub refusal : ReasonCode → BufferResult
  refusal reason = record { accepted = false; reason_code = reason; delivered_bytes = 0 }

  -- `sink.prepare(len(payload))`: what the sink is afterwards.
  abbrev pub prepared_for : Bytes → Sink → Sink
  prepared_for payload sink = record sink { prepared = length payload ∷ sink.prepared }

  -- From `sink.deliver(payload)` on.
  unfoldable pub hand_over : Option ReasonCode → Bytes → Sink → BufferResult × Sink
  hand_over reason payload sink =
      let sink' = record sink { deliveries = payload ∷ sink.deliveries } in
      if ports.delivers sink payload
      then (
        record {
          accepted = on_option reason true (λ _. false);
          reason_code = on_option reason ReasonCode.accepted_code (λ r. r);
          delivered_bytes = length payload;
        },
        sink',
      )
      else (refusal ReasonCode.sink_delivery_failed, sink')

  -- From the first `sink.prepare` on: a response that was accepted and cannot be prepared is
  -- replaced by the report.
  unfoldable pub dispatch : Option ReasonCode → ResponseGate → Sink → BufferResult × Sink
  dispatch reason gate sink =
      let payload : Bytes = on_option reason gate.buffer (λ _. gate.block_report) in
      let sink' = prepared_for payload sink in
      if ports.prepares sink (length payload)
      then hand_over reason payload sink'
      else on_option reason
          (let sink'' = prepared_for gate.block_report sink' in
            if ports.prepares sink' (length gate.block_report)
            then hand_over (some ReasonCode.sink_prepare_failed) gate.block_report sink''
            else (refusal ReasonCode.sink_prepare_failed, sink''))
          (λ _. (refusal ReasonCode.sink_prepare_failed, sink'))

  -- `finalize`
  unfoldable pub finalize : ResponseGate → Sink → BufferResult × ResponseGate × Sink
  finalize gate sink =
      if gate.finalized
      then (refusal ReasonCode.multiple_final, gate, sink)
      else let (result, sink') = dispatch (verdict gate) gate sink in
        (result, record gate { finalized = true }, sink')
