-- ===== src/Delivery/Tests.antt =====
-- packages/core/src/belief_ledger_core/buffering.py: a gate on small inputs, and the theorems at it.
use belief_ledger_pramana.Prelude.{
  ℕ, ◌≤◌, ◌≡◌, refl, true, false, none, some, List, [], ◌∷◌, length, arith, All, ltb,
}
use belief_ledger_pramana.Delivery.Gate.{
  Bytes, ResponseGate, Ports, append, cancel, open_gate, verdict, hand_over, dispatch, finalize,
}
use belief_ledger_pramana.Delivery.Chunks.{append_each, IsOpen}
use belief_ledger_pramana.Delivery.Accepted.{
  IsLinted, Delivers, finalize-Delivers, finalize-accepted,
}
use belief_ledger_pramana.Delivery.Calls.{Call, IsAllowed, empty_sink, step, run, run-deliveries}

-- All that a run computes with.
abbrev running : Unit {0}
unfolding open_gate append cancel verdict hand_over dispatch finalize step run
running = tt

-- A sink that takes at most ten bytes, and a linter that passes every text.
abbrev ports : Ports
ports = record {
  prepares = λ sink size. ltb size 11;
  delivers = λ sink payload. true;
  decode = λ payload. some "text";
  lint = λ text. some true;
}

abbrev gate : ResponseGate
gate = record {
  max_bytes = 4;
  block_report = 66 ∷ [];
  buffer = [];
  next_index = 0;
  failed_reason = none;
  finalized = false;
}

gate-IsOpen : IsOpen gate
gate-IsOpen = record { unfailed = refl; unfinished = refl; fits = omega arith }

abbrev chunks : List (ℕ × Bytes)
chunks = (0, 1 ∷ 2 ∷ []) ∷ (1, 3 ∷ []) ∷ []

abbrev filled : ResponseGate
filled = append_each chunks gate

finalize-Delivers_example : Delivers ports filled [] (finalize ports filled empty_sink).2.deliveries
finalize-Delivers_example = finalize-Delivers ports filled empty_sink

finalize-accepted_example :
    (filled.finalized ≡ false)
    × (filled.failed_reason ≡ none)
    × IsLinted ports filled.buffer
    × ((finalize ports filled empty_sink).2.deliveries ≡ filled.buffer ∷ [])
    × ((finalize ports filled empty_sink).0.delivered_bytes ≡ length filled.buffer)
unfolding running
finalize-accepted_example = finalize-accepted ports filled empty_sink refl

abbrev calls : List Call
calls =
    Call.append_call 0 (1 ∷ [])
    ∷ Call.append_call 2 (3 ∷ [])
    ∷ Call.finalize_call
    ∷ Call.finalize_call
    ∷ []

run-deliveries_example :
    let (gate', sink') = run ports calls gate empty_sink in
    (length sink'.deliveries ≤ 1)
    × All (IsAllowed ports 4 (66 ∷ [])) sink'.deliveries
    × (length gate'.buffer ≤ 4)
unfolding running
run-deliveries_example = run-deliveries ports 4 (66 ∷ []) gate calls refl

-- The gap in the numbering is answered with the report, once.
deliveries-gap : (run ports calls gate empty_sink).1.deliveries ≡ (66 ∷ []) ∷ []
unfolding running
deliveries-gap = refl
