-- ===== src/Tests/Ring.antt =====
-- The theorems on the ring buffer and on the threads that empty it, at a buffer that wraps round.
use me56ps2_emulator.Prelude.{
  ◌≡◌, ℕ, ◌+◌, ◌*◌, ◌<◌, ◌≤◌, ◌↔◌, ◌⊎◌, true, false, none, some, List, [], ◌∷◌, ◌++◌, arith, drop,
  take,
}
use me56ps2_emulator.RingBuffer.Inv.{IsValid, contents}
use me56ps2_emulator.RingBuffer.Queue.{
  Call, put, get, run, queue_run, all_put, all_taken, run_refines, run_conserves,
}
use me56ps2_emulator.Modem.BulkIn.{smart_scm_data_in}
use me56ps2_emulator.Modem.BulkIn.Stream.{packet_length, Carrier}
use me56ps2_emulator.Modem.BulkIn.Rounds.{Step, arrives, round, run_rounds}
use me56ps2_emulator.Modem.BulkIn.Senders.{sender_of, rounds_conserve}
use me56ps2_emulator.Modem.At.{Model}
use me56ps2_emulator.Modem.BulkIn.Smart.{between, free, decode, smart_scm_data_in_lem}
use me56ps2_emulator.Modem.BulkIn.Deadline.{next_deadline, next_deadline_lem}
use me56ps2_emulator.Tests.Sample.{ring, ring-IsValid}

abbrev calls : List (Call ℕ)
calls = put (7 ∷ 8 ∷ 9 ∷ []) ∷ get 2 ∷ put (5 ∷ []) ∷ []

run_refines_example :
    let (replies, r') = run ring calls in
    ((replies, contents r') ≡ queue_run 3 (contents ring) calls) × IsValid r'
run_refines_example = run_refines ring calls ring-IsValid

run_conserves_example :
    let (replies, r') = run ring calls in
    contents ring ++ all_put calls replies ≡ all_taken replies ++ contents r'
run_conserves_example = run_conserves ring calls ring-IsValid

smart_scm_data_in_example :
    let (packet, last_dcd', r') = smart_scm_data_in true false (6 ∷ []) ring in
    (decode packet ≡ take 15 (contents ring))
    × IsValid r'
    × (contents r'
        ≡ drop 15 (contents ring)
          ++ between packet (take (free ring (drop 15 (contents ring))) (6 ∷ [])))
    × (last_dcd' ≡ true)
    × (packet_length packet ≤ 32)
    × Carrier true packet
    × ((packet ≡ none) ↔ ((take 15 (contents ring) ≡ []) × (false ≡ true)))
smart_scm_data_in_example = smart_scm_data_in_lem true false (6 ∷ []) ring ring-IsValid

next_deadline_example :
    (t k : ℕ) × (next_deadline 60 40 100 50 ≡ some t)
    × (t ≡ 50 + k * 40)
    × (100 < t)
    × ((k ≡ 0) ⊎ (t ≤ 100 + 40))
next_deadline_example = next_deadline_lem 60 40 100 50 (omega arith) (omega arith) (omega arith)

abbrev steps : List Step
steps = round true ∷ arrives (5 ∷ 6 ∷ []) ∷ round true ∷ arrives (8 ∷ []) ∷ []

rounds_conserve_example :
    let (out, accepted, r') = run_rounds (sender_of Model.smart_scm) false ring steps in
    (contents ring ++ accepted ≡ out ++ contents r') × IsValid r'
rounds_conserve_example = rounds_conserve Model.smart_scm false ring steps ring-IsValid
