-- ===== src/Modem/BulkIn/Senders.antt =====
-- The senders of the four modems: what a round of Modem/BulkIn.antt gives the game, as an instance of
-- the interface of Modem/BulkIn/Rounds.antt.
use me56ps2_emulator.Prelude.{
  replicate, ◌*◌, ◌≤◌, ◌≡◌, refl, ap, ◌∙◌, ℕ, Bool, Option, none, some, List, [], take, drop,
  append-nil, take-nil, ◌++◌, if◌then◌else◌,
}
use me56ps2_emulator.Text.{Text}
use me56ps2_emulator.RingBuffer.{RingBuffer, dequeue}
use me56ps2_emulator.RingBuffer.Inv.{IsValid, contents}
use me56ps2_emulator.RingBuffer.Bulk.{dequeue_lem}
use me56ps2_emulator.Modem.BulkIn.{
  length, ◌∷◌, omron_bulk_in, smart_scm_data_in, online_station_bulk_in, lucent_bulk_in, is_nil,
}
use me56ps2_emulator.Modem.At.{Model}
use me56ps2_emulator.Modem.BulkIn.Rounds.{
  run_rounds-drain, round, run_rounds-conserves, run_rounds, Step, Sender,
}
use me56ps2_emulator.Modem.BulkIn.Stream.{payload_of, omron_bulk_in_lem}
use me56ps2_emulator.Modem.BulkIn.Smart.{between, free, decode, smart_scm_data_in_lem}

abbrev pub omron_sender : Sender
omron_sender = record {
  send = omron_bulk_in;
  read = payload_of;
  limit = 62;
  read_send = λ dcd last_dcd r v. (omron_bulk_in_lem dcd last_dcd r v).0;
  send_rest = λ dcd last_dcd r v. let q = omron_bulk_in_lem dcd last_dcd r v in (q.2, q.1);
}

pub between-nil : (packet : Option Text) (n : ℕ) → between packet (take n []) ≡ []
between-nil none n = refl
between-nil (some packet) n = take-nil ℕ n

-- with nothing put in between the two looks at the buffer: that is another step
abbrev pub smart_scm_sender : Sender
smart_scm_sender = record {
  send = λ dcd last_dcd r. smart_scm_data_in dcd last_dcd [] r;
  read = decode;
  limit = 15;
  read_send = λ dcd last_dcd r v. (smart_scm_data_in_lem dcd last_dcd [] r v).0;
  send_rest = λ dcd last_dcd r v.
      let q = smart_scm_data_in_lem dcd last_dcd [] r v in
      let rest = drop 15 (contents r) in
      let packet = (smart_scm_data_in dcd last_dcd [] r).0 in
      (q.1, q.2 ∙ ap (◌++◌ rest) (between-nil packet (free r rest)) ∙ append-nil rest);
}

-- the packet as it is
abbrev pub whole_of : Option Text → Text
whole_of none = []
whole_of (some packet) = packet

whole_of_packet :
    (payload : Text) → whole_of (if is_nil payload then none else some payload) ≡ payload
whole_of_packet [] = refl
whole_of_packet (x ∷ payload) = refl

pub online_station_lem :
    (r : RingBuffer ℕ)
    → IsValid r
    → let (packet, r') = online_station_bulk_in r in
      (packet ≡ take 256 (contents r)) × IsValid r' × (contents r' ≡ drop 256 (contents r))
unfolding online_station_bulk_in
online_station_lem r v = let (t, d, s, v') = dequeue_lem r 256 v in (t, v', d)

pub lucent_lem :
    (r : RingBuffer ℕ)
    → IsValid r
    → let (packet, r') = lucent_bulk_in r in
      (whole_of packet ≡ take 256 (contents r)) × IsValid r' × (contents r' ≡ drop 256 (contents r))
unfolding lucent_bulk_in
lucent_lem r v =
    let (t, d, s, v') = dequeue_lem r 256 v in (whole_of_packet (dequeue r 256).0 ∙ t, v', d)

abbrev pub online_station_sender : Sender
online_station_sender = record {
  send =
      λ dcd last_dcd r. let (packet, r') = online_station_bulk_in r in (some packet, last_dcd, r');
  read = whole_of;
  limit = 256;
  read_send = λ dcd last_dcd r v. (online_station_lem r v).0;
  send_rest = λ dcd last_dcd r v. let q = online_station_lem r v in (q.1, q.2);
}

abbrev pub lucent_sender : Sender
lucent_sender = record {
  send = λ dcd last_dcd r. let (packet, r') = lucent_bulk_in r in (packet, last_dcd, r');
  read = whole_of;
  limit = 256;
  read_send = λ dcd last_dcd r v. (lucent_lem r v).0;
  send_rest = λ dcd last_dcd r v. let q = lucent_lem r v in (q.1, q.2);
}

abbrev pub sender_of : Model → Sender
sender_of Model.lucent = lucent_sender
sender_of Model.omron = omron_sender
sender_of Model.online_station = online_station_sender
sender_of Model.smart_scm = smart_scm_sender

-- On every modem, over any number of rounds on a valid buffer, with bytes of other threads put in
-- between at any time and the carrier changing in any way, the game reads in order the bytes that
-- were in the buffer and then those accepted, but for those still in it, and the buffer stays valid.
pub rounds_conserve :
    (model : Model) (last_dcd : Bool) (r : RingBuffer ℕ) (steps : List Step)
    → IsValid r
    → let (out, accepted, r') = run_rounds (sender_of model) last_dcd r steps in
      (contents r ++ accepted ≡ out ++ contents r') × IsValid r'
rounds_conserve model = run_rounds-conserves (sender_of model)

-- On every modem, as many rounds as its packets need for what is in a valid buffer, with nothing
-- coming in between, give the game all of it in order and leave the buffer empty.
rounds_drain :
    (model : Model) (k : ℕ) (dcd last_dcd : Bool) (r : RingBuffer ℕ)
    → IsValid r
    → length (contents r) ≤ k * (sender_of model).limit
    → let (out, accepted, r') = run_rounds (sender_of model) last_dcd r (replicate k (round dcd)) in
      (out ≡ contents r) × (contents r' ≡ [])
rounds_drain model = run_rounds-drain (sender_of model)
