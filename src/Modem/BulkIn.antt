-- ===== src/Modem/BulkIn.antt =====
-- The threads that send to the game: `bulk_in_thread` and `intr_in_thread` of src/modem_omron.cpp,
-- src/modem_onlinestation.cpp and src/modem_lucent.cpp, and `data_in_thread` and
-- `control_out_thread` of src/modem_smartscm.cpp. A function is one round of a thread's loop behind
-- its wait; a packet is the bytes that `ep_write` is given, `header.length` of them.
pub mod Deadline
pub mod Stream
pub mod Smart
pub mod Rounds
pub mod Senders
pub mod Idle
pub mod Status
use me56ps2_emulator.Prelude.{
  ℕ, zero, suc, ◌+◌, ◌-◌, ◌*◌, Bool, true, false, not, ◌&&◌, Option, none, some, List, [], ◌∷◌,
  ◌++◌, length, get_elem?, ltb, ◌==◌, if◌then◌else◌, ◌%◌,
}
use me56ps2_emulator.Text.{Text}
use me56ps2_emulator.RingBuffer.{RingBuffer, enqueue, dequeue, is_empty}
use me56ps2_emulator.Usb.Descriptor.{max_packet_size_bulk, control_data_buffer_size}
use me56ps2_emulator.Context.{Context, handle_disconnect}
use me56ps2_emulator.Os.{Outcome, ok, fault, running, Fault}
use Prim.Native.Nat.{bit_or}

abbrev pub eq_bool : Bool → Bool → Bool
eq_bool true b = b
eq_bool false b = not b

abbrev pub is_nil : Text → Bool
is_nil [] = true
is_nil (x ∷ s) = false

abbrev pub flag : Bool → ℕ → ℕ → ℕ
flag b mask x = if b then bit_or x mask else x

-- A round of a thread that sends: the packet, if any, `last_dcd`, and the buffer.
abbrev pub Round : Type 0
Round = Option Text × Bool × RingBuffer ℕ

-- `!payload_length && last_dcd == dcd`
unfoldable pub nothing_new : Bool → Bool → Text → Bool
nothing_new dcd last_dcd payload = is_nil payload && eq_bool last_dcd dcd

-- Omron: two bytes of status in front, and nothing sent where nothing is new
unfoldable pub omron_packet : Bool → Text → Text
omron_packet dcd payload = flag dcd 0x80 0x31 ∷ 0x60 ∷ payload

unfoldable pub omron_bulk_in : Bool → Bool → RingBuffer ℕ → Round
omron_bulk_in dcd last_dcd r =
    let (payload, r') = dequeue r (max_packet_size_bulk - 2) in
    if nothing_new dcd last_dcd payload
    then (none, last_dcd, r')
    else (some (omron_packet dcd payload), dcd, r')

-- OnlineStation: a packet each round, empty or not
unfoldable pub online_station_bulk_in : RingBuffer ℕ → Text × RingBuffer ℕ
online_station_bulk_in r = dequeue r control_data_buffer_size

-- Lucent: a packet where there is payload
unfoldable pub lucent_bulk_in : RingBuffer ℕ → Option Text × RingBuffer ℕ
lucent_bulk_in r =
    let (payload, r') = dequeue r control_data_buffer_size in
    (if is_nil payload then none else some payload, r')

-- `0x61` in front of each byte of payload
unfoldable pub interleave : Text → Text
interleave [] = []
interleave (x ∷ payload) = 0x61 ∷ x ∷ interleave payload

-- SmartSCM: a status, the payload byte by byte, and an end mark if the buffer is empty by then
unfoldable pub smart_scm_packet : Bool → Bool → Text → Text
unfolding interleave
smart_scm_packet dcd empty payload =
    let end_mark : Text = if empty then 0x60 ∷ [] else [] in
    flag dcd 0x80 0x30 ∷ interleave payload ++ end_mark

-- `meanwhile` is what other threads put in between the two looks at the buffer.
unfoldable pub smart_scm_data_in : Bool → Bool → Text → RingBuffer ℕ → Round
smart_scm_data_in dcd last_dcd meanwhile r =
    let (payload, r') = dequeue r 15 in
    let r'' = (enqueue r' meanwhile).1 in
    if nothing_new dcd last_dcd payload
    then (none, last_dcd, r')
    else (some (smart_scm_packet dcd (is_empty r'') payload), dcd, r'')

-- `intr_in_thread` of the Lucent modem: a notification where the carrier has changed
unfoldable pub lucent_intr_in : Bool → Bool → Option Text × Bool
lucent_intr_in dcd last_dcd =
    if eq_bool last_dcd dcd
    then (none, last_dcd)
    else (some (0xa1 ∷ 0x20 ∷ 0 ∷ 0 ∷ 0 ∷ 0 ∷ 0x02 ∷ 0 ∷ flag dcd 0x01 0x02 ∷ 0 ∷ []), dcd)

-- `intr_in_thread` of the OnlineStation modem
unfoldable pub online_station_intr_in : Context → Text
online_station_intr_in c =
    flag (not (is_empty c.usb_tx_buffer)) 0x01 0x04 ∷ flag c.connected 0x08 0x03 ∷ []

-- `control_out_thread` of the SmartSCM modem: commands of three bytes, up to one that does not
-- begin with 0x40. `packet` is the buffer of 64 bytes, of which `length` were read; a read behind
-- its end is a fault. The fuel is more than the rounds that 64 bytes allow.
unfoldable pub control_out_from : ℕ → Text → ℕ → ℕ → Context → Outcome Context
control_out_from zero packet length i c = running
control_out_from (suc fuel) packet length i c =
    elim (if ltb i length then get_elem? packet i else some 0) [
      | none ↦ fault Fault.out_of_bounds
      | some first ↦
          if not (ltb i length && first == 0x40) then ok c else elim (get_elem? packet (i + 1)) [
            | none ↦ fault Fault.out_of_bounds
            | some cmd ↦ elim (get_elem? packet (i + 2)) [
              | none ↦ fault Fault.out_of_bounds
              | some val ↦
                  control_out_from fuel packet length (i + 3)
                    (if (cmd == 0x04) && (val % 2 == 0) then handle_disconnect c else c)
            ]
          ]
    ]

unfoldable pub control_out : Text → ℕ → Context → Outcome Context
control_out packet length c = control_out_from 23 packet length 0 c
