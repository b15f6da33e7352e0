-- ===== src/Modem/Line.antt =====
-- The loops that end each modem's thread for bytes from the game, which the four sources repeat:
-- `bulk_out_thread` of src/modem_omron.cpp, src/modem_onlinestation.cpp and src/modem_lucent.cpp and
-- `data_out_thread` of src/modem_smartscm.cpp. Off line the bytes are command lines; on line they
-- go to the other side.
pub mod Feed
pub mod Chunks
pub mod Payload
pub mod Online
pub mod Sending
pub mod Safe
use me56ps2_emulator.Prelude.{
  ℕ, zero, suc, Bool, true, false, ◌&&◌, ◌||◌, Option, none, some, List, [], ◌∷◌, ◌++◌, drop, take,
  length, min, ◌==◌, leb, ◌/◌, if◌then◌else◌,
}
use me56ps2_emulator.Text.{Text}
use me56ps2_emulator.Text.Search.{find}
use me56ps2_emulator.TcpSock
use me56ps2_emulator.TcpSock.{TcpSock}
use me56ps2_emulator.PtyDev
use me56ps2_emulator.PtyDev.{PtyDev}
use me56ps2_emulator.Os.{Os, Outcome, ok, fault, running, Fault, ◌>>=◌}
use me56ps2_emulator.Context.{Context}
use me56ps2_emulator.Modem.At.{Model, process_at}

abbrev pub newline : ℕ
newline = 0x0d

-- Lucent: `while (!buffer.empty() && (buffer[0] == '\0')) buffer.erase(0, 1)`
unfoldable pub drop_nul : Text → Text
drop_nul [] = []
drop_nul (x ∷ buffer) = let rest = drop_nul buffer in if x == 0 then rest else x ∷ buffer

-- only the Lucent modem does that
unfoldable pub skips_nul : Model → Bool
skips_nul Model.lucent = true
skips_nul _ = false

abbrev pub trim : Bool → Text → Text
trim skip buffer = if skip then drop_nul buffer else buffer

module _ (skip : Bool) (process : Text → Context → Outcome Context) where
  -- the body of the off-line loop behind the trimming: `again` is what the next round does
  unfoldable pub offline_body :
      (Text → Context → Outcome (Text × Context)) → Text → Context → Outcome (Text × Context)
  offline_body again buffer c = elim (find newline buffer) [
    | none ↦ ok (buffer, c)
    | some newline_pos ↦
        let rest = drop (suc newline_pos) buffer in
        elim (take newline_pos buffer) [
          | [] ↦ again rest c
          | x ∷ line ↦ process (x ∷ line) c >>= λ c'. again rest c'
        ]
  ]

  -- The off-line loop: the buffer that is left, and the context. A round that does not end the loop
  -- takes at least one byte off, so that one more round than there are bytes is enough.
  unfoldable pub offline_loop : ℕ → Text → Context → Outcome (Text × Context)
  offline_loop zero buffer c = running
  offline_loop (suc fuel) buffer c =
      if c.connected then ok (buffer, c) else offline_body (offline_loop fuel) (trim skip buffer) c

-- the body of the on-line loop: `send` to the terminal, or else to the socket if there is one
unfoldable pub deliver : ℕ → Text → Context → Outcome Context
deliver fuel buffer c = elim c.pty [
  | none ↦ fault Fault.null_pointer
  | some p ↦
      if PtyDev.is_connected p
      then (PtyDev.send fuel p buffer c.os >>= λ os'. ok (record c { os = os' }))
      else elim c.sock [
        | none ↦ ok c
        | some s ↦ TcpSock.send fuel s buffer c.os >>= λ os'. ok (record c { os = os' })
      ]
]

-- The on-line loop. The body clears the buffer, so there is one round at most.
unfoldable pub online_loop : ℕ → Text → Context → Outcome (Text × Context)
online_loop fuel [] c = ok ([], c)
online_loop fuel (x ∷ buffer) c =
    if c.connected then (deliver fuel (x ∷ buffer) c >>= λ c'. ok ([], c')) else ok (x ∷ buffer, c)

-- One round of the thread, behind `ep_read`: `payload` is what it appends to the buffer.
unfoldable pub bulk_out_step : ℕ → Model → Text → Text × Context → Outcome (Text × Context)
bulk_out_step fuel model payload (buffer, c) =
    let whole = buffer ++ payload in
    offline_loop (skips_nul model) (process_at model) (suc (length whole)) whole c >>= λ r.
    online_loop fuel r.0 r.1

-- Omron: the first byte of a packet holds the payload's length in its upper six bits; a packet that
-- disagrees gives what both allow. `std::string::append` is given a length of -1 by an empty
-- packet, and a negative one where `char` is signed and the upper bit is set, and throws.
unfoldable pub omron_payload : Bool → Text → Outcome Text
omron_payload signed_char [] = fault Fault.length_error
omron_payload signed_char (header ∷ received) =
    let payload_length = header / 4 in
    if signed_char && leb 128 header
    then fault Fault.length_error
    else if payload_length == length received
    then ok (take payload_length received)
    else ok (take (min payload_length (length received)) received)

-- The bytes of a packet that count; the other modems take all.
unfoldable pub framing : Bool → Model → Text → Outcome Text
framing signed_char Model.omron received = omron_payload signed_char received
framing signed_char _ received = ok received

-- A whole round of the thread, with what `ep_read` gave it; each loop of `send` gets as many rounds
-- as there are bytes.
unfoldable pub bulk_out_round : Bool → Model → Text → Text × Context → Outcome (Text × Context)
bulk_out_round signed_char model received (buffer, c) =
    framing signed_char model received >>= λ payload.
    bulk_out_step (length (buffer ++ payload)) model payload (buffer, c)
