-- ===== src/System/Whole.antt =====
-- From `main` (src/main_app.cpp) on: the state that it leaves to the event loop, and then the turns
-- of the threads.
use me56ps2_emulator.Prelude.{ℕ, ◌≤◌, Bool, true, some, ◌≡◌, List, [], length}
use me56ps2_emulator.Text.{Text}
use me56ps2_emulator.Os.{Os, ok, EndsIn}
use me56ps2_emulator.Context.{Context}
use me56ps2_emulator.Context.Healthy.{Able}
use me56ps2_emulator.Modem.Registry.{Instance}
use me56ps2_emulator.Main.{Opt, started, start}
use me56ps2_emulator.Main.Laws.{Fresh}
use me56ps2_emulator.Main.Begun.{start-Fresh}
use me56ps2_emulator.Usb.Gadget.{Udc}
use me56ps2_emulator.System.{System, Event, step}
use me56ps2_emulator.System.Steps.{Continues, Allowed, step-Continues}
use me56ps2_emulator.System.Reach.{Reach, Reach-Continues}

-- The threads begin with an empty buffer, and the carrier as if it had been told.
abbrev pub begun : Context → System
begun c = record { context = c; buffer = []; last_dcd = true; heard = [] }

-- Where `main` comes to the event loop with a modem, the array of the buffer has its 524288 bytes, and
-- `socket`, `accept` and the transfers of packets never fail, and a call that sends takes a byte or
-- fails: whatever turns the threads have taken, the next goes through and keeps the state healthy,
-- where the framing of each packet is right and the game completes no bare `ATD`.
pub start-Continues :
    (storage : List ℕ) (udc : Udc) (opts : List Opt) (args : List Text) (os : Os) (modem : Instance)
    (c : Context) (signed_char : Bool) (t : System) (event : Event)
    → 524288 ≤ length storage
    → Able os.answers
    → start storage udc opts args os ≡ ok (started (some modem) c)
    → Reach signed_char modem.model (begun c) t
    → Allowed signed_char modem.model event t
    → EndsIn (Continues t) (step signed_char modem.model event t)
start-Continues storage udc opts args os modem c signed_char t event l a e r allowed =
    let fresh : Fresh c = rw e at (start-Fresh storage udc args os l a opts) in
    step-Continues signed_char modem.model event t allowed
      (Reach-Continues signed_char modem.model (begun c) t fresh.0 r).0
