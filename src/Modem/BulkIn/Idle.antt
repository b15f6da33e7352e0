-- ===== src/Modem/BulkIn/Idle.antt =====
-- The threads of the SmartSCM modem that do nothing but keep their endpoints busy:
-- `control_in_thread`, `gpio_in_thread` and `gpio_out_thread` of src/modem_smartscm.cpp. Times are in
-- milliseconds.
use me56ps2_emulator.Prelude.{ℕ, none, some, []}
use me56ps2_emulator.Os.{Os, Outcome, ok, running, ◌>>=◌}
use me56ps2_emulator.Modem.BulkIn.Deadline.{next_deadline}
use me56ps2_emulator.Usb.Gadget.{UsbRawGadget, ep_write, ep_read}

-- A round that sends an empty packet: the time that it sleeps until, and what follows the sleep.
idle_in : ℕ → UsbRawGadget → ℕ → ℕ → ℕ → Os → Outcome (ℕ × Os)
idle_in fuel usb ep_num now timeout_at os = elim (next_deadline fuel 5000 now timeout_at) [
  | none ↦ running
  | some timeout_at' ↦ ep_write usb ep_num [] os >>= λ r. ok (timeout_at', r.2)
]

pub control_in : ℕ → UsbRawGadget → ℕ → ℕ → ℕ → Os → Outcome (ℕ × Os)
unfolding idle_in
control_in fuel usb ep_num now timeout_at os = idle_in fuel usb ep_num now timeout_at os

pub gpio_in : ℕ → UsbRawGadget → ℕ → ℕ → ℕ → Os → Outcome (ℕ × Os)
unfolding idle_in
gpio_in fuel usb ep_num now timeout_at os = idle_in fuel usb ep_num now timeout_at os

-- what is read is thrown away
pub gpio_out : UsbRawGadget → ℕ → Os → Outcome Os
gpio_out usb ep_num os = ep_read usb ep_num os >>= λ r. ok r.2
