-- ===== src/Usb/Device.antt =====
-- The modem object with its threads, and the calls of src/usb_raw_gadget.cpp.
use me56ps2_emulator.Prelude.{◌==◌, ℕ, Bool, false, ◌||◌, List, [], ◌∷◌}
use me56ps2_emulator.Os.{fail, got, Syscall, Os, syscall, Fault, Outcome, ok, fault}
use me56ps2_emulator.Context.{Context}

-- the `std::thread` pointers of the four modem classes
pub data Thread : Type 0 where
  bulk_in bulk_out intr_in control_out control_in data_out data_in gpio_out gpio_in : Thread

-- Two pointers are told apart by their place in the class.
pub thread_index : Thread → ℕ
thread_index Thread.bulk_in = 0
thread_index Thread.bulk_out = 1
thread_index Thread.intr_in = 2
thread_index Thread.control_out = 3
thread_index Thread.control_in = 4
thread_index Thread.data_out = 5
thread_index Thread.data_in = 6
thread_index Thread.gpio_out = 7
thread_index Thread.gpio_in = 8

-- `threads` holds the pointers that are not null, with the endpoint number of each thread.
pub record Device : Type 0 where
  pub context : Context
  pub threads : List (Thread × ℕ)

-- `thread != nullptr`
unfoldable pub is_started : Thread → List (Thread × ℕ) → Bool
unfolding thread_index
is_started t [] = false
is_started t ((u, ep_num) ∷ threads) = (thread_index t == thread_index u) || is_started t threads

-- Each request of `usb_raw_gadget` is one `ioctl`, and throws where that fails.
unfoldable pub ioctl : Syscall → Os → Outcome (ℕ × Os)
ioctl call os =
    let (ret, os') = syscall call os in
    elim ret [ fail ↦ fault Fault.runtime_error | got n ↦ ok (n, os') ]
