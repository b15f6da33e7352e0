-- ===== src/Usb/Gadget.antt =====
-- src/usb_raw_gadget.cpp: the gadget's device file, the names of the USB controller, the requests,
-- and the dumps of what they transfer. The directory and the file of the controller are arguments;
-- a name holds no zero byte.
pub mod Dump
pub mod Laws
use me56ps2_emulator.Prelude.{
  ℕ, zero, suc, ◌+◌, ◌-◌, Bool, true, false, Option, none, some, List, [], ◌∷◌, ◌++◌, ◌==◌, leb,
  ltb, ◌&&◌, if◌then◌else◌, length, take, drop,
}
use me56ps2_emulator.Text.{Text, bytes, starts_with}
use me56ps2_emulator.Text.Decimal.{decimal}
use me56ps2_emulator.Text.Hex.{hex}
use me56ps2_emulator.Os.{
  Ret, fail, got, Syscall, Os, syscall, perform, Outcome, ok, fault, Fault, ◌>>=◌,
}
use me56ps2_emulator.Usb.Device.{ioctl}
use me56ps2_emulator.Usb.Descriptor.{EndpointDescriptor}

-- `isprint` in the C locale
abbrev pub is_print : ℕ → Bool
is_print c = leb 32 c && ltb c 127

-- the columns of numbers, with blanks where there is no byte
unfoldable pub hex_columns : ℕ → Text → Text
hex_columns zero row = []
hex_columns (suc p) [] = bytes "   " ++ hex_columns p []
hex_columns (suc p) (c ∷ row) = hex 2 c ++ b' ' ∷ hex_columns p row

unfoldable pub ascii_columns : Text → Text
ascii_columns [] = []
ascii_columns (c ∷ row) = (if is_print c then c else b'.') ∷ ascii_columns row

unfoldable pub dump_row : ℕ → Text → Text
dump_row offset row =
    let columns = hex_columns 16 row ++ (ascii_columns row ++ b'\n' ∷ []) in
    bytes "  " ++ (hex 4 offset ++ b':' ∷ b' ' ∷ columns)

-- The fuel bounds the rows; there are fewer of them than bytes.
unfoldable pub dump_from : ℕ → ℕ → Text → Text
dump_from zero offset data_ = []
dump_from (suc fuel) offset [] = []
dump_from (suc fuel) offset (c ∷ data_) =
    dump_row offset (take 16 (c ∷ data_)) ++ dump_from fuel (offset + 16) (drop 16 (c ∷ data_))

unfoldable pub dump_hex_and_ascii : Text → Text
dump_hex_and_ascii data_ = dump_from (length data_) 0 data_

-- `fd` is `none` for -1.
pub record UsbRawGadget : Type 0 where
  pub fd : Option ℕ
  pub debug_level : ℕ

-- the constructor
unfoldable pub usb_raw_gadget : Text → Os → Outcome (UsbRawGadget × Os)
usb_raw_gadget file os =
    let (ret, os1) = syscall (Syscall.usb_open file) os in
    elim ret [
      | fail ↦ fault Fault.runtime_error
      | got fd ↦ ok (record { fd = some fd; debug_level = 0 }, os1)
    ]

unfoldable pub set_debug_level : UsbRawGadget → ℕ → UsbRawGadget
set_debug_level g level = record g { debug_level = level }

-- `close`, which is all that the destructor does
unfoldable pub close : UsbRawGadget → Os → UsbRawGadget × Os
close g os = elim g.fd [
  | none ↦ (g, os)
  | some fd ↦ (record g { fd = none }, perform (Syscall.close fd) os)
]

-- The first entry of /sys/class/udc that does not begin with a dot, cut to what `out` holds.
unfoldable pub get_udc_driver : Option (List Text) → ℕ → Option Text
get_udc_driver none out_size = none
get_udc_driver (some []) out_size = none
get_udc_driver (some ([] ∷ entries)) out_size = if out_size == 0 then none else some []
get_udc_driver (some ((c ∷ name) ∷ entries)) out_size =
    let rest = get_udc_driver (some entries) out_size in
    if out_size == 0
    then none
    else if c == b'.'
    then rest
    else some (take (out_size - 1) (c ∷ name))

-- `fgets` with `room` bytes left: the line, its end included if it fits, and what is behind it
unfoldable pub fgets : ℕ → Text → Text × Text
fgets zero file = ([], file)
fgets (suc room) [] = ([], [])
fgets (suc room) (c ∷ file) =
    let (line, rest) = fgets room file in if c == b'\n' then (c ∷ [], file) else (c ∷ line, rest)

-- `out[strcspn(out, "\n")] = '\0'`
unfoldable pub first_line : Text → Text
first_line [] = []
first_line (c ∷ s) = let rest = first_line s in if c == b'\n' then [] else c ∷ rest

abbrev pub udc_prefix : Text
udc_prefix = bytes "USB_UDC_NAME="

-- The loop over the lines, of which there are at most as many as bytes.
unfoldable pub find_udc_name : ℕ → Text → ℕ → Option Text
find_udc_name zero file out_size = none
find_udc_name (suc fuel) [] out_size = none
find_udc_name (suc fuel) (c ∷ file) out_size =
    let (line, rest) = fgets 255 (c ∷ file) in
    let later = find_udc_name fuel rest out_size in
    if starts_with udc_prefix line
    then some (first_line (take (out_size - 1) (drop (length udc_prefix) line)))
    else later

unfoldable pub get_udc_device : Option Text → ℕ → Option Text
get_udc_device none out_size = none
get_udc_device (some file) out_size =
    if out_size == 0 then none else find_udc_name (length file) file out_size

abbrev udc_name_length_max : ℕ
udc_name_length_max = 128

abbrev or_else : Option Text → Text → Text
or_else none garbage = garbage
or_else (some name) garbage = name

-- What `init` finds: the entries of /sys/class/udc, the file `uevent` of each, and what the stack
-- held in the place of the names.
pub record Udc : Type 0 where
  pub entries : Option (List Text)
  pub uevent : Text → Option Text
  pub driver_garbage : Text
  pub device_garbage : Text

-- Where a name is not found, the array keeps what the stack held.
unfoldable pub init : Udc → Os → Outcome Os
init udc os =
    let driver_name = or_else (get_udc_driver udc.entries udc_name_length_max) udc.driver_garbage in
    let device_name =
      or_else (get_udc_device (udc.uevent driver_name) udc_name_length_max) udc.device_garbage in
    ioctl (Syscall.usb_init driver_name device_name) os >>= λ r. ok r.1

-- the destructor
unfoldable pub delete : UsbRawGadget → Os → Os
unfolding close
delete g os = (close g os).1

unfoldable pub run : Os → Outcome Os
run os = ioctl Syscall.usb_run os >>= λ r. ok r.1

-- The requests that a new configuration makes; `ep_enable` gives the endpoint's number.
abbrev pub ep_enable : EndpointDescriptor → Os → Outcome (ℕ × Os)
ep_enable desc os = ioctl (Syscall.ep_enable desc.b_endpoint_address) os

abbrev pub vbus_draw : ℕ → Os → Outcome (ℕ × Os)
vbus_draw b_max_power os = ioctl (Syscall.vbus_draw b_max_power) os

abbrev pub configure : Os → Outcome (ℕ × Os)
configure os = ioctl Syscall.usb_configure os

-- the requests that give the host's next event, and what the controller's endpoints can do
unfoldable pub event_fetch : Os → Outcome Os
event_fetch os = ioctl Syscall.event_fetch os >>= λ r. ok r.1

unfoldable pub eps_info : Os → Outcome (ℕ × Os)
eps_info os = ioctl Syscall.eps_info os

-- A transfer, with what it prints: `label` says which it is.
unfoldable pub transfer : UsbRawGadget → Text → Syscall → Text → Os → Outcome (ℕ × Text × Os)
transfer g label call data_ os = ioctl call os >>= λ r.
    (let line = label ++ bytes " transferred " ++ decimal r.0 ++ bytes " bytes.\n" in
      let told = if leb 1 g.debug_level then line else [] in
      let dumped = if leb 3 g.debug_level then dump_hex_and_ascii (take r.0 data_) else [] in
      ok (r.0, told ++ dumped, r.1))

unfoldable pub ep0_write : UsbRawGadget → Text → Os → Outcome (ℕ × Text × Os)
ep0_write g data_ os = transfer g (bytes "ep0: write:") (Syscall.ep0_write data_) data_ os

unfoldable pub ep0_read : UsbRawGadget → ℕ → Os → Outcome (ℕ × Text × Os)
ep0_read g length os =
    transfer g (bytes "ep0: read:") (Syscall.ep0_read length) (os.incoming os.clock) os

unfoldable pub ep_write : UsbRawGadget → ℕ → Text → Os → Outcome (ℕ × Text × Os)
ep_write g ep data_ os =
    transfer g (bytes "ep" ++ decimal ep ++ bytes ": write:") (Syscall.ep_write ep data_) data_ os

unfoldable pub ep_read : UsbRawGadget → ℕ → Os → Outcome (ℕ × Text × Os)
ep_read g ep os =
    transfer g (bytes "ep" ++ decimal ep ++ bytes ": read:") (Syscall.ep_read ep)
      (os.incoming os.clock) os
