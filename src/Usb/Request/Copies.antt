-- ===== src/Usb/Request/Copies.antt =====
-- The descriptors that `process_control_packet` (src/main_app.cpp) copies into the 256 bytes of the
-- packet.
use me56ps2_emulator.Usb.Request.Laws.{Whole}
use me56ps2_emulator.Prelude.{
  ltb, length-drop, length-set, length-append, length-take, take_all, ◌≡◌, refl, ap, sym, ◌∙◌, inl,
  inr, ℕ, zero, suc, ◌%◌, ◌≤◌, ◌<◌, Bool, true, false, ◌&&◌, some, List, [], ◌∷◌, ◌++◌, ◌==◌, leb,
  min, length, take, drop, set, get_elem?, Bool-cases, arith,
}
use me56ps2_emulator.Text.{Text, take-length_append}
use me56ps2_emulator.Os.{◌>>=◌, ok}
use me56ps2_emulator.Modem.At.{Model}
use me56ps2_emulator.Usb.Device.{Device}
use me56ps2_emulator.Usb.Descriptor.{
  StringDescriptor, string_bytes, device_bytes, dt_device, dt_config, dt_string,
  string_descriptors_num,
}
use me56ps2_emulator.Usb.Tables.Lucent
use me56ps2_emulator.Usb.Tables.Omron
use me56ps2_emulator.Usb.Tables.OnlineStation
use me56ps2_emulator.Usb.Tables.SmartScm
use me56ps2_emulator.Usb.Request.Model.{
  Request, config_descriptors, device_descriptor, string_descriptors, get_descriptor_type, low_byte,
}
use me56ps2_emulator.Usb.Request.Handlers.{
  with_length, handled, length_byte, write_at, Packet, copy_in, total_length, get_string,
  get_descriptor,
}

-- A sequence of descriptors, each as long as its first byte says, and of length two at least.
abbrev pub is_chain : ℕ → Text → Bool
is_chain fuel [] = true
is_chain zero (n ∷ rest) = false
is_chain (suc fuel) (n ∷ rest) =
    let others = is_chain fuel (drop n (n ∷ rest)) in
    leb 2 n && (leb n (length (n ∷ rest)) && others)

abbrev chain_fits : Text → Bool
chain_fits source =
    leb (total_length source) (length source)
    && (leb (total_length source) 256 && is_chain 256 (take (total_length source) source))

fits_parts :
    (t n : ℕ) (b : Bool) → leb t n && (leb t 256 && b) ≡ true → (t ≤ n) × (t ≤ 256) × (b ≡ true)
fits_parts t n b h = (ground arith, ground arith, ground arith)

config_descriptors_fit : (model : Model) (id : ℕ) → chain_fits (config_descriptors model id) ≡ true
unfolding config_descriptors Lucent.cfg2_descs Lucent.cfg1_descs Omron.cfg_descs
    OnlineStation.cfg_descs SmartScm.cfg_descs
config_descriptors_fit Model.lucent id = elim (Bool-cases (id == 1)) [
  | inl e ↦ simp (e, config_descriptors) refl
  | inr e ↦ simp (e, config_descriptors) refl
]
config_descriptors_fit Model.omron id = refl
config_descriptors_fit Model.online_station id = refl
config_descriptors_fit Model.smart_scm id = refl

-- Every configuration announces in `wTotalLength` a whole number of descriptors, all of which lie
-- in the structure and in the packet's 256 bytes.
pub config_descriptors_whole :
    (model : Model) (id : ℕ)
    → let source = config_descriptors model id in
      (total_length source ≤ length source)
      × (total_length source ≤ 256)
      × (is_chain 256 (take (total_length source) source) ≡ true)
config_descriptors_whole model id =
    let source = config_descriptors model id in
    fits_parts (total_length source) (length source) _ (config_descriptors_fit model id)

-- a string descriptor whose `bLength` its bytes and the buffer hold
abbrev string_fits : StringDescriptor → Bool
string_fits d = (length (string_bytes d) == d.b_length) && leb d.b_length 255

abbrev all_fit : List StringDescriptor → Bool
all_fit [] = true
all_fit (d ∷ ds) = string_fits d && all_fit ds

string_descriptors_fit :
    (model : Model)
    → (length (string_descriptors model) ≡ 4) × (all_fit (string_descriptors model) ≡ true)
unfolding string_descriptors Lucent.str_descs Omron.str_descs OnlineStation.str_descs
    SmartScm.str_descs
string_descriptors_fit Model.lucent = (refl, refl)
string_descriptors_fit Model.omron = (refl, refl)
string_descriptors_fit Model.online_station = (refl, refl)
string_descriptors_fit Model.smart_scm = (refl, refl)

fits_at :
    (ds : List StringDescriptor) (i : ℕ)
    → all_fit ds ≡ true
    → i < length ds
    → (d : StringDescriptor) × (get_elem? ds i ≡ some d) × (string_fits d ≡ true)
fits_at [] i h l = absurd (omega arith)
fits_at (d ∷ ds) zero h l = (d, refl, ground arith)
fits_at (d ∷ ds) (suc i) h l = fits_at ds i (ground arith) (omega arith)

copy_in_lem :
    (source : Text) (n : ℕ) (pkt : Packet)
    → n ≤ length source
    → n ≤ length pkt.data_buffer
    → copy_in source n pkt
      ≡ ok (record pkt { data_buffer = take n source ++ drop n pkt.data_buffer })
unfolding copy_in
copy_in_lem source n pkt h k =
    let e : leb n (length source) ≡ true = ground arith in
    let f : leb n (length pkt.data_buffer) ≡ true = ground arith in simp (e, f, copy_in)

length-device_bytes : (model : Model) → length (device_bytes (device_descriptor model)) ≡ 18
unfolding device_descriptor Lucent.dev_desc Omron.dev_desc OnlineStation.dev_desc SmartScm.dev_desc
length-device_bytes Model.lucent = refl
length-device_bytes Model.omron = refl
length-device_bytes Model.online_station = refl
length-device_bytes Model.smart_scm = refl

take_copied :
    (n : ℕ) (source rest : Text)
    → n ≤ length source
    → take n (take n source ++ rest) ≡ take n source
take_copied n source rest h =
    let e : length (take n source) ≡ n = omega (arith, length-take n source) in
    ap (λ k. take k (take n source ++ rest)) (sym e) ∙ take-length_append (take n source) rest

take-set : (n i v : ℕ) (xs : Text) → take n (set xs i v) ≡ set (take n xs) i v
take-set zero i v xs = refl
take-set (suc n) i v [] = refl
take-set (suc n) zero v (x ∷ xs) = refl
take-set (suc n) (suc i) v (x ∷ xs) = ap (◌∷◌ x) (take-set n i v xs)

-- the answer to the host: the bytes that the packet gives to it
abbrev pub served : Packet → Text
served p = take p.header_length p.data_buffer

length-copied :
    (n : ℕ) (source buffer : Text)
    → n ≤ length source
    → n ≤ length buffer
    → length (take n source ++ drop n buffer) ≡ length buffer
length-copied n source buffer h k = omega (
  arith,
  length-append (take n source) (drop n buffer),
  length-take n source,
  length-drop n buffer,
)

pub write_at_lem :
    (i value : ℕ) (pkt : Packet)
    → i < length pkt.data_buffer
    → write_at i value pkt ≡ ok (record pkt { data_buffer = set pkt.data_buffer i value })
unfolding write_at
write_at_lem i value pkt h =
    let e : ltb i (length pkt.data_buffer) ≡ true = ground arith in simp (e, write_at)

get_string_lem :
    (source : Text) (e : Request) (pkt : Packet) (d : Device) (len : ℕ)
    → min e.w_length (length_byte source) ≡ len
    → len ≤ length source
    → len ≤ 255
    → length pkt.data_buffer ≡ 256
    → get_string source e pkt d
      ≡ ok (
        true,
        record {
          data_buffer = set (take len source ++ drop len pkt.data_buffer) 0 len;
          header_length = len;
        },
        d,
      )
unfolding get_string
get_string_lem source e pkt d len asked h short full =
    let small : len % 256 ≡ len = omega arith in
    let copied : Packet = record pkt {
      data_buffer = take len source ++ drop len pkt.data_buffer;
    } in
    let whole : length copied.data_buffer ≡ 256 =
      length-copied len source pkt.data_buffer h (omega arith) ∙ full in
    simp (asked, copy_in_lem source len pkt h (omega arith), small, get_string)
      (ap (λ m. m >>= λ q. handled (with_length len q) d)
        (write_at_lem 0 len copied (omega (arith, whole))))

module _ (model : Model) (e : Request) (pkt : Packet) (d : Device)
    (full : length pkt.data_buffer ≡ 256) where
  pub get_descriptor_device :
      get_descriptor_type e ≡ dt_device
      → (p : Packet) × (get_descriptor model e pkt d ≡ some (ok (true, p, d)))
        × (served p ≡ device_bytes (device_descriptor model))
        × Whole p
  unfolding get_descriptor
  get_descriptor_device t =
      let source = device_bytes (device_descriptor model) in
      let n = length-device_bytes model in
      (
        record { data_buffer = take 18 source ++ drop 18 pkt.data_buffer; header_length = 18 },
        simp (t, get_descriptor, copy_in_lem source 18 pkt (omega (arith, n)) (omega arith)) refl,
        take_copied 18 source (drop 18 pkt.data_buffer) (omega (arith, n))
            ∙ take_all 18 source (omega (arith, n)),
        (
          length-copied 18 source pkt.data_buffer (omega (arith, n)) (omega arith) ∙ full,
          omega arith,
        ),
      )

  -- A request for a configuration is answered with a whole number of descriptors, as
  -- `wTotalLength` announces them, and no byte is copied from or to behind an end.
  pub get_descriptor_config :
      get_descriptor_type e ≡ dt_config
      → let source = config_descriptors model (low_byte e.w_value) in
        (p : Packet) × (get_descriptor model e pkt d ≡ some (ok (true, p, d)))
        × (served p ≡ take (total_length source) source)
        × (is_chain 256 (served p) ≡ true)
        × Whole p
  unfolding get_descriptor
  get_descriptor_config t =
      let source = config_descriptors model (low_byte e.w_value) in
      let n = total_length source in
      let (h, k, chain) = config_descriptors_whole model (low_byte e.w_value) in
      let served_lem = take_copied n source (drop n pkt.data_buffer) h in
      (
        record { data_buffer = take n source ++ drop n pkt.data_buffer; header_length = n },
        simp (t, get_descriptor, copy_in_lem source n pkt h (omega arith)) refl,
        served_lem,
        ap (is_chain 256) served_lem ∙ chain,
        (length-copied n source pkt.data_buffer h (omega arith) ∙ full, k),
      )

  -- The first four strings are there, and are answered with as many bytes as the host asks for and
  -- as there are, the first of which says how many.
  pub get_descriptor_string :
      get_descriptor_type e ≡ dt_string
      → low_byte e.w_value < string_descriptors_num
      → (descriptor : StringDescriptor) × (p : Packet) × (get_elem?
            (string_descriptors model)
            (low_byte e.w_value)
          ≡ some descriptor)
        × (get_descriptor model e pkt d ≡ some (ok (true, p, d)))
        × (p.header_length ≡ min e.w_length (length (string_bytes descriptor)))
        × (served p ≡ set (take p.header_length (string_bytes descriptor)) 0 p.header_length)
        × Whole p
  unfolding get_descriptor
  get_descriptor_string t below =
      let (n, fit) = string_descriptors_fit model in
      let (descriptor, found, fits) =
        fits_at (string_descriptors model) (low_byte e.w_value) fit (omega (arith, n)) in
      let len = min e.w_length descriptor.b_length in
      let source = string_bytes descriptor in
      let all : length source ≡ descriptor.b_length = ground arith in
      let short : descriptor.b_length ≤ 255 = ground arith in
      let there : leb string_descriptors_num (low_byte e.w_value) ≡ false = ground arith in
      let copied = take len source ++ drop len pkt.data_buffer in
      let whole : length copied ≡ 256 =
        length-copied len source pkt.data_buffer (omega arith) (omega arith) ∙ full in
      (
        descriptor,
        record {
          data_buffer = set (take len source ++ drop len pkt.data_buffer) 0 len;
          header_length = len;
        },
        found,
        simp (t, get_descriptor, there, found)
            (ap some (get_string_lem source e pkt d len refl (omega arith) (omega arith) full)),
        ap (min e.w_length) (sym all),
        take-set len 0 len (take len source ++ drop len pkt.data_buffer)
            ∙ ap (λ l. set l 0 len)
                (take_copied len source (drop len pkt.data_buffer) (omega arith)),
        (length-set copied 0 len ∙ whole, omega arith),
      )

  -- A string behind the fourth is refused, which stalls the request.
  pub get_descriptor_no_string :
      get_descriptor_type e ≡ dt_string
      → string_descriptors_num ≤ low_byte e.w_value
      → get_descriptor model e pkt d ≡ some (ok (false, pkt, d))
  unfolding get_descriptor
  get_descriptor_no_string t above =
      let there : leb string_descriptors_num (low_byte e.w_value) ≡ true = ground arith in
      simp (t, get_descriptor, there) refl
