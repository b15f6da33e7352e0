-- ===== src/Usb/Request/Safety.antt =====
-- `event_usb_control_loop` of src/main_app.cpp: which requests of the host end the emulator, and that
-- no others do.
use me56ps2_emulator.Prelude.{
  ◌∙◌, length-set, ℕ, ==_iff, ◌≡◌, inl, inr, ◌⊎◌, ◌<◌, Bool, true, false, Option, none, some,
  if◌then◌else◌, ◌==◌, ltb, length, Bool-cases, arith, dec_lt,
}
use me56ps2_emulator.Os.{EndsIn-bind, ◌>>=◌, EndsIn, EndsIn-if, Outcome, ok, fault, Fault}
use me56ps2_emulator.Context.{handle_disconnect}
use me56ps2_emulator.Context.Laws.{handle_disconnect-answers}
use me56ps2_emulator.Modem.At.{Model}
use me56ps2_emulator.Usb.Device.{Device}
use me56ps2_emulator.Usb.Descriptor.{dt_device, dt_config, dt_string, string_descriptors_num}
use me56ps2_emulator.Usb.Request.Model.{
  Request, is_event, type_vendor, type_standard, req_get_descriptor, get_descriptor_type, low_byte,
}
use me56ps2_emulator.Usb.Request.Handlers.{
  handled, write_at, with_length, Packet, Handled, other_requests, omron_request,
  online_station_request, lucent_request, handle_control_request, process_control_packet,
  get_descriptor,
}
use me56ps2_emulator.Usb.Request.Copies.{
  write_at_lem, get_descriptor_device, get_descriptor_config, get_descriptor_string,
  get_descriptor_no_string,
}
use me56ps2_emulator.Usb.Request.Laws.{Whole, Grants, Fine, FineResult, set_configuration_lem}

-- A baud rate that the table of the OnlineStation modem holds; the other modems have no such request.
abbrev pub KnownRate : Model → Request → Type 0
KnownRate Model.online_station e = (is_event e type_vendor 0x10 ≡ false) ⊎ (e.w_value < 14)
KnownRate _ e = Unit {0}

hang_up_Fine : (d : Device) → Fine d → Grants (handle_disconnect d.context).os
hang_up_Fine d g = rw (handle_disconnect-answers d.context) g

-- a guard that the request passes
EndsIn-guard {ℓ} :
    {A : Type ℓ} (P : A → Type 0) (b k : Bool) (x y : Outcome A) (e : Fault)
    → (b ≡ false) ⊎ (k ≡ true)
    → EndsIn P x
    → EndsIn P y
    → EndsIn P (if b then if k then x else fault e else y)
EndsIn-guard P b k x y e (inl n) h h' = simp n h'
EndsIn-guard P b k x y e (inr t) h h' = simp t (EndsIn-if P b x y h h')

in_table :
    (e : Request)
    → KnownRate Model.online_station e
    → (is_event e type_vendor 0x10 ≡ false) ⊎ (ltb e.w_value 14 ≡ true)
in_table e (inl n) = inl n
in_table e (inr l) = inr (ground arith)

write_at_keeps :
    (i value : ℕ) (pkt : Packet)
    → length pkt.data_buffer ≡ 256
    → i < 256
    → EndsIn (λ p. length p.data_buffer ≡ 256) (write_at i value pkt)
write_at_keeps i value pkt full h =
    rw (write_at_lem i value pkt (omega arith)) (length-set pkt.data_buffer i value ∙ full)

handle_control_request_lem :
    (model : Model) (e : Request) (pkt : Packet) (d : Device)
    → KnownRate model e
    → Whole pkt
    → Fine d
    → EndsIn FineResult (handle_control_request model e pkt d)
unfolding handle_control_request omron_request online_station_request lucent_request
handle_control_request_lem Model.omron e pkt d r (full, short) g =
    let h = hang_up_Fine d g in
    let whole : Whole pkt = (full, short) in
    let empty : Whole (with_length 0 pkt) = (full, omega arith) in
    let status : EndsIn FineResult (write_at 0 0x31 pkt >>= λ p. handled (with_length 1 p) d) =
      EndsIn-bind (λ p. length p.data_buffer ≡ 256) FineResult (write_at 0 0x31 pkt) _
        (write_at_keeps 0 0x31 pkt full (omega arith)) (λ p f. (g, (f, omega arith))) in
    search EndsIn-if
handle_control_request_lem Model.online_station e pkt d r (full, short) g =
    let h = hang_up_Fine d g in
    let whole : Whole pkt = (full, short) in
    let empty : Whole (with_length 0 pkt) = (full, omega arith) in
    let reset : EndsIn FineResult
        (write_at 0 0x01 pkt >>= λ p. write_at 1 0x00 p >>= λ q. handled (with_length 2 q) d) =
      EndsIn-bind (λ p. length p.data_buffer ≡ 256) FineResult (write_at 0 0x01 pkt) _
        (write_at_keeps 0 0x01 pkt full (omega arith))
        (λ p f.
          EndsIn-bind (λ q. length q.data_buffer ≡ 256) FineResult (write_at 1 0x00 p) _
            (write_at_keeps 1 0x00 p f (omega arith)) (λ q f'. (g, (f', omega arith)))) in
    let known : (is_event e type_vendor 0x10 ≡ false) ⊎ (ltb e.w_value 14 ≡ true) = in_table e r in
    search (EndsIn-guard, EndsIn-if) depth 12
handle_control_request_lem Model.lucent e pkt d r whole g =
    let h = hang_up_Fine d g in search EndsIn-if
handle_control_request_lem Model.smart_scm e pkt d r whole g = (g, whole)

described_lem {ℓ} :
    {A : Type ℓ} (P : A → Type 0) (b : Bool) (o : Option (Outcome A)) (others : Outcome A)
    → (o ≡ none) ⊎ ((a : A) × (o ≡ some (ok a)) × P a)
    → EndsIn P others
    → EndsIn P (if b then elim o [ some result ↦ result | none ↦ others ] else others)
described_lem P false o others h k = k
described_lem P true o others (inl e) k = simp e k
described_lem P true o others (inr (a, e, h)) k = simp e h

module _ (model : Model) (e : Request) (pkt : Packet) (d : Device) where
  get_descriptor_cases :
      Whole pkt
      → Fine d
      → (get_descriptor model e pkt d ≡ none)
        ⊎ ((r : Handled) × (get_descriptor model e pkt d ≡ some (ok r)) × FineResult r)
  unfolding get_descriptor
  get_descriptor_cases (full, short) g = elim (Bool-cases (get_descriptor_type e == dt_device)) [
    | inl t ↦
        let (p, q, _, w) = get_descriptor_device model e pkt d full ((==_iff _ _).0 t) in
        inr ((true, p, d), q, (g, w))
    | inr ne ↦ elim (Bool-cases (get_descriptor_type e == dt_config)) [
      | inl t ↦
          let (p, q, _, _, w) = get_descriptor_config model e pkt d full ((==_iff _ _).0 t) in
          inr ((true, p, d), q, (g, w))
      | inr ne' ↦ elim (Bool-cases (get_descriptor_type e == dt_string)) [
        | inr ne'' ↦ inl (simp (ne, ne', ne'', get_descriptor))
        | inl t ↦ elim (dec_lt (low_byte e.w_value) string_descriptors_num) [
          | yes h ↦
              let (_, p, _, q, _, _, w) =
                get_descriptor_string model e pkt d full ((==_iff _ _).0 t) h in
              inr ((true, p, d), q, (g, w))
          | no h ↦ inr (
            (false, pkt, d),
            get_descriptor_no_string model e pkt d full ((==_iff _ _).0 t) (omega arith),
            (g, (full, short)),
          )
        ]
      ]
    ]
  ]

  other_requests_lem :
      KnownRate model e → Whole pkt → Fine d → EndsIn FineResult (other_requests model e pkt d)
  unfolding other_requests
  other_requests_lem known (full, short) g =
      let whole : Whole pkt = (full, short) in
      let empty : Whole (with_length 0 pkt) = (full, omega arith) in
      let setting = set_configuration_lem model e pkt d whole g in
      let handling = handle_control_request_lem model e pkt d known whole g in search EndsIn-if

  -- A control packet is processed without an access out of bounds and without an exception, on every
  -- modem and whatever the request says, and leaves at most 256 bytes to be sent, if the packet has its 256
  -- bytes and a header that says no more, a baud rate of the
  -- OnlineStation modem is one of the table, and the system calls succeed.
  pub process_control_packet_lem :
      Whole pkt
      → KnownRate model e
      → Fine d
      → EndsIn FineResult (process_control_packet model e pkt d)
  unfolding process_control_packet
  process_control_packet_lem whole known g =
      described_lem FineResult (is_event e type_standard req_get_descriptor)
        (get_descriptor model e pkt d) (other_requests model e pkt d) (get_descriptor_cases whole g)
        (other_requests_lem known whole g)
