-- ===== src/Modem/BulkIn/Stream.antt =====
-- What the game receives over the rounds of Modem/BulkIn.antt.
use me56ps2_emulator.Prelude.{
  ◌≢◌, inr, inl, Bool-cases, if◌then◌else◌, ℕ, ◌+◌, ◌/◌, ◌≤◌, ◌≡◌, ◌↔◌, refl, ap, sym, ◌∙◌, Bool,
  true, false, Option, none, some, [], ◌∷◌, arith, length, take, drop, length-take,
}
use me56ps2_emulator.Text.{Text}
use me56ps2_emulator.RingBuffer.{RingBuffer, dequeue}
use me56ps2_emulator.RingBuffer.Inv.{IsValid, contents}
use me56ps2_emulator.RingBuffer.Bulk.{dequeue_lem}
use me56ps2_emulator.Modem.BulkIn.{omron_packet, nothing_new, omron_bulk_in}

-- The game's driver takes two bytes of status off each packet of the Omron modem.
abbrev pub payload_of : Option Text → Text
payload_of none = []
payload_of (some packet) = drop 2 packet

abbrev pub packet_length : Option Text → ℕ
packet_length none = 0
packet_length (some packet) = length packet

-- the carrier bit, the upper bit of the first byte
abbrev pub Carrier : Bool → Option Text → Type 0
Carrier dcd none = Unit {0}
Carrier dcd (some []) = ⊥
Carrier dcd (some (status ∷ _)) = status / 128 ≡ (if dcd then 1 else 0)

pub nothing_new_iff :
    (dcd last_dcd : Bool) (payload : Text)
    → (nothing_new dcd last_dcd payload ≡ true) ↔ ((payload ≡ []) × (last_dcd ≡ dcd))
unfolding nothing_new
nothing_new_iff true true [] = ground arith
nothing_new_iff true false [] = ground arith
nothing_new_iff false true [] = ground arith
nothing_new_iff false false [] = ground arith
nothing_new_iff dcd last_dcd (x ∷ payload) = ground arith

omron_packet-Carrier : (dcd : Bool) (payload : Text) → Carrier dcd (some (omron_packet dcd payload))
unfolding omron_packet
omron_packet-Carrier true payload = refl
omron_packet-Carrier false payload = refl

omron_packet_payload :
    (dcd : Bool) (payload : Text)
    → (drop 2 (omron_packet dcd payload) ≡ payload)
      × (length (omron_packet dcd payload) ≡ length payload + 2)
unfolding omron_packet
omron_packet_payload dcd payload = (refl, omega arith)

pub some_ne_none : {A : Type 0} {a : A} → some a ≢ none
some_ne_none h = cc

pub nothing_is_new :
    (dcd last_dcd : Bool) (payload : Text)
    → nothing_new dcd last_dcd payload ≡ false
    → payload ≡ []
    → last_dcd ≢ dcd
nothing_is_new dcd last_dcd payload news e h =
    let quiet = (nothing_new_iff dcd last_dcd payload).1 (e, h) in cc

-- the two branches of a round, apart from the buffer
omron_quiet :
    (dcd last_dcd : Bool) (r : RingBuffer ℕ)
    → nothing_new dcd last_dcd (dequeue r 62).0 ≡ true
    → omron_bulk_in dcd last_dcd r ≡ (none, last_dcd, (dequeue r 62).1)
unfolding omron_bulk_in
omron_quiet dcd last_dcd r e =
    ap
      (λ b.
        if b
        then (none, last_dcd, (dequeue r 62).1)
        else (some (omron_packet dcd (dequeue r 62).0), dcd, (dequeue r 62).1))
      e

omron_news :
    (dcd last_dcd : Bool) (r : RingBuffer ℕ)
    → nothing_new dcd last_dcd (dequeue r 62).0 ≡ false
    → omron_bulk_in dcd last_dcd r
      ≡ (some (omron_packet dcd (dequeue r 62).0), dcd, (dequeue r 62).1)
unfolding omron_bulk_in
omron_news dcd last_dcd r e =
    ap
      (λ b.
        if b
        then (none, last_dcd, (dequeue r 62).1)
        else (some (omron_packet dcd (dequeue r 62).0), dcd, (dequeue r 62).1))
      e

module _ (dcd last_dcd : Bool) (r : RingBuffer ℕ) (v : IsValid r) where
  -- A round of the Omron modem sends the oldest bytes, 62 at most, in a packet that fits the
  -- endpoint's 64 bytes and tells the carrier, and none exactly if there is nothing to tell.
  pub omron_bulk_in_lem :
      let (packet, last_dcd', r') = omron_bulk_in dcd last_dcd r in
      (payload_of packet ≡ take 62 (contents r))
      × (contents r' ≡ drop 62 (contents r))
      × IsValid r'
      × (last_dcd' ≡ dcd)
      × (packet_length packet ≤ 64)
      × Carrier dcd packet
      × ((packet ≡ none) ↔ ((take 62 (contents r) ≡ []) × (last_dcd ≡ dcd)))
  omron_bulk_in_lem =
      let (t, d, s, v') = dequeue_lem r 62 v in
      elim (Bool-cases (nothing_new dcd last_dcd (dequeue r 62).0)) [
        | inl quiet ↦
            let (e, same) = (nothing_new_iff dcd last_dcd (dequeue r 62).0).0 quiet in
            rw (omron_quiet dcd last_dcd r quiet)
              (sym e ∙ t, d, v', same, omega arith, tt, ((λ _. (sym t ∙ e, same)), λ _. refl))
        | inr news ↦
            let (e, l) = omron_packet_payload dcd (dequeue r 62).0 in
            rw (omron_news dcd last_dcd r news) (
              e ∙ t,
              d,
              v',
              refl,
              omega (arith, l, ap length t, length-take 62 (contents r)),
              omron_packet-Carrier dcd (dequeue r 62).0,
              (
                (λ h. absurd (some_ne_none h)),
                λ h. absurd (nothing_is_new dcd last_dcd (dequeue r 62).0 news (t ∙ h.0) h.1),
              ),
            )
      ]
