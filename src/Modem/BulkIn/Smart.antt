-- ===== src/Modem/BulkIn/Smart.antt =====
-- What the game reads out of the packets of the SmartSCM modem (src/modem_smartscm.cpp).
use me56ps2_emulator.Prelude.{
  ◌-◌, ap₂, inr, inl, Bool-cases, if◌then◌else◌, ℕ, ◌+◌, ◌*◌, ◌≤◌, ◌≡◌, ◌↔◌, refl, ap, sym, ◌∙◌,
  Bool, true, false, Option, none, some, [], ◌∷◌, ◌++◌, arith, length, take, drop, append-nil,
  length-take, length-append, ◌==◌,
}
use me56ps2_emulator.Text.{Text}
use me56ps2_emulator.RingBuffer.{RingBuffer, enqueue, dequeue, is_empty}
use me56ps2_emulator.RingBuffer.Inv.{length-contents, IsValid, contents}
use me56ps2_emulator.RingBuffer.Bulk.{room, dequeue_lem, enqueue_lem}
use me56ps2_emulator.Modem.BulkIn.{smart_scm_packet, nothing_new, smart_scm_data_in, interleave}
use me56ps2_emulator.Modem.BulkIn.Stream.{
  Carrier, packet_length, nothing_new_iff, nothing_is_new, some_ne_none,
}

-- The game's driver: behind the status, each byte that follows a mark 0x61, up to another mark.
unfoldable pub unmark : Text → Text
unmark (mark ∷ x ∷ rest) = let xs = unmark rest in if mark == 0x61 then x ∷ xs else []
unmark _ = []

abbrev pub decode : Option Text → Text
decode none = []
decode (some packet) = unmark (drop 1 packet)

unmark-interleave :
    (payload end_mark : Text)
    → unmark end_mark ≡ []
    → unmark (interleave payload ++ end_mark) ≡ payload
unfolding unmark interleave
unmark-interleave [] end_mark h = h
unmark-interleave (x ∷ payload) end_mark h = ap (◌∷◌ x) (unmark-interleave payload end_mark h)

length-interleave : (payload : Text) → length (interleave payload) ≡ length payload * 2
unfolding interleave
length-interleave [] = refl
length-interleave (x ∷ payload) = omega (arith, length-interleave payload)

packet_lem :
    (dcd empty : Bool) (payload : Text)
    → (decode (some (smart_scm_packet dcd empty payload)) ≡ payload)
      × (length (smart_scm_packet dcd empty payload)
          ≡ (if empty then 2 else 1) + length payload * 2)
      × Carrier dcd (some (smart_scm_packet dcd empty payload))
unfolding smart_scm_packet unmark
packet_lem true true payload = (
  unmark-interleave payload _ refl,
  omega (arith, length-append (interleave payload) (0x60 ∷ []), length-interleave payload),
  refl,
)
packet_lem true false payload = (
  unmark-interleave payload _ refl,
  omega (arith, length-append (interleave payload) [], length-interleave payload),
  refl,
)
packet_lem false true payload = (
  unmark-interleave payload _ refl,
  omega (arith, length-append (interleave payload) (0x60 ∷ []), length-interleave payload),
  refl,
)
packet_lem false false payload = (
  unmark-interleave payload _ refl,
  omega (arith, length-append (interleave payload) [], length-interleave payload),
  refl,
)

fits :
    (payload : Text) (empty : Bool) (n : ℕ)
    → n ≡ (if empty then 2 else 1) + length payload * 2
    → length payload ≤ 15
    → n ≤ 32
fits payload true n e h = omega arith
fits payload false n e h = omega arith

-- the places that are left with these bytes in the buffer
abbrev pub free : RingBuffer ℕ → Text → ℕ
free r s = r.buffer_size - 1 - length s

room-dequeue :
    (r : RingBuffer ℕ) → IsValid r → room (dequeue r 15).1 ≡ free r (drop 15 (contents r))
room-dequeue r v =
    let (t, d, s, v') = dequeue_lem r 15 v in
    omega (arith, s, ap length d, length-contents (dequeue r 15).1 v')

-- what has come in by the second look at the buffer, which there is only where a packet is sent
abbrev pub between : Option Text → Text → Text
between none meanwhile = []
between (some packet) meanwhile = meanwhile

module _ (dcd last_dcd : Bool) (meanwhile : Text) (r : RingBuffer ℕ) where
  abbrev behind : RingBuffer ℕ
  behind = (enqueue (dequeue r 15).1 meanwhile).1

  abbrev branch : Bool → Option Text × Bool × RingBuffer ℕ
  branch b =
      if b
      then (none, last_dcd, (dequeue r 15).1)
      else (some (smart_scm_packet dcd (is_empty behind) (dequeue r 15).0), dcd, behind)

  data_in_branch :
      (b : Bool)
      → nothing_new dcd last_dcd (dequeue r 15).0 ≡ b
      → smart_scm_data_in dcd last_dcd meanwhile r ≡ branch b
  unfolding smart_scm_data_in
  data_in_branch b e = ap branch e

  -- A round of the SmartSCM modem sends the oldest bytes, 15 at most, in a packet of at most 32
  -- bytes that tells the carrier and from which the game reads just these bytes, and none exactly if
  -- there is nothing to tell; the buffer keeps the others, and behind them, where a packet is sent,
  -- what came in before the second look at it, as far as there is room.
  pub smart_scm_data_in_lem :
      IsValid r
      → let (packet, last_dcd', r') = smart_scm_data_in dcd last_dcd meanwhile r in
        (decode packet ≡ take 15 (contents r))
        × IsValid r'
        × (contents r'
            ≡ drop 15 (contents r)
              ++ between packet (take (free r (drop 15 (contents r))) meanwhile))
        × (last_dcd' ≡ dcd)
        × (packet_length packet ≤ 32)
        × Carrier dcd packet
        × ((packet ≡ none) ↔ ((take 15 (contents r) ≡ []) × (last_dcd ≡ dcd)))
  smart_scm_data_in_lem v =
      let (t, d, s, v') = dequeue_lem r 15 v in
      elim (Bool-cases (nothing_new dcd last_dcd (dequeue r 15).0)) [
        | inl quiet ↦
            let (e, same) = (nothing_new_iff dcd last_dcd (dequeue r 15).0).0 quiet in
            rw (data_in_branch true quiet) (
              sym e ∙ t,
              v',
              d ∙ sym (append-nil _),
              same,
              omega arith,
              tt,
              ((λ _. (sym t ∙ e, same)), λ _. refl),
            )
        | inr news ↦
            let q = enqueue_lem (dequeue r 15).1 meanwhile v' in
            let lem = packet_lem dcd (is_empty behind) (dequeue r 15).0 in
            rw (data_in_branch false news) (
              lem.0 ∙ t,
              q.1.0,
              q.1.3 ∙ ap₂ (λ l n. l ++ take n meanwhile) d (room-dequeue r v),
              refl,
              fits (dequeue r 15).0 (is_empty behind)
                  (length (smart_scm_packet dcd (is_empty behind) (dequeue r 15).0)) lem.1
                  (omega (arith, ap length t, length-take 15 (contents r))),
              lem.2,
              (
                (λ h. absurd (some_ne_none h)),
                λ h. absurd (nothing_is_new dcd last_dcd (dequeue r 15).0 news (t ∙ h.0) h.1),
              ),
            )
      ]
