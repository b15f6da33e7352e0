-- ===== src/Modem/Line/Payload.antt =====
-- The packets that the Omron modem gets from the game: `bulk_out_thread` of src/modem_omron.cpp.
use me56ps2_emulator.Prelude.{
  ℕ, ◌+◌, ◌*◌, ◌/◌, ◌≤◌, ◌<◌, ◌≡◌, Bool, ◌&&◌, ◌∷◌, ◌++◌, arith, ◌==◌, leb, length, take, min,
  Bool-cases, inl, inr, length-append, if◌then◌else◌,
}
use me56ps2_emulator.Text.{Text, take-length_append}
use me56ps2_emulator.Os.{ok, fault, Fault}
use me56ps2_emulator.Modem.Line.{omron_payload}

-- a packet: the payload's length in the upper six bits of the first byte, and bytes behind it that
-- do not count
abbrev pub packet : ℕ → Text → Text → Text
packet low payload padding = (length payload * 4 + low) ∷ payload ++ padding

take-min_append :
    (payload padding : Text)
    → take (min (length payload) (length (payload ++ padding))) (payload ++ padding) ≡ payload
take-min_append payload padding =
    let e : min (length payload) (length (payload ++ padding)) ≡ length payload =
      omega (arith, length-append payload padding) in
    rw e (take-length_append payload padding)

-- The payload of a packet is read as it was sent, up to 31 bytes on every host, and up to 63 on
-- one whose `char` has no sign; on the others the longer packets throw.
pub omron_payload-packet :
    (signed_char : Bool) (low : ℕ) (payload padding : Text)
    → low < 4
    → length payload ≤ 63
    → omron_payload signed_char (packet low payload padding)
      ≡ (if signed_char && leb 32 (length payload) then fault Fault.length_error else ok payload)
unfolding omron_payload
omron_payload-packet signed_char low payload padding l h =
    let e : (length payload * 4 + low) / 4 ≡ length payload = omega arith in
    let s : leb 128 (length payload * 4 + low) ≡ leb 32 (length payload) = ground arith in
    elim (Bool-cases (length payload == length (payload ++ padding))) [
      | inl same ↦ simp (e, s, same, take-length_append payload padding, omron_payload)
      | inr other ↦ simp (e, s, other, take-min_append payload padding, omron_payload)
    ]
