-- ===== src/Modem/BulkIn/Status.antt =====
-- `control_out_thread` of src/modem_smartscm.cpp: which packets its loop reads within the buffer.
use me56ps2_emulator.Prelude.{
  [], if◌then◌else◌, ◌&&◌, ◌%◌, inl, inr, ℕ, zero, suc, ◌+◌, ◌*◌, ◌≤◌, ◌<◌, ◌≡◌, refl, Bool, true,
  false, none, some, arith, length, get_elem?, get_elem?_of_lt, ltb, ◌==◌, dec_lt, Bool-cases,
}
use me56ps2_emulator.Text.{Text}
use me56ps2_emulator.Os.{ok, fault, Fault}
use me56ps2_emulator.Context.{Context, handle_disconnect}
use me56ps2_emulator.Modem.BulkIn.{◌∷◌, control_out_from, control_out}

-- what the loop does to the context: nothing, or one hang-up after the other
pub data HangsUp : Context → Context → Type 0 where
  stays : {c : Context} → HangsUp c c
  again : {c d : Context} → HangsUp (handle_disconnect c) d → HangsUp c d

after : (b : Bool) (c d : Context) → HangsUp (if b then handle_disconnect c else c) d → HangsUp c d
after true c d h = again h
after false c d h = h

ltb-true : {i n : ℕ} → i < n → ltb i n ≡ true
ltb-true h = ground arith

control_out_from_ok :
    (fuel : ℕ) (packet : Text) (n i : ℕ) (c : Context)
    → length packet ≡ 64
    → n ≤ 62
    → n + 3 ≤ i + fuel * 3
    → 0 < fuel
    → (d : Context) × (control_out_from fuel packet n i c ≡ ok d) × HangsUp c d
unfolding control_out_from
control_out_from_ok zero packet n i c p l h f = absurd (omega arith)
control_out_from_ok (suc fuel) packet n i c p l h f = elim (dec_lt i n) [
  | no b ↦ (c, ground arith, stays)
  | yes b ↦
      let (x, e) = get_elem?_of_lt packet i (omega arith) in
      let (y, e1) = get_elem?_of_lt packet (i + 1) (omega arith) in
      let (z, e2) = get_elem?_of_lt packet (i + 2) (omega arith) in
      elim (Bool-cases (x == 0x40)) [
        | inr m ↦ (c, ground (arith, e, e1, e2), stays)
        | inl m ↦
            let hangs = (y == 0x04) && (z % 2 == 0) in
            let (d, r, hs) =
              control_out_from_ok fuel packet n (i + 3) (if hangs then handle_disconnect c else c) p
                l (omega arith) (omega arith) in
            (d, simp (e, e1, e2, m, ltb-true b, control_out_from) r, after hangs c d hs)
      ]
]

module _ (packet : Text) (p : length packet ≡ 64) (c : Context) where
  -- The loop ends and reads no byte behind the buffer's 64 if it was given at most 62 bytes. All
  -- that it does is hang up, once or more often, or nothing.
  pub control_out_ok :
      (n : ℕ) → n ≤ 62 → (d : Context) × (control_out packet n c ≡ ok d) × HangsUp c d
  unfolding control_out
  control_out_ok n h = control_out_from_ok 23 packet n 0 c p h (omega arith) (omega arith)

get_elem?_past : (packet : Text) (i : ℕ) → length packet ≤ i → get_elem? packet i ≡ none
get_elem?_past [] i h = refl
get_elem?_past (x ∷ packet) zero h = absurd (omega arith)
get_elem?_past (x ∷ packet) (suc i) h = get_elem?_past packet i (omega arith)

-- every third byte of the buffer begins a command
abbrev pub Commands : Text → Type 0
Commands packet = (j : ℕ) → j < 22 → get_elem? packet (j * 3) ≡ some 0x40

control_out_from_overrun :
    (k fuel : ℕ) (packet : Text) (j : ℕ) (c : Context)
    → j + k ≡ 21
    → k < fuel
    → length packet ≡ 64
    → Commands packet
    → control_out_from fuel packet 64 (j * 3) c ≡ fault Fault.out_of_bounds
unfolding control_out_from
control_out_from_overrun k zero packet j c h f p marks = absurd (omega arith)
control_out_from_overrun zero (suc fuel) packet j c h f p marks = simp (
  marks j (omega arith),
  ltb-true {i = j * 3} {n = 64} (omega arith),
  get_elem?_past packet (j * 3 + 1) (omega arith),
  control_out_from,
)
control_out_from_overrun (suc k) (suc fuel) packet j c h f p marks =
    let (y, e1) = get_elem?_of_lt packet (j * 3 + 1) (omega arith) in
    let (z, e2) = get_elem?_of_lt packet (j * 3 + 2) (omega arith) in
    let step : j * 3 + 3 ≡ suc j * 3 = omega arith in
    simp
      (
        marks j (omega arith),
        ltb-true {i = j * 3} {n = 64} (omega arith),
        e1,
        e2,
        step,
        control_out_from,
      )
      (control_out_from_overrun k fuel packet (suc j) _ (omega arith) (omega arith) p marks)

module _ (packet : Text) (p : length packet ≡ 64) (c : Context) where
  -- A full packet of 64 bytes of which every third begins a command, the last one at byte 63, makes
  -- the loop read behind the buffer.
  pub control_out_overrun : Commands packet → control_out packet 64 c ≡ fault Fault.out_of_bounds
  unfolding control_out
  control_out_overrun marks = control_out_from_overrun 21 23 packet 0 c refl (omega arith) p marks
