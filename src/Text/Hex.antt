-- ===== src/Text/Hex.antt =====
-- `printf` of `%02x`, `%04x` and `%04lx`.
use me56ps2_emulator.Prelude.{
  ap, ◌≢◌, dec_lt, true, ◌≤◌, false, ℕ, zero, suc, ◌+◌, ◌-◌, ◌/◌, ◌%◌, ◌<◌, ◌≡◌, refl, List, [],
  ◌∷◌, ◌++◌, arith, ltb, if◌then◌else◌, replicate, length,
}
use me56ps2_emulator.Text.Search.{Free, Free-append}

abbrev pub hex_digit : ℕ → ℕ
hex_digit n = if ltb n 10 then b'0' + n else 87 + n

-- The fuel is one more than the number; a sixteenth of it would do.
unfoldable pub hex_from : ℕ → ℕ → List ℕ
hex_from zero n = []
hex_from (suc fuel) n =
    let more = hex_from fuel (n / 16) ++ hex_digit (n % 16) ∷ [] in
    if ltb n 16 then hex_digit n ∷ [] else more

-- with zeros in front, up to a width
unfoldable pub hex : ℕ → ℕ → List ℕ
unfolding hex_from
hex width n = let digits = hex_from (suc n) n in replicate (width - length digits) b'0' ++ digits

abbrev pub unhex_digit : ℕ → ℕ
unhex_digit d = if ltb d b'a' then d - b'0' else d - 87

pub unhex_digit-hex_digit : (n : ℕ) → n < 16 → unhex_digit (hex_digit n) ≡ n
unhex_digit-hex_digit n h = ground arith

-- a number below 16 in any fuel
hex_from_small : (fuel n : ℕ) → n < 16 → hex_from (suc fuel) n ≡ hex_digit n ∷ []
unfolding hex_from
hex_from_small fuel n h = let small : ltb n 16 ≡ true = ground arith in simp (small, hex_from)

hex_from_two :
    (fuel n : ℕ)
    → 16 ≤ n
    → n < 256
    → hex_from (suc (suc fuel)) n ≡ hex_digit (n / 16) ∷ hex_digit (n % 16) ∷ []
unfolding hex_from
hex_from_two fuel n h k =
    let big : ltb n 16 ≡ false = ground arith in
    let first = hex_from_small fuel (n / 16) (omega arith) in
    simp (big, hex_from) (ap (λ l. l ++ hex_digit (n % 16) ∷ []) first)

pub hex_byte : (n : ℕ) → n < 256 → hex 2 n ≡ hex_digit (n / 16) ∷ hex_digit (n % 16) ∷ []
unfolding hex
hex_byte zero h = refl
hex_byte (suc n) h = elim (dec_lt (suc n) 16) [
  | yes small ↦
      let q : suc n / 16 ≡ 0 = omega arith in
      let r : suc n % 16 ≡ suc n = omega arith in
      rw (hex_from_small (suc n) (suc n) small, q, r) refl
  | no big ↦ rw (hex_from_two n (suc n) (omega arith) h) refl
]

hex_digit_other : (n : ℕ) → n < 16 → hex_digit n ≢ b':'
hex_digit_other n h = ground arith

hex_from-Free : (fuel n : ℕ) → Free b':' (hex_from fuel n)
unfolding hex_from
hex_from-Free zero n = tt
hex_from-Free (suc fuel) n = elim (dec_lt n 16) [
  | yes small ↦ rw (hex_from_small fuel n small) (hex_digit_other n small, tt)
  | no big ↦
      let large : ltb n 16 ≡ false = ground arith in
      simp (large, hex_from)
        (Free-append b':' (hex_from fuel (n / 16)) _ (hex_from-Free fuel (n / 16))
          (hex_digit_other (n % 16) (omega arith), tt))
]

replicate-Free : (c x n : ℕ) → x ≢ c → Free c (replicate n x)
replicate-Free c x zero h = tt
replicate-Free c x (suc n) h = (h, replicate-Free c x n h)

pub hex-Free : (width n : ℕ) → Free b':' (hex width n)
unfolding hex
hex-Free width n =
    Free-append b':' (replicate (width - length (hex_from (suc n) n)) b'0') (hex_from (suc n) n)
      (replicate-Free b':' b'0' _ (λ e. absurd (omega (arith, e)))) (hex_from-Free (suc n) n)
