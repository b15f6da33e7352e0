-- ===== src/Text/Decimal.antt =====
-- `sprintf` of `%d` at a number that is not negative, and that `%u` reads it back.
use me56ps2_emulator.Prelude.{
  ℕ, zero, suc, ◌+◌, ◌-◌, ◌*◌, ◌/◌, ◌%◌, ◌^◌, ◌≤◌, ◌<◌, ◌≡◌, refl, ◌∙◌, true, false, some, List, [],
  ◌∷◌, ◌++◌, append_assoc, arith, ltb, if◌then◌else◌, Bool-cases, inl, inr,
}
use me56ps2_emulator.Text.Search.{Free, Free-append}
use me56ps2_emulator.Text.Scan.{
  is_digit, is_space, skip_space, scan_digits, to_uint, scan_unsigned, scan_signed, scan_uint,
}

-- The fuel is one more than the number; a tenth of it would do.
unfoldable pub digits_from : ℕ → ℕ → List ℕ
digits_from zero n = []
digits_from (suc fuel) n =
    let more = digits_from fuel (n / 10) ++ (b'0' + n % 10) ∷ [] in
    if ltb n 10 then (b'0' + n) ∷ [] else more

unfoldable pub decimal : ℕ → List ℕ
decimal n = digits_from (suc n) n

-- What follows a number: no digit.
abbrev pub NoDigit : List ℕ → Type 0
NoDigit [] = Unit {0}
NoDigit (c ∷ s) = is_digit c ≡ false

is_digit-add : (d : ℕ) → d < 10 → is_digit (b'0' + d) ≡ true
unfolding is_digit
is_digit-add d h = ground arith

scan_digits-digits_from :
    (fuel n : ℕ) (rest : List ℕ)
    → n < fuel
    → scan_digits 0 (digits_from fuel n ++ rest) ≡ scan_digits n rest
unfolding scan_digits digits_from
scan_digits-digits_from zero n rest h = absurd (omega arith)
scan_digits-digits_from (suc fuel) n rest h = elim (Bool-cases (ltb n 10)) [
  | inl small ↦
      let value : 0 * 10 + (b'0' + n - b'0') ≡ n = omega arith in
      rw (small, scan_digits, is_digit-add n (ground arith), value)
  | inr big ↦
      let value : n / 10 * 10 + (b'0' + n % 10 - b'0') ≡ n = omega arith in
      rw (
        big,
        append_assoc (digits_from fuel (n / 10)) ((b'0' + n % 10) ∷ []) rest,
        scan_digits-digits_from fuel (n / 10) ((b'0' + n % 10) ∷ rest) (ground arith),
        scan_digits,
        is_digit-add (n % 10) (omega arith),
        value,
      )
]

-- A printed number begins with a digit.
digits_from_head :
    (fuel n : ℕ)
    → n < fuel
    → (c : ℕ) × (s : List ℕ) × (digits_from fuel n ≡ c ∷ s) × (is_digit c ≡ true)
unfolding digits_from
digits_from_head zero n h = absurd (omega arith)
digits_from_head (suc fuel) n h = elim (Bool-cases (ltb n 10)) [
  | inl small ↦ (b'0' + n, [], rw small, is_digit-add n (ground arith))
  | inr big ↦
      let (c, s, e, d) = digits_from_head fuel (n / 10) (ground arith) in
      (c, s ++ (b'0' + n % 10) ∷ [], rw (big, e), d)
]

scan_uint_digit :
    (ulong_max c : ℕ) (s : List ℕ)
    → is_digit c ≡ true
    → scan_uint ulong_max (c ∷ s)
      ≡ (let (v, rest) = scan_digits 0 (c ∷ s) in some (to_uint ulong_max false v, rest))
unfolding scan_uint scan_signed scan_unsigned skip_space is_space is_digit
scan_uint_digit ulong_max c s h = ground arith

scan_digits_stop : (n : ℕ) (rest : List ℕ) → NoDigit rest → scan_digits n rest ≡ (n, rest)
unfolding scan_digits
scan_digits_stop n [] h = refl
scan_digits_stop n (c ∷ s) h = rw (h, scan_digits)

-- `%u` reads a printed number back, and stops behind it.
pub scan_uint-decimal :
    (ulong_max n : ℕ) (rest : List ℕ)
    → n ≤ ulong_max
    → n < 2 ^ 32
    → NoDigit rest
    → scan_uint ulong_max (decimal n ++ rest) ≡ some (n, rest)
unfolding decimal to_uint
scan_uint-decimal ulong_max n rest fits word stop =
    let (c, s, e, d) = digits_from_head (suc n) n (omega arith) in
    let value =
      scan_digits-digits_from (suc n) n rest (omega arith) ∙ scan_digits_stop n rest stop in
    let value' : scan_digits 0 (c ∷ s ++ rest) ≡ (n, rest) = rw e at value in
    rw (e, scan_uint_digit ulong_max c (s ++ rest) d, value') (ground arith)

module _ (c : ℕ) (no_digit : is_digit c ≡ false) where
  digits_from-Free : (fuel n : ℕ) → Free c (digits_from fuel n)
  unfolding digits_from is_digit
  digits_from-Free zero n = tt
  digits_from-Free (suc fuel) n = elim (Bool-cases (ltb n 10)) [
    | inl small ↦ rw small (ground arith, tt)
    | inr big ↦ rw big (
        Free-append c (digits_from fuel (n / 10)) ((b'0' + n % 10) ∷ [])
          (digits_from-Free fuel (n / 10)) (ground arith, tt))
  ]

  -- A printed number holds digits only.
  pub decimal-Free : (n : ℕ) → Free c (decimal n)
  unfolding decimal
  decimal-Free n = digits_from-Free (suc n) n
