-- ===== src/Text/Scan.antt =====
-- `sscanf` with a format of `%u` directives and literal characters, as src/modem.cpp uses it.
use me56ps2_emulator.Prelude.{
  ℕ, ◌+◌, ◌-◌, ◌*◌, ◌%◌, ◌^◌, Bool, true, false, ◌&&◌, ◌||◌, Option, none, some, List, [], ◌∷◌,
  ◌==◌, ltb, leb, if◌then◌else◌,
}

pub data Directive : Type 0 where
  uint : Directive
  literal : ℕ → Directive

unfoldable pub is_digit : ℕ → Bool
is_digit c = leb b'0' c && leb c b'9'

-- `isspace` in the C locale
unfoldable pub is_space : ℕ → Bool
is_space c = (c == 32) || (leb 9 c && leb c 13)

unfoldable pub skip_space : List ℕ → List ℕ
skip_space [] = []
skip_space (c ∷ s) = if is_space c then skip_space s else c ∷ s

-- the value of the digits at the front of the text, behind those read before, and the rest
unfoldable pub scan_digits : ℕ → List ℕ → ℕ × List ℕ
scan_digits acc [] = (acc, [])
scan_digits acc (c ∷ s) = elim (is_digit c) [
  | true ↦ scan_digits (acc * 10 + (c - b'0')) s
  | false ↦ (acc, c ∷ s)
]

-- `strtoul` saturates at `ulong_max` and negates modulo `ulong_max + 1`; the conversion then keeps
-- the low 32 bits.
unfoldable pub to_uint : ℕ → Bool → ℕ → ℕ
to_uint ulong_max negative v =
    (if ltb ulong_max v
      then ulong_max
      else if negative
      then (ulong_max + 1 - v) % (ulong_max + 1)
      else v)
    % 2 ^ 32

unfoldable pub scan_unsigned : ℕ → Bool → List ℕ → Option (ℕ × List ℕ)
scan_unsigned ulong_max negative [] = none
scan_unsigned ulong_max negative (c ∷ s) =
    if is_digit c
    then (let (v, rest) = scan_digits 0 (c ∷ s) in some (to_uint ulong_max negative v, rest))
    else none

unfoldable pub scan_signed : ℕ → List ℕ → Option (ℕ × List ℕ)
scan_signed ulong_max [] = none
scan_signed ulong_max (c ∷ s) =
    if c == b'-'
    then scan_unsigned ulong_max true s
    else if c == b'+'
    then scan_unsigned ulong_max false s
    else scan_unsigned ulong_max false (c ∷ s)

-- one `%u`
unfoldable pub scan_uint : ℕ → List ℕ → Option (ℕ × List ℕ)
scan_uint ulong_max s = scan_signed ulong_max (skip_space s)

-- The values that `sscanf` stores, in order; their number is its result, but that it is -1 for none
-- at the end of the text. A zero byte ends the text, and stops every directive just as well.
unfoldable pub sscanf : ℕ → List Directive → List ℕ → List ℕ
sscanf ulong_max [] s = []
sscanf ulong_max (uint ∷ fmt) s = elim (scan_uint ulong_max s) [
  | none ↦ []
  | some (v, rest) ↦ v ∷ sscanf ulong_max fmt rest
]
sscanf ulong_max (literal c ∷ fmt) [] = []
sscanf ulong_max (literal c ∷ fmt) (x ∷ s) =
    let rest = sscanf ulong_max fmt s in if x == c then rest else []
