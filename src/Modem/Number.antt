-- ===== src/Modem/Number.antt =====
-- src/modem.cpp, `isPPPNumber`: the dialled numbers that reach the provider over the PTY.
use me56ps2_emulator.Prelude.{
  ℕ, zero, suc, ◌+◌, ◌≡◌, refl, ap, ap₂, ◌∙◌, sym, Bool, true, false, not, ◌&&◌, ◌||◌, Option, none,
  some, List, [], ◌∷◌, ◌++◌, append_assoc, arith, ◌==◌, ltb, leb, if◌then◌else◌, length, take, drop,
}
use me56ps2_emulator.Text.{Text, bytes, eq_text, pop_back, back}
use me56ps2_emulator.Text.Search.{find}
pub mod Laws

abbrev pub ppp_numbers : List Text
ppp_numbers = bytes "100" ∷ bytes "168" ∷ []

-- `num == base` for one of the bases
pub any_equal : List Text → Text → Bool
any_equal [] num = false
any_equal (base ∷ bases) num = eq_text num base || any_equal bases num

-- "Strip Pulse/Tone prefix"
pub strip_prefix : Text → Text
strip_prefix [] = []
strip_prefix (c ∷ num) = if c == b'T' || c == b'P' then num else c ∷ num

-- "Strip trailing dash"
pub strip_dash : Text → Text
strip_dash num = elim (back num) [ none ↦ num | some c ↦ if c == b'-' then pop_back num else num ]

-- "Ignore extensions"
pub strip_extension : Text → Text
strip_extension num = elim (find b',' num) [ none ↦ num | some comma_pos ↦ take comma_pos num ]

unfoldable pub is_ppp_number : Text → Bool
unfolding strip_prefix strip_dash strip_extension any_equal
is_ppp_number s = any_equal ppp_numbers (strip_extension (strip_dash (strip_prefix s)))
