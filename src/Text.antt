-- ===== src/Text.antt =====
-- `std::string` and the C strings of the sources: a list of bytes, and the operations that the
-- sources call on it.
use me56ps2_emulator.Prelude.{
  ℕ, zero, suc, ◌+◌, ◌≡◌, ◌↔◌, ◌≢◌, refl, ap, ap₂, Bool, true, false, ◌&&◌, Option, none, some,
  List, [], ◌∷◌, ◌++◌, String, arith, ◌==◌, ==_refl, if◌then◌else◌, length, take, drop,
}
use Prim.Native.Char.{code}
use Prim.Native.String
pub mod Search
pub mod Scan
pub mod Decimal
pub mod Hex

abbrev pub Text : Type 0
Text = List ℕ

-- A string literal of the sources, which are ASCII, as its bytes.
unfoldable pub bytes : String → Text
bytes String.[] = []
bytes (String.◌∷◌ c s) = code c ∷ bytes s

-- `s == t`
unfoldable pub eq_text : Text → Text → Bool
eq_text [] [] = true
eq_text (x ∷ xs) (y ∷ ys) = (x == y) && eq_text xs ys
eq_text _ _ = false

pub eq_text_iff : (s t : Text) → (eq_text s t ≡ true) ↔ (s ≡ t)
unfolding eq_text
eq_text_iff [] [] = ((λ _. refl), (λ _. refl))
eq_text_iff [] (y ∷ ys) = ground arith
eq_text_iff (x ∷ xs) [] = ground arith
eq_text_iff (x ∷ xs) (y ∷ ys) = ground (arith, eq_text_iff xs ys)

-- `strncmp(s, prefix, length of prefix) == 0`, for a prefix with no zero byte
unfoldable pub starts_with : Text → Text → Bool
starts_with [] s = true
starts_with (p ∷ ps) [] = false
starts_with (p ∷ ps) (x ∷ xs) = (p == x) && starts_with ps xs

pub starts_with-append : (p s : Text) → starts_with p (p ++ s) ≡ true
unfolding starts_with
starts_with-append [] s = refl
starts_with-append (x ∷ p) s = ground (arith, starts_with-append p s)

pub starts_with_sound : (p s : Text) → starts_with p s ≡ true → s ≡ p ++ drop (length p) s
unfolding starts_with
starts_with_sound [] s h = refl
starts_with_sound (x ∷ p) [] h = ground arith
starts_with_sound (x ∷ p) (y ∷ s) h = ground (arith, starts_with_sound p s)

pub take-length_append {ℓ} : {A : Type ℓ} (s t : List A) → take (length s) (s ++ t) ≡ s
take-length_append [] t = refl
take-length_append (x ∷ s) t = ap (◌∷◌ x) (take-length_append s t)

pub drop-length_append {ℓ} : {A : Type ℓ} (s t : List A) → drop (length s) (s ++ t) ≡ t
drop-length_append [] t = refl
drop-length_append (x ∷ s) t = drop-length_append s t

pub drop-suc_append {ℓ} :
    {A : Type ℓ} (s t : List A) (x : A) → drop (suc (length s)) (s ++ x ∷ t) ≡ t
drop-suc_append [] t x = refl
drop-suc_append (y ∷ s) t x = drop-suc_append s t x

-- `s.pop_back()` on a text that is not empty, and the byte that it takes off, `s.back()`
unfoldable pub pop_back : Text → Text
pop_back [] = []
pop_back (x ∷ []) = []
pop_back (x ∷ y ∷ s) = x ∷ pop_back (y ∷ s)

unfoldable pub back : Text → Option ℕ
back [] = none
back (x ∷ []) = some x
back (x ∷ y ∷ s) = back (y ∷ s)

pub back-snoc : (s : Text) (c : ℕ) → back (s ++ c ∷ []) ≡ some c
unfolding back
back-snoc [] c = refl
back-snoc (x ∷ []) c = refl
back-snoc (x ∷ y ∷ s) c = back-snoc (y ∷ s) c

pub pop_back-snoc : (s : Text) (c : ℕ) → pop_back (s ++ c ∷ []) ≡ s
unfolding pop_back
pop_back-snoc [] c = refl
pop_back-snoc (x ∷ []) c = refl
pop_back-snoc (x ∷ y ∷ s) c = ap (◌∷◌ x) (pop_back-snoc (y ∷ s) c)

pub back_sound : (s : Text) (c : ℕ) → back s ≡ some c → s ≡ pop_back s ++ c ∷ []
unfolding back pop_back
back_sound [] c h = ground arith
back_sound (x ∷ []) c h = ground arith
back_sound (x ∷ y ∷ s) c h = ap (◌∷◌ x) (back_sound (y ∷ s) c h)
