-- ===== src/RingBuffer/Inv.antt =====
-- The representation invariant of `ring_buffer` (src/ring_buffer.h) and the sequence that the two
-- pointers stand for. Distances round the ring are written without `%`, so that they are linear.
use me56ps2_emulator.Prelude.{
  ℕ, zero, suc, ◌+◌, ◌-◌, ◌≤◌, ◌<◌, ◌≡◌, ◌≢◌, refl, ap, ap₂, ◌∙◌, sym, none, some, List, [], ◌∷◌,
  ◌++◌, append-nil, append_assoc, arith, leb, ◌==◌, if◌then◌else◌, length, ℕ_discrete, get_elem?,
  set, length-append,
}
use native.Mathlib.Nat.{mod-eq_of_lt, mod_self}
use me56ps2_emulator.RingBuffer.{RingBuffer, size_mod, next_ptr}

pub record IsValid {ℓ} {T : Type ℓ} (r : RingBuffer T) : Type ℓ where
  pub storage : r.buffer_size ≤ length r.buffer
  pub small : r.buffer_size + r.buffer_size ≤ size_mod
  pub write_in : r.write_ptr < r.buffer_size
  pub read_in : r.read_ptr < r.buffer_size

-- the index behind `i`
abbrev pub succ_ptr : ℕ → ℕ → ℕ
succ_ptr n i = if i + 1 == n then 0 else i + 1

-- the steps from `i` to `w`
abbrev pub steps : ℕ → ℕ → ℕ → ℕ
steps n i w = if leb i w then w - i else w + n - i

pub next_ptr_lem : (n p : ℕ) → p < n → n + n ≤ size_mod → next_ptr n p ≡ succ_ptr n p
next_ptr_lem n p h s = elim (ℕ_discrete (p + 1) n) [
  | yes e ↦ ground (arith, mod_self n)
  | no ne ↦ ground (arith, mod-eq_of_lt {n = p + 1} {m = n} (omega arith))
]

module _ {ℓ} {T : Type ℓ} where
  abbrev pub cell : List T → ℕ → List T
  cell buf i = elim (get_elem? buf i) [ none ↦ [] | some x ↦ x ∷ [] ]

  -- the `k` elements from index `i` on, round the ring of `n` places
  unfoldable pub stored : List T → ℕ → ℕ → ℕ → List T
  stored buf n i zero = []
  stored buf n i (suc k) = cell buf i ++ stored buf n (succ_ptr n i) k

  pub length-cell : (buf : List T) (i : ℕ) → i < length buf → length (cell buf i) ≡ 1
  length-cell [] i h = absurd (omega arith)
  length-cell (x ∷ xs) zero h = refl
  length-cell (x ∷ xs) (suc i) h = length-cell xs i (omega arith)

  pub cell-set_self :
      (buf : List T) (i : ℕ) (v : T) → i < length buf → cell (set buf i v) i ≡ v ∷ []
  cell-set_self [] i v h = absurd (omega arith)
  cell-set_self (x ∷ xs) zero v h = refl
  cell-set_self (x ∷ xs) (suc i) v h = cell-set_self xs i v (omega arith)

  pub cell-set_ne : (buf : List T) (i j : ℕ) (v : T) → i ≢ j → cell (set buf i v) j ≡ cell buf j
  cell-set_ne [] i j v h = refl
  cell-set_ne (x ∷ xs) zero zero v h = absurd (h refl)
  cell-set_ne (x ∷ xs) zero (suc j) v h = refl
  cell-set_ne (x ∷ xs) (suc i) zero v h = refl
  cell-set_ne (x ∷ xs) (suc i) (suc j) v h = cell-set_ne xs i j v (λ e. h (ap suc e))

  module _ (n : ℕ) where
    pub length-stored :
        (buf : List T) (i k : ℕ) → n ≤ length buf → i < n → length (stored buf n i k) ≡ k
    unfolding stored
    length-stored buf i zero s h = refl
    length-stored buf i (suc k) s h = omega (
      arith,
      length-append (cell buf i) (stored buf n (succ_ptr n i) k),
      length-cell buf i (omega arith),
      length-stored buf (succ_ptr n i) k s (ground arith),
    )

    -- A write ahead of the stretch leaves it alone.
    pub stored-set :
        (buf : List T) (i k w : ℕ) (v : T)
        → i < n
        → w < n
        → k ≤ steps n i w
        → stored (set buf w v) n i k ≡ stored buf n i k
    unfolding stored
    stored-set buf i zero w v hi hw h = refl
    stored-set buf i (suc k) w v hi hw h =
        ap₂ ◌++◌ (cell-set_ne buf w i v (ground arith))
          (stored-set buf (succ_ptr n i) k w v (ground arith) hw (ground arith))

    -- The stretch up to `w`, and the element at `w` behind it.
    pub stored-snoc :
        (buf : List T) (i k w : ℕ)
        → i < n
        → w < n
        → k ≡ steps n i w
        → stored buf n i (suc k) ≡ stored buf n i k ++ cell buf w
    unfolding stored
    stored-snoc buf i zero w hi hw e =
        let same : i ≡ w = ground arith in append-nil (cell buf i) ∙ ap (cell buf) same
    stored-snoc buf i (suc k) w hi hw e =
        ap (◌++◌ (cell buf i)) (stored-snoc buf (succ_ptr n i) k w (ground arith) hw (ground arith))
        ∙ sym (append_assoc (cell buf i) (stored buf n (succ_ptr n i) k) (cell buf w))

  -- The bytes in the buffer, oldest first, and their number.
  abbrev pub count : RingBuffer T → ℕ
  count r = steps r.buffer_size r.read_ptr r.write_ptr

  unfoldable pub contents : RingBuffer T → List T
  contents r = stored r.buffer r.buffer_size r.read_ptr (count r)

  pub length-contents : (r : RingBuffer T) → IsValid r → length (contents r) ≡ count r
  unfolding contents
  length-contents r v =
      length-stored r.buffer_size r.buffer r.read_ptr (count r) v.storage v.read_in
