-- ===== src/RingBuffer/Fifo.antt =====
-- `ring_buffer` (src/ring_buffer.h) against a FIFO that holds one element less than the array:
-- the tests and the single-element operations.
use me56ps2_emulator.Prelude.{
  ℕ, suc, ◌+◌, ◌-◌, ◌≤◌, ◌<◌, ◌≡◌, refl, ap, ap₂, ◌∙◌, true, false, none, some, List, [], ◌∷◌, ◌++◌,
  arith, ◌==◌, length, get_elem?, set, length-set, dec_lt, ==_refl, get_elem?_of_lt, ◌↔◌,
}
use me56ps2_emulator.RingBuffer.{
  RingBuffer, ring_buffer, size_mod, is_empty_without_lock, is_full_without_lock, is_empty,
  get_buffer_size, get_count, enqueue_single_without_lock, dequeue_single_without_lock,
}
use me56ps2_emulator.RingBuffer.Inv.{
  IsValid, succ_ptr, next_ptr_lem, stored, cell, cell-set_self, stored-set, stored-snoc, count,
  contents,
}
use native.Mathlib.Nat.{mod-eq_of_lt, add-mod_right}

module _ {ℓ} {T : Type ℓ} where
  -- A new buffer is valid and holds nothing.
  pub ring_buffer-IsValid :
      (storage : List T) (size : ℕ)
      → 0 < size
      → size + size ≤ size_mod
      → size ≤ length storage
      → IsValid (ring_buffer storage size) × (contents (ring_buffer storage size) ≡ [])
  unfolding ring_buffer contents stored
  ring_buffer-IsValid storage size pos small room =
      (record { storage = room; small = small; write_in = pos; read_in = pos }, ground arith)

  pub is_empty_iff : (r : RingBuffer T) → IsValid r → (is_empty r ≡ true) ↔ (count r ≡ 0)
  unfolding is_empty is_empty_without_lock
  is_empty_iff r v = ground arith

  is_full_lem :
      (r : RingBuffer T) → IsValid r → is_full_without_lock r ≡ (count r + 1 == r.buffer_size)
  unfolding is_full_without_lock
  is_full_lem r v = ground (arith, next_ptr_lem r.buffer_size r.write_ptr v.write_in v.small)

  is_empty_lem : (r : RingBuffer T) → IsValid r → is_empty_without_lock r ≡ (count r == 0)
  unfolding is_empty_without_lock
  is_empty_lem r v = ground arith

  -- The number that `get_count` computes with wrap-around is the number of elements.
  pub get_count_lem : (r : RingBuffer T) → IsValid r → get_count r ≡ count r
  unfolding get_count
  get_count_lem r v = elim (dec_lt r.write_ptr r.read_ptr) [
    | yes h ↦ ground (
      arith,
      mod-eq_of_lt {n = r.write_ptr + r.buffer_size - r.read_ptr} {m = r.buffer_size} (omega arith),
    )
    | no h ↦ ground (
      arith,
      add-mod_right (r.write_ptr - r.read_ptr) r.buffer_size,
      mod-eq_of_lt {n = r.write_ptr - r.read_ptr} {m = r.buffer_size} (omega arith),
    )
  ]

  pub get_buffer_size_lem : (r : RingBuffer T) → IsValid r → get_buffer_size r + 1 ≡ r.buffer_size
  unfolding get_buffer_size
  get_buffer_size_lem r v = omega arith

  pub count-lt : (r : RingBuffer T) → IsValid r → count r < r.buffer_size
  count-lt r v = ground arith

  -- Full: nothing happens. Else the element goes to the end.
  pub enqueue_single_full :
      (r : RingBuffer T) (x : T)
      → IsValid r
      → count r + 1 ≡ r.buffer_size
      → enqueue_single_without_lock r x ≡ none
  unfolding enqueue_single_without_lock
  enqueue_single_full r x v e = rw (is_full_lem r v, e, ==_refl)

  abbrev pub Enqueued : RingBuffer T → List T → RingBuffer T → Type ℓ
  Enqueued r xs r' =
      IsValid r'
      × (r'.buffer_size ≡ r.buffer_size)
      × (count r' ≡ count r + length xs)
      × (contents r' ≡ contents r ++ xs)

  abbrev pushed : RingBuffer T → T → RingBuffer T
  pushed r x = record r {
    buffer = set r.buffer r.write_ptr x;
    write_ptr = succ_ptr r.buffer_size r.write_ptr;
  }

  contents-pushed :
      (r : RingBuffer T) (x : T)
      → IsValid r
      → count r + 1 < r.buffer_size
      → contents (pushed r x) ≡ contents r ++ x ∷ []
  unfolding contents
  contents-pushed r x v h =
      ap (stored (set r.buffer r.write_ptr x) r.buffer_size r.read_ptr) grown
      ∙ stored-snoc r.buffer_size (set r.buffer r.write_ptr x) r.read_ptr (count r) r.write_ptr
          v.read_in v.write_in refl
      ∙ ap₂ ◌++◌
          (stored-set r.buffer_size r.buffer r.read_ptr (count r) r.write_ptr x v.read_in v.write_in
            (omega arith))
          (cell-set_self r.buffer r.write_ptr x (omega (arith, v.storage, v.write_in)))
    where
      grown : count (pushed r x) ≡ suc (count r)
      grown = ground (arith, v.read_in, v.write_in)

  pub enqueue_single_room :
      (r : RingBuffer T) (x : T)
      → IsValid r
      → count r + 1 < r.buffer_size
      → (r' : RingBuffer T) × (enqueue_single_without_lock r x ≡ some r') × (Enqueued r (x ∷ []) r')
  unfolding enqueue_single_without_lock
  enqueue_single_room r x v h = (
    pushed r x,
    rw (is_full_lem r v, not_last, next_ptr_lem r.buffer_size r.write_ptr v.write_in v.small),
    (
      record {
        storage = ground (arith, length-set r.buffer r.write_ptr x);
        small = v.small;
        write_in = ground arith;
        read_in = v.read_in;
      },
      refl,
      ground arith,
      contents-pushed r x v h,
    ),
  )
    where
      not_last : (count r + 1 == r.buffer_size) ≡ false
      not_last = ground arith

  pub dequeue_single_empty :
      (r : RingBuffer T) → IsValid r → count r ≡ 0 → dequeue_single_without_lock r ≡ none
  unfolding dequeue_single_without_lock
  dequeue_single_empty r v e = rw (is_empty_lem r v, e)

  abbrev pub Dequeued : RingBuffer T → List T → RingBuffer T → Type ℓ
  Dequeued r xs r' =
      IsValid r'
      × (r'.buffer_size ≡ r.buffer_size)
      × (count r' + length xs ≡ count r)
      × (contents r ≡ xs ++ contents r')

  abbrev popped : RingBuffer T → RingBuffer T
  popped r = record r { read_ptr = succ_ptr r.buffer_size r.read_ptr }

  contents-popped :
      (r : RingBuffer T) (x : T)
      → IsValid r
      → 0 < count r
      → get_elem? r.buffer r.read_ptr ≡ some x
      → contents r ≡ x ∷ contents (popped r)
  unfolding contents stored
  contents-popped r x v h e = ap (stored r.buffer r.buffer_size r.read_ptr) shrunk ∙ rw (e, cell)
    where
      shrunk : count r ≡ suc (count (popped r))
      shrunk = ground (arith, v.read_in, v.write_in)

  pub dequeue_single_some :
      (r : RingBuffer T)
      → IsValid r
      → 0 < count r
      → (x : T) × (r' : RingBuffer T) × (dequeue_single_without_lock r ≡ some (some x, r'))
        × (Dequeued r (x ∷ []) r')
  unfolding dequeue_single_without_lock
  dequeue_single_some r v h = (
    x,
    popped r,
    rw (
      is_empty_lem r v,
      not_empty,
      found.1,
      next_ptr_lem r.buffer_size r.read_ptr v.read_in v.small,
    ),
    (
      record {
        storage = v.storage;
        small = v.small;
        write_in = v.write_in;
        read_in = ground arith;
      },
      refl,
      ground arith,
      contents-popped r x v h found.1,
    ),
  )
    where
      found : (x : T) × (get_elem? r.buffer r.read_ptr ≡ some x)
      found = get_elem?_of_lt r.buffer r.read_ptr (omega (arith, v.read_in, v.storage))

      x : T
      x = found.0

      not_empty : (count r == 0) ≡ false
      not_empty = ground arith
