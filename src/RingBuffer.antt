-- ===== src/RingBuffer.antt =====
-- src/ring_buffer.h: the class template `ring_buffer<T>`, which carries every byte that the modem
-- sends to the game. Each public method holds the mutex from its first line to its last, so a call
-- is one step here; the methods ending in `_without_lock` are its parts.
pub mod Inv
pub mod Fifo
pub mod Bulk
pub mod Queue
use me56ps2_emulator.Prelude.{
  ℕ, ◌+◌, ◌-◌, ◌%◌, ◌^◌, Bool, true, false, not, Option, none, some, List, [], ◌∷◌, get_elem?, set,
  ◌==◌, if◌then◌else◌,
}

-- `size_t` on a 64-bit host.
abbrev pub size_mod : ℕ
size_mod = 2 ^ 64

pub record RingBuffer {ℓ} (T : Type ℓ) : Type ℓ where
  pub buffer : List T
  pub buffer_size : ℕ
  pub write_ptr : ℕ
  pub read_ptr : ℕ

-- `(ptr + 1) % buffer_size`
abbrev pub next_ptr : ℕ → ℕ → ℕ
next_ptr n p = (p + 1) % size_mod % n

module _ {ℓ} {T : Type ℓ} where
  -- The constructor. `storage` is what `new T[size]` leaves in the array.
  pub ring_buffer : List T → ℕ → RingBuffer T
  ring_buffer storage size = record {
    buffer = storage;
    buffer_size = size;
    write_ptr = 0;
    read_ptr = 0;
  }

  pub is_empty_without_lock : RingBuffer T → Bool
  is_empty_without_lock r = r.write_ptr == r.read_ptr

  pub is_full_without_lock : RingBuffer T → Bool
  is_full_without_lock r =
      let next_write_ptr = next_ptr r.buffer_size r.write_ptr in next_write_ptr == r.read_ptr

  pub is_empty : RingBuffer T → Bool
  is_empty r = is_empty_without_lock r

  pub get_buffer_size : RingBuffer T → ℕ
  get_buffer_size r = (size_mod + r.buffer_size - 1) % size_mod

  pub get_count : RingBuffer T → ℕ
  get_count r = (size_mod + r.write_ptr - r.read_ptr + r.buffer_size) % size_mod % r.buffer_size

  -- `none` is the result false, with the buffer as it was.
  pub enqueue_single_without_lock : RingBuffer T → T → Option (RingBuffer T)
  enqueue_single_without_lock r x =
      if is_full_without_lock r
      then none
      else some (record r {
        buffer = set r.buffer r.write_ptr x;
        write_ptr = next_ptr r.buffer_size r.write_ptr;
      })

  -- `data[ptr..length)` is the list: the loop stops at its end or when an element is refused.
  pub enqueue_from : RingBuffer T → List T → ℕ → ℕ × RingBuffer T
  enqueue_from r [] ptr = (ptr, r)
  enqueue_from r (x ∷ xs) ptr = elim (enqueue_single_without_lock r x) [
    | none ↦ (ptr, r)
    | some r' ↦ enqueue_from r' xs (ptr + 1)
  ]

  pub enqueue : RingBuffer T → List T → ℕ × RingBuffer T
  unfolding enqueue_from
  enqueue r xs = enqueue_from r xs 0

  -- The element read is an option: `some none` would be a read outside the array.
  pub dequeue_single_without_lock : RingBuffer T → Option (Option T × RingBuffer T)
  dequeue_single_without_lock r =
      if is_empty_without_lock r
      then none
      else some
          (get_elem? r.buffer r.read_ptr, record r { read_ptr = next_ptr r.buffer_size r.read_ptr })

  -- The first number is `max_length - ptr`, the rounds that are left; the list is what the loop
  -- writes at `data[ptr]` and behind. A read outside the array, which `Fifo` rules out, has no
  -- element to give.
  pub dequeue : RingBuffer T → ℕ → List T × RingBuffer T
  dequeue r ℕ.zero = ([], r)
  dequeue r (ℕ.suc max_length) = elim (dequeue_single_without_lock r) [
    | none ↦ ([], r)
    | some (x, r') ↦
        let (xs, r'') = dequeue r' max_length in
        elim x [ none ↦ (xs, r'') | some y ↦ (y ∷ xs, r'') ]
  ]

  -- `wait`, called at `r`: `woken` is the buffer when `wait_until` returns. The condition variable
  -- lets other threads run meanwhile; notify_one has no state of its own.
  pub wait : RingBuffer T → RingBuffer T → Bool
  wait r woken = if not (is_empty_without_lock r) then false else not (is_empty_without_lock woken)
