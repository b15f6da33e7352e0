-- ===== src/RingBuffer/Bulk.antt =====
-- `ring_buffer::enqueue`, `dequeue` and `wait` (src/ring_buffer.h): how many elements each moves,
-- which, and what is left.
use me56ps2_emulator.Prelude.{
  ℕ, zero, suc, ◌+◌, ◌-◌, ◌<◌, ◌≡◌, refl, ap, ◌∙◌, sym, true, List, [], ◌∷◌, ◌++◌, append-nil,
  append_assoc, arith, length, take, drop, take-nil, take-drop_of_append, dec_lt, min, ◌↔◌,
}
use me56ps2_emulator.RingBuffer.{
  RingBuffer, enqueue_from, enqueue, dequeue, wait, is_empty_without_lock,
}
use me56ps2_emulator.RingBuffer.Inv.{IsValid, count, contents, length-contents}
use me56ps2_emulator.RingBuffer.Fifo.{
  Enqueued, Dequeued, enqueue_single_full, enqueue_single_room, dequeue_single_empty,
  dequeue_single_some, count-lt,
}

module _ {ℓ} {T : Type ℓ} where
  -- the places that are left: one of the array stays unused
  abbrev pub room : RingBuffer T → ℕ
  room r = r.buffer_size - 1 - count r

  Enqueued-cons :
      (r r' r'' : RingBuffer T) (x : T) (xs : List T)
      → Enqueued r (x ∷ []) r'
      → Enqueued r' xs r''
      → Enqueued r (x ∷ xs) r''
  Enqueued-cons r r' r'' x xs (v, s, c, e) (v', s', c', e') =
      (v', s' ∙ s, omega arith, e' ∙ ap (λ l. l ++ xs) e ∙ append_assoc (contents r) (x ∷ []) xs)

  enqueue_from_lem :
      (r : RingBuffer T) (xs : List T) (ptr : ℕ)
      → IsValid r
      → (n : ℕ) × (r' : RingBuffer T) × (enqueue_from r xs ptr ≡ (n, r'))
        × (n ≡ ptr + min (length xs) (room r))
        × (Enqueued r (take (room r) xs) r')
  unfolding enqueue_from
  enqueue_from_lem r [] ptr v = (
    ptr,
    r,
    refl,
    omega arith,
    rw (take-nil T (room r)) (v, refl, omega arith, sym (append-nil (contents r))),
  )
  enqueue_from_lem r (x ∷ xs) ptr v = elim (dec_lt (count r + 1) r.buffer_size) [
    | yes h ↦
        let (r', e, q) = enqueue_single_room r x v h in
        let (n, r'', e', k, q') = enqueue_from_lem r' xs (ptr + 1) q.0 in
        let one : room r ≡ suc (room r') = omega arith in
        (
          n,
          r'',
          rw (e, enqueue_from) e',
          omega arith,
          rw one (Enqueued-cons r r' r'' x (take (room r') xs) q q'),
        )
    | no h ↦
        let none_left : room r ≡ 0 = omega (arith, count-lt r v) in
        (
          ptr,
          r,
          rw (enqueue_single_full r x v (omega (arith, count-lt r v)), enqueue_from),
          omega arith,
          rw none_left (v, refl, omega arith, sym (append-nil (contents r))),
        )
  ]

  -- `enqueue` takes as many elements as there is room for, returns their number, puts exactly those
  -- behind what was there, in order, and keeps the buffer valid and its size.
  pub enqueue_lem :
      (r : RingBuffer T) (xs : List T)
      → IsValid r
      → ((enqueue r xs).0 ≡ min (length xs) (room r))
        × Enqueued r (take (room r) xs) (enqueue r xs).1
  unfolding enqueue
  enqueue_lem r xs v = let (n, r', e, k, q) = enqueue_from_lem r xs 0 v in rw e (omega arith, q)

  Dequeued-cons :
      (r r' r'' : RingBuffer T) (x : T) (xs : List T)
      → Dequeued r (x ∷ []) r'
      → Dequeued r' xs r''
      → Dequeued r (x ∷ xs) r''
  Dequeued-cons r r' r'' x xs (v, s, c, e) (v', s', c', e') =
      (v', s' ∙ s, omega arith, e ∙ ap (◌∷◌ x) e')

  dequeue_sound :
      (r : RingBuffer T) (n : ℕ)
      → IsValid r
      → (length (dequeue r n).0 ≡ min n (count r)) × Dequeued r (dequeue r n).0 (dequeue r n).1
  unfolding dequeue
  dequeue_sound r zero v = (omega arith, (v, refl, omega arith, refl))
  dequeue_sound r (suc n) v = elim (dec_lt 0 (count r)) [
    | yes h ↦
        let (x, r', e, q) = dequeue_single_some r v h in
        let (k, q') = dequeue_sound r' n q.0 in
        rw (e, dequeue) (omega arith, Dequeued-cons r r' (dequeue r' n).1 x (dequeue r' n).0 q q')
    | no h ↦
        rw (dequeue_single_empty r v (omega arith), dequeue)
          (omega arith, (v, refl, omega arith, refl))
  ]

  -- `dequeue` hands out the oldest elements, at most `max_length` and as many of those as there
  -- are, in order, leaves exactly the others, and keeps the buffer valid and its size.
  pub dequeue_lem :
      (r : RingBuffer T) (max_length : ℕ)
      → IsValid r
      → let (xs, r') = dequeue r max_length in
        (xs ≡ take max_length (contents r))
        × (contents r' ≡ drop max_length (contents r))
        × (r'.buffer_size ≡ r.buffer_size)
        × IsValid r'
  dequeue_lem r n v =
      let (k, q) = dequeue_sound r n v in
      let parts =
        take-drop_of_append n (dequeue r n).0 (contents (dequeue r n).1)
          (omega (arith, k, length-contents r v, ap length q.3)) in
      (rw q.3 (sym parts.0), rw q.3 (sym parts.1), q.1, q.0)

  -- A thread that waits is told true exactly when the buffer was empty and has been filled.
  pub wait_iff :
      (r woken : RingBuffer T)
      → IsValid r
      → IsValid woken
      → (wait r woken ≡ true) ↔ ((count r ≡ 0) × (0 < count woken))
  unfolding wait is_empty_without_lock
  wait_iff r woken v w = ground arith
