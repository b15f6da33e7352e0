-- ===== src/RingBuffer/Queue.antt =====
-- What a `ring_buffer` promises its clients: a FIFO of at most `capacity` elements, whose calls may
-- come from several threads in any order. Every sequence of calls is answered as by this FIFO.
use me56ps2_emulator.Prelude.{
  ℕ, ◌-◌, ◌≡◌, refl, ap, ap₂, ◌∙◌, sym, List, [], ◌∷◌, ◌++◌, append-nil, append_assoc, length, take,
  drop, take-append-drop, take-min, min,
}
use me56ps2_emulator.RingBuffer.{RingBuffer, enqueue, dequeue}
use me56ps2_emulator.RingBuffer.Inv.{IsValid, contents, length-contents}
use me56ps2_emulator.RingBuffer.Bulk.{room, enqueue_lem, dequeue_lem}

pub data Call {ℓ} (T : Type ℓ) : Type ℓ where
  put : List T → Call T
  get : ℕ → Call T

pub data Reply {ℓ} (T : Type ℓ) : Type ℓ where
  accepted : ℕ → Reply T
  taken : List T → Reply T

module _ {ℓ} {T : Type ℓ} where
  -- the calls on a buffer, in the order in which the threads get the mutex
  unfoldable pub run : RingBuffer T → List (Call T) → List (Reply T) × RingBuffer T
  run r [] = ([], r)
  run r (put xs ∷ calls) =
      let (n, r') = enqueue r xs in let (replies, r'') = run r' calls in (accepted n ∷ replies, r'')
  run r (get n ∷ calls) =
      let (xs, r') = dequeue r n in let (replies, r'') = run r' calls in (taken xs ∷ replies, r'')

  abbrev answer {κ} : {Q : Type κ} → Reply T → List (Reply T) × Q → List (Reply T) × Q
  answer a (replies, q) = (a ∷ replies, q)

  -- the same calls on the abstract queue
  unfoldable pub queue_run : ℕ → List T → List (Call T) → List (Reply T) × List T
  queue_run capacity q [] = ([], q)
  queue_run capacity q (put xs ∷ calls) =
      let free = capacity - length q in
      let (replies, q') = queue_run capacity (q ++ take free xs) calls in
      (accepted (min (length xs) free) ∷ replies, q')
  queue_run capacity q (get n ∷ calls) =
      let (replies, q') = queue_run capacity (drop n q) calls in (taken (take n q) ∷ replies, q')

  -- No sequence of calls tells a valid buffer of `n` places from the queue of `n - 1`.
  pub run_refines :
      (r : RingBuffer T) (calls : List (Call T))
      → IsValid r
      → let (replies, r') = run r calls in
        ((replies, contents r') ≡ queue_run (r.buffer_size - 1) (contents r) calls) × IsValid r'
  unfolding run queue_run
  run_refines r [] v = (refl, v)
  run_refines r (put xs ∷ calls) v =
      let (k, q) = enqueue_lem r xs v in
      let ih = run_refines (enqueue r xs).1 calls q.0 in
      rw (length-contents r v, k) (ap (answer (accepted _)) (rw (q.1, q.3) at ih.0), ih.1)
  run_refines r (get n ∷ calls) v =
      let (t, d, s, v') = dequeue_lem r n v in
      let ih = run_refines (dequeue r n).1 calls v' in
      rw t (ap (answer (taken _)) (rw (s, d) at ih.0), ih.1)

  -- what calls handed out, in order
  abbrev pub all_taken : List (Reply T) → List T
  all_taken [] = []
  all_taken (accepted n ∷ replies) = all_taken replies
  all_taken (taken xs ∷ replies) = xs ++ all_taken replies

  -- what calls got in: of each offer as many elements from its front as the reply says
  abbrev pub all_put : List (Call T) → List (Reply T) → List T
  all_put (put xs ∷ calls) (accepted n ∷ replies) = take n xs ++ all_put calls replies
  all_put (get n ∷ calls) (reply ∷ replies) = all_put calls replies
  all_put calls replies = []

  -- Nothing is lost, made up, doubled or reordered: whatever calls are made in whatever order, what
  -- was in the buffer and then what was accepted is what was handed out and then what is left.
  pub run_conserves :
      (r : RingBuffer T) (calls : List (Call T))
      → IsValid r
      → let (replies, r') = run r calls in
        contents r ++ all_put calls replies ≡ all_taken replies ++ contents r'
  unfolding run
  run_conserves r [] v = append-nil (contents r)
  run_conserves r (put xs ∷ calls) v =
      let (k, q) = enqueue_lem r xs v in
      let rest = all_put calls (run (enqueue r xs).1 calls).0 in
      ap (λ n. contents r ++ (take n xs ++ rest)) k
      ∙ ap (λ l. contents r ++ (l ++ rest)) (take-min (room r) xs)
      ∙ sym (append_assoc (contents r) (take (room r) xs) rest)
      ∙ ap (λ l. l ++ rest) (sym q.3)
      ∙ run_conserves (enqueue r xs).1 calls q.0
  run_conserves r (get n ∷ calls) v =
      let (t, d, s, v') = dequeue_lem r n v in
      let (replies, r') = run (dequeue r n).1 calls in
      let rest = all_put calls replies in
      ap (λ l. l ++ rest) (sym (take-append-drop n (contents r)))
      ∙ append_assoc (take n (contents r)) (drop n (contents r)) rest
      ∙ ap₂ (λ l m. l ++ (m ++ rest)) (sym t) (sym d)
      ∙ ap (◌++◌ (dequeue r n).0) (run_conserves (dequeue r n).1 calls v')
      ∙ sym (append_assoc (dequeue r n).0 (all_taken replies) (contents r'))
