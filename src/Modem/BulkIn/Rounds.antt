-- ===== src/Modem/BulkIn/Rounds.antt =====
-- Many rounds of a thread that sends to the game, with other threads filling the buffer in between,
-- in any order: what `bulk_in_thread` and `data_in_thread` of the four modems have in common.
use me56ps2_emulator.Prelude.{
  ◌≡◌, refl, ap, ap₂, sym, ◌∙◌, ℕ, zero, suc, ◌*◌, ◌≤◌, Bool, Option, List, [], ◌∷◌, ◌++◌,
  append-nil, append_assoc, length, length-drop, take, drop, take-append-drop, take-min, replicate,
  arith,
}
use me56ps2_emulator.Text.{Text}
use native.Mathlib.Nat.{suc-mul}
use me56ps2_emulator.RingBuffer.{RingBuffer, enqueue}
use me56ps2_emulator.RingBuffer.Inv.{IsValid, contents}
use me56ps2_emulator.RingBuffer.Bulk.{room, enqueue_lem}

-- A round gets the carrier and what was told last; `read` is what the game reads out of the packet.
pub record Sender : Type 0 where
  pub send : Bool → Bool → RingBuffer ℕ → Option Text × Bool × RingBuffer ℕ
  pub read : Option Text → Text
  pub limit : ℕ
  pub read_send :
      (dcd last_dcd : Bool) (r : RingBuffer ℕ)
      → IsValid r
      → read (send dcd last_dcd r).0 ≡ take limit (contents r)
  pub send_rest :
      (dcd last_dcd : Bool) (r : RingBuffer ℕ)
      → IsValid r
      → let r' = (send dcd last_dcd r).2 in IsValid r' × (contents r' ≡ drop limit (contents r))

-- `arrives`: another thread puts bytes in; `round`: the thread sends, with the carrier as it is then.
pub data Step : Type 0 where
  arrives : Text → Step
  round : Bool → Step

pub nothing_left : (s : Text) → length s ≤ 0 → s ≡ []
nothing_left [] h = refl
nothing_left (x ∷ s) h = absurd (omega arith)

module _ (sender : Sender) where
  open sender use {send, read, limit, read_send, send_rest}

  -- What the game has read, what was accepted from the other threads, and the buffer.
  unfoldable pub run_rounds : Bool → RingBuffer ℕ → List Step → Text × Text × RingBuffer ℕ
  run_rounds last_dcd r [] = ([], [], r)
  run_rounds last_dcd r (arrives s ∷ steps) =
      let (n, r') = enqueue r s in
      let (out, accepted, r'') = run_rounds last_dcd r' steps in (out, take n s ++ accepted, r'')
  run_rounds last_dcd r (round dcd ∷ steps) =
      let (packet, last_dcd', r') = send dcd last_dcd r in
      let (out, accepted, r'') = run_rounds last_dcd' r' steps in
      (read packet ++ out, accepted, r'')

  -- Whatever comes in between the rounds and however the carrier changes, the game reads, in order,
  -- the bytes that were in a valid buffer and then those that were accepted, but for those that are
  -- still in the buffer.
  pub run_rounds-conserves :
      (last_dcd : Bool) (r : RingBuffer ℕ) (steps : List Step)
      → IsValid r
      → let (out, accepted, r') = run_rounds last_dcd r steps in
        (contents r ++ accepted ≡ out ++ contents r') × IsValid r'
  unfolding run_rounds
  run_rounds-conserves last_dcd r [] v = (append-nil (contents r), v)
  run_rounds-conserves last_dcd r (arrives s ∷ steps) v =
      let (k, q) = enqueue_lem r s v in
      let (ih, v') = run_rounds-conserves last_dcd (enqueue r s).1 steps q.0 in
      let rest = (run_rounds last_dcd (enqueue r s).1 steps).1 in
      (
        ap (λ n. contents r ++ (take n s ++ rest)) k
            ∙ ap (λ l. contents r ++ (l ++ rest)) (take-min (room r) s)
            ∙ sym (append_assoc (contents r) (take (room r) s) rest)
            ∙ ap (λ l. l ++ rest) (sym q.3)
            ∙ ih,
        v',
      )
  run_rounds-conserves last_dcd r (round dcd ∷ steps) v =
      let t = read_send dcd last_dcd r v in
      let (w, d) = send_rest dcd last_dcd r v in
      let (packet, last_dcd', r') = send dcd last_dcd r in
      let (ih, v') = run_rounds-conserves last_dcd' r' steps w in
      let (out, rest, r'') = run_rounds last_dcd' r' steps in
      (
        ap (λ l. l ++ rest) (sym (take-append-drop limit (contents r)))
            ∙ append_assoc (take limit (contents r)) (drop limit (contents r)) rest
            ∙ ap₂ (λ l m. l ++ (m ++ rest)) (sym t) (sym d)
            ∙ ap (◌++◌ (read packet)) ih
            ∙ sym (append_assoc (read packet) out (contents r'')),
        v',
      )

  -- As many rounds as the sender's limit needs for a valid buffer, with nothing coming in between,
  -- give the game all that was in the buffer, in order, and leave the buffer empty.
  pub run_rounds-drain :
      (k : ℕ) (dcd last_dcd : Bool) (r : RingBuffer ℕ)
      → IsValid r
      → length (contents r) ≤ k * limit
      → let (out, accepted, r') = run_rounds last_dcd r (replicate k (round dcd)) in
        (out ≡ contents r) × (contents r' ≡ [])
  unfolding run_rounds
  run_rounds-drain zero dcd last_dcd r v h =
      let e = nothing_left (contents r) (omega arith) in (sym e, e)
  run_rounds-drain (suc k) dcd last_dcd r v h =
      let t = read_send dcd last_dcd r v in
      let (w, d) = send_rest dcd last_dcd r v in
      let (packet, last_dcd', r') = send dcd last_dcd r in
      let few : length (contents r') ≤ k * limit =
        omega (arith, h, suc-mul k limit, ap length d, length-drop limit (contents r)) in
      let (ih, e) = run_rounds-drain k dcd last_dcd' r' w few in
      (ap₂ ◌++◌ t (ih ∙ d) ∙ take-append-drop limit (contents r), e)
