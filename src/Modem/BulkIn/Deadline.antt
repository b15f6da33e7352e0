-- ===== src/Modem/BulkIn/Deadline.antt =====
-- The loop in front of every wait: `while (timeout_at <= now) timeout_at += period`.
use me56ps2_emulator.Prelude.{
  ◌⊎◌, inl, inr, dec_lt, ℕ, zero, suc, ◌+◌, ◌*◌, ◌≤◌, ◌<◌, ◌≡◌, Option, none, some, arith, leb,
  if◌then◌else◌, refl,
}

-- Times in milliseconds; `none` says that the fuel ran out.
unfoldable pub next_deadline : ℕ → ℕ → ℕ → ℕ → Option ℕ
next_deadline zero period now timeout_at = none
next_deadline (suc fuel) period now timeout_at =
    let later = next_deadline fuel period now (timeout_at + period) in
    if leb timeout_at now then later else some timeout_at

within :
    (t k period now timeout_at : ℕ)
    → ¬ (now < timeout_at)
    → t ≡ timeout_at + period + k * period
    → (k ≡ 0) ⊎ (t ≤ now + period)
    → t ≤ now + period
within t zero period now timeout_at behind steps close = omega arith
within t (suc k) period now timeout_at behind steps (inl impossible) = absurd (omega arith)
within t (suc k) period now timeout_at behind steps (inr close) = close

-- The loop ends, at a time that is ahead of now, by at most a period where it was not ahead already,
-- and whole periods from where it began.
pub next_deadline_lem :
    (fuel period now timeout_at : ℕ)
    → 0 < period
    → now + 1 < timeout_at + fuel
    → 0 < fuel
    → (t k : ℕ) × (next_deadline fuel period now timeout_at ≡ some t)
      × (t ≡ timeout_at + k * period)
      × (now < t)
      × ((k ≡ 0) ⊎ (t ≤ now + period))
unfolding next_deadline
next_deadline_lem zero period now timeout_at p f h = absurd (omega arith)
next_deadline_lem (suc fuel) period now timeout_at p f h = elim (dec_lt now timeout_at) [
  | yes ahead ↦ (timeout_at, 0, ground arith, omega arith, ahead, inl refl)
  | no behind ↦
      let (t, k, e, steps, later, close) =
        next_deadline_lem fuel period now (timeout_at + period) p (omega arith) (omega arith) in
      (
        t,
        k + 1,
        ground arith,
        omega arith,
        later,
        inr (within t k period now timeout_at behind steps close),
      )
]
