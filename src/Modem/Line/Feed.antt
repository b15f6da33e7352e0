-- ===== src/Modem/Line/Feed.antt =====
-- The off-line loop (Modem/Line.antt) against a reader that takes one byte at a time: it needs no
-- fuel, and the loop has enough.
use me56ps2_emulator.Prelude.{
  inl, inr, ==_iff, ◌∙◌, sym, ℕ, zero, suc, ◌≡◌, ◌<◌, refl, ap, Bool, true, false, ◌&&◌, [], ◌∷◌,
  ◌++◌, append_assoc, append-nil, length, arith, ◌==◌, Bool-cases,
}
use me56ps2_emulator.Text.{drop-suc_append, Text, take-length_append}
use me56ps2_emulator.Text.Search.{Free, Free-append, find-append, find-Free}
use me56ps2_emulator.Os.{>>=_cong, Outcome, ok, ◌>>=◌}
use me56ps2_emulator.Context.{Context}
use me56ps2_emulator.Modem.Line.{offline_body, newline, drop_nul, trim, offline_loop}

-- Off line the buffer between two packets holds no carriage return and begins with no byte that
-- the loop would have skipped.
abbrev pub Head : Bool → Text → Type 0
Head skip [] = Unit {0}
Head skip (x ∷ p) = skip && x == 0 ≡ false

abbrev pub Clean : Bool → Text → Type 0
Clean skip p = Free newline p × Head skip p

trim-append :
    (skip : Bool) (p : Text) (x : ℕ) (s : Text)
    → Clean skip p
    → skip && x == 0 ≡ false
    → trim skip (p ++ x ∷ s) ≡ p ++ x ∷ s
unfolding drop_nul
trim-append false p x s h k = refl
trim-append true [] x s h k = ground arith
trim-append true (y ∷ p) x s h k = ground arith

trim-Clean : (skip : Bool) (p : Text) → Clean skip p → trim skip p ≡ p
unfolding drop_nul
trim-Clean false p h = refl
trim-Clean true [] h = refl
trim-Clean true (x ∷ p) h = ground arith

trim_nul :
    (skip : Bool) (x : ℕ) (s : Text) → skip && x == 0 ≡ true → trim skip (x ∷ s) ≡ trim skip s
unfolding drop_nul
trim_nul false x s h = ground arith
trim_nul true x s h = ground arith

nul_newline : (skip : Bool) → skip && newline == 0 ≡ false
nul_newline false = refl
nul_newline true = refl

pub Clean-snoc :
    (skip : Bool) (p : Text) (x : ℕ)
    → Clean skip p
    → x == newline ≡ false
    → (p ≡ [] → skip && x == 0 ≡ false)
    → Clean skip (p ++ x ∷ [])
Clean-snoc skip [] x h ne first = ((ground arith, tt), first refl)
Clean-snoc skip (y ∷ p) x h ne first =
    (Free-append newline (y ∷ p) (x ∷ []) h.0 (ground arith, tt), h.1)

module _ (skip : Bool) (process : Text → Context → Outcome Context) where
  abbrev pub run_line : Text → Context → Outcome Context
  run_line [] c = ok c
  run_line (x ∷ line) c = process (x ∷ line) c

  abbrev pub is_skipped : Text → ℕ → Bool
  is_skipped [] x = skip && x == 0
  is_skipped (y ∷ p) x = false

  -- `pending` is the line so far
  unfoldable pub feed : Text → Text → Context → Outcome (Text × Context)
  feed pending [] c = ok (pending, c)
  feed pending (x ∷ input) c = elim c.connected [
    | true ↦ ok (pending ++ x ∷ input, c)
    | false ↦ elim (x == newline) [
      | true ↦ run_line pending c >>= λ c'. feed [] input c'
      | false ↦ elim (is_skipped pending x) [
        | true ↦ feed pending input c
        | false ↦ feed (pending ++ x ∷ []) input c
      ]
    ]
  ]

  -- The rounds of the loop, off line, by the first byte behind the line so far.
  offline_loop-newline :
      (fuel : ℕ) (pending input : Text) (c : Context)
      → Clean skip pending
      → c.connected ≡ false
      → offline_loop skip process (suc fuel) (pending ++ newline ∷ input) c
        ≡ (run_line pending c >>= λ c'. offline_loop skip process fuel input c')
  unfolding offline_loop offline_body
  offline_loop-newline fuel [] input c clean off = simp (
    off,
    offline_loop,
    offline_body,
    trim-append skip [] newline input clean (nul_newline skip),
    find-append newline [] input tt,
  )
  offline_loop-newline fuel (y ∷ p) input c clean off = simp (
    off,
    offline_loop,
    offline_body,
    trim-append skip (y ∷ p) newline input clean (nul_newline skip),
    find-append newline (y ∷ p) input clean.0,
    take-length_append (y ∷ p) (newline ∷ input),
    drop-suc_append (y ∷ p) input newline,
  )

  offline_loop_skipped :
      (fuel : ℕ) (pending input : Text) (x : ℕ) (c : Context)
      → is_skipped pending x ≡ true
      → c.connected ≡ false
      → offline_loop skip process (suc fuel) (pending ++ x ∷ input) c
        ≡ offline_loop skip process (suc fuel) (pending ++ input) c
  unfolding offline_loop
  offline_loop_skipped fuel [] input x c h off =
      simp (off, offline_loop)
        (ap (λ b. offline_body skip process (offline_loop skip process fuel) b c)
          (trim_nul skip x input h))
  offline_loop_skipped fuel (y ∷ p) input x c h off = cc

  feed-newline :
      (pending input : Text) (c : Context)
      → c.connected ≡ false
      → feed pending (newline ∷ input) c ≡ (run_line pending c >>= λ c'. feed [] input c')
  unfolding feed
  feed-newline pending input c off = simp (off, feed)

  -- With more rounds than there are bytes to come, the loop does what the reader does, if the line so
  -- far is clean.
  pub offline_loop-feed :
      (fuel : ℕ) (pending input : Text) (c : Context)
      → Clean skip pending
      → length input < fuel
      → offline_loop skip process fuel (pending ++ input) c ≡ feed pending input c
  unfolding offline_loop offline_body feed
  offline_loop-feed zero pending input c clean h = absurd (omega arith)
  offline_loop-feed (suc fuel) pending [] c clean h = elim (Bool-cases c.connected) [
    | inl on ↦ simp (on, offline_loop, append-nil pending)
    | inr off ↦ simp (
      append-nil pending,
      off,
      offline_loop,
      offline_body,
      trim-Clean skip pending clean,
      find-Free newline pending clean.0,
    )
  ]
  offline_loop-feed (suc fuel) pending (x ∷ input) c clean h = elim (Bool-cases c.connected) [
    | inl on ↦ simp (on, offline_loop, feed)
    | inr off ↦ elim (Bool-cases (x == newline)) [
      | inl cr ↦ rw ((==_iff x newline).0 cr) (
          offline_loop-newline fuel pending input c clean off
          ∙ >>=_cong (run_line pending c) _ _
              (λ c'. offline_loop-feed fuel [] input c' (tt, tt) (omega arith))
          ∙ sym (feed-newline pending input c off))
      | inr ne ↦ elim (Bool-cases (is_skipped pending x)) [
        | inl nul ↦
            offline_loop_skipped fuel pending input x c nul off
            ∙ offline_loop-feed (suc fuel) pending input c clean (omega arith)
            ∙ simp (off, feed, ne, nul)
        | inr plain ↦
            ap (λ b. offline_loop skip process (suc fuel) b c)
              (sym (append_assoc pending (x ∷ []) input))
            ∙ offline_loop-feed (suc fuel) (pending ++ x ∷ []) input c
                (Clean-snoc skip pending x clean ne (λ e. rw e at plain)) (omega arith)
            ∙ simp (off, feed, ne, plain)
      ]
    ]
  ]
