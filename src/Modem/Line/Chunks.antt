-- ===== src/Modem/Line/Chunks.antt =====
-- How the game cuts its bytes into USB packets makes no difference to the command lines that the
-- threads of Modem/Line.antt read.
use me56ps2_emulator.Prelude.{
  length-append, suc, ◌≡◌, refl, ap, sym, ◌∙◌, ◌⊎◌, inl, inr, Bool, true, [], ◌∷◌, ◌++◌,
  append_assoc, append-nil, length, arith, ◌==◌, Bool-cases,
}
use me56ps2_emulator.Text.{Text}
use me56ps2_emulator.Os.{Outcome, ok, ◌>>=◌, >>=_cong, >>=_assoc}
use me56ps2_emulator.Context.{Context}
use me56ps2_emulator.Modem.Line.{newline, offline_loop}
use me56ps2_emulator.Modem.Line.Feed.{
  Clean, Clean-snoc, feed, run_line, is_skipped, offline_loop-feed,
}

module _ (skip : Bool) (process : Text → Context → Outcome Context) where
  abbrev then_feed : Text → Text × Context → Outcome (Text × Context)
  then_feed input r = feed skip process r.0 input r.1

  feed_online :
      (pending input : Text) (c : Context)
      → c.connected ≡ true
      → feed skip process pending input c ≡ ok (pending ++ input, c)
  unfolding feed
  feed_online pending [] c on = simp append-nil
  feed_online pending (x ∷ input) c on = simp (on, feed)

  -- Reading on where the first part left off is reading both parts.
  feed-append :
      (pending a b : Text) (c : Context)
      → feed skip process pending (a ++ b) c ≡ (feed skip process pending a c >>= then_feed b)
  unfolding feed
  feed-append pending [] b c = refl
  feed-append pending (x ∷ a) b c = elim (Bool-cases c.connected) [
    | inl on ↦
        simp (on, feed)
          (sym (
            feed_online (pending ++ x ∷ a) b c on
            ∙ ap (λ t. ok (t, c)) (append_assoc pending (x ∷ a) b)))
    | inr off ↦ elim (Bool-cases (x == newline)) [
      | inl cr ↦
          simp (off, feed, cr)
            (>>=_cong (run_line skip process pending c) _ _ (λ c'. feed-append [] a b c')
              ∙ sym (
                  >>=_assoc (run_line skip process pending c) (λ c'. feed skip process [] a c')
                    (then_feed b)))
      | inr ne ↦ elim (Bool-cases (is_skipped skip process pending x)) [
        | inl nul ↦ simp (off, feed, ne, nul) (feed-append pending a b c)
        | inr plain ↦ simp (off, feed, ne, plain) (feed-append (pending ++ x ∷ []) a b c)
      ]
    ]
  ]

  -- What the reader leaves is clean, or it stopped because the line went up.
  abbrev Settled : Outcome (Text × Context) → Type 0
  Settled (ok (rest, c)) = (Clean skip rest) ⊎ (c.connected ≡ true)
  Settled _ = Unit {0}

  Settled-bind :
      (m : Outcome Context) (f : Context → Outcome (Text × Context))
      → ((c : Context) → Settled (f c))
      → Settled (m >>= f)
  Settled-bind (ok c) f h = h c
  Settled-bind _ f h = tt

  feed-Settled :
      (pending input : Text) (c : Context)
      → Clean skip pending
      → Settled (feed skip process pending input c)
  unfolding feed
  feed-Settled pending [] c clean = inl clean
  feed-Settled pending (x ∷ input) c clean = elim (Bool-cases c.connected) [
    | inl on ↦ simp (on, feed) (inr refl)
    | inr off ↦ elim (Bool-cases (x == newline)) [
      | inl cr ↦
          simp (off, feed, cr)
            (Settled-bind (run_line skip process pending c) _
              (λ c'. feed-Settled [] input c' (tt, tt)))
      | inr ne ↦ elim (Bool-cases (is_skipped skip process pending x)) [
        | inl nul ↦ simp (off, feed, ne, nul) (feed-Settled pending input c clean)
        | inr plain ↦
            simp (off, feed, ne, plain)
              (feed-Settled (pending ++ x ∷ []) input c
                (Clean-snoc skip pending x clean ne (λ e. rw e at plain)))
      ]
    ]
  ]

  -- the loop with the fuel that the threads give it
  abbrev pub read_lines : Text → Context → Outcome (Text × Context)
  read_lines buffer c = offline_loop skip process (suc (length buffer)) buffer c

  pub read_lines-feed :
      (buffer : Text) (c : Context) → read_lines buffer c ≡ feed skip process [] buffer c
  read_lines-feed buffer c =
      offline_loop-feed skip process (suc (length buffer)) [] buffer c (tt, tt) (omega arith)

  read_lines-Settled :
      (r : Outcome (Text × Context)) (b : Text)
      → Settled r
      → (r >>= λ s. read_lines (s.0 ++ b) s.1) ≡ (r >>= then_feed b)
  read_lines-Settled (ok (rest, c)) b (inl clean) =
      offline_loop-feed skip process (suc (length (rest ++ b))) rest b c clean
        (omega (arith, length-append rest b))
  read_lines-Settled (ok (rest, c)) b (inr on) =
      read_lines-feed (rest ++ b) c
      ∙ feed_online [] (rest ++ b) c on
      ∙ sym (feed_online rest b c on)
  read_lines-Settled _ b h = refl

  -- Two packets in a row are read as one that holds the bytes of both: the same command lines run,
  -- in the same order and with the same outcome, and the same bytes are left.
  pub read_lines_chunks :
      (a b : Text) (c : Context)
      → (read_lines a c >>= λ s. read_lines (s.0 ++ b) s.1) ≡ read_lines (a ++ b) c
  read_lines_chunks a b c =
      ap (λ r. r >>= λ s. read_lines (s.0 ++ b) s.1) (read_lines-feed a c)
      ∙ read_lines-Settled _ b (feed-Settled [] a c (tt, tt))
      ∙ sym (read_lines-feed (a ++ b) c ∙ feed-append [] a b c)
