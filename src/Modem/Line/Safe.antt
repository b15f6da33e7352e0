-- ===== src/Modem/Line/Safe.antt =====
-- No round of a thread for bytes from the game (Modem/Line.antt) ends by an exception or goes on for
-- ever, none takes back what waits for the game, and none takes the line down.
use me56ps2_emulator.Modem.Line.Sending.{
  online_loop-Served, Served-same, Served-trans, Served, Served-refl,
}
use me56ps2_emulator.Context.Healthy.{Grown, Able, Healthy}
use me56ps2_emulator.Prelude.{
  ◌≡◌, ◌≢◌, inl, inr, ℕ, ◌+◌, ◌≤◌, true, false, List, [], ◌∷◌, ◌++◌, length, length-append, arith,
  ◌==◌, Bool, Bool-cases,
}
use me56ps2_emulator.Text.{Text, bytes}
use me56ps2_emulator.Os.{EndsIn-map, ok, EndsIn, EndsIn-bind}
use me56ps2_emulator.Context.{Context}
use me56ps2_emulator.Modem.At.{Model, process_at}
use me56ps2_emulator.Modem.At.Replies.{process_at_lem, Answered}
use me56ps2_emulator.Modem.Line.{framing, bulk_out_round, newline, skips_nul, bulk_out_step}
use me56ps2_emulator.Modem.Line.Feed.{feed, run_line, is_skipped}
use me56ps2_emulator.Modem.Line.Chunks.{read_lines, read_lines-feed}

module _ (model : Model) where
  process_at-Served :
      (line : Text) (c : Context)
      → line ≢ bytes "ATD"
      → Healthy c
      → EndsIn (Served c) (process_at model line c)
  process_at-Served line c ne h =
      let (p, e) = h.terminal in
      EndsIn-map (Answered model line c) (Served c) (process_at model line c)
        (process_at_lem model line c p h.buffer ne e (h.able.sockets c.os.clock))
        (λ d (reply, (v, size, whole, n), (pty, same), up).
          let able : Able d.os.answers = rw same h.able in
          let g : Grown c d = (record { buffer = v; terminal = pty; able = able }, (_, whole)) in
          elim up [
            | inl (_, on) ↦ record { grown = g; up = inr on }
            | inr (kept, _) ↦ Served-same c d g kept
          ])

  -- The command lines that end in `input`, if `pending` is the beginning of the first.
  unfoldable pub lines : Text → Text → List Text
  lines pending [] = []
  lines pending (x ∷ input) = elim (x == newline) [
    | true ↦ pending ∷ lines [] input
    | false ↦ elim (is_skipped (skips_nul model) (process_at model) pending x) [
      | true ↦ lines pending input
      | false ↦ lines (pending ++ x ∷ []) input
    ]
  ]

  -- none of them is a command to dial that says no more
  abbrev pub NoBareDial : List Text → Type 0
  NoBareDial [] = Unit {0}
  NoBareDial (line ∷ rest) = (line ≢ bytes "ATD") × NoBareDial rest

  run_line-Served :
      (line : Text) (c : Context)
      → line ≢ bytes "ATD"
      → Healthy c
      → EndsIn (Served c) (run_line (skips_nul model) (process_at model) line c)
  run_line-Served [] c ne h = Served-refl c h
  run_line-Served (x ∷ line) c ne h = process_at-Served (x ∷ line) c ne h

  abbrev Read : Context → ℕ → Text × Context → Type 0
  Read c n (rest, d) = Served c d × (length rest ≤ n)

  feed-Served :
      (pending input : Text) (c : Context) (n : ℕ)
      → NoBareDial (lines pending input)
      → Healthy c
      → length pending + length input ≤ n
      → EndsIn (Read c n) (feed (skips_nul model) (process_at model) pending input c)
  unfolding feed lines
  feed-Served pending [] c n polite h l = (Served-refl c h, omega arith)
  feed-Served pending (x ∷ input) c n polite h l = elim (Bool-cases c.connected) [
    | inl on ↦ simp (on, feed) (Served-refl c h, omega (arith, length-append pending (x ∷ input)))
    | inr off ↦ elim (Bool-cases (x == newline)) [
      | inl cr ↦
          let (ne, rest) : (pending ≢ bytes "ATD") × NoBareDial (lines [] input) =
            simp (cr, lines) at polite in
          simp (off, feed, cr)
            (EndsIn-bind (Served c) (Read c n)
              (run_line (skips_nul model) (process_at model) pending c) _
              (run_line-Served pending c ne h)
              (λ d g.
                EndsIn-map (Read d n) (Read c n) _
                  (feed-Served [] input d n rest g.grown.0 (omega arith))
                  (λ r (g', k). (Served-trans c d r.1 g g', k))))
      | inr ne ↦ elim (Bool-cases (is_skipped (skips_nul model) (process_at model) pending x)) [
        | inl nul ↦
            simp (off, feed, ne, nul)
              (feed-Served pending input c n (simp (ne, nul, lines) at polite) h (omega arith))
        | inr plain ↦
            simp (off, feed, ne, plain)
              (feed-Served (pending ++ x ∷ []) input c n (simp (ne, plain, lines) at polite) h
                (omega (arith, length-append pending (x ∷ []))))
      ]
    ]
  ]

  -- A round of the thread on a healthy state, with as many rounds of `send` as there are bytes: it
  -- ends without an exception unless a command line that it completes is a bare `ATD`, the state is
  -- healthy again, and what waited for the game still waits, in front of what is new.
  pub bulk_out_step-Served :
      (fuel : ℕ) (payload buffer : Text) (c : Context)
      → NoBareDial (lines [] (buffer ++ payload))
      → length (buffer ++ payload) ≤ fuel
      → Healthy c
      → EndsIn (λ r. Served c r.1) (bulk_out_step fuel model payload (buffer, c))
  unfolding bulk_out_step
  bulk_out_step-Served fuel payload buffer c polite l h =
      let whole = buffer ++ payload in
      let fed = feed-Served [] whole c fuel polite h (omega arith) in
      EndsIn-bind (Read c fuel) (λ r. Served c r.1)
        (read_lines (skips_nul model) (process_at model) whole c) _
        (rw (read_lines-feed (skips_nul model) (process_at model) whole c) fed)
        (λ (rest, d) (g, k).
          EndsIn-map (λ r. Served d r.1) (λ r. Served c r.1) _
            (online_loop-Served fuel rest d k g.grown.0) (λ r g'. Served-trans c d r.1 g g'))

  pub bulk_out_round-Served :
      (signed_char : Bool) (received payload buffer : Text) (c : Context)
      → framing signed_char model received ≡ ok payload
      → NoBareDial (lines [] (buffer ++ payload))
      → Healthy c
      → EndsIn (λ r. Served c r.1) (bulk_out_round signed_char model received (buffer, c))
  unfolding bulk_out_round
  bulk_out_round-Served signed_char received payload buffer c framed polite h =
      simp (framed, bulk_out_round)
        (bulk_out_step-Served (length (buffer ++ payload)) payload buffer c polite (omega arith) h)
