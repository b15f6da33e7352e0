-- ===== src/PtyDev/Laws.antt =====
-- What `pty_dev` (src/pty_dev.cpp) promises.
use me56ps2_emulator.Prelude.{
  Option-cases, suc, zero, inl, inr, ◌⊎◌, ◌≢◌, ◌≡◌, ◌∙◌, refl, ap, ℕ, ◌+◌, Bool, true, false, none,
  List, [], ◌∷◌, ◌==◌, ◌&&◌, if◌then◌else◌, arith, Bool-cases,
}
use me56ps2_emulator.Os.{
  one_if, closed_by, Ret, fail, got, Syscall, Os, perform, logged, total, Ret-cases, nonzero,
}
use me56ps2_emulator.PtyDev.{
  join_thread, configure, finish, PtyDev, is_connected, connect, disconnect, all_succeed,
  setup_calls,
}

-- how often `posix_openpt` gave a descriptor
abbrev pub opened_by : ℕ → Syscall × Ret → ℕ
opened_by fd (Syscall.posix_openpt, got fd') = one_if (fd == fd')
opened_by fd _ = 0

abbrev pub holds : ℕ → PtyDev → ℕ
holds fd p = one_if (is_connected p && (fd == p.master_fd))

-- Each descriptor has been opened as often as it was closed, and once more if it is the terminal of
-- the device; `owed` are others' in the trace.
abbrev pub OwnsPty : (ℕ → ℕ) → PtyDev → Os → Type 0
OwnsPty owed p os =
    (fd : ℕ) → total (opened_by fd) os.trace ≡ total (closed_by fd) os.trace + owed fd + holds fd p

-- calls that neither open nor close
abbrev Neutral : List Syscall → Type 0
Neutral [] = Unit {0}
Neutral (call ∷ calls) =
    ((fd : ℕ) (ret : Ret) → (opened_by fd (call, ret) ≡ 0) × (closed_by fd (call, ret) ≡ 0))
    × Neutral calls

setup_calls-Neutral : (fd : ℕ) → Neutral (setup_calls fd)
setup_calls-Neutral fd = (
  (λ _ _. (refl, refl)),
  ((λ _ _. (refl, refl)), ((λ _ _. (refl, refl)), ((λ _ _. (refl, refl)), tt))),
)

all_succeed_lem :
    (d : ℕ) (calls : List Syscall) (os : Os)
    → Neutral calls
    → (total (opened_by d) (all_succeed calls os).1.trace ≡ total (opened_by d) os.trace)
      × (total (closed_by d) (all_succeed calls os).1.trace ≡ total (closed_by d) os.trace)
unfolding all_succeed
all_succeed_lem d [] os n = (refl, refl)
all_succeed_lem d (call ∷ calls) os (q, n) = elim (Ret-cases (os.answers os.clock call)) [
  | inl e ↦ simp (e, all_succeed) (omega (arith, (q d fail).0), omega (arith, (q d fail).1))
  | inr (k, e) ↦
      let (o, c) = all_succeed_lem d calls (logged call (got k) os) n in
      simp (e, all_succeed) (omega (arith, (q d (got k)).0, o), omega (arith, (q d (got k)).1, c))
]

-- what an attempt comes to, for a device that was not connected
abbrev pub Attempt : (ℕ → ℕ) → PtyDev → Bool × PtyDev × Os → Type 0
Attempt owed p (done, p', os') =
    OwnsPty owed p' os' × (is_connected p' ≡ done) × ((done ≡ true) ⊎ (p' ≡ p))

-- a descriptor that has been opened and is nobody's yet
abbrev and_also : ℕ → (ℕ → ℕ) → ℕ → ℕ
and_also fd owed d = owed d + one_if (d == fd)

module _ (owed : ℕ → ℕ) (p : PtyDev) (off : is_connected p ≡ false) where
  finish_lem :
      (fd : ℕ) (os : Os)
      → fd ≢ 0
      → OwnsPty (and_also fd owed) p os
      → Attempt owed p (finish p fd os)
  unfolding finish is_connected
  finish_lem fd os ne o = elim (Ret-cases (os.answers os.clock (Syscall.ptsname_r fd))) [
    | inl e ↦ simp (e, finish) ((λ d. omega (arith, o d)), off, inr refl)
    | inr (zero, e) ↦
        simp (e, finish)
          (
            (λ d. simp (nonzero fd ne) (omega (arith, simp off at (o d)))),
            simp (nonzero fd ne),
            inl refl,
          )
    | inr (suc k, e) ↦ simp (e, finish) ((λ d. omega (arith, o d)), off, inr refl)
  ]

  set_up_counts :
      (fd d : ℕ) (os : Os)
      → let os' = (all_succeed (setup_calls fd) os).1 in
        (total (opened_by d) os'.trace ≡ total (opened_by d) os.trace)
        × (total (closed_by d) os'.trace ≡ total (closed_by d) os.trace)
  set_up_counts fd d os = all_succeed_lem d (setup_calls fd) os (setup_calls-Neutral fd)

  configure_lem :
      (fd : ℕ) (os : Os)
      → fd ≢ 0
      → OwnsPty (and_also fd owed) p os
      → Attempt owed p (configure p fd os)
  unfolding configure
  configure_lem fd os ne o = elim (Bool-cases (all_succeed (setup_calls fd) os).0) [
    | inl e ↦
        simp (e, configure)
          (finish_lem fd (all_succeed (setup_calls fd) os).1 ne
            (λ d. omega (arith, (set_up_counts fd d os).0, (set_up_counts fd d os).1, o d)))
    | inr e ↦
        simp (e, configure)
          (
            (λ d. omega (arith, (set_up_counts fd d os).0, (set_up_counts fd d os).1, o d)),
            off,
            inr refl,
          )
  ]

  -- `connect` of a device that is not connected: it owns the new terminal exactly if it reports
  -- success. Whichever call fails on the way, that terminal is closed again and the device unchanged.
  pub connect-Attempt :
      (os : Os)
      → os.answers os.clock Syscall.posix_openpt ≢ got 0
      → OwnsPty owed p os
      → Attempt owed p (connect p os)
  unfolding connect
  connect-Attempt os ne o = elim (Ret-cases (os.answers os.clock Syscall.posix_openpt)) [
    | inl e ↦ simp (e, connect) ((λ d. omega (arith, o d)), off, inr refl)
    | inr (fd, e) ↦
        simp (e, connect)
          (configure_lem fd (logged Syscall.posix_openpt (got fd) os) (λ z. ne (e ∙ ap got z))
            (λ d. omega (arith, o d)))
  ]

join_thread_lem :
    (p : PtyDev) (os : Os)
    → let (p', os') = join_thread p os in
      (p'.recv_thread_ptr ≡ none)
      × (p'.master_fd ≡ p.master_fd)
      × ((fd : ℕ) → total (opened_by fd) os'.trace ≡ total (opened_by fd) os.trace)
      × ((fd : ℕ) → total (closed_by fd) os'.trace ≡ total (closed_by fd) os.trace)
unfolding join_thread
join_thread_lem p os = elim (Option-cases p.recv_thread_ptr) [
  | inl e ↦ simp (e, join_thread) (refl, refl, (λ fd. refl), λ fd. refl)
  | inr (k, e) ↦ simp (e, join_thread) (refl, refl, (λ fd. omega arith), λ fd. omega arith)
]

abbrev hung_up : PtyDev → PtyDev
hung_up p = record p { master_fd = 0 }

disconnect_branch :
    (b : Bool) (p : PtyDev) (os : Os)
    → p.master_fd == 0 ≡ b
    → disconnect p os ≡ (
        if b
        then join_thread p os
        else join_thread (hung_up p) (perform (Syscall.close p.master_fd) os))
unfolding disconnect
disconnect_branch b p os e =
    ap
      (λ b.
        if b
        then join_thread p os
        else join_thread (hung_up p) (perform (Syscall.close p.master_fd) os))
      e

pub disconnect_lem :
    (p : PtyDev) (os : Os)
    → let (p', os') = disconnect p os in (is_connected p' ≡ false) × (p'.recv_thread_ptr ≡ none)
unfolding is_connected
disconnect_lem p os = elim (Bool-cases (p.master_fd == 0)) [
  | inl off ↦
      let (t, f, _, _) = join_thread_lem p os in
      rw (disconnect_branch true p os off, f, off) (refl, t)
  | inr on ↦
      let (t, f, _, _) = join_thread_lem (hung_up p) (perform (Syscall.close p.master_fd) os) in
      rw (disconnect_branch false p os on, f) (refl, t)
]

-- `disconnect` closes the terminal, once, if it is open, and leaves no thread.
pub disconnect-OwnsPty :
    (owed : ℕ → ℕ) (p : PtyDev) (os : Os)
    → OwnsPty owed p os
    → let (p', os') = disconnect p os in
      OwnsPty owed p' os' × (is_connected p' ≡ false) × (p'.recv_thread_ptr ≡ none)
unfolding is_connected
disconnect-OwnsPty owed p os o = elim (Bool-cases (p.master_fd == 0)) [
  | inl off ↦
      let (t, f, n, m) = join_thread_lem p os in
      rw (disconnect_branch true p os off, f, off)
        ((λ fd. omega (arith, n fd, m fd, simp off at (o fd))), refl, t)
  | inr on ↦
      let (t, f, n, m) = join_thread_lem (hung_up p) (perform (Syscall.close p.master_fd) os) in
      rw (disconnect_branch false p os on, f)
        ((λ fd. omega (arith, n fd, m fd, simp on at (o fd))), refl, t)
]

-- The calls do not change how the system answers.
pub disconnect-answers : (p : PtyDev) (os : Os) → (disconnect p os).1.answers ≡ os.answers
unfolding disconnect join_thread
disconnect-answers p os = elim (Bool-cases (p.master_fd == 0)) [
  | inl off ↦ elim (Option-cases p.recv_thread_ptr) [
    | inl e ↦ simp (off, disconnect, e, join_thread)
    | inr (fd, e) ↦ simp (off, disconnect, e, join_thread)
  ]
  | inr on ↦ elim (Option-cases p.recv_thread_ptr) [
    | inl e ↦ simp (on, disconnect, e, join_thread)
    | inr (fd, e) ↦ simp (on, disconnect, e, join_thread)
  ]
]

all_succeed-answers :
    (calls : List Syscall) (os : Os) → (all_succeed calls os).1.answers ≡ os.answers
unfolding all_succeed
all_succeed-answers [] os = refl
all_succeed-answers (call ∷ calls) os = elim (Ret-cases (os.answers os.clock call)) [
  | inl e ↦ simp (e, all_succeed)
  | inr (k, e) ↦ simp (e, all_succeed) (all_succeed-answers calls (logged call (got k) os))
]

finish-answers : (p : PtyDev) (fd : ℕ) (os : Os) → (finish p fd os).2.answers ≡ os.answers
unfolding finish
finish-answers p fd os = elim (Ret-cases (os.answers os.clock (Syscall.ptsname_r fd))) [
  | inl e ↦ simp (e, finish)
  | inr (zero, e) ↦ simp (e, finish)
  | inr (suc k, e) ↦ simp (e, finish)
]

configure-answers : (p : PtyDev) (fd : ℕ) (os : Os) → (configure p fd os).2.answers ≡ os.answers
unfolding configure
configure-answers p fd os = elim (Bool-cases (all_succeed (setup_calls fd) os).0) [
  | inl e ↦
      simp (e, configure)
        (finish-answers p fd (all_succeed (setup_calls fd) os).1
          ∙ all_succeed-answers (setup_calls fd) os)
  | inr e ↦ simp (e, configure) (all_succeed-answers (setup_calls fd) os)
]

pub connect-answers : (p : PtyDev) (os : Os) → (connect p os).2.answers ≡ os.answers
unfolding connect
connect-answers p os = elim (Ret-cases (os.answers os.clock Syscall.posix_openpt)) [
  | inl e ↦ simp (e, connect)
  | inr (fd, e) ↦
      simp (e, connect) (configure-answers p fd (logged Syscall.posix_openpt (got fd) os))
]
