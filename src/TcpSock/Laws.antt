-- ===== src/TcpSock/Laws.antt =====
-- What `tcp_sock` (src/tcp_sock.cpp) promises.
use me56ps2_emulator.Prelude.{
  not, ◌≢◌, true, Bool, inr, ◌⊎◌, Option-cases, inl, Bool-cases, none, false, ◌+◌, refl, sym, ◌≡◌,
  ◌∙◌, ◌++◌, ap, zero, suc, ◌≤◌, List, [], ◌∷◌, ◌==◌, ◌&&◌, ==_refl, if◌then◌else◌, length, take,
  drop, append-nil, length-drop, take-append-drop, append_assoc, arith, ℕ,
}
use me56ps2_emulator.Text.{Text}
use me56ps2_emulator.Os.{
  one_if, closed_by, IfOk, EndsIn, nonzero, total, logged, Ret-cases, Ret, fail, got, Syscall, Os,
  perform, ok,
}
use me56ps2_emulator.TcpSock.{
  SockAddr, open_server, tcp_sock, join_thread, TcpSock, send_from, disconnect, is_connected,
  accept_client,
}

-- Every `send` and `write` sends a byte at least.
abbrev pub Sends : Os → Type 0
Sends os =
    (k fd : ℕ) (s : Text)
    → ((n : ℕ) × (os.answers k (Syscall.send fd s) ≡ got (suc n)))
      × ((n : ℕ) × (os.answers k (Syscall.write fd s) ≡ got (suc n)))

-- the bytes that the calls of `send` on `fd` gave to the system, by what they returned, newest first
abbrev pub sent_by : ℕ → Syscall × Ret → Text
sent_by fd (Syscall.send fd' buffer, got n) = if fd == fd' then take n buffer else []
sent_by fd _ = []

abbrev pub sent : ℕ → List (Syscall × Ret) → Text
sent fd [] = []
sent fd (entry ∷ trace) = sent fd trace ++ sent_by fd entry

sent_by_self :
    (fd n : ℕ) (buffer : Text) → sent_by fd (Syscall.send fd buffer, got n) ≡ take n buffer
sent_by_self fd n buffer = simp (==_refl fd)

-- The loop ends, and it has sent all bytes, each once and in order, however few the system takes at
-- a time, if it takes one at least.
pub send_from-sent :
    (fuel fd : ℕ) (buffer : Text) (os : Os)
    → length buffer ≤ fuel
    → Sends os
    → (os' : Os) × (send_from fuel fd buffer os ≡ ok os')
      × (sent fd os'.trace ≡ sent fd os.trace ++ buffer)
unfolding send_from
send_from-sent fuel fd [] os h s = (os, refl, sym (append-nil _))
send_from-sent zero fd (c ∷ rest) os h s = absurd (omega arith)
send_from-sent (suc fuel) fd (c ∷ rest) os h s =
    let (n, e) = (s os.clock fd (c ∷ rest)).0 in
    let (os', r, t) =
      send_from-sent fuel fd (drop n rest) (logged (Syscall.send fd (c ∷ rest)) (got (suc n)) os)
        (omega (arith, length-drop n rest)) s in
    (
      os',
      simp (e, send_from) r,
      t
          ∙ ap (λ l. (sent fd os.trace ++ l) ++ drop n rest) (sent_by_self fd (suc n) (c ∷ rest))
          ∙ append_assoc (sent fd os.trace) (take (suc n) (c ∷ rest)) (drop n rest)
          ∙ ap (λ l. sent fd os.trace ++ c ∷ l) (take-append-drop n rest),
    )

-- how often `socket` or `accept` gave a descriptor
abbrev pub opened_by : ℕ → Syscall × Ret → ℕ
opened_by fd (Syscall.socket, got fd') = one_if (fd == fd')
opened_by fd (Syscall.accept _, got fd') = one_if (fd == fd')
opened_by fd _ = 0

abbrev pub holds : ℕ → TcpSock → ℕ
holds fd s = one_if (is_connected s && (fd == s.comm_fd))

-- Each descriptor has been opened as often as it was closed, and once more if it is that of the
-- connection; `owed` are others' in the trace.
abbrev pub Owns : (ℕ → ℕ) → TcpSock → Os → Type 0
Owns owed s os =
    (fd : ℕ) → total (opened_by fd) os.trace ≡ total (closed_by fd) os.trace + owed fd + holds fd s

join_thread_lem :
    (s : TcpSock) (os : Os)
    → let (s', os') = join_thread s os in
      (s'.recv_thread_ptr ≡ none)
      × (s'.comm_fd ≡ s.comm_fd)
      × (s'.addr ≡ s.addr)
      × ((fd : ℕ) → total (opened_by fd) os'.trace ≡ total (opened_by fd) os.trace)
      × ((fd : ℕ) → total (closed_by fd) os'.trace ≡ total (closed_by fd) os.trace)
unfolding join_thread
join_thread_lem s os = elim (Option-cases s.recv_thread_ptr) [
  | inl e ↦ simp (e, join_thread) (refl, refl, refl, (λ fd. refl), λ fd. refl)
  | inr (k, e) ↦ simp (e, join_thread) (refl, refl, refl, (λ fd. omega arith), λ fd. omega arith)
]

abbrev hung_up : TcpSock → TcpSock
hung_up s = record s { comm_fd = 0 }

disconnect_branch :
    (b : Bool) (s : TcpSock) (os : Os)
    → s.comm_fd == 0 ≡ b
    → disconnect s os ≡ (
        if b
        then join_thread s os
        else join_thread (hung_up s) (perform (Syscall.close s.comm_fd) os))
unfolding disconnect
disconnect_branch b s os e =
    ap
      (λ b.
        if b
        then join_thread s os
        else join_thread (hung_up s) (perform (Syscall.close s.comm_fd) os))
      e

pub disconnect_lem :
    (s : TcpSock) (os : Os)
    → let (s', os') = disconnect s os in
      (is_connected s' ≡ false) × (s'.recv_thread_ptr ≡ none) × (s'.addr ≡ s.addr)
unfolding is_connected
disconnect_lem s os = elim (Bool-cases (s.comm_fd == 0)) [
  | inl off ↦
      let (t, f, d, _, _) = join_thread_lem s os in
      rw (disconnect_branch true s os off, f, off) (refl, t, d)
  | inr on ↦
      let (t, f, d, _, _) = join_thread_lem (hung_up s) (perform (Syscall.close s.comm_fd) os) in
      rw (disconnect_branch false s os on, f) (refl, t, d)
]

-- `disconnect` closes the connection's descriptor, once, if there is one, and leaves no thread.
disconnect-Owns :
    (owed : ℕ → ℕ) (s : TcpSock) (os : Os)
    → Owns owed s os
    → let (s', os') = disconnect s os in
      Owns owed s' os'
      × (is_connected s' ≡ false)
      × (s'.recv_thread_ptr ≡ none)
      × (s'.addr ≡ s.addr)
unfolding is_connected
disconnect-Owns owed s os o = elim (Bool-cases (s.comm_fd == 0)) [
  | inl off ↦
      let (t, f, d, n, m) = join_thread_lem s os in
      rw (disconnect_branch true s os off, f, off)
        ((λ fd. omega (arith, n fd, m fd, simp off at (o fd))), refl, t, d)
  | inr on ↦
      let closed = perform (Syscall.close s.comm_fd) os in
      let (t, f, d, n, m) = join_thread_lem (hung_up s) closed in
      rw (disconnect_branch false s os on, f)
        ((λ fd. omega (arith, n fd, m fd, simp on at (o fd))), refl, t, d)
]

-- `accept_client`, given a descriptor that `accept` has just opened: the line rings exactly if there
-- was no connection. The object then owns the descriptor; if there was one, that stays, and the new
-- descriptor is closed.
pub accept_client-Owns :
    (owed : ℕ → ℕ) (s : TcpSock) (client_fd : ℕ) (os : Os)
    → client_fd ≢ 0
    → Owns owed s os
    → let accepted = logged (Syscall.accept s.server_fd) (got client_fd) os in
      let (rings, s', os') = accept_client s client_fd accepted in
      (rings ≡ not (is_connected s))
      × (s'.comm_fd ≡ (if is_connected s then s.comm_fd else client_fd))
      × (is_connected s' ≡ true)
      × Owns owed s' os'
      × ((is_connected s ≡ false) ⊎ (s' ≡ s))
unfolding accept_client is_connected
accept_client-Owns owed s client_fd os ne o = elim (Bool-cases (s.comm_fd == 0)) [
  | inl off ↦
      simp (off, nonzero client_fd ne, accept_client)
        (refl, refl, refl, (λ fd. omega (arith, simp off at (o fd))), inl refl)
  | inr on ↦
      simp (on, accept_client)
        (refl, refl, refl, (λ fd. omega (arith, simp on at (o fd))), inr refl)
]

-- The calls do not change how the system answers.
pub disconnect-answers : (s : TcpSock) (os : Os) → (disconnect s os).1.answers ≡ os.answers
unfolding disconnect join_thread
disconnect-answers s os = elim (Bool-cases (s.comm_fd == 0)) [
  | inl off ↦ elim (Option-cases s.recv_thread_ptr) [
    | inl e ↦ simp (off, disconnect, e, join_thread)
    | inr (fd, e) ↦ simp (off, disconnect, e, join_thread)
  ]
  | inr on ↦ elim (Option-cases s.recv_thread_ptr) [
    | inl e ↦ simp (on, disconnect, e, join_thread)
    | inr (fd, e) ↦ simp (on, disconnect, e, join_thread)
  ]
]

-- Where every call succeeds the constructor returns; the calls do not change how the system answers.
pub tcp_sock_ends :
    (is_server : Bool) (addr : SockAddr) (os : Os)
    → ((k : ℕ) (call : Syscall) → os.answers k call ≢ fail)
    → EndsIn (λ r. r.1.answers ≡ os.answers) (tcp_sock is_server addr os)
unfolding tcp_sock open_server
tcp_sock_ends false addr os g = refl
tcp_sock_ends true addr os g = elim (Ret-cases (os.answers os.clock Syscall.socket)) [
  | inl e ↦ absurd (g os.clock Syscall.socket e)
  | inr (fd, e) ↦ elim (Ret-cases (os.answers (os.clock + 1) (Syscall.bind fd addr))) [
    | inl e' ↦ absurd (g (os.clock + 1) (Syscall.bind fd addr) e')
    | inr (n, e') ↦ elim (Ret-cases (os.answers (os.clock + 1 + 1) (Syscall.listen fd))) [
      | inl e'' ↦ absurd (g (os.clock + 1 + 1) (Syscall.listen fd) e'')
      | inr (m, e'') ↦ simp (e, e', e'', tcp_sock, open_server) refl
    ]
  ]
]

-- Where the constructor returns, the system answers as before.
pub tcp_sock-same :
    (is_server : Bool) (addr : SockAddr) (os : Os)
    → IfOk (λ r. r.1.answers ≡ os.answers) (tcp_sock is_server addr os)
unfolding tcp_sock open_server
tcp_sock-same false addr os = refl
tcp_sock-same true addr os = elim (Ret-cases (os.answers os.clock Syscall.socket)) [
  | inl e ↦ simp (e, tcp_sock) tt
  | inr (fd, e) ↦ elim (Ret-cases (os.answers (os.clock + 1) (Syscall.bind fd addr))) [
    | inl e' ↦ simp (e, e', tcp_sock, open_server) tt
    | inr (n, e') ↦ elim (Ret-cases (os.answers (os.clock + 1 + 1) (Syscall.listen fd))) [
      | inl e'' ↦ simp (e, e', e'', tcp_sock, open_server) tt
      | inr (m, e'') ↦ simp (e, e', e'', tcp_sock, open_server) refl
    ]
  ]
]
