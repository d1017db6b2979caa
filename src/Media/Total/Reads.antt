-- ===== src/Media/Total/Reads.antt =====
-- What recv_frame's loop takes from a socket.
use neoruntime_sdks.Base.{
  ℕ, zero, suc, ◌+◌, ◌≤◌, ◌<◌, ◌≡◌, inl, inr, List, [], ◌∷◌, ◌++◌, Option, none, some, leb, length,
  get_elem?, set, arith, Bool-cases,
}
use neoruntime_sdks.Media.{
  Call, StreamSock, Recv, eof, again, failed_read, message, is_frame, close_all, open_all,
  fd_max_attempts,
}
use neoruntime_sdks.Media.Receive.{Received, got, nothing, lost, Reading, recv_loop, read_sock}
use neoruntime_sdks.Media.Stream.{unread}

-- A reading that does not throw has used up something.
abbrev pub cost : Received → ℕ
cost (got bytes fds) = 1
cost nothing = 1
cost (lost e) = 0

abbrev pub Progress : ℕ → Reading → Type 0
Progress n r = length r.rest + cost r.outcome ≤ n

cost-le : (r : Received) → cost r ≤ 1
cost-le (got bytes fds) = omega arith
cost-le nothing = omega arith
cost-le (lost e) = omega arith

recv_loop_empty :
    (n eofs : ℕ) (log : List Call) → 3 ≤ n + eofs → eofs ≤ 2 → Progress 0 (recv_loop n eofs [] log)
unfolding recv_loop
recv_loop_empty zero eofs log h k = absurd (omega arith)
recv_loop_empty (suc n) eofs log h k = elim (Bool-cases (leb 3 (eofs + 1))) [
  | inl e ↦ rw e (omega arith)
  | inr e ↦ rw e (recv_loop_empty n (eofs + 1) log (omega arith) (ground arith))
]

recv_loop_rest :
    (n eofs : ℕ) (es : List Recv) (log : List Call)
    → length (recv_loop n eofs es log).rest ≤ length es
unfolding recv_loop
recv_loop_rest zero eofs es log = omega arith
recv_loop_rest (suc n) eofs [] log = elim (Bool-cases (leb 3 (eofs + 1))) [
  | inl e ↦ rw e (omega arith)
  | inr e ↦ rw e (recv_loop_rest n (eofs + 1) [] log)
]
recv_loop_rest (suc n) eofs (eof ∷ es) log = elim (Bool-cases (leb 3 (eofs + 1))) [
  | inl e ↦ rw e (omega arith)
  | inr e ↦ rw e (omega (arith, recv_loop_rest n (eofs + 1) es log))
]
recv_loop_rest (suc n) eofs (again ∷ es) log = omega arith
recv_loop_rest (suc n) eofs (failed_read ∷ es) log = omega arith
recv_loop_rest (suc n) eofs (message [] fds ∷ es) log = elim (Bool-cases (leb 3 (eofs + 1))) [
  | inl e ↦ rw e (omega arith)
  | inr e ↦ rw e (omega (arith, recv_loop_rest n (eofs + 1) es log))
]
recv_loop_rest (suc n) eofs (message (b ∷ bs) fds ∷ es) log =
    elim (Bool-cases (is_frame (b ∷ bs))) [
      | inl e ↦ rw e (omega arith)
      | inr e ↦ rw e (omega (arith, recv_loop_rest n eofs es (close_all fds (open_all fds log))))
    ]

shorter_rest : (n : ℕ) (r : Reading) → length r.rest < n → Progress n r
shorter_rest n r h = omega (arith, cost-le r.outcome)

recv_loop-Progress :
    (n : ℕ) (es : List Recv) (log : List Call) → 3 ≤ n → Progress (length es) (recv_loop n 0 es log)
unfolding recv_loop
recv_loop-Progress zero es log h = absurd (omega arith)
recv_loop-Progress (suc n) [] log h = recv_loop_empty (suc n) 0 log (omega arith) (omega arith)
recv_loop-Progress (suc n) (eof ∷ es) log h =
    shorter_rest (suc (length es)) (recv_loop n 1 es log) (omega (arith, recv_loop_rest n 1 es log))
recv_loop-Progress (suc n) (again ∷ es) log h = omega arith
recv_loop-Progress (suc n) (failed_read ∷ es) log h = omega arith
recv_loop-Progress (suc n) (message [] fds ∷ es) log h =
    shorter_rest (suc (length es)) (recv_loop n 1 es log) (omega (arith, recv_loop_rest n 1 es log))
recv_loop-Progress (suc n) (message (b ∷ bs) fds ∷ es) log h =
    elim (Bool-cases (is_frame (b ∷ bs))) [
      | inl e ↦ rw e (omega arith)
      | inr e ↦
          let log' = close_all fds (open_all fds log) in
          rw e (
            shorter_rest (suc (length es)) (recv_loop n 0 es log')
              (omega (arith, recv_loop_rest n 0 es log')))
    ]

pub read_sock-Progress :
    (o : Option ℕ) (es : List Recv) (log : List Call) → Progress (length es) (read_sock o es log)
read_sock-Progress none es log = omega arith
read_sock-Progress (some f) es log = recv_loop-Progress fd_max_attempts es log (omega arith)

pub unread-set :
    (ss : List StreamSock) (i : ℕ) (s t : StreamSock)
    → get_elem? ss i ≡ some s
    → unread (set ss i t) + length s.incoming ≡ unread ss + length t.incoming
unread-set [] i s t h = cc
unread-set (z ∷ ss) zero s t h = grind arith
unread-set (z ∷ ss) (suc i) s t h = omega (arith, unread-set ss i s t h)

pub unread-append : (ss ts : List StreamSock) → unread (ss ++ ts) ≡ unread ss + unread ts
unread-append [] ts = omega arith
unread-append (s ∷ ss) ts = omega (arith, unread-append ss ts)
