-- ===== src/Media/Ledger/Socks.antt =====
-- The count of descriptors as sockets are connected, dropped and closed.
use neoruntime_sdks.Base.{
  ℕ, ◌+◌, ◌≡◌, refl, inl, inr, List, [], ◌∷◌, Option, none, some, true, false, get_elem?, arith,
  Bool-cases, Result, ok, err,
}
use neoruntime_sdks.Media.{
  Call, MediaError, Client, StreamSock, Peer, close_fd, send_on, unsubscribe_msg,
}
use neoruntime_sdks.Media.Handles.{prune, close_handle}
use neoruntime_sdks.Media.Sockets.{
  cache_sock, connect_with, connect_stream, subscribe_on, get_cached, get_sock, is_alive, shut,
  shut_sock, drop_cached, drop_sock, close_handles, shut_all, close, find_stream, erase_stream,
}
use neoruntime_sdks.Media.Ledger.{
  BalancedAt, total-set, total-append, sock_holds, fd_is, opened_in, closed_in,
  close_handle-BalancedAt,
}

module _ (f : ℕ) where
  cache_sock-BalancedAt :
      (id : List ℕ) (p : Peer) (r : Result MediaError (Unit {0})) (c : Client)
      → BalancedAt f c
      → BalancedAt f (cache_sock id p r c).1
  cache_sock-BalancedAt id p (err e) c b = omega arith
  cache_sock-BalancedAt id p (ok _) c b = omega (
    arith,
    total-append (sock_holds f) c.socks
        (record { fd = some p.socket; alive = true; incoming = p.script } ∷ []),
  )

  connect_with-BalancedAt :
      (id : List ℕ) (ps : List (Option Peer)) (c : Client)
      → BalancedAt f c
      → BalancedAt f (connect_with id ps c).1
  connect_with-BalancedAt id [] c b = b
  connect_with-BalancedAt id (none ∷ ps) c b = b
  connect_with-BalancedAt id (some p ∷ ps) c b =
      cache_sock-BalancedAt id p (subscribe_on id p) (record c { connects = ps }) b

  connect_stream-BalancedAt :
      (id : List ℕ) (c : Client) → BalancedAt f c → BalancedAt f (connect_stream id c).1
  unfolding connect_stream
  connect_stream-BalancedAt id c b = connect_with-BalancedAt id c.connects c b

  get_cached-BalancedAt :
      (id : List ℕ) (o : Option ℕ) (c : Client)
      → BalancedAt f c
      → BalancedAt f (get_cached id o c).1
  get_cached-BalancedAt id none c b = connect_stream-BalancedAt id c b
  get_cached-BalancedAt id (some i) c b = elim (Bool-cases (is_alive (get_elem? c.socks i))) [
    | inl live ↦ rw live b
    | inr dead ↦
        rw dead (connect_stream-BalancedAt id (record c { streams = erase_stream id c.streams }) b)
  ]

  pub get_sock-BalancedAt :
      (id : List ℕ) (c : Client) → BalancedAt f c → BalancedAt f (get_sock id c).1
  unfolding get_sock
  get_sock-BalancedAt id c b = get_cached-BalancedAt id (find_stream id c.streams) c b

  send_on-same :
      (o : Option ℕ) (bytes : List ℕ) (log : List Call)
      → (opened_in f (send_on o bytes log) ≡ opened_in f log)
        × (closed_in f (send_on o bytes log) ≡ closed_in f log)
  send_on-same none bytes log = (refl, refl)
  send_on-same (some g) bytes log = (refl, refl)

  close_fd-counts :
      (o : Option ℕ) (log : List Call)
      → (opened_in f (close_fd o log) ≡ opened_in f log)
        × (closed_in f (close_fd o log) ≡ fd_is f o + closed_in f log)
  close_fd-counts none log = (refl, omega arith)
  close_fd-counts (some g) log = (refl, refl)

  shut-BalancedAt :
      (m : Option (List ℕ)) (i : ℕ) (o : Option StreamSock) (c : Client)
      → get_elem? c.socks i ≡ o
      → BalancedAt f c
      → BalancedAt f (shut m i o c)
  shut-BalancedAt m i none c e b = b
  shut-BalancedAt none i (some s) c e b = elim (Bool-cases s.alive) [
    | inl live ↦ rw live (
        omega (
          arith,
          (close_fd-counts s.fd c.log).0,
          (close_fd-counts s.fd c.log).1,
          total-set (sock_holds f) c.socks i s (record s { alive = false; fd = none }) e,
        ))
    | inr dead ↦ rw dead b
  ]
  shut-BalancedAt (some bytes) i (some s) c e b = elim (Bool-cases s.alive) [
    | inl live ↦ rw live (
        omega (
          arith,
          (send_on-same s.fd bytes c.log).0,
          (send_on-same s.fd bytes c.log).1,
          (close_fd-counts s.fd (send_on s.fd bytes c.log)).0,
          (close_fd-counts s.fd (send_on s.fd bytes c.log)).1,
          total-set (sock_holds f) c.socks i s (record s { alive = false; fd = none }) e,
        ))
    | inr dead ↦ rw dead b
  ]

  shut_sock-BalancedAt :
      (m : Option (List ℕ)) (i : ℕ) (c : Client) → BalancedAt f c → BalancedAt f (shut_sock m i c)
  unfolding shut_sock
  shut_sock-BalancedAt m i c b = shut-BalancedAt m i (get_elem? c.socks i) c refl b

  drop_cached-BalancedAt :
      (id : List ℕ) (o : Option ℕ) (c : Client) → BalancedAt f c → BalancedAt f (drop_cached id o c)
  drop_cached-BalancedAt id none c b = b
  drop_cached-BalancedAt id (some i) c b =
      shut_sock-BalancedAt none i (record c { streams = erase_stream id c.streams }) b

  pub drop_sock-BalancedAt :
      (id : List ℕ) (c : Client) → BalancedAt f c → BalancedAt f (drop_sock id c)
  unfolding drop_sock
  drop_sock-BalancedAt id c b = drop_cached-BalancedAt id (find_stream id c.streams) c b

  close_handles-BalancedAt :
      (js : List ℕ) (c : Client) → BalancedAt f c → BalancedAt f (close_handles js c)
  unfolding close_handles
  close_handles-BalancedAt [] c b = b
  close_handles-BalancedAt (j ∷ js) c b =
      close_handles-BalancedAt js (close_handle j c) (close_handle-BalancedAt f j c b)

  shut_all-BalancedAt :
      (m : List (List ℕ × ℕ)) (c : Client) → BalancedAt f c → BalancedAt f (shut_all m c)
  unfolding shut_all
  shut_all-BalancedAt [] c b = b
  shut_all-BalancedAt ((k, i) ∷ m) c b =
      shut_all-BalancedAt m (shut_sock (some unsubscribe_msg) i c)
        (shut_sock-BalancedAt (some unsubscribe_msg) i c b)

  pub close-BalancedAt : (c : Client) → BalancedAt f c → BalancedAt f (close c)
  unfolding close
  close-BalancedAt c b =
      let held = prune c.handles c.retained in
      let released = close_handles held (record c { retained = held }) in
      shut_all-BalancedAt released.streams (record released { streams = [] })
        (close_handles-BalancedAt held (record c { retained = held }) b)
