-- ===== src/DspClient/Accounts.antt =====
-- The descriptors of the pools and the socket of a DspClient, counted as those of the frames are.
pub mod Exchange
pub mod Calls
pub mod Plain
use neoruntime_sdks.Base.{
  ℕ, zero, suc, ◌+◌, ◌*◌, ◌≡◌, refl, inl, inr, List, [], ◌∷◌, ◌++◌, Option, none, some, Bool, true,
  false, not, ◌||◌, ltb, ◌==◌, get_elem?, length, arith, Bool-cases, Option-cases, Result, ok, err,
}
use neoruntime_sdks.Base.Int.{ℤ}
use neoruntime_sdks.Media.{close_all, open_all}
use neoruntime_sdks.Media.Ledger.{
  count, opened_in, closed_in, total, total-set, total-append, fd_is, closed_in-close_all,
  opened_in-close_all, closed_in-open_all, opened_in-open_all,
}
use neoruntime_sdks.Wire.Dsp.{
  DspError, AllocResp, alloc_request, parse_alloc_resp, alloc_resp_size, plane_count,
  hal_pixel_format, validate_geometry,
}
use neoruntime_sdks.DspClient.{
  DspFailure, DspBufferPool, DspClient, Part, Collected, collect, connect_next, ensure_on,
  ensure_sock, socket_closed, socket_error, no_response, wire_error, close_on, close_sock,
  next_send, send_bytes, send_release_on, send_release, send_releases,
}
use neoruntime_sdks.DspClient.Alloc.{
  is_zero_ℤ, Exchanged, checked_resp, parsed_resp, after_collect, read_resp, exchange_on,
  exchange_alloc, make_pool, alloc_with, alloc_valid, alloc_buffers,
}
use neoruntime_sdks.DspClient.Pools.{
  mark_released, release_open, release_pool, kill_open, mark_dead, destroy_pool, mark_all,
  mark_pools_dead, close,
}

abbrev pub pool_holds : ℕ → DspBufferPool → ℕ
pool_holds f p = elim p.released [ true ↦ 0 | false ↦ count f p.plane_fds ]

abbrev pub held : ℕ → DspClient → ℕ
held f c = total (pool_holds f) c.pools + fd_is f c.sock

-- What has come in is closed or held, but for `n` that nobody holds.
abbrev pub Owes : ℕ → ℕ → DspClient → Type 0
Owes f n c = opened_in f c.log ≡ n + closed_in f c.log + held f c

module _ (f : ℕ) where
  pub send_release_on-Owes :
      (n : ℕ) (o : Option ℕ) (id : ℕ) (c : DspClient)
      → Owes f n c
      → Owes f n (send_release_on o id c)
  send_release_on-Owes n none id c h = h
  send_release_on-Owes n (some fd) id c h = h

  pub send_releases-Owes :
      (n : ℕ) (ids : List ℕ) (c : DspClient) → Owes f n c → Owes f n (send_releases ids c)
  unfolding send_releases
  send_releases-Owes n [] c h = h
  send_releases-Owes n (id ∷ ids) c h =
      send_releases-Owes n ids (send_release id c) (send_release_on-Owes n c.sock id c h)

  mark_released-Owes :
      (n j : ℕ) (p : DspBufferPool) (c : DspClient)
      → get_elem? c.pools j ≡ some p
      → p.released ≡ false
      → Owes f n c
      → Owes f (n + count f p.plane_fds) (mark_released j p c)
  mark_released-Owes n j p c e k h =
      let here : pool_holds f p ≡ count f p.plane_fds = rw k refl in
      omega (arith, here, total-set (pool_holds f) c.pools j p (record p { released = true }) e)

  pub close_planes-Owes :
      (n : ℕ) (fds : List ℕ) (c : DspClient)
      → Owes f (n + count f fds) c
      → Owes f n (record c { log = close_all fds c.log })
  close_planes-Owes n fds c h =
      omega (arith, closed_in-close_all f fds c.log, opened_in-close_all f fds c.log)

  release_open-Owes :
      (n j : ℕ) (o : Option DspBufferPool) (c : DspClient)
      → get_elem? c.pools j ≡ o
      → Owes f n c
      → Owes f n (release_open j o c)
  release_open-Owes n j none c e h = h
  release_open-Owes n j (some p) c e h = elim (Bool-cases p.released) [
    | inl k ↦ rw k h
    | inr k ↦ rw k (
        close_planes-Owes n p.plane_fds (send_releases p.ids (mark_released j p c)) (
          send_releases-Owes (n + count f p.plane_fds) p.ids (mark_released j p c)
            (mark_released-Owes n j p c e k h)))
  ]

  kill_open-Owes :
      (n j : ℕ) (o : Option DspBufferPool) (c : DspClient)
      → get_elem? c.pools j ≡ o
      → Owes f n c
      → Owes f n (kill_open j o c)
  kill_open-Owes n j none c e h = h
  kill_open-Owes n j (some p) c e h = elim (Bool-cases p.released) [
    | inl k ↦ rw k h
    | inr k ↦
        rw k
          (close_planes-Owes n p.plane_fds (mark_released j p c) (mark_released-Owes n j p c e k h))
  ]

  pub destroy_pool-Owes : (n j : ℕ) (c : DspClient) → Owes f n c → Owes f n (destroy_pool j c)
  unfolding destroy_pool
  destroy_pool-Owes n j c h = release_open-Owes n j (get_elem? c.pools j) c refl h

  pub release_pool-Owes : (n j : ℕ) (c : DspClient) → Owes f n c → Owes f n (release_pool j c)
  unfolding release_pool
  release_pool-Owes n j c h = release_open-Owes n j (get_elem? c.pools j) c refl h

  pub mark_dead-Owes : (n j : ℕ) (c : DspClient) → Owes f n c → Owes f n (mark_dead j c)
  unfolding mark_dead
  mark_dead-Owes n j c h = kill_open-Owes n j (get_elem? c.pools j) c refl h

  mark_all-Owes : (n : ℕ) (js : List ℕ) (c : DspClient) → Owes f n c → Owes f n (mark_all js c)
  unfolding mark_all
  mark_all-Owes n [] c h = h
  mark_all-Owes n (j ∷ js) c h = mark_all-Owes n js (mark_dead j c) (mark_dead-Owes n j c h)

  close_on-counts :
      (o : Option ℕ) (c : DspClient)
      → (opened_in f (close_on o c.log) ≡ opened_in f c.log)
        × (closed_in f (close_on o c.log) ≡ fd_is f o + closed_in f c.log)
  close_on-counts none c = (refl, omega arith)
  close_on-counts (some g) c = (refl, refl)

  close_sock-Owes : (n : ℕ) (c : DspClient) → Owes f n c → Owes f n (close_sock c)
  unfolding close_sock
  close_sock-Owes n c h = omega (arith, (close_on-counts c.sock c).0, (close_on-counts c.sock c).1)

  pub close-Owes : (n : ℕ) (c : DspClient) → Owes f n c → Owes f n (close c)
  unfolding close mark_pools_dead
  close-Owes n c h = close_sock-Owes n (mark_pools_dead c) (mark_all-Owes n c.live_pools c h)

  connect_next-Owes :
      (n : ℕ) (ps : List (Option (ℕ × List Part))) (c : DspClient)
      → c.sock ≡ none
      → Owes f n c
      → Owes f n (connect_next ps c).1
  connect_next-Owes n [] c e h = h
  connect_next-Owes n (none ∷ ps) c e h = h
  connect_next-Owes n (some (fd, es) ∷ ps) c e h =
      let none_held : fd_is f c.sock ≡ 0 = rw e refl in omega (arith, none_held)

  ensure_on-Owes :
      (n : ℕ) (o : Option ℕ) (c : DspClient) → c.sock ≡ o → Owes f n c → Owes f n (ensure_on o c).1
  ensure_on-Owes n (some fd) c e h = h
  ensure_on-Owes n none c e h = connect_next-Owes n c.connects c e h

  pub ensure_sock-Owes : (n : ℕ) (c : DspClient) → Owes f n c → Owes f n (ensure_sock c).1
  unfolding ensure_sock
  ensure_sock-Owes n c h = ensure_on-Owes n c.sock c refl h
