-- ===== src/DspClient/Accounts/Calls.antt =====
-- The calls that end the life of pools, in any order.
use neoruntime_sdks.Base.{ℕ, inl, inr, List, [], ◌∷◌, ◌==◌, Bool-cases}
use neoruntime_sdks.DspClient.{DspClient, send_release}
use neoruntime_sdks.DspClient.Pools.{release_pool, mark_dead, destroy_pool, close, release_buffer}
use neoruntime_sdks.DspClient.Accounts.{
  Owes, send_release_on-Owes, release_pool-Owes, mark_dead-Owes, destroy_pool-Owes, close-Owes,
}

pub data PoolCall : Type 0 where
  releases_pool marks_dead destroys_pool releases_buffer : ℕ → PoolCall
  closes_client : PoolCall

unfoldable pub call_pool : PoolCall → DspClient → DspClient
unfolding release_pool mark_dead destroy_pool close release_buffer
call_pool (releases_pool j) c = release_pool j c
call_pool (marks_dead j) c = mark_dead j c
call_pool (destroys_pool j) c = destroy_pool j c
call_pool (releases_buffer id) c = (release_buffer id c).1
call_pool closes_client c = close c

unfoldable pub call_pools : List PoolCall → DspClient → DspClient
unfolding call_pool
call_pools [] c = c
call_pools (a ∷ rest) c = call_pools rest (call_pool a c)

module _ (f n : ℕ) where
  release_buffer-Owes : (id : ℕ) (c : DspClient) → Owes f n c → Owes f n (release_buffer id c).1
  unfolding release_buffer send_release
  release_buffer-Owes id c h = elim (Bool-cases (id == 0)) [
    | inl k ↦ rw k h
    | inr k ↦ rw k (send_release_on-Owes f n c.sock id c h)
  ]

  call_pool-Owes : (a : PoolCall) (c : DspClient) → Owes f n c → Owes f n (call_pool a c)
  unfolding call_pool
  call_pool-Owes (releases_pool j) c h = release_pool-Owes f n j c h
  call_pool-Owes (marks_dead j) c h = mark_dead-Owes f n j c h
  call_pool-Owes (destroys_pool j) c h = destroy_pool-Owes f n j c h
  call_pool-Owes (releases_buffer id) c h = release_buffer-Owes id c h
  call_pool-Owes closes_client c h = close-Owes f n c h

  -- However often and in whatever order pools are released, marked dead and destroyed, buffers
  -- released and the client closed: each descriptor has come in as often as it has been closed, plus
  -- once for the socket and each pool that is not released and holds it, plus the same number of
  -- times as before for those that nobody holds. So none is closed more often than it has come in.
  pub call_pools-Owes :
      (calls : List PoolCall) (c : DspClient) → Owes f n c → Owes f n (call_pools calls c)
  unfolding call_pools
  call_pools-Owes [] c h = h
  call_pools-Owes (a ∷ rest) c h = call_pools-Owes rest (call_pool a c) (call_pool-Owes a c h)
