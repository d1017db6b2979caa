-- ===== src/DspClient/Pools.antt =====
-- cpp/src/dsp.cpp: what becomes of a DspBufferPool, with the client's list of live pools. Moves of a
-- pool are left out.
use neoruntime_sdks.Base.{
  ℕ, List, [], ◌∷◌, Option, none, some, Bool, true, false, not, ◌||◌, ◌==◌, if◌then◌else◌,
  get_elem?, set, Result, ok, err,
}
use neoruntime_sdks.Media.{close_all}
use neoruntime_sdks.DspClient.{
  DspFailure, invalid_index, invalid_id, DspBufferPool, DspClient, close_sock, send_release,
  send_releases,
}

-- buffer_id of a pool, for an index that is not negative.
abbrev pub id_at : ℕ → Option ℕ → Result DspFailure ℕ
id_at i none = err (invalid_index i)
id_at i (some id) = ok id

unfoldable pub buffer_id : DspBufferPool → ℕ → Result DspFailure ℕ
buffer_id p index = id_at index (get_elem? p.ids index)

abbrev pub mark_released : ℕ → DspBufferPool → DspClient → DspClient
mark_released j p c = record c { pools = set c.pools j (record p { released = true }) }

abbrev pub close_planes : DspBufferPool → DspClient → DspClient
close_planes p c = record c { log = close_all p.plane_fds c.log }

abbrev pub release_open : ℕ → Option DspBufferPool → DspClient → DspClient
release_open j none c = c
release_open j (some p) c =
    if p.released then c else close_planes p (send_releases p.ids (mark_released j p c))

unfoldable pub release_pool : ℕ → DspClient → DspClient
unfolding send_releases
release_pool j c = release_open j (get_elem? c.pools j) c

abbrev pub kill_open : ℕ → Option DspBufferPool → DspClient → DspClient
kill_open j none c = c
kill_open j (some p) c = if p.released then c else close_planes p (mark_released j p c)

unfoldable pub mark_dead : ℕ → DspClient → DspClient
mark_dead j c = kill_open j (get_elem? c.pools j) c

abbrev pub without : ℕ → List ℕ → List ℕ
without j [] = []
without j (i ∷ is) = let rest = without j is in if i == j then rest else i ∷ rest

abbrev pub unregister_pool : ℕ → DspClient → DspClient
unregister_pool j c = record c { live_pools = without j c.live_pools }

-- The destructor.
unfoldable pub destroy_pool : ℕ → DspClient → DspClient
unfolding release_pool
destroy_pool j c = unregister_pool j (release_pool j c)

unfoldable pub mark_all : List ℕ → DspClient → DspClient
unfolding mark_dead
mark_all [] c = c
mark_all (j ∷ js) c = mark_all js (mark_dead j c)

unfoldable pub mark_pools_dead : DspClient → DspClient
unfolding mark_all
mark_pools_dead c = record (mark_all c.live_pools c) { live_pools = [] }

-- DspClient::close, without the gRPC channel.
unfoldable pub close : DspClient → DspClient
unfolding mark_pools_dead close_sock
close c = close_sock (mark_pools_dead c)

abbrev pub is_open : Option DspBufferPool → Bool
is_open none = false
is_open (some p) = not p.released

abbrev pub any_open : List DspBufferPool → List ℕ → Bool
any_open ps [] = false
any_open ps (j ∷ js) = is_open (get_elem? ps j) || any_open ps js

unfoldable pub has_live_pools : DspClient → Bool
has_live_pools c = any_open c.pools c.live_pools

unfoldable pub release_buffer : ℕ → DspClient → Result DspFailure (Unit {0}) × DspClient
unfolding send_release
release_buffer id c =
    let c' = send_release id c in if id == 0 then (err invalid_id, c) else (ok tt, c')
