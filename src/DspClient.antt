-- ===== src/DspClient.antt =====
-- cpp/src/dsp.cpp: the socket of DspClient, on which buffers are allocated, imported and given back.
-- The kernel's side is a script: what each read returns, whether each send goes through, and the
-- connects to come. After a script reads find the end of the stream, and sends go through.
pub mod Alloc
pub mod Import
pub mod Pools
pub mod Rpc
pub mod Jobs
pub mod Shared
pub mod Rollback
pub mod Fallback
pub mod Accounts
pub mod Drain
pub mod Given
pub mod Once
mod Tests
use Prim.Native.String.{String}
use neoruntime_sdks.Base.{
  ℕ, zero, suc, ◌+◌, ◌-◌, List, [], ◌∷◌, ◌++◌, Option, none, some, Bool, true, false, ltb, leb,
  ◌==◌, if◌then◌else◌, length, take, drop, Result, ok, err,
}
use neoruntime_sdks.Base.Int.{ℤ}
use neoruntime_sdks.Media.{Call, closed_fd, opened, sent, timeout_set}
use neoruntime_sdks.Wire.Dsp.{DspError, Triple, release_request}

-- What one recvmsg_with_fds returns: at least one byte, with descriptors beside it, or no bytes.
pub data Part : Type 0 where
  part : ℕ → List ℕ → List ℕ → Part
  ended timed_out broke : Part

-- The DspError of a call; not_in_daemon and not_running are DspUnavailable. An empty message of a
-- failed job stands for the text of its code.
pub data DspFailure : Type 0 where
  cannot_connect send_failed socket_closed socket_error no_response : DspFailure
  wire_error : DspError → DspFailure
  refused_code : ℤ → DspFailure
  count_mismatch : ℕ → ℕ → DspFailure
  corrupt_header unexpected_type invalid_index : ℕ → DspFailure
  too_many_controls count_below_one too_many_fds : DspFailure
  still_pending already_released not_in_daemon not_running rpc_failed empty_jpeg : DspFailure
  job_failed encode_failed : String → ℤ → DspFailure
  unsupported_interpolation unsupported_scaling unsupported_priority : String → DspFailure
  invalid_id argb_only memfd_failed ftruncate_failed write_failed map_failed : DspFailure

-- `released` is released_; the pool's closures reach the client that allocated it.
pub record DspBufferPool : Type 0 where
  pub width : ℤ
  pub height : ℤ
  pub fmt : String
  pub ids : List ℕ
  pub plane_fds : List ℕ
  pub strides : Triple
  pub plane_sizes : Triple
  pub released : Bool

-- The Impl, with the pools that there are; `live_pools` holds pointers to them.
pub record DspClient : Type 0 where
  pub sock : Option ℕ
  pub incoming : List Part
  pub connects : List (Option (ℕ × List Part))
  pub sends : List Bool
  pub pools : List DspBufferPool
  pub live_pools : List ℕ
  pub log : List Call

-- The bytes and descriptors that a loop of reads has collected, or how it failed; and what is left.
pub record Collected : Type 0 where
  pub failure : Option DspFailure
  pub bytes : List ℕ
  pub fds : List ℕ
  pub rest : List Part

abbrev pub failing : DspFailure → List Part → Collected
failing e es = record { failure = some e; bytes = []; fds = []; rest = es }

abbrev pub after_part : List ℕ → List ℕ → Collected → Collected
after_part bs fs r = record r { bytes = bs ++ r.bytes; fds = fs ++ r.fds }

-- The bytes of a part beyond those asked for stay for the next read, without its descriptors.
abbrev pub left_of : List ℕ → List Part → List Part
left_of [] es = es
left_of (b ∷ bs) es = part b bs [] ∷ es

-- A loop of reads until `n` more bytes have come; `late` is what a read that times out comes to.
unfoldable pub collect : DspFailure → ℕ → List Part → Collected
collect late zero es = record { failure = none; bytes = []; fds = []; rest = es }
collect late (suc n) [] = failing socket_closed []
collect late (suc n) (ended ∷ es) = failing socket_closed es
collect late (suc n) (timed_out ∷ es) = failing late es
collect late (suc n) (broke ∷ es) = failing socket_error es
collect late (suc n) (part b bs fs ∷ es) =
    let rest = after_part (b ∷ bs) fs (collect late (n - length bs) es) in
    if leb (length bs) n
    then rest
    else record { failure = none; bytes = b ∷ take n bs; fds = fs; rest = left_of (drop n bs) es }

abbrev pub connect_next :
    List (Option (ℕ × List Part)) → DspClient → Result DspFailure ℕ × DspClient
connect_next [] c = (err cannot_connect, c)
connect_next (none ∷ ps) c = (err cannot_connect, record c { connects = ps })
connect_next (some (fd, es) ∷ ps) c =
    (ok fd, record c { sock = some fd; incoming = es; connects = ps; log = opened fd ∷ c.log })

abbrev pub ensure_on : Option ℕ → DspClient → Result DspFailure ℕ × DspClient
ensure_on (some fd) c = (ok fd, c)
ensure_on none c = connect_next c.connects c

unfoldable pub ensure_sock : DspClient → Result DspFailure ℕ × DspClient
ensure_sock c = ensure_on c.sock c

abbrev pub close_on : Option ℕ → List Call → List Call
close_on none log = log
close_on (some fd) log = closed_fd fd ∷ log

unfoldable pub close_sock : DspClient → DspClient
close_sock c = record c { sock = none; incoming = []; log = close_on c.sock c.log }

-- A send, and whether it goes through.
abbrev pub next_send : List Bool → Bool × List Bool
next_send [] = (true, [])
next_send (b ∷ bs) = (b, bs)

abbrev pub send_bytes : ℕ → List ℕ → DspClient → Bool × DspClient
send_bytes fd bytes c =
    let (through, rest) = next_send c.sends in
    (through, record c { sends = rest; log = sent fd bytes ∷ c.log })

abbrev pub send_release_on : Option ℕ → ℕ → DspClient → DspClient
send_release_on none id c = c
send_release_on (some fd) id c = (send_bytes fd (release_request id) c).1

-- Fire and forget: a failed send is only printed.
unfoldable pub send_release : ℕ → DspClient → DspClient
send_release id c = send_release_on c.sock id c

unfoldable pub send_releases : List ℕ → DspClient → DspClient
unfolding send_release
send_releases [] c = c
send_releases (id ∷ ids) c = send_releases ids (send_release id c)
