-- ===== src/DspClient/Alloc.antt =====
-- cpp/src/dsp.cpp: exchange_alloc, the constructor of DspBufferPool, and alloc_buffers.
use Prim.Native.String.{String}
use neoruntime_sdks.Base.{
  ℕ, ◌*◌, List, [], ◌∷◌, ◌++◌, Option, none, some, Bool, true, false, not, ◌||◌, ltb, ◌==◌,
  if◌then◌else◌, length, Result, ok, err,
}
use neoruntime_sdks.Base.Int.{ℤ, pos, negsuc, to_u32}
use neoruntime_sdks.Media.{open_all, close_all}
use neoruntime_sdks.Wire.Dsp.{
  DspError, AllocResp, alloc_request, parse_alloc_resp, alloc_resp_size, plane_count,
  hal_pixel_format, validate_geometry,
}
use neoruntime_sdks.DspClient.{
  DspFailure, send_failed, socket_error, wire_error, refused_code, count_mismatch, count_below_one,
  too_many_fds, DspClient, Collected, collect, ensure_sock, send_bytes,
}

abbrev pub is_zero_ℤ : ℤ → Bool
is_zero_ℤ (pos n) = n == 0
is_zero_ℤ (negsuc n) = false

abbrev pub Exchanged : Type 0
Exchanged = Result DspFailure (AllocResp × List ℕ) × DspClient

abbrev pub drop_fds : List ℕ → DspClient → DspClient
drop_fds fds c = record c { log = close_all fds c.log }

-- The checks of a response that has been parsed.
abbrev pub checked_resp : ℕ → List ℕ → AllocResp → DspClient → Exchanged
checked_resp count fds resp c =
    if not (is_zero_ℤ resp.code)
    then (err (refused_code resp.code), drop_fds fds c)
    else if not (resp.count == count) || not (length fds == count * resp.num_planes)
    then (err (count_mismatch resp.count (length fds)), drop_fds fds c)
    else (ok (resp, fds), c)

abbrev pub parsed_resp : ℕ → List ℕ → Result DspError AllocResp → DspClient → Exchanged
parsed_resp count fds (err e) c = (err (wire_error e), c)
parsed_resp count fds (ok resp) c = checked_resp count fds resp c

-- The descriptors of a response that breaks off stay open.
abbrev pub after_collect : ℕ → Option DspFailure → Collected → DspClient → Exchanged
after_collect count (some e) r c = (err e, c)
after_collect count none r c = parsed_resp count r.fds (parse_alloc_resp r.bytes) c

abbrev pub read_resp : ℕ → Bool × DspClient → Exchanged
read_resp count (false, c) = (err send_failed, c)
read_resp count (true, c) =
    let r = collect socket_error alloc_resp_size c.incoming in
    after_collect count r.failure r (record c { incoming = r.rest; log = open_all r.fds c.log })

abbrev pub exchange_on : List ℕ → ℕ → Result DspFailure ℕ × DspClient → Exchanged
exchange_on request count (err e, c) = (err e, c)
exchange_on request count (ok fd, c) = read_resp count (send_bytes fd request c)

unfoldable pub exchange_alloc : ℕ → ℕ → ℕ → ℕ → DspClient → Exchanged
unfolding collect ensure_sock
exchange_alloc width height fmt_wire count c =
    exchange_on (alloc_request width height fmt_wire count) count (ensure_sock c)

-- The constructor, and register_pool: the pool takes the descriptors, or closes them and throws.
abbrev pub make_pool : ℤ → ℤ → String → Exchanged → Result DspFailure ℕ × DspClient
make_pool width height fmt (err e, c) = (err e, c)
make_pool width height fmt (ok (resp, fds), c) =
    let need = length resp.ids * plane_count fmt in
    if not (length fds == need)
    then (err (count_mismatch (length resp.ids) (length fds)), drop_fds fds c)
    else (
      ok (length c.pools),
      record c {
        pools =
            c.pools
            ++ (record {
              width = width;
              height = height;
              fmt = fmt;
              ids = resp.ids;
              plane_fds = fds;
              strides = resp.strides;
              plane_sizes = resp.sizes;
              released = false;
            }
                ∷ []);
        live_pools = c.live_pools ++ (length c.pools ∷ []);
      },
    )

abbrev pub alloc_with :
    ℤ → ℤ → String → ℕ → Result DspError ℕ → DspClient → Result DspFailure ℕ × DspClient
alloc_with width height fmt count (err e) c = (err (wire_error e), c)
alloc_with width height fmt count (ok fmt_wire) c =
    make_pool width height fmt (exchange_alloc (to_u32 width) (to_u32 height) fmt_wire count c)

abbrev pub alloc_valid :
    ℤ → ℤ → String → ℕ → Result DspError (Unit {0}) → DspClient → Result DspFailure ℕ × DspClient
alloc_valid width height fmt count (err e) c = (err (wire_error e), c)
alloc_valid width height fmt count (ok _) c =
    let made = alloc_with width height fmt count (hal_pixel_format fmt) c in
    if ltb count 1
    then (err count_below_one, c)
    else if ltb 64 (count * plane_count fmt)
    then (err too_many_fds, c)
    else made

-- The pool's place, which stands for the pointer to it. A negative count is 0.
unfoldable pub alloc_buffers : ℤ → ℤ → String → ℕ → DspClient → Result DspFailure ℕ × DspClient
unfolding exchange_alloc
alloc_buffers width height fmt count c =
    alloc_valid width height fmt count (validate_geometry width height fmt "alloc") c
