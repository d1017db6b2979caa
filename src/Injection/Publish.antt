-- ===== src/Injection/Publish.antt =====
-- The operations of FramePublisher (injection.cpp): publish, publish_stream, publish_rgb, publish_eos,
-- the zero-copy calls, close and the destructor. A pool that is gone is an empty pool: the code
-- looks at one only while the publisher is open. A null nv12 stage is an error of the model's own.
use text.Mathlib.Text.{◌==◌ as str_eq}
use neoruntime_sdks.Base.{
  ℕ, ◌+◌, List, [], ◌∷◌, ◌++◌, Option, none, some, Bool, true, false, not, ◌&&◌, ◌||◌,
  if◌then◌else◌, get_or,
}
use neoruntime_sdks.Base.Int.{ℤ, pos, pos_part, ltb_ℤ, leb_ℤ, to_u32}
use neoruntime_sdks.Base.Action.{◌>>=◌, ◌>>◌, return, throw, lift, throws_if, when}
use neoruntime_sdks.Injection.{
  is_closed, replace_only, unexpected_form, null_stage, bad_slot, Mat, mat_to_pool_array,
}
use neoruntime_sdks.Injection.Services.{
  FramePublisher, Pool, PushFrameSpec, InjectionResult, Services, insert,
}
use neoruntime_sdks.Injection.Publisher.{
  Publish, call, update, this, absorb_lease, legacy_slot, acquire_slot_ids, next_slot,
}

abbrev pub no_pool : Pool
no_pool = record { shared = false; buffer_ids = []; stride0 = 0 }

abbrev pub pool_of : Option Pool → Pool
pool_of none = no_pool
pool_of (some pool) = pool

abbrev pub buffer_id : Pool → ℕ → ℕ
buffer_id pool index = get_or pool.buffer_ids index 0

-- The request for a slot of the publisher's pool.
unfoldable pub slot_spec : FramePublisher → ℕ → ℕ → PushFrameSpec
slot_spec p slot pts_ns = record {
  buffer_id = buffer_id (pool_of p.pool) slot;
  width = to_u32 p.width;
  height = to_u32 p.height;
  stride = (pool_of p.pool).stride0;
  mode = p.mode;
  pts_ns = pts_ns;
  dest_x = to_u32 p.dest_x;
  dest_y = to_u32 p.dest_y;
  stream_id = p.stream_id;
  end_of_stream = false;
  session_id = p.session_id;
}

-- The request that ends the session: the mode is the default of the struct.
unfoldable pub eos_spec : FramePublisher → PushFrameSpec
eos_spec p = record {
  buffer_id = 0;
  width = to_u32 p.width;
  height = to_u32 p.height;
  stride = (pool_of p.pool).stride0;
  mode = "replace";
  pts_ns = 0;
  dest_x = 0;
  dest_y = 0;
  stream_id = "";
  end_of_stream = true;
  session_id = p.session_id;
}

-- The request for the staged NV12 buffer of publish_rgb.
abbrev pub stage_spec : FramePublisher → Pool → ℕ → PushFrameSpec
stage_spec p stage pts_ns = record {
  buffer_id = buffer_id stage 0;
  width = to_u32 p.width;
  height = to_u32 p.height;
  stride = stage.stride0;
  mode = "replace";
  pts_ns = pts_ns;
  dest_x = 0;
  dest_y = 0;
  stream_id = p.stream_id;
  end_of_stream = false;
  session_id = p.session_id;
}

abbrev pub mark_published : FramePublisher → FramePublisher
mark_published p = record p { published_any = true }

module _ {W : Type 0} (services : Services W) where
  open services use {push_frame, push_frame_stream, alloc_buffers, write, convert_hw, release}

  unfoldable pub push_slot_request : ℕ → ℕ → Publish services InjectionResult
  unfolding slot_spec absorb_lease
  push_slot_request slot pts_ns = do
    p ← this
    res ← call (push_frame (slot_spec p slot pts_ns))
    absorb_lease services res
    return res

  abbrev pub check_open : Publish services (Unit {0})
  check_open = do p ← this; throws_if p.closed is_closed

  unfoldable pub publish_arr : ℕ → Mat → ℕ → Publish services InjectionResult
  unfolding next_slot push_slot_request
  publish_arr polls arr pts_ns = do
    check_open
    slot ← next_slot services polls
    p ← this
    call (write (pool_of p.pool) slot arr)
    update mark_published
    push_slot_request slot pts_ns

  unfoldable pub publish : ℕ → Mat → ℕ → Publish services InjectionResult
  unfolding publish_arr mat_to_pool_array
  publish polls frame pts_ns = do
    p ← this
    arr ← lift (mat_to_pool_array frame p.fmt p.width p.height)
    publish_arr polls arr pts_ns

  -- Under a lease publish_stream marks the slot as in flight when it builds the request.
  unfoldable pub leased_slot : ℕ → FramePublisher → Publish services ℕ
  unfolding acquire_slot_ids
  leased_slot polls p = do
    slot ← acquire_slot_ids services polls p.pool_ids
    update (λ q. record q { in_flight = insert (get_or p.pool_ids slot 0) q.in_flight })
    return slot

  unfoldable pub stream_slot : ℕ → Publish services ℕ
  unfolding leased_slot legacy_slot
  stream_slot polls = do p ← this; if p.lease then leased_slot polls p else legacy_slot services

  -- The loop of publish_stream from frame `i`: the requests that it adds.
  unfoldable pub write_frames : ℕ → List Mat → ℕ → List ℕ → Publish services (List PushFrameSpec)
  unfolding mat_to_pool_array stream_slot slot_spec
  write_frames polls [] i pts_ns = return []
  write_frames polls (frame ∷ frames) i pts_ns = do
    p ← this
    arr ← lift (mat_to_pool_array frame p.fmt p.width p.height)
    slot ← stream_slot polls
    call (write (pool_of p.pool) slot arr)
    specs ← write_frames polls frames (i + 1) pts_ns
    return (slot_spec p slot (get_or pts_ns i 0) ∷ specs)

  abbrev pub has_frames : List Mat → Bool
  has_frames [] = false
  has_frames (frame ∷ frames) = true

  -- The requests after those of the frames.
  abbrev pub ending : Bool → FramePublisher → List PushFrameSpec
  unfolding eos_spec
  ending end_with_eos p = if end_with_eos then eos_spec p ∷ [] else []

  unfoldable pub publish_stream : ℕ → List Mat → List ℕ → Bool → Publish services InjectionResult
  unfolding write_frames
  publish_stream polls frames pts_ns end_with_eos = do
    check_open
    specs ← write_frames polls frames 0 pts_ns
    when (has_frames frames) (update mark_published)
    p ← this
    when end_with_eos (update (λ q. record q { eos_sent = true }))
    call (push_frame_stream (specs ++ ending end_with_eos p))

  unfoldable pub publish_eos : Publish services (Unit {0})
  unfolding eos_spec
  publish_eos = do
    check_open
    p ← this
    _ ← call (push_frame (eos_spec p))
    update (λ q. record q { eos_sent = true })

  -- nv12_stage_ where the code follows the pointer.
  abbrev pub stage_of : Option Pool → Publish services Pool
  stage_of none = throw null_stage
  stage_of (some stage) = return stage

  abbrev pub write_stage : Option Pool → Mat → Publish services (Unit {0})
  write_stage stage pixels = do s ← stage_of stage; call (write s 0 pixels)

  -- The staging pools: allocated by the first call, and after that waited for under a lease. An nv12
  -- allocation that throws leaves the rgb pool without a stage.
  abbrev pub stage_pools : ℕ → FramePublisher → Option Pool → Publish services (Unit {0})
  unfolding acquire_slot_ids
  stage_pools polls p none = do
    rgb ← call (alloc_buffers p.width p.height "rgb24" (pos 1))
    update (λ q. record q { rgb_pool = some rgb })
    nv12 ← call (alloc_buffers p.width p.height "nv12" (pos 1))
    update (λ q. record q { nv12_stage = some nv12 })
  stage_pools polls p (some rgb) = when p.lease (do
    stage ← stage_of p.nv12_stage
    _ ← acquire_slot_ids services polls (buffer_id stage 0 ∷ [])
    return tt)

  abbrev pub pixels_of : Option Mat → Publish services Mat
  pixels_of none = throw unexpected_form
  pixels_of (some pixels) = return pixels

  unfoldable pub publish_rgb_arr : ℕ → Mat → ℕ → Publish services InjectionResult
  unfolding stage_pools absorb_lease
  publish_rgb_arr polls rgb pts_ns = do
    p ← this
    throws_if (not (str_eq p.mode "replace")) replace_only
    check_open
    stage_pools polls p p.rgb_pool
    q ← this
    out ← call (convert_hw rgb (pool_of q.rgb_pool) q.nv12_stage)
    pixels ← pixels_of out.0
    when (not out.1) (write_stage q.nv12_stage pixels)
    update mark_published
    stage ← stage_of q.nv12_stage
    res ← call (push_frame (stage_spec q stage pts_ns))
    absorb_lease services res
    return res

  unfoldable pub acquire_slot : ℕ → Publish services ℕ
  unfolding next_slot
  acquire_slot polls = do check_open; next_slot services polls

  unfoldable pub push_slot : ℤ → ℕ → Publish services InjectionResult
  unfolding push_slot_request
  push_slot slot pts_ns = do
    check_open
    p ← this
    throws_if (ltb_ℤ slot (pos 0) || leb_ℤ (pos p.pool_depth) slot) (bad_slot slot)
    update mark_published
    push_slot_request (pos_part slot) pts_ns

  abbrev pub release_if : Option Pool → W → W
  release_if none w = w
  release_if (some pool) w = release pool w

  unfoldable pub close : FramePublisher × W → FramePublisher × W
  close (p, w) = if p.closed then (p, w) else (
    record p { closed = true; pool = none; rgb_pool = none; nv12_stage = none },
    release_if p.nv12_stage (release_if p.rgb_pool (release_if p.pool w)),
  )

  -- The destructor: an end of stream if frames went out without one, its failure ignored.
  unfoldable pub destroy : FramePublisher × W → FramePublisher × W
  unfolding publish_eos close
  destroy (p, w) =
      if not p.closed && p.published_any && not p.eos_sent
      then close (publish_eos (p, w)).1
      else close (p, w)
