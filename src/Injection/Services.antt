-- ===== src/Injection/Services.antt =====
-- What FramePublisher (injection.cpp, injection.hpp) is made of, the calls that it makes of its clients
-- and of the clock, and std::set as it uses it.
use Prim.Native.String.{String}
use neoruntime_sdks.Base.{
  ℕ, List, [], ◌∷◌, Option, Bool, false, ◌||◌, ltb, ◌==◌, if◌then◌else◌, Result,
}
use neoruntime_sdks.Base.Int.{ℤ}
use neoruntime_sdks.Injection.{PublishError, StreamStatus, Mat}

pub record InjectionResult : Type 0 where
  pub success : Bool
  pub in_flight_buffer_ids : List ℕ

pub record InjectionStatus : Type 0 where
  pub in_flight_buffer_ids : List ℕ
  pub reports_in_flight_buffers : Bool

pub record PushFrameSpec : Type 0 where
  pub buffer_id : ℕ
  pub width : ℕ
  pub height : ℕ
  pub stride : ℕ
  pub mode : String
  pub pts_ns : ℕ
  pub dest_x : ℕ
  pub dest_y : ℕ
  pub stream_id : String
  pub end_of_stream : Bool
  pub session_id : String

-- A pool as the publisher sees it: DspBufferPool or, if `shared`, SharedImportPool, with the id of
-- each of the buffers that were asked for.
pub record Pool : Type 0 where
  pub shared : Bool
  pub buffer_ids : List ℕ
  pub stride0 : ℕ

pub record Config : Type 0 where
  pub mode : String
  pub fmt : String
  pub inset : Option (ℤ × ℤ)
  pub dest : ℤ × ℤ
  pub session_id : String
  pub lease_timeout_ns : ℕ

pub record FramePublisher : Type 0 where
  pub stream_id : String
  pub session_id : String
  pub mode : String
  pub fmt : String
  pub width : ℤ
  pub height : ℤ
  pub dest_x : ℤ
  pub dest_y : ℤ
  pub pool_depth : ℕ
  pub lease_timeout_ns : ℕ
  pub pool : Option Pool
  pub pool_ids : List ℕ
  pub rgb_pool : Option Pool
  pub nv12_stage : Option Pool
  pub lease : Bool
  pub slot_cursor : ℕ
  pub in_flight : List ℕ
  pub closed : Bool
  pub published_any : Bool
  pub eos_sent : Bool

-- CameraClient, DspClient and the clock, over the state of the rest of the system. A call that
-- throws returns `err`. `write` stores the bytes of a Mat into slot `index` of a pool; `convert_hw`
-- returns the pixels, if they are a Mat, and last_used_hw. The deadline of push_frame_stream is passed
-- on by the code unread, and left out.
pub record Services (W : Type 0) : Type 0 where
  pub get_stream_status : W → Result PublishError (List StreamStatus) × W
  pub injection_status : W → Result PublishError InjectionStatus × W
  pub push_frame : PushFrameSpec → W → Result PublishError InjectionResult × W
  pub push_frame_stream : List PushFrameSpec → W → Result PublishError InjectionResult × W
  pub alloc_buffers : ℤ → ℤ → String → ℤ → W → Result PublishError Pool × W
  pub import_shared_buffers : ℤ → ℤ → String → ℤ → W → Result PublishError Pool × W
  pub write : Pool → ℕ → Mat → W → Result PublishError (Unit {0}) × W
  pub convert_hw : Mat → Pool → Option Pool → W → Result PublishError (Option Mat × Bool) × W
  pub release : Pool → W → W
  pub now_ns : W → ℕ × W
  pub sleep_ms : ℕ → W → W

abbrev pub contains : List ℕ → ℕ → Bool
contains [] id = false
contains (x ∷ xs) id = x == id || contains xs id

-- std::set insertion: sorted, without repeats.
abbrev pub insert : ℕ → List ℕ → List ℕ
insert id [] = id ∷ []
insert id (x ∷ xs) =
    let rest = insert id xs in
    if ltb id x then id ∷ x ∷ xs else if x == id then x ∷ xs else x ∷ rest

unfoldable pub set_from : List ℕ → List ℕ
set_from [] = []
set_from (id ∷ ids) = insert id (set_from ids)
