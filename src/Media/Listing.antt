-- ===== src/Media/Listing.antt =====
-- list_streams of media/fd_media_client.cpp: the camera daemon's answer, cached. Times are in
-- milliseconds of the steady clock; no answer stands for a call of the daemon that throws.
use neoruntime_sdks.Base.{ℕ, ◌-◌, ◌*◌, List, [], ◌∷◌, Option, none, some, Bool, ltb, if◌then◌else◌}

abbrev pub list_streams_cache_ms : ℕ
list_streams_cache_ms = 5 * 1000

pub record StreamStatus : Type 0 where
  pub stream_id : List ℕ
  pub is_active : Bool

abbrev pub ListCache : Type 0
ListCache = Option (ℕ × List (List ℕ))

abbrev pub active_ids : List StreamStatus → List (List ℕ)
active_ids [] = []
active_ids (s ∷ ss) = let rest = active_ids ss in if s.is_active then s.stream_id ∷ rest else rest

abbrev pub guaranteed : List (List ℕ)
guaranteed = (b'm' ∷ b'a' ∷ b'i' ∷ b'n' ∷ []) ∷ (b's' ∷ b'u' ∷ b'b' ∷ []) ∷ []

abbrev pub or_guaranteed : List (List ℕ) → List (List ℕ)
or_guaranteed [] = guaranteed
or_guaranteed (id ∷ ids) = id ∷ ids

abbrev pub probe : ℕ → Option (List StreamStatus) → List (List ℕ) × ListCache
probe now none = (guaranteed, some (now, guaranteed))
probe now (some ss) = let ids = or_guaranteed (active_ids ss) in (ids, some (now, ids))

unfoldable pub list_streams : ℕ → Option (List StreamStatus) → ListCache → List (List ℕ) × ListCache
list_streams now answer none = probe now answer
list_streams now answer (some (at, ids)) =
    let fresh = probe now answer in
    if ltb (now - at) list_streams_cache_ms then (ids, some (at, ids)) else fresh
