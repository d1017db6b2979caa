-- ===== src/Subscribe/Tests.antt =====
-- The theorems about subscriptions at concrete histories.
use neoruntime_sdks.Base.{
  ℕ, ◌*◌, ◌≡◌, refl, inr, List, [], ◌∷◌, ◌++◌, map, Bool, true, false, none, some, arith,
}
use neoruntime_sdks.Base.Int.{pos}
use neoruntime_sdks.Base.Double.{whole}
use neoruntime_sdks.Subscribe.Queue.{BoundedDropOldestQueue, offer, take, empty}
use neoruntime_sdks.Subscribe.Queue.Newest.{
  History, offers, takes, Reach, here, next, start, after_offer, IsNewest, Reach-IsNewest,
}
use neoruntime_sdks.Subscribe.Limiter.{fresh, note_failure, notes, note_failure_trips}
use neoruntime_sdks.Subscribe.Stream
use neoruntime_sdks.Subscribe.Stream.{
  Response, Item, response, Next, Stream, subscribe, pump, ended, throws, consecutive_failures,
  stream_error,
}
use neoruntime_sdks.Subscribe.Stream.Drain.{RunsBelow, none_left, delivered, skipped, drain}
use neoruntime_sdks.Subscribe.Stream.Pump.{drain-pump}
use neoruntime_sdks.Subscribe.Stream.Trips.{next_trips}

-- A queue of two: 1, 2 and 3 are offered, and the oldest left is taken.
abbrev offered_three : History ℕ
offered_three = after_offer 3 (after_offer 2 (after_offer 1 (start ℕ 2)))

abbrev left : BoundedDropOldestQueue ℕ
left = record { capacity = 2; items = 3 ∷ []; dropped = 1 }

history : Reach (start ℕ 2) (record { queue = left; offered = 1 ∷ 2 ∷ 3 ∷ []; taken = 1 })
unfolding offer take empty
history = next (next (next (next here (offers 1)) (offers 2)) (offers 3)) (takes 2 left refl)

Reach-IsNewest_example : IsNewest (record { queue = left; offered = 1 ∷ 2 ∷ 3 ∷ []; taken = 1 })
Reach-IsNewest_example = Reach-IsNewest 2 history

abbrev frames : List Bool
frames = true ∷ false ∷ true ∷ []

note_failure_trips_example : (note_failure (notes frames (fresh 2))).0 ≡ true
note_failure_trips_example = note_failure_trips frames 2 (omega arith) (omega arith)

abbrev frame : ℕ → Bool → Response ℕ
frame n good = record {
  wall_ns = pos 9;
  timestamp_ns = pos 1;
  skew_us = pos 0;
  success = good;
  message = "npu busy";
  frame_sequence = n;
  result = n * 10;
}

abbrev sent : List (Response ℕ)
sent = frame 1 true ∷ frame 2 false ∷ frame 3 true ∷ []

sent_below : RunsBelow 2 0 sent
sent_below = delivered refl (skipped refl (inr (omega arith)) (delivered refl none_left))

-- A queue of three keeps the last two responses and the end.
drain-pump_example :
    drain whole 4 (pump whole sent none (subscribe whole ℕ (some 2) (some 3)))
    ≡ ((3, 30) ∷ [], ended)
drain-pump_example =
    drain-pump whole 2 2 sent none (omega arith)
      (skipped refl (inr (omega arith)) (delivered refl none_left))

abbrev waiting : List (Item ℕ) → Stream whole ℕ
waiting items = record (subscribe whole ℕ (some 2) none) {
  queue = record { capacity = 0; items = items; dropped = 0 };
}

abbrev failing : Stream whole ℕ
failing = waiting (map response (frame 4 false ∷ []) ++ (response (frame 5 false) ∷ []))

next_trips_example :
    ((Stream.next whole failing).0 ≡ throws (consecutive_failures 2 5 "npu busy"))
    × (Stream.next whole (Stream.next whole failing).1 ≡ (ended, (Stream.next whole failing).1))
unfolding subscribe fresh
next_trips_example =
    next_trips whole (frame 4 false ∷ []) (frame 5 false) [] failing refl refl (refl, tt) refl
      (omega arith) refl
