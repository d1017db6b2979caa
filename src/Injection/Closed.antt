-- ===== src/Injection/Closed.antt =====
-- A FramePublisher that is closed.
use neoruntime_sdks.Base.{ℕ, ◌≡◌, List, Bool, true, err, Bool-cases, inl, inr}
use neoruntime_sdks.Base.Int.{ℤ}
use neoruntime_sdks.Injection.{is_closed, Mat}
use neoruntime_sdks.Injection.Services.{FramePublisher, Services}
use neoruntime_sdks.Injection.Publisher.{Publish}
use neoruntime_sdks.Injection.Publish.{
  publish_arr, publish_stream, publish_eos, acquire_slot, push_slot, close, destroy,
}

module _ {W : Type 0} (services : Services W) where
  -- An operation that throws "closed" and does nothing else.
  abbrev pub Refuses : {A : Type 0} → Publish services A → FramePublisher → W → Type 0
  Refuses m p w = m (p, w) ≡ (err is_closed, (p, w))

  close-closed : (p : FramePublisher) (w : W) → (close services (p, w)).0.closed ≡ true
  unfolding close
  close-closed p w = elim (Bool-cases p.closed) [ inl shut ↦ rw shut | inr still ↦ rw still ]

  module _ (polls : ℕ) (arr : Mat) (frames : List Mat) (pts_ns : ℕ) (all_pts : List ℕ) (eos : Bool)
      (slot : ℤ) where
    -- What holds of every operation on a closed publisher.
    abbrev pub AllRefuse : FramePublisher → W → Type 0
    AllRefuse p w =
        Refuses (publish_arr services polls arr pts_ns) p w
        × Refuses (publish_stream services polls frames all_pts eos) p w
        × Refuses (publish_eos services) p w
        × Refuses (acquire_slot services polls) p w
        × Refuses (push_slot services slot pts_ns) p w
        × (close services (p, w) ≡ (p, w))
        × (destroy services (p, w) ≡ (p, w))

    closed-AllRefuse : (p : FramePublisher) (w : W) → p.closed ≡ true → AllRefuse p w
    unfolding publish_arr publish_stream publish_eos acquire_slot push_slot close destroy
    closed-AllRefuse p w e = (rw e, rw e, rw e, rw e, rw e, rw e, rw e)

    -- After close(), whatever the publisher's state was, publish_arr, publish_stream, publish_eos,
    -- acquire_slot and push_slot throw that it is closed and change nothing, neither the publisher
    -- nor a daemon, and a second close() and the destructor do nothing.
    pub close-AllRefuse :
        (p : FramePublisher) (w : W) → AllRefuse (close services (p, w)).0 (close services (p, w)).1
    close-AllRefuse p w = closed-AllRefuse _ _ (close-closed p w)
