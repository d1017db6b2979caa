-- ===== src/Media/Still.antt =====
-- Calls on frames, and the sockets and coming connects of the client.
use neoruntime_sdks.Base.{
  ℕ, ◌≡◌, refl, inl, inr, ◌∙◌, Option, none, some, get_elem?, Bool-cases, Option-cases,
}
use neoruntime_sdks.Media.{Client, FrameHandle}
use neoruntime_sdks.Media.Handles.{
  is_live, discard_retained, release_on_sock, run_on_release, mark_closed, close_open, close_handle,
  fewer_copies, drop_copy,
}
use neoruntime_sdks.Media.Receive.{Frame, release, drop_frame}

abbrev pub Still : Client → Client → Type 0
Still c c' = (c'.socks ≡ c.socks) × (c'.connects ≡ c.connects)

run_on_release-Still : (o : Option ℕ) (id j : ℕ) (c : Client) → Still c (run_on_release o id j c)
unfolding discard_retained release_on_sock
run_on_release-Still none id j c = (refl, refl)
run_on_release-Still (some i) id j c = (refl, refl)

close_open-Still : (j : ℕ) (o : Option FrameHandle) (c : Client) → Still c (close_open j o c)
close_open-Still j none c = (refl, refl)
close_open-Still j (some h) c = elim (Bool-cases h.closed) [
  | inl e ↦ rw e (refl, refl)
  | inr e ↦ rw e (run_on_release-Still h.on_release h.frame_id j (mark_closed j h c))
]

pub close_handle-Still : (j : ℕ) (c : Client) → Still c (close_handle j c)
unfolding close_handle
close_handle-Still j c = close_open-Still j (get_elem? c.handles j) c

fewer_copies-Still : (o : Option FrameHandle) (j : ℕ) (c : Client) → Still c (fewer_copies o j c)
fewer_copies-Still none j c = (refl, refl)
fewer_copies-Still (some h) j c = (refl, refl)

Still-trans : (a b c : Client) → Still a b → Still b c → Still a c
Still-trans a b c (p, q) (r, s) = (r ∙ p, s ∙ q)

pub drop_copy-Still : (j : ℕ) (c : Client) → Still c (drop_copy j c)
unfolding drop_copy
drop_copy-Still j c =
    let c' = fewer_copies (get_elem? c.handles j) j c in
    let less = fewer_copies-Still (get_elem? c.handles j) j c in
    elim (Bool-cases (is_live c'.handles j)) [
      | inl live ↦ rw live less
      | inr last ↦ rw last (Still-trans c c' (close_handle j c') less (close_handle-Still j c'))
    ]

-- A frame that is released and goes.
pub release-Still : (f : Frame) (c : Client) → Still c (drop_frame f (release f c))
release-Still f c = elim (Option-cases f.handle) [
  | inl e ↦ rw e (refl, refl)
  | inr (j, e) ↦ rw e (
      Still-trans c (close_handle j c) (drop_copy j (close_handle j c)) (close_handle-Still j c)
        (drop_copy-Still j (close_handle j c)))
]
