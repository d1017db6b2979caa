-- ===== src/Media/Decimation/Nth.antt =====
-- FdMediaStream::next and its interval, on a socket that carries frames.
use neoruntime_sdks.Base.{
  ℕ, zero, suc, ◌+◌, ◌-◌, ◌%◌, ◌^◌, ◌≤◌, ◌<◌, ◌≡◌, ◌≢◌, refl, sym, ap, ◌∙◌, inl, inr, List, [], ◌∷◌,
  ◌++◌, map, Option, none, some, Bool, true, false, ◌&&◌, not, ltb, ◌==◌, length, get_elem?, arith,
  Bool-cases,
}
use neoruntime_sdks.Media.{Client, StreamSock, Recv}
use neoruntime_sdks.Media.Pixels.{Platform}
use neoruntime_sdks.Media.Receive.{Frame}
use neoruntime_sdks.Media.Stream.{
  FdMediaStream, State, Round, returns, goes_on, is_skipped, count_frame, round, next_loop, unread,
  unconnected, pending, attempts_of, next,
}
use neoruntime_sdks.Media.Decimation.{
  Message, recv_of, Loads, LoadAll, IsFrameOf, Feeding, Handles, round-Handles,
}

-- The decimation test for interval `k` after `seen` frames and one more.
abbrev skips : ℕ → ℕ → Bool
skips k seen = ltb 1 k && not (((seen + 1) % 2 ^ 64 + (2 ^ 64 - 1)) % 2 ^ 64 % k == 0)

same_count : (n : ℕ) → n + 1 < 2 ^ 64 → ((n + 1) % 2 ^ 64 + (2 ^ 64 - 1)) % 2 ^ 64 ≡ n
same_count n h = omega arith

==_false : (a b : ℕ) → a ≢ b → (a == b) ≡ false
==_false a b h = ground arith

mod_one : (a k : ℕ) → 1 ≤ k → k ≤ 1 → a % k ≡ 0
mod_one a k h h' = let e : k ≡ 1 = omega arith in rw e (omega arith)

decimated : (k n : ℕ) → 1 ≤ k → n + 1 < 2 ^ 64 → n % k ≢ 0 → skips k n ≡ true
decimated k n hk h ne = elim (Bool-cases (ltb 1 k)) [
  | inl e ↦ rw (e, same_count n h, ==_false (n % k) 0 ne) refl
  | inr e ↦ absurd (ne (mod_one n k hk (ground arith)))
]

not_decimated : (k n : ℕ) → n + 1 < 2 ^ 64 → n % k ≡ 0 → skips k n ≡ false
not_decimated k n h e = elim (Bool-cases (ltb 1 k)) [
  | inl t ↦ rw (t, same_count n h, e) refl
  | inr t ↦ rw t refl
]

module _ (os : Platform) (i f : ℕ) (es : List Recv) (m : Message) where
  -- The frame of `m`, after `d` frames that were skipped.
  abbrev pub Yields : ℕ → FdMediaStream → Option (Option Frame × State) → Type 0
  Yields d st none = ⊥
  Yields d st (some (none, s)) = ⊥
  Yields d st (some (some fr, (st', c'))) =
      IsFrameOf m fr × ((st' ≡ record st { seen = st.seen + d + 1 }) × Feeding c' i f es)

  Yields-suc :
      (d : ℕ) (st : FdMediaStream) (o : Option (Option Frame × State))
      → st.seen + d + 2 < 2 ^ 64
      → Yields d (count_frame st) o
      → Yields (suc d) st o
  Yields-suc d st none h y = y
  Yields-suc d st (some (none, s)) h y = y
  Yields-suc d st (some (some fr, (st', c'))) h (y, (e, z)) =
      let n : (st.seen + 1) % 2 ^ 64 + d + 1 ≡ st.seen + suc d + 1 = omega arith in
      (y, (e ∙ ap (λ (t : ℕ). record st { seen = t }) n, z))

  last_round-Yields :
      (n left : ℕ) (st : FdMediaStream) (r : Round × State)
      → is_skipped (count_frame st) ≡ false
      → st.seen + 1 < 2 ^ 64
      → Handles os i f es left (count_frame st) m r
      → Yields 0 st (elim r.0 [ returns g ↦ some (g, r.1) | goes_on l ↦ next_loop os n l r.1 ])
  last_round-Yields n left st (goes_on l, s) t h (t', r) = absurd cc
  last_round-Yields n left st (returns none, s) t h r = r
  last_round-Yields n left st (returns (some fr), (st', c')) t h (t', (y, (e, z))) =
      let n : (st.seen + 1) % 2 ^ 64 ≡ st.seen + 0 + 1 = omega arith in
      (y, (e ∙ ap (λ (t : ℕ). record st { seen = t }) n, z))

  skip_round-Yields :
      (n left d : ℕ) (st : FdMediaStream) (x : Message) (rest : List Recv) (r : Round × State)
      → is_skipped (count_frame st) ≡ true
      → st.seen + d + 2 < 2 ^ 64
      → Handles os i f rest left (count_frame st) x r
      → ((l : ℕ) (c : Client)
          → Feeding c i f rest
          → Yields d (count_frame st) (next_loop os n l (count_frame st, c)))
      → Yields
          (suc d)
          st
          (elim r.0 [ returns g ↦ some (g, r.1) | goes_on l ↦ next_loop os n l r.1 ])
  skip_round-Yields n left d st x rest (goes_on l, (st', c')) t h (t', (p, (e, z))) rec =
      rw e (Yields-suc d st (next_loop os n l (count_frame st, c')) h (rec l c' z))
  skip_round-Yields n left d st x rest (returns none, s) t h r rec = r
  skip_round-Yields n left d st x rest (returns (some fr), s) t h (t', r) rec = absurd cc

  next_loop-Yields :
      (ms : List Message) (n left : ℕ) (st : FdMediaStream) (c : Client)
      → length ms < n
      → st.sock ≡ some i
      → 1 ≤ st.interval
      → LoadAll os st.keep_fd ms
      → Loads os st.keep_fd m
      → st.seen + length ms + 1 < 2 ^ 64
      → ((j : ℕ) → j < length ms → (st.seen + j) % st.interval ≢ 0)
      → (st.seen + length ms) % st.interval ≡ 0
      → Feeding c i f (map recv_of ms ++ (recv_of m ∷ es))
      → Yields (length ms) st (next_loop os n left (st, c))
  unfolding next_loop
  next_loop-Yields ms zero left st c hn hs hk la lm hb hj hd hf = absurd (omega arith)
  next_loop-Yields [] (suc n) left st c hn hs hk la lm hb hj hd hf =
      let e : st.seen + 0 ≡ st.seen = omega arith in
      last_round-Yields n left st (round os left (st, c))
        (not_decimated st.interval st.seen (omega arith)
          (ap (λ (t : ℕ). t % st.interval) (sym e) ∙ hd))
        (omega arith) (round-Handles os i f es left st m c hs lm hf)
  next_loop-Yields (x ∷ xs) (suc n) left st c hn hs hk (lx, la) lm hb hj hd hf =
      let rest = map recv_of xs ++ (recv_of m ∷ es) in
      let e : st.seen + 0 ≡ st.seen = omega arith in
      let next_seen : (st.seen + 1) % 2 ^ 64 ≡ st.seen + 1 = omega arith in
      let ne : st.seen % st.interval ≢ 0 =
        λ z. hj 0 (omega arith) (ap (λ (t : ℕ). t % st.interval) e ∙ z) in
      skip_round-Yields n left (length xs) st x rest (round os left (st, c))
        (decimated st.interval st.seen hk (omega arith) ne) (omega arith)
        (round-Handles os i f rest left st x c hs lx hf)
        (λ l c'.
          next_loop-Yields xs n l (count_frame st) c' (omega arith) hs hk la lm (omega arith)
            (λ j h z.
              let s : st.seen + suc j ≡ (st.seen + 1) % 2 ^ 64 + j = omega arith in
              hj (suc j) (omega arith) (ap (λ (t : ℕ). t % st.interval) s ∙ z))
            (let s : (st.seen + 1) % 2 ^ 64 + length xs ≡ st.seen + suc (length xs) = omega arith in
              ap (λ (t : ℕ). t % st.interval) s ∙ hd))

unread-ge :
    (ss : List StreamSock) (i : ℕ) (s : StreamSock)
    → get_elem? ss i ≡ some s
    → length s.incoming ≤ unread ss
unread-ge [] i s h = absurd cc
unread-ge (t ∷ ss) zero s h = grind arith
unread-ge (t ∷ ss) (suc i) s h = omega (arith, unread-ge ss i s h)

length-script : (ms : List Message) (rs : List Recv) → length ms ≤ length (map recv_of ms ++ rs)
length-script [] rs = omega arith
length-script (m ∷ ms) rs = omega (arith, length-script ms rs)

-- A stream that has an open socket on which frames come in, those of `ms` and then that of `m`, all
-- of which load: if the number of frames seen before is not a multiple of the interval at any of
-- `ms` and is one at `m`, then next() returns the frame of `m`, counts all of them as seen, and
-- leaves the socket open at what comes after it. The counter is taken not to wrap on the way.
pub next_decimates :
    (os : Platform) (i f : ℕ) (ms : List Message) (m : Message) (es : List Recv)
    (st : FdMediaStream) (c : Client)
    → st.exhausted ≡ false
    → st.sock ≡ some i
    → 1 ≤ st.interval
    → LoadAll os st.keep_fd ms
    → Loads os st.keep_fd m
    → st.seen + length ms + 1 < 2 ^ 64
    → ((j : ℕ) → j < length ms → (st.seen + j) % st.interval ≢ 0)
    → (st.seen + length ms) % st.interval ≡ 0
    → Feeding c i f (map recv_of ms ++ (recv_of m ∷ es))
    → Yields os i f es m (length ms) st (next os (st, c))
unfolding next pending
next_decimates os i f ms m es st c ex hs hk la lm hb hj hd hf =
    let rs = recv_of m ∷ es in
    let s : StreamSock = record { fd = some f; alive = true; incoming = map recv_of ms ++ rs } in
    let enough : length ms < unread c.socks + unconnected c.connects + attempts_of st + 1 =
      omega (arith, unread-ge c.socks i s hf, length-script ms rs) in
    simp ex (
      next_loop-Yields os i f es m ms (unread c.socks + unconnected c.connects + attempts_of st + 1)
        (attempts_of st) st c enough hs hk la lm hb hj hd hf)
