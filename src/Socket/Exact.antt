-- ===== src/Socket/Exact.antt =====
-- recv_exact and send_all, and the pieces in which the kernel moves the bytes.
use neoruntime_sdks.Base.{
  ℕ, zero, suc, ◌-◌, ◌≤◌, ◌≡◌, refl, sym, ap, ◌∙◌, List, [], ◌∷◌, ◌++◌, append_assoc, some, Bool,
  true, false, leb, le→leb, arith, length, length-append, take, drop, take-append-drop,
}
use native.Mathlib.Decide.{dec_le}
use neoruntime_sdks.Socket.{
  Event, chunk, interrupted, failed, Read, leftover, recv_exact, Accept, accepts, interrupts, fails,
  send_all,
}

-- The bytes that a socket will deliver.
abbrev pub stream : List Event → List ℕ
stream [] = []
stream (chunk b bs ∷ es) = b ∷ (bs ++ stream es)
stream (interrupted ∷ es) = stream es
stream (failed ∷ es) = stream es

-- No call fails.
abbrev pub IsHealthy : List Event → Type 0
IsHealthy [] = Unit {0}
IsHealthy (chunk b bs ∷ es) = IsHealthy es
IsHealthy (interrupted ∷ es) = IsHealthy es
IsHealthy (failed ∷ es) = ⊥

-- A read that succeeded with exactly `n` bytes from the front of the stream.
pub record Reads (n : ℕ) (es : List Event) (out : Read) : Type 0 where
  pub rest : List Event
  pub result : out ≡ (some (take n (stream es)), rest)
  pub remaining : stream rest ≡ drop n (stream es)
  pub healthy : IsHealthy rest

stream-leftover : (bs : List ℕ) (es : List Event) → stream (leftover bs es) ≡ bs ++ stream es
stream-leftover [] es = refl
stream-leftover (b ∷ bs) es = refl

IsHealthy-leftover : (bs : List ℕ) (es : List Event) → IsHealthy es → IsHealthy (leftover bs es)
IsHealthy-leftover [] es h = h
IsHealthy-leftover (b ∷ bs) es h = h

take_append_le : (n : ℕ) (xs ys : List ℕ) → n ≤ length xs → take n (xs ++ ys) ≡ take n xs
take_append_le zero xs ys h = refl
take_append_le (suc n) [] ys h = absurd (omega arith)
take_append_le (suc n) (x ∷ xs) ys h = ap (◌∷◌ x) (take_append_le n xs ys (omega arith))

drop_append_le : (n : ℕ) (xs ys : List ℕ) → n ≤ length xs → drop n (xs ++ ys) ≡ drop n xs ++ ys
drop_append_le zero xs ys h = refl
drop_append_le (suc n) [] ys h = absurd (omega arith)
drop_append_le (suc n) (x ∷ xs) ys h = drop_append_le n xs ys (omega arith)

take_append_ge :
    (n : ℕ) (xs ys : List ℕ) → length xs ≤ n → take n (xs ++ ys) ≡ xs ++ take (n - length xs) ys
take_append_ge n [] ys h = let e : n - 0 ≡ n = omega arith in rw e
take_append_ge zero (x ∷ xs) ys h = absurd (omega arith)
take_append_ge (suc n) (x ∷ xs) ys h =
    let e : suc n - suc (length xs) ≡ n - length xs = omega arith in
    rw e (ap (◌∷◌ x) (take_append_ge n xs ys (omega arith)))

drop_append_ge :
    (n : ℕ) (xs ys : List ℕ) → length xs ≤ n → drop n (xs ++ ys) ≡ drop (n - length xs) ys
drop_append_ge n [] ys h = let e : n - 0 ≡ n = omega arith in rw e
drop_append_ge zero (x ∷ xs) ys h = absurd (omega arith)
drop_append_ge (suc n) (x ∷ xs) ys h =
    let e : suc n - suc (length xs) ≡ n - length xs = omega arith in
    rw e (drop_append_ge n xs ys (omega arith))

-- recv_exact on a socket that delivers at least `n` bytes and does not fail returns the first `n`
-- of them, however they are split into chunks and interrupted, and leaves the rest to be read.
pub recv_exact-Reads :
    (es : List Event) (n : ℕ) → IsHealthy es → n ≤ length (stream es) → Reads n es (recv_exact es n)
unfolding recv_exact
recv_exact-Reads es zero h le = record { rest = es; result = refl; remaining = refl; healthy = h }
recv_exact-Reads [] (suc n) h le = absurd (omega arith)
recv_exact-Reads (failed ∷ es) (suc n) h le = absurd h
recv_exact-Reads (interrupted ∷ es) (suc n) h le =
    let r = recv_exact-Reads es (suc n) h le in
    record { rest = r.rest; result = r.result; remaining = r.remaining; healthy = r.healthy }
recv_exact-Reads (chunk b bs ∷ es) (suc n) h le =
    let e = length-append bs (stream es) in
    elim (dec_le (length bs) n) [
      | yes whole ↦
          let r = recv_exact-Reads es (n - length bs) h (omega arith) in
          record {
            rest = r.rest;
            result =
                rw (le→leb (length bs) n whole, r.result, take_append_ge n bs (stream es) whole);
            remaining = r.remaining ∙ sym (drop_append_ge n bs (stream es) whole);
            healthy = r.healthy;
          }
      | no part ↦ record {
        rest = leftover (drop n bs) es;
        result =
            let t : leb (length bs) n ≡ false = ground arith in
            rw (t, take_append_le n bs (stream es) (omega arith));
        remaining =
            stream-leftover (drop n bs) es ∙ sym (drop_append_le n bs (stream es) (omega arith));
        healthy = IsHealthy-leftover (drop n bs) es h;
      }
    ]

abbrev pub is_empty : List ℕ → Bool
is_empty [] = true
is_empty (b ∷ bs) = false

-- The bytes that the peer got from a send are a prefix of the buffer, and all of it exactly when
-- the send reports success.
pub record Sends (bs : List ℕ) (out : Bool × List ℕ) : Type 0 where
  pub rest : List ℕ
  pub prefix : out.1 ++ rest ≡ bs
  pub all : out.0 ≡ is_empty rest

-- Whatever the kernel answers to the sends of send_all, the peer gets a prefix of the buffer, and
-- all of it exactly when send_all returns true.
pub send_all-Sends : (ks : List Accept) (bs : List ℕ) → Sends bs (send_all ks bs)
unfolding send_all
send_all-Sends ks [] = record { rest = []; prefix = refl; all = refl }
send_all-Sends [] (b ∷ bs) = record { rest = b ∷ bs; prefix = refl; all = refl }
send_all-Sends (fails ∷ ks) (b ∷ bs) = record { rest = b ∷ bs; prefix = refl; all = refl }
send_all-Sends (interrupts ∷ ks) (b ∷ bs) =
    let s = send_all-Sends ks (b ∷ bs) in record { rest = s.rest; prefix = s.prefix; all = s.all }
send_all-Sends (accepts zero ∷ ks) (b ∷ bs) = record { rest = b ∷ bs; prefix = refl; all = refl }
send_all-Sends (accepts (suc k) ∷ ks) (b ∷ bs) =
    let s = send_all-Sends ks (drop k bs) in
    record {
      rest = s.rest;
      prefix =
          ap (◌∷◌ b) (
            append_assoc (take k bs) _ s.rest
            ∙ ap (take k bs ++◌) s.prefix
            ∙ take-append-drop k bs);
      all = s.all;
    }
