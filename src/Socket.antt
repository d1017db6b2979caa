-- ===== src/Socket.antt =====
-- detail/raw_socket.hpp: the loops that read or write exactly `n` bytes. The kernel's side of a
-- connected socket is the list of what its calls will return: some bytes, an interruption by a
-- signal, or a failure (a timeout set by set_recv_timeout included). After the list the peer has
-- closed. A recv of fewer bytes than a chunk holds leaves the rest of it to the next call.
pub mod Exact
mod Tests
use neoruntime_sdks.Base.{
  ℕ, zero, suc, ◌-◌, List, [], ◌∷◌, ◌++◌, Option, none, some, Bool, true, false, leb, ltb, ◌==◌,
  if◌then◌else◌, length, take, drop,
}

pub data Event : Type 0 where
  -- At least one byte.
  chunk : ℕ → List ℕ → Event
  interrupted failed : Event

-- The bytes that a read has collected, `none` for a read that returned false, and what is left.
abbrev pub Read : Type 0
Read = Option (List ℕ) × List Event

abbrev pub prepend : List ℕ → Read → Read
prepend got (none, es) = (none, es)
prepend got (some bs, es) = (some (got ++ bs), es)

-- The rest of a chunk of which a call has taken `n` bytes.
abbrev pub leftover : List ℕ → List Event → List Event
leftover [] es = es
leftover (b ∷ bs) es = chunk b bs ∷ es

-- The loop of recv_exact with `n` bytes still to read: a call is made only if `n` is not 0.
unfoldable pub recv_exact : List Event → ℕ → Read
recv_exact es zero = (some [], es)
recv_exact [] (suc n) = (none, [])
recv_exact (failed ∷ es) (suc n) = (none, es)
recv_exact (interrupted ∷ es) (suc n) = recv_exact es (suc n)
recv_exact (chunk b bs ∷ es) (suc n) =
    let rest = recv_exact es (n - length bs) in
    if leb (length bs) n
    then prepend (b ∷ bs) rest
    else (some (b ∷ take n bs), leftover (drop n bs) es)

-- What one send accepts: up to `k` bytes, an interruption, or a failure.
pub data Accept : Type 0 where
  accepts : ℕ → Accept
  interrupts fails : Accept

-- The loop of send_all over the kernel's answers: whether it sent all, and the bytes that the peer
-- got. A send that accepts nothing fails, and so does one that the kernel never answers.
unfoldable pub send_all : List Accept → List ℕ → Bool × List ℕ
send_all ks [] = (true, [])
send_all [] (b ∷ bs) = (false, [])
send_all (fails ∷ ks) (b ∷ bs) = (false, [])
send_all (interrupts ∷ ks) (b ∷ bs) = send_all ks (b ∷ bs)
send_all (accepts zero ∷ ks) (b ∷ bs) = (false, [])
send_all (accepts (suc k) ∷ ks) (b ∷ bs) =
    let (done, sent) = send_all ks (drop k bs) in (done, b ∷ (take k bs ++ sent))
