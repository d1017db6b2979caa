-- ===== src/Media/Sockets.antt =====
-- FdMediaClient::Impl of media/fd_media_client.cpp: the sockets that it caches by stream, how it
-- connects one, drops one, and closes. Each call is atomic, as the locks of the code make it.
use neoruntime_sdks.Base.{
  ℕ, List, [], ◌∷◌, ◌++◌, Option, none, some, Bool, true, false, ◌==◌, ◌&&◌, if◌then◌else◌, length,
  get_elem?, set, Result, ok, err,
}
use neoruntime_sdks.Socket.{Read, recv_exact, send_all}
use neoruntime_sdks.Wire.Words.{get_u32, get_i32}
use neoruntime_sdks.Media.{
  opened, closed_fd, MediaError, connect_failed, send_failed, no_response, rejected, Client,
  StreamSock, Peer, subscribe_msg, unsubscribe_msg, close_fd, send_on, fd_resp_size,
}
use neoruntime_sdks.Media.Handles.{prune, close_handle}

abbrev pub eq_name : List ℕ → List ℕ → Bool
eq_name [] [] = true
eq_name [] (y ∷ ys) = false
eq_name (x ∷ xs) [] = false
eq_name (x ∷ xs) (y ∷ ys) = (x == y) && eq_name xs ys

abbrev pub find_stream : List ℕ → List (List ℕ × ℕ) → Option ℕ
find_stream id [] = none
find_stream id ((k, i) ∷ m) = if eq_name k id then some i else find_stream id m

abbrev pub erase_stream : List ℕ → List (List ℕ × ℕ) → List (List ℕ × ℕ)
erase_stream id [] = []
erase_stream id ((k, i) ∷ m) =
    let rest = erase_stream id m in if eq_name k id then rest else (k, i) ∷ rest

-- The answer to a SUBSCRIBE: an OK, or else the code that came with the refusal.
abbrev pub accepted : Read → Result MediaError (Unit {0})
accepted (none, es) = err no_response
accepted (some resp, es) = if get_u32 resp 0 == 5 then ok tt else err (rejected (get_i32 resp 8))

-- connect_stream_fd on a connected descriptor.
unfoldable pub subscribe_on : List ℕ → Peer → Result MediaError (Unit {0})
subscribe_on id p =
    if (send_all p.accepts_bytes (subscribe_msg id)).0
    then accepted (recv_exact p.reply fd_resp_size)
    else err send_failed

-- The socket is cached, or closed again.
abbrev pub cache_sock :
    List ℕ → Peer → Result MediaError (Unit {0}) → Client → Result MediaError ℕ × Client
cache_sock id p (err e) c =
    (err e, record c { log = closed_fd p.socket ∷ (opened p.socket ∷ c.log) })
cache_sock id p (ok _) c = (
  ok (length c.socks),
  record c {
    streams = (id, length c.socks) ∷ erase_stream id c.streams;
    socks = c.socks ++ (record { fd = some p.socket; alive = true; incoming = p.script } ∷ []);
    log = opened p.socket ∷ c.log;
  },
)

abbrev pub connect_with : List ℕ → List (Option Peer) → Client → Result MediaError ℕ × Client
connect_with id [] c = (err connect_failed, c)
connect_with id (none ∷ ps) c = (err connect_failed, record c { connects = ps })
connect_with id (some p ∷ ps) c = cache_sock id p (subscribe_on id p) (record c { connects = ps })

unfoldable pub connect_stream : List ℕ → Client → Result MediaError ℕ × Client
unfolding subscribe_on
connect_stream id c = connect_with id c.connects c

abbrev pub is_alive : Option StreamSock → Bool
is_alive none = false
is_alive (some s) = s.alive

abbrev pub get_cached : List ℕ → Option ℕ → Client → Result MediaError ℕ × Client
get_cached id none c = connect_stream id c
get_cached id (some i) c =
    if is_alive (get_elem? c.socks i)
    then (ok i, c)
    else connect_stream id (record c { streams = erase_stream id c.streams })

unfoldable pub get_sock : List ℕ → Client → Result MediaError ℕ × Client
unfolding connect_stream
get_sock id c = get_cached id (find_stream id c.streams) c

-- `if (s->alive) { …; s->alive = false; ::close(s->fd); s->fd = -1; }`, with the bytes sent first.
abbrev pub shut : Option (List ℕ) → ℕ → Option StreamSock → Client → Client
shut farewell i none c = c
shut farewell i (some s) c =
    if s.alive
    then record c {
      socks = set c.socks i (record s { alive = false; fd = none });
      log = close_fd s.fd (elim farewell [ none ↦ c.log | some bytes ↦ send_on s.fd bytes c.log ]);
    }
    else c

unfoldable pub shut_sock : Option (List ℕ) → ℕ → Client → Client
shut_sock farewell i c = shut farewell i (get_elem? c.socks i) c

abbrev pub drop_cached : List ℕ → Option ℕ → Client → Client
drop_cached id none c = c
drop_cached id (some i) c = shut_sock none i (record c { streams = erase_stream id c.streams })

unfoldable pub drop_sock : List ℕ → Client → Client
unfolding shut_sock
drop_sock id c = drop_cached id (find_stream id c.streams) c

unfoldable pub close_handles : List ℕ → Client → Client
unfolding close_handle
close_handles [] c = c
close_handles (j ∷ js) c = close_handles js (close_handle j c)

unfoldable pub shut_all : List (List ℕ × ℕ) → Client → Client
unfolding shut_sock
shut_all [] c = c
shut_all ((k, i) ∷ m) c = shut_all m (shut_sock (some unsubscribe_msg) i c)

-- Impl::close: the retained frames first, then the subscriptions. The shared pointers that it
-- holds to the handles meanwhile change nothing.
unfoldable pub close : Client → Client
unfolding prune close_handles shut_all
close c =
    let held = prune c.handles c.retained in
    let released = close_handles held (record c { retained = held }) in
    shut_all released.streams (record released { streams = [] })
