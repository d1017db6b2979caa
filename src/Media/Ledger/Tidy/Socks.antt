-- ===== src/Media/Ledger/Tidy/Socks.antt =====
-- The sockets that the map finds as they are connected.
use neoruntime_sdks.Base.{
  ℕ, ◌≡◌, refl, sym, ap, ◌∙◌, inl, inr, List, [], ◌∷◌, ◌++◌, Option, none, some, true, false,
  length, get_elem?, Bool-cases, Result, ok, err,
}
use neoruntime_sdks.Media.{MediaError, Client, StreamSock, Peer}
use neoruntime_sdks.Media.Sockets.{
  eq_name, cache_sock, connect_with, connect_stream, subscribe_on, get_cached, get_sock, is_alive,
  find_stream, erase_stream,
}
use neoruntime_sdks.Media.Ledger.Tidy.{SockTidy, CachedIn, IsTidy, All-append}
use neoruntime_sdks.Media.Ledger.Tidy.Cached.{
  eq_name-same, eq_of_eq_name, find_stream-erased, find_stream-kept, get-append,
}

-- The socket that the map has for a stream, if it has one, is dead.
abbrev Stale : List ℕ → List (List ℕ × ℕ) → List StreamSock → Type 0
Stale id m ss = (i : ℕ) → find_stream id m ≡ some i → is_alive (get_elem? ss i) ≡ false

Stale-other :
    (id other : List ℕ) (m : List (List ℕ × ℕ)) (ss : List StreamSock) (k : ℕ) (u : StreamSock)
    → Stale id m ss
    → get_elem? ss k ≡ some u
    → u.alive ≡ true
    → find_stream other m ≡ some k
    → eq_name other id ≡ false
Stale-other id other m ss k u stale g live f = elim (Bool-cases (eq_name other id)) [
  | inl e ↦
      let same = eq_of_eq_name other id e in
      let dead = stale k (ap (λ (x : List ℕ). find_stream x m) (sym same) ∙ f) in
      let alive : is_alive (get_elem? ss k) ≡ true = ap is_alive g ∙ live in absurd cc
  | inr e ↦ e
]

-- A stale entry goes.
CachedIn-erase :
    (id : List ℕ) (m : List (List ℕ × ℕ)) (ss : List StreamSock)
    → Stale id m ss
    → CachedIn m ss
    → CachedIn (erase_stream id m) ss
CachedIn-erase id m ss stale cached k u g live =
    let (other, f) = cached k u g live in
    (other, find_stream-kept other id m (Stale-other id other m ss k u stale g live f) ∙ f)

find_newest :
    (id other : List ℕ) (n : ℕ) (m : List (List ℕ × ℕ))
    → eq_name other id ≡ false
    → find_stream other ((id, n) ∷ m) ≡ find_stream other m
find_newest id other n m e = elim (Bool-cases (eq_name id other)) [
  | inl t ↦ let same = eq_of_eq_name id other t in absurd cc
  | inr t ↦ rw t refl
]

CachedIn-append :
    (id : List ℕ) (m : List (List ℕ × ℕ)) (ss : List StreamSock) (t : StreamSock)
    → Stale id m ss
    → CachedIn m ss
    → CachedIn ((id, length ss) ∷ erase_stream id m) (ss ++ (t ∷ []))
CachedIn-append id m ss t stale cached k u g live = elim (get-append ss k t u g) [
  | inl s ↦
      let (other, f) = cached k u s live in
      let differs = Stale-other id other m ss k u stale s live f in
      (
        other,
        find_newest id other (length ss) (erase_stream id m) differs
            ∙ (find_stream-kept other id m differs ∙ f),
      )
  | inr (eq, tu) ↦ (id, rw (eq_name-same id) (ap (λ (n : ℕ). some n) (sym eq)))
]

cache_sock-IsTidy :
    (id : List ℕ) (p : Peer) (r : Result MediaError (Unit {0})) (c : Client)
    → Stale id c.streams c.socks
    → IsTidy c
    → IsTidy (cache_sock id p r c).1
cache_sock-IsTidy id p (err e) c stale t = t
cache_sock-IsTidy id p (ok _) c stale (hs, (ss, cached)) =
    let s : StreamSock = record { fd = some p.socket; alive = true; incoming = p.script } in
    (
      hs,
      (
        All-append SockTidy c.socks (s ∷ []) ss (λ z. absurd cc, tt),
        CachedIn-append id c.streams c.socks s stale cached,
      ),
    )

connect_with-IsTidy :
    (id : List ℕ) (ps : List (Option Peer)) (c : Client)
    → Stale id c.streams c.socks
    → IsTidy c
    → IsTidy (connect_with id ps c).1
connect_with-IsTidy id [] c stale t = t
connect_with-IsTidy id (none ∷ ps) c stale t = t
connect_with-IsTidy id (some p ∷ ps) c stale t =
    cache_sock-IsTidy id p (subscribe_on id p) (record c { connects = ps }) stale t

get_cached-IsTidy :
    (id : List ℕ) (o : Option ℕ) (c : Client)
    → find_stream id c.streams ≡ o
    → IsTidy c
    → IsTidy (get_cached id o c).1
unfolding connect_stream
get_cached-IsTidy id none c e t = connect_with-IsTidy id c.connects c (λ i f. absurd cc) t
get_cached-IsTidy id (some i) c e (hs, (ss, cached)) =
    elim (Bool-cases (is_alive (get_elem? c.socks i))) [
      | inl live ↦ rw live (hs, (ss, cached))
      | inr dead ↦
          let stale : Stale id c.streams c.socks = λ k f. let same : k ≡ i = cc in rw same dead in
          let c' = record c { streams = erase_stream id c.streams } in
          rw dead (
            connect_with-IsTidy id c.connects c'
              (λ k f. let gone = find_stream-erased id c.streams in absurd cc)
              (hs, (ss, CachedIn-erase id c.streams c.socks stale cached)))
    ]

pub get_sock-IsTidy : (id : List ℕ) (c : Client) → IsTidy c → IsTidy (get_sock id c).1
unfolding get_sock
get_sock-IsTidy id c t = get_cached-IsTidy id (find_stream id c.streams) c refl t
