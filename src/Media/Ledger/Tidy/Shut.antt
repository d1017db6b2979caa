-- ===== src/Media/Ledger/Tidy/Shut.antt =====
-- The sockets that the map finds as they are dropped and closed.
use neoruntime_sdks.Base.{
  ℕ, ◌≡◌, refl, sym, ap, ◌∙◌, inl, inr, List, [], ◌∷◌, Option, none, some, true, false, get_elem?,
  Bool-cases,
}
use neoruntime_sdks.Media.{Client, StreamSock, unsubscribe_msg}
use neoruntime_sdks.Media.Handles.{prune, close_handle}
use neoruntime_sdks.Media.Sockets.{
  eq_name, shut, shut_sock, drop_cached, drop_sock, close_handles, shut_all, close, find_stream,
  erase_stream,
}
use neoruntime_sdks.Media.Ledger.Tidy.{
  All, HandleTidy, SockTidy, CachedIn, IsTidy, All-set, close_handle-IsTidy,
}
use neoruntime_sdks.Media.Ledger.Tidy.Cached.{eq_of_eq_name, find_stream-kept, get-set}

-- The sockets that are alive are cached by `m`, but for number i, which may have lost its place.
abbrev CachedBut : ℕ → List (List ℕ × ℕ) → List StreamSock → Type 0
CachedBut i m ss =
    (k : ℕ) (s : StreamSock)
    → (k ≡ i → ⊥)
    → get_elem? ss k ≡ some s
    → s.alive ≡ true
    → (id : List ℕ) × (find_stream id m ≡ some k)

CachedIn-shut :
    (farewell : Option (List ℕ)) (i : ℕ) (o : Option StreamSock) (m : List (List ℕ × ℕ))
    (c : Client)
    → get_elem? c.socks i ≡ o
    → CachedBut i m c.socks
    → CachedIn m (shut farewell i o c).socks
CachedIn-shut farewell i none m c e but = λ k u g live.
    but k u (λ same. let gone : get_elem? c.socks k ≡ none = rw same e in absurd cc) g live
CachedIn-shut farewell i (some s) m c e but = elim (Bool-cases s.alive) [
  | inl a ↦ rw a (λ k u g live.
      elim (get-set c.socks i k (record s { alive = false; fd = none }) u g) [
        | inl (ne, s') ↦ but k u ne s' live
        | inr (eq, tu) ↦
            let dead : u.alive ≡ false = ap (λ (x : StreamSock). x.alive) (sym tu) in absurd cc
      ])
  | inr d ↦ rw d (λ k u g live.
      but k u
        (λ same.
          let here : get_elem? c.socks k ≡ some s = rw same e in
          let us : some u ≡ some s = sym g ∙ here in
          let equal : u ≡ s = cc in
          let dead : u.alive ≡ false = ap (λ (x : StreamSock). x.alive) equal ∙ d in absurd cc)
        g live)
]

All-shut :
    (farewell : Option (List ℕ)) (i : ℕ) (o : Option StreamSock) (c : Client)
    → All SockTidy c.socks
    → All SockTidy (shut farewell i o c).socks
All-shut farewell i none c a = a
All-shut farewell i (some s) c a = elim (Bool-cases s.alive) [
  | inl l ↦ rw l (All-set SockTidy c.socks i (record s { alive = false; fd = none }) a (λ z. refl))
  | inr d ↦ rw d a
]

shut-same :
    (farewell : Option (List ℕ)) (i : ℕ) (o : Option StreamSock) (c : Client)
    → ((shut farewell i o c).handles ≡ c.handles) × ((shut farewell i o c).streams ≡ c.streams)
shut-same farewell i none c = (refl, refl)
shut-same farewell i (some s) c = elim (Bool-cases s.alive) [
  | inl l ↦ rw l (refl, refl)
  | inr d ↦ rw d (refl, refl)
]

shut-IsTidy :
    (farewell : Option (List ℕ)) (i : ℕ) (m : List (List ℕ × ℕ)) (c : Client)
    → All HandleTidy c.handles
    → All SockTidy c.socks
    → CachedBut i m c.socks
    → IsTidy (record (shut_sock farewell i c) { streams = m })
unfolding shut_sock
shut-IsTidy farewell i m c hs ss but =
    let o = get_elem? c.socks i in
    (
      rw (shut-same farewell i o c).0 hs,
      (All-shut farewell i o c ss, CachedIn-shut farewell i o m c refl but),
    )

drop_cached-IsTidy :
    (id : List ℕ) (o : Option ℕ) (c : Client)
    → find_stream id c.streams ≡ o
    → IsTidy c
    → IsTidy (drop_cached id o c)
unfolding shut_sock
drop_cached-IsTidy id none c e t = t
drop_cached-IsTidy id (some i) c e (hs, (ss, cached)) =
    let m = erase_stream id c.streams in
    let c' = record c { streams = m } in
    let o = get_elem? c.socks i in
    let (h, (s, k)) = shut-IsTidy none i m c' hs ss but in (h, (s, rw (shut-same none i o c').1 k))
  where
    but : CachedBut i (erase_stream id c.streams) c.socks
    but k u ne g live =
        let (other, f) = cached k u g live in
        let differs : eq_name other id ≡ false = elim (Bool-cases (eq_name other id)) [
          | inl t ↦
              let same = eq_of_eq_name other id t in
              let here : find_stream id c.streams ≡ some k =
                ap (λ (x : List ℕ). find_stream x c.streams) (sym same) ∙ f in
              absurd (ne cc)
          | inr t ↦ t
        ] in
        (other, find_stream-kept other id c.streams differs ∙ f)

pub drop_sock-IsTidy : (id : List ℕ) (c : Client) → IsTidy c → IsTidy (drop_sock id c)
unfolding drop_sock
drop_sock-IsTidy id c t = drop_cached-IsTidy id (find_stream id c.streams) c refl t

close_handles-IsTidy : (js : List ℕ) (c : Client) → IsTidy c → IsTidy (close_handles js c)
unfolding close_handles
close_handles-IsTidy [] c t = t
close_handles-IsTidy (j ∷ js) c t =
    close_handles-IsTidy js (close_handle j c) (close_handle-IsTidy j c t)

-- The sockets that close() has still to shut are those of the rest of the map.
shut_all-IsTidy :
    (m : List (List ℕ × ℕ)) (c : Client)
    → IsTidy (record c { streams = m })
    → IsTidy (record (shut_all m c) { streams = [] })
unfolding shut_all
shut_all-IsTidy [] c t = t
shut_all-IsTidy ((id, i) ∷ m) c (hs, (ss, cached)) =
    shut_all-IsTidy m (shut_sock (some unsubscribe_msg) i c)
      (shut-IsTidy (some unsubscribe_msg) i m c hs ss but)
  where
    but : CachedBut i m c.socks
    but k u ne g live =
        let (other, f) = cached k u g live in
        elim (Bool-cases (eq_name id other)) [
          | inl t ↦
              let found : find_stream other ((id, i) ∷ m) ≡ some i = rw t refl in absurd (ne cc)
          | inr t ↦
              let same : find_stream other ((id, i) ∷ m) ≡ find_stream other m = rw t refl in
              (other, sym same ∙ f)
        ]

shut_all-streams : (m : List (List ℕ × ℕ)) (c : Client) → (shut_all m c).streams ≡ c.streams
unfolding shut_all shut_sock
shut_all-streams [] c = refl
shut_all-streams ((id, i) ∷ m) c =
    shut_all-streams m (shut_sock (some unsubscribe_msg) i c)
    ∙ (shut-same (some unsubscribe_msg) i (get_elem? c.socks i) c).1

pub close-IsTidy : (c : Client) → IsTidy c → IsTidy (close c)
unfolding close
close-IsTidy c t =
    let held = prune c.handles c.retained in
    let released = close_handles held (record c { retained = held }) in
    let r = close_handles-IsTidy held (record c { retained = held }) t in
    let c' = record released { streams = [] } in
    let (hs, (ss, cached)) = shut_all-IsTidy released.streams c' r in
    (hs, (ss, rw (shut_all-streams released.streams c') cached))
