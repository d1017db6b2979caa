-- ===== src/Media/Ledger/Tidy/Cached.antt =====
-- The map from streams to sockets, and the sockets that it finds.
use neoruntime_sdks.Base.{
  ℕ, zero, suc, ◌≡◌, refl, sym, ap, ◌∙◌, inl, inr, List, [], ◌∷◌, ◌++◌, none, some, true, false,
  ◌==◌, ◌⊎◌, length, get_elem?, set, arith, Bool-cases,
}
use neoruntime_sdks.Media.{StreamSock}
use neoruntime_sdks.Media.Sockets.{eq_name, find_stream, erase_stream}
use neoruntime_sdks.Media.Ledger.Tidy.{CachedIn}

pub eq_name-same : (x : List ℕ) → eq_name x x ≡ true
eq_name-same [] = refl
eq_name-same (b ∷ bs) = let ih = eq_name-same bs in ground arith

pub eq_of_eq_name : (x y : List ℕ) → eq_name x y ≡ true → x ≡ y
eq_of_eq_name [] [] e = refl
eq_of_eq_name [] (c ∷ cs) e = absurd cc
eq_of_eq_name (b ∷ bs) [] e = absurd cc
eq_of_eq_name (b ∷ bs) (c ∷ cs) e = elim (Bool-cases (b == c)) [
  | inl same ↦
      let head : b ≡ c = ground arith in
      let tail : eq_name bs cs ≡ true = ground arith in let rest = eq_of_eq_name bs cs tail in cc
  | inr other ↦ absurd (ground arith)
]

pub find_stream-erased :
    (id : List ℕ) (m : List (List ℕ × ℕ)) → find_stream id (erase_stream id m) ≡ none
find_stream-erased id [] = refl
find_stream-erased id ((k, i) ∷ m) = elim (Bool-cases (eq_name k id)) [
  | inl e ↦ rw e (find_stream-erased id m)
  | inr e ↦ rw (e, e) (find_stream-erased id m)
]

pub find_stream-kept :
    (other id : List ℕ) (m : List (List ℕ × ℕ))
    → eq_name other id ≡ false
    → find_stream other (erase_stream id m) ≡ find_stream other m
find_stream-kept other id [] h = refl
find_stream-kept other id ((k, i) ∷ m) h = elim (Bool-cases (eq_name k id)) [
  | inl e ↦ elim (Bool-cases (eq_name k other)) [
    | inl f ↦ let k_other = eq_of_eq_name k other f in absurd cc
    | inr f ↦ rw (e, f) (find_stream-kept other id m h)
  ]
  | inr e ↦ elim (Bool-cases (eq_name k other)) [
    | inl f ↦ rw (e, f) refl
    | inr f ↦ rw (e, f) (find_stream-kept other id m h)
  ]
]

pub get-set :
    (ss : List StreamSock) (i k : ℕ) (t u : StreamSock)
    → get_elem? (set ss i t) k ≡ some u
    → ((k ≡ i → ⊥) × (get_elem? ss k ≡ some u)) ⊎ ((k ≡ i) × (t ≡ u))
get-set [] i k t u e = absurd cc
get-set (x ∷ ss) zero zero t u e = inr (refl, cc)
get-set (x ∷ ss) zero (suc k) t u e = inl (λ z. absurd (omega arith), e)
get-set (x ∷ ss) (suc i) zero t u e = inl (λ z. absurd (omega arith), e)
get-set (x ∷ ss) (suc i) (suc k) t u e = elim (get-set ss i k t u e) [
  | inl (ne, s) ↦ inl (λ z. ne (omega arith), s)
  | inr (eq, s) ↦ inr (omega arith, s)
]

pub get-append :
    (ss : List StreamSock) (k : ℕ) (t u : StreamSock)
    → get_elem? (ss ++ (t ∷ [])) k ≡ some u
    → (get_elem? ss k ≡ some u) ⊎ ((k ≡ length ss) × (t ≡ u))
get-append [] zero t u e = inr (refl, cc)
get-append [] (suc k) t u e = absurd cc
get-append (x ∷ ss) zero t u e = inl e
get-append (x ∷ ss) (suc k) t u e = elim (get-append ss k t u e) [
  | inl s ↦ inl s
  | inr (eq, s) ↦ inr (omega arith, s)
]

-- A socket that changes, but not whether it is alive.
pub CachedIn-set :
    (m : List (List ℕ × ℕ)) (ss : List StreamSock) (i : ℕ) (s t : StreamSock)
    → get_elem? ss i ≡ some s
    → t.alive ≡ s.alive
    → CachedIn m ss
    → CachedIn m (set ss i t)
CachedIn-set m ss i s t e same cached k u g live = elim (get-set ss i k t u g) [
  | inl (ne, s') ↦ cached k u s' live
  | inr (eq, tu) ↦
      let alive : s.alive ≡ true = sym same ∙ (ap (λ (x : StreamSock). x.alive) tu ∙ live) in
      let found = cached i s e alive in (found.0, found.1 ∙ ap (λ (n : ℕ). some n) (sym eq))
]
