-- ===== src/DspClient/Given.antt =====
-- What it means that a job gives back what it owns: the calls, and the pools that are released by them.
use neoruntime_sdks.Base.{
  ℕ, zero, suc, ◌≡◌, refl, sym, ap, ◌∙◌, inl, inr, List, [], ◌∷◌, ◌++◌, Option, none, some, Bool,
  true, false, get_elem?, set, if◌then◌else◌, Bool-cases,
}
use neoruntime_sdks.Media.{Call, closed_fd, sent, close_all}
use neoruntime_sdks.Media.Once.{planes_closed, logged}
use neoruntime_sdks.Wire.Dsp.Requests.{release_layout, release_request-layout}
use neoruntime_sdks.DspClient.{
  DspBufferPool, DspClient, send_release_on, send_release, send_releases,
}
use neoruntime_sdks.DspClient.Pools.{mark_released, release_open, release_pool}
use neoruntime_sdks.DspClient.Jobs.{Ownee, owned_pool, imported, release_ownee, release_owned}

-- The calls, the oldest first. The daemon is told of each id, over the socket if there is one.
abbrev pub told_one : Option ℕ → ℕ → List Call
told_one none id = []
told_one (some fd) id = sent fd (release_layout id) ∷ []

abbrev pub told : Option ℕ → List ℕ → List Call
told sock [] = []
told sock (id ∷ ids) = told_one sock id ++ told sock ids

abbrev pub pool_given : Option ℕ → Option DspBufferPool → List Call
pool_given sock none = []
pool_given sock (some p) = if p.released then [] else told sock p.ids ++ planes_closed p.plane_fds

abbrev pub given : Option ℕ → List DspBufferPool → Ownee → List Call
given sock pools (owned_pool j) = pool_given sock (get_elem? pools j)
given sock pools (imported id true) = []
given sock pools (imported id false) = told_one sock id

abbrev pub retire : ℕ → List DspBufferPool → List DspBufferPool
retire j [] = []
retire zero (p ∷ ps) = record p { released = true } ∷ ps
retire (suc j) (p ∷ ps) = p ∷ retire j ps

abbrev pub retired : List DspBufferPool → Ownee → List DspBufferPool
retired pools (owned_pool j) = retire j pools
retired pools (imported id d) = pools

abbrev pub all_given : Option ℕ → List DspBufferPool → List Ownee → List Call
all_given sock pools [] = []
all_given sock pools (o ∷ os) = given sock pools o ++ all_given sock (retired pools o) os

abbrev pub all_retired : List DspBufferPool → List Ownee → List DspBufferPool
all_retired pools [] = pools
all_retired pools (o ∷ os) = all_retired (retired pools o) os

-- A client after the calls, with those pools, on the same socket.
abbrev pub Gave : DspClient → List Call → List DspBufferPool → DspClient → Type 0
Gave c calls pools c' = (c'.log ≡ logged calls c.log) × (c'.pools ≡ pools) × (c'.sock ≡ c.sock)

logged-append :
    (xs ys : List Call) (log : List Call) → logged (xs ++ ys) log ≡ logged ys (logged xs log)
logged-append [] ys log = refl
logged-append (x ∷ xs) ys log = logged-append xs ys (x ∷ log)

planes_closed-logged :
    (fds : List ℕ) (log : List Call) → logged (planes_closed fds) log ≡ close_all fds log
planes_closed-logged [] log = refl
planes_closed-logged (fd ∷ fds) log = planes_closed-logged fds (closed_fd fd ∷ log)

retire_live :
    (j : ℕ) (p : DspBufferPool) (ps : List DspBufferPool)
    → get_elem? ps j ≡ some p
    → set ps j (record p { released = true }) ≡ retire j ps
retire_live j p [] e = refl
retire_live zero p (q ∷ ps) e = let same : q ≡ p = cc in rw same refl
retire_live (suc j) p (q ∷ ps) e = ap (◌∷◌ q) (retire_live j p ps e)

retire_released :
    (j : ℕ) (p : DspBufferPool) (ps : List DspBufferPool)
    → get_elem? ps j ≡ some p
    → p.released ≡ true
    → ps ≡ retire j ps
retire_released j p [] e r = refl
retire_released zero p (q ∷ ps) e r =
    let same : q ≡ p = cc in
    let done : q.released ≡ true = ap (λ (x : DspBufferPool). x.released) same ∙ r in
    ap (λ (b : Bool). record q { released = b } ∷ ps) done
retire_released (suc j) p (q ∷ ps) e r = ap (◌∷◌ q) (retire_released j p ps e r)

retire_missing : (j : ℕ) (ps : List DspBufferPool) → get_elem? ps j ≡ none → ps ≡ retire j ps
retire_missing j [] e = refl
retire_missing zero (q ∷ ps) e = absurd cc
retire_missing (suc j) (q ∷ ps) e = ap (◌∷◌ q) (retire_missing j ps e)

send_release_on-Gave :
    (o : Option ℕ) (id : ℕ) (c : DspClient)
    → c.sock ≡ o
    → Gave c (told_one o id) c.pools (send_release_on o id c)
send_release_on-Gave none id c e = (refl, refl, refl)
send_release_on-Gave (some fd) id c e =
    (ap (λ (bytes : List ℕ). sent fd bytes ∷ c.log) (release_request-layout id), refl, refl)

Gave-trans :
    (c c' c'' : DspClient) (xs ys : List Call) (ps ps' : List DspBufferPool)
    → Gave c xs ps c'
    → Gave c' ys ps' c''
    → Gave c (xs ++ ys) ps' c''
Gave-trans c c' c'' xs ys ps ps' (l, p, s) (l', p', s') =
    (l' ∙ (ap (logged ys) l ∙ sym (logged-append xs ys c.log)), p', s' ∙ s)

released_to :
    (o : Option ℕ) (c : DspClient)
    → c.sock ≡ o
    → (id : ℕ) → Gave c (told_one o id) c.pools (send_release_on c.sock id c)
released_to o c e id =
    let (l, p, s) = send_release_on-Gave c.sock id c refl in
    (l ∙ ap (λ (k : Option ℕ). logged (told_one k id) c.log) e, p, s)

send_releases-Gave :
    (ids : List ℕ) (o : Option ℕ) (c : DspClient)
    → c.sock ≡ o
    → Gave c (told o ids) c.pools (send_releases ids c)
unfolding send_releases send_release
send_releases-Gave [] o c e = (refl, refl, refl)
send_releases-Gave (id ∷ ids) o c e =
    let c' = send_release_on c.sock id c in
    let first = released_to o c e id in
    let (l, p, s) = send_releases-Gave ids o c' (first.2 ∙ e) in
    Gave-trans c c' (send_releases ids c') (told_one o id) (told o ids) c.pools c.pools first
      (l, p ∙ first.1, s)

release_open-Gave :
    (j : ℕ) (o : Option DspBufferPool) (c : DspClient)
    → get_elem? c.pools j ≡ o
    → Gave c (pool_given c.sock o) (retire j c.pools) (release_open j o c)
release_open-Gave j none c e = (refl, retire_missing j c.pools e, refl)
release_open-Gave j (some p) c e = elim (Bool-cases p.released) [
  | inl done ↦ rw done (refl, retire_released j p c.pools e done, refl)
  | inr live ↦
      let (l, ps, s) = send_releases-Gave p.ids c.sock (mark_released j p c) refl in
      rw live (
        ap (close_all p.plane_fds) l
            ∙ (sym (planes_closed-logged p.plane_fds (logged (told c.sock p.ids) c.log))
                ∙ sym (logged-append (told c.sock p.ids) (planes_closed p.plane_fds) c.log)),
        ps ∙ retire_live j p c.pools e,
        s,
      )
]

release_ownee-Gave :
    (o : Ownee) (c : DspClient)
    → Gave c (given c.sock c.pools o) (retired c.pools o) (release_ownee o c)
unfolding release_pool send_release
release_ownee-Gave (owned_pool j) c = release_open-Gave j (get_elem? c.pools j) c refl
release_ownee-Gave (imported id true) c = (refl, refl, refl)
release_ownee-Gave (imported id false) c = send_release_on-Gave c.sock id c refl

pub release_owned-Gave :
    (os : List Ownee) (c : DspClient)
    → Gave c (all_given c.sock c.pools os) (all_retired c.pools os) (release_owned os c)
unfolding release_owned
release_owned-Gave [] c = (refl, refl, refl)
release_owned-Gave (o ∷ os) c =
    let c1 = release_ownee o c in
    let first = release_ownee-Gave o c in
    let (l, ps, s) = release_owned-Gave os c1 in
    Gave-trans c c1 (release_owned os c1) (given c.sock c.pools o)
      (all_given c.sock (retired c.pools o) os) (retired c.pools o)
      (all_retired (retired c.pools o) os) first
      (
        l
            ∙ (ap (λ (qs : List DspBufferPool). logged (all_given c1.sock qs os) c1.log) first.1
                ∙ ap (λ (k : Option ℕ). logged (all_given k (retired c.pools o) os) c1.log)
                    first.2),
        ps ∙ ap (λ (qs : List DspBufferPool). all_retired qs os) first.1,
        s,
      )
