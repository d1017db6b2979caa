-- ===== src/DspClient/Rollback/Slots.antt =====
-- The slots of import_shared_buffers, and the release of its pool.
use Prim.Native.String.{String}
use text.Mathlib.Text.{◌==◌ as str_eq}
use neoruntime_sdks.Base.{
  ℕ, zero, suc, ◌+◌, ◌*◌, ◌^◌, ◌%◌, ◌≡◌, refl, inl, inr, List, [], ◌∷◌, ◌++◌, Option, none, some,
  Bool, false, not, ltb, if◌then◌else◌, arith, Bool-cases, Result, ok, err,
}
use neoruntime_sdks.Base.Int.{ℤ, to_u32}
use neoruntime_sdks.Media.{opened}
use neoruntime_sdks.Media.Ledger.{count, fd_is}
use neoruntime_sdks.Wire.Dsp.{DspError, validate_geometry}
use neoruntime_sdks.DspClient.{ftruncate_failed, write_failed, DspClient, send_releases}
use neoruntime_sdks.DspClient.Import.{Imported, import_planes}
use neoruntime_sdks.DspClient.Shared.{
  Slot, SharedImportPool, MapCall, Memory, note_call, unmap_all, Shared, map_slot, slot_imported,
  one, stride, import_slot, with_memfd, next_slot, then_slots, import_slots, shared_valid,
  import_shared_buffers, release_shared, Write, write_all, close_file, import_memfd,
}
use neoruntime_sdks.DspClient.Accounts.Plain.{Settled, import_planes-Settled}
use neoruntime_sdks.DspClient.Rollback.{
  Leaves, roll_back-Leaves, close_fds-Leaves, unmap-Leaves, send-Leaves, count-snoc,
}

module _ (f a : ℕ) where
  -- A pool in use, and what it holds.
  abbrev pub Holds : SharedImportPool → Memory → Type 0
  Holds p m = (p.released ≡ false) × Leaves f a (count f p.fds) (count a p.maps) m

  -- What a call of import_shared_buffers leaves: what its pool holds, or nothing.
  abbrev pub Rolled : Shared → Type 0
  Rolled (err e, m) = Leaves f a 0 0 m
  Rolled (ok p, m) = Holds p m

  map_slot-Rolled :
      (o : Option ℕ) (fd : ℕ) (p : SharedImportPool) (m : Memory)
      → p.released ≡ false
      → Leaves f a (count f p.fds + fd_is f (some fd)) (count a p.maps) m
      → Rolled (map_slot o fd p m)
  map_slot-Rolled none fd p m v h = roll_back-Leaves f a p (some fd) m h
  map_slot-Rolled (some b) fd p m v ((o, i), e) =
      (v, ((omega (arith, o, count-snoc f fd p.fds), i), omega (arith, e, count-snoc a b p.maps)))

  slot_imported-Rolled :
      (s : Slot) (fd : ℕ) (p : SharedImportPool) (log : List MapCall) (r : Imported)
      → p.released ≡ false
      → Leaves f a
          (count f p.fds + fd_is f (some fd))
          (count a p.maps)
          (record { client = r.1; map_log = log })
      → Rolled (slot_imported s fd p log r)
  slot_imported-Rolled s fd p log (err x, c) v h =
      roll_back-Leaves f a p (some fd) (record { client = c; map_log = log }) h
  slot_imported-Rolled s fd p log (ok id, c) v h =
      map_slot-Rolled s.mapping fd (record p { ids = p.ids ++ (id ∷ []) })
        (record { client = c; map_log = log }) v h

  with_memfd-Rolled :
      (w h ms : ℕ) (s : Slot) (o : Option ℕ) (p : SharedImportPool) (m : Memory)
      → Holds p m
      → Rolled (with_memfd w h ms s o p m)
  with_memfd-Rolled w h ms s none p m (v, ((o, i), e)) =
      roll_back-Leaves f a p none m ((omega (arith, o), i), e)
  with_memfd-Rolled w h ms s (some fd) p m (v, ((o, i), e)) =
      let m' = note_call (opened fd) m in
      let s' : Settled f (count f p.fds + fd_is f (some fd)) m'.client = (omega (arith, o), i) in
      elim (Bool-cases s.truncates) [
        | inr k ↦ rw k (roll_back-Leaves f a p (some fd) m' (s', e))
        | inl k ↦ rw k (
            slot_imported-Rolled s fd p m'.map_log (import_slot w h ms m'.client) v (
              import_planes-Settled f (count f p.fds + fd_is f (some fd)) w h "argb" 1
                  (one (stride w h ms)) (one ((stride w h ms * h) % 2 ^ 32)) ms m'.client s',
              e,
            ))
      ]

  then-Rolled :
      (r : Shared) (next : SharedImportPool → Memory → Shared)
      → Rolled r
      → ((p : SharedImportPool) (m : Memory) → Holds p m → Rolled (next p m))
      → Rolled (then_slots r next)
  then-Rolled (err e, m) next q step = q
  then-Rolled (ok p, m) next q step = step p m q

  import_slots-Rolled :
      (w h ms n : ℕ) (ss : List Slot) (p : SharedImportPool) (m : Memory)
      → Holds p m
      → Rolled (import_slots w h ms n ss p m)
  unfolding import_slots
  import_slots-Rolled w h ms zero ss p m l = l
  import_slots-Rolled w h ms (suc n) ss p m l =
      let s = (next_slot ss).0 in
      then-Rolled (with_memfd w h ms s s.memfd p m) (import_slots w h ms n (next_slot ss).1)
        (with_memfd-Rolled w h ms s s.memfd p m l)
        (λ q k l'. import_slots-Rolled w h ms n (next_slot ss).1 q k l')

  shared_valid-Rolled :
      (width height : ℤ) (n ms : ℕ) (ss : List Slot) (r : Result DspError (Unit {0})) (m : Memory)
      → Leaves f a 0 0 m
      → Rolled (shared_valid width height n ms ss r m)
  shared_valid-Rolled width height n ms ss (err e) m l = l
  shared_valid-Rolled width height n ms ss (ok u) m l = elim (Bool-cases (ltb n 1)) [
    | inl k ↦ rw k l
    | inr k ↦ rw k (
        import_slots-Rolled (to_u32 width) (to_u32 height) ms n ss
          (record { ids = []; maps = []; fds = []; released = false }) m (refl, l))
  ]

  import_shared_buffers-Holds :
      (width height : ℤ) (fmt : String) (n ms : ℕ) (ss : List Slot) (m : Memory)
      → Leaves f a 0 0 m
      → Rolled (import_shared_buffers width height fmt n ms ss m)
  unfolding import_shared_buffers
  import_shared_buffers-Holds width height fmt n ms ss m l = elim (Bool-cases (str_eq fmt "argb")) [
    | inr k ↦ rw k l
    | inl k ↦ rw k (
        shared_valid-Rolled width height n ms ss
          (validate_geometry width height fmt "shared import") m l)
  ]

  release_shared-Leaves :
      (p : SharedImportPool) (m : Memory) → Holds p m → Leaves f a 0 0 (release_shared p m).1
  unfolding release_shared
  release_shared-Leaves p m (v, l) = rw v (
      close_fds-Leaves f a p.fds 0
        (record { client = send_releases p.ids m.client; map_log = unmap_all p.maps m.map_log })
        (send-Leaves f a p.ids (count f p.fds) 0 (record m { map_log = unmap_all p.maps m.map_log })
          (unmap-Leaves f a p.maps (count f p.fds) m l)))

  -- The pool, if there is one, is released.
  abbrev pub used : Shared → Memory
  used (err e, m) = m
  used (ok p, m) = (release_shared p m).1

  used-Leaves : (r : Shared) → Rolled r → Leaves f a 0 0 (used r)
  used-Leaves (err e, m) l = l
  used-Leaves (ok p, m) l = release_shared-Leaves p m l

  -- On a client whose descriptors are all accounted for and to which none are to come,
  -- import_shared_buffers, whichever of its steps fails, has closed each file and unmapped each mapping
  -- that it made, but for those of the pool that it returns; and the release of that pool closes and
  -- unmaps the rest.
  pub import_shared_buffers-Rolled :
      (width height : ℤ) (fmt : String) (n ms : ℕ) (ss : List Slot) (m : Memory)
      → Leaves f a 0 0 m
      → Rolled (import_shared_buffers width height fmt n ms ss m)
        × Leaves f a 0 0 (used (import_shared_buffers width height fmt n ms ss m))
  import_shared_buffers-Rolled width height fmt n ms ss m l =
      let r = import_shared_buffers-Holds width height fmt n ms ss m l in
      (r, used-Leaves (import_shared_buffers width height fmt n ms ss m) r)

module _ (f : ℕ) where
  close_file-Settled :
      (fd : ℕ) (r : Imported) → Settled f (fd_is f (some fd)) r.1 → Settled f 0 (close_file fd r).1
  close_file-Settled fd (r, c) (o, i) = (omega (arith, o), i)

  -- import_memfd, whichever of its steps fails, has closed the file that it made.
  import_memfd-Settled :
      (n width height : ℕ) (fmt : String) (row ms : ℕ) (o : Option ℕ) (t : Bool) (ws : List Write)
      (c : DspClient)
      → Settled f 0 c
      → Settled f 0 (import_memfd n width height fmt row ms o t ws c).1
  unfolding import_memfd
  import_memfd-Settled n width height fmt row ms none t ws c h = h
  import_memfd-Settled n width height fmt row ms (some fd) t ws c (o, i) =
      close_file-Settled fd
        (if not t
          then (err ftruncate_failed, c')
          else if not (write_all n ws)
          then (err write_failed, c')
          else whole)
        (elim (Bool-cases t) [
          | inr k ↦ rw k s
          | inl k ↦ elim (Bool-cases (write_all n ws)) [
            | inr k' ↦ rw (k, k') s
            | inl k' ↦
                rw (k, k')
                  (import_planes-Settled f (fd_is f (some fd)) width height fmt 1 (one row)
                    (one (n % 2 ^ 32)) ms c' s)
          ]
        ])
    where
      c' : DspClient
      c' = record c { log = opened fd ∷ c.log }

      s : Settled f (fd_is f (some fd)) c'
      s = (omega (arith, o), i)

      whole : Imported
      whole = import_planes width height fmt 1 (one row) (one (n % 2 ^ 32)) ms c'
