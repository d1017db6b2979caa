-- ===== src/DspClient/Rollback.antt =====
-- import_shared_buffers and import_memfd: what is left of files and mappings, whatever fails.
pub mod Slots
use Prim.Native.String.{String}
use text.Mathlib.Text.{◌==◌ as str_eq}
use neoruntime_sdks.Base.{
  ℕ, zero, suc, ◌+◌, ◌*◌, ◌^◌, ◌%◌, ◌≡◌, refl, inl, inr, List, [], ◌∷◌, ◌++◌, Option, none, some,
  Bool, true, false, not, ltb, ◌==◌, if◌then◌else◌, arith, Bool-cases, Option-cases, Result, ok,
  err,
}
use neoruntime_sdks.Base.Int.{ℤ, to_u32}
use neoruntime_sdks.Media.{close_all, opened, closed_fd}
use neoruntime_sdks.Media.Ledger.{count, fd_is, opened_in, closed_in}
use neoruntime_sdks.Wire.Dsp.{DspError, Triple, validate_geometry}
use neoruntime_sdks.DspClient.{
  DspFailure, memfd_failed, ftruncate_failed, map_failed, DspClient, send_release_on, send_release,
  send_releases,
}
use neoruntime_sdks.DspClient.Import.{Imported, import_planes}
use neoruntime_sdks.DspClient.Shared.{
  Slot, SharedImportPool, MapCall, mapped, unmapped, Memory, note_call, unmap_all, close_open_fd,
  close_fds, roll_back, Shared, undo, map_slot, slot_imported, one, stride, import_slot, with_memfd,
  next_slot, then_slots, import_slots, shared_valid, import_shared_buffers, release_live,
  release_shared, Write, write_all, close_file, import_file, import_memfd,
}
use neoruntime_sdks.DspClient.Accounts.{Owes, close_planes-Owes, send_releases-Owes}
use neoruntime_sdks.DspClient.Accounts.Plain.{IsPlain, Settled, import_planes-Settled}

abbrev pub mapped_in : ℕ → List MapCall → ℕ
mapped_in a [] = 0
mapped_in a (mapped b ∷ log) = (if b == a then 1 else 0) + mapped_in a log
mapped_in a (unmapped b ∷ log) = mapped_in a log

abbrev pub unmapped_in : ℕ → List MapCall → ℕ
unmapped_in a [] = 0
unmapped_in a (mapped b ∷ log) = unmapped_in a log
unmapped_in a (unmapped b ∷ log) = (if b == a then 1 else 0) + unmapped_in a log

pub count-snoc : (f x : ℕ) (xs : List ℕ) → count f (xs ++ (x ∷ [])) ≡ count f xs + fd_is f (some x)
count-snoc f x [] = omega arith
count-snoc f x (y ∷ ys) = let ih = count-snoc f x ys in omega (arith, ih)

unmap_all-counts :
    (a : ℕ) (maps : List ℕ) (log : List MapCall)
    → (mapped_in a (unmap_all maps log) ≡ mapped_in a log)
      × (unmapped_in a (unmap_all maps log) ≡ count a maps + unmapped_in a log)
unmap_all-counts a [] log = (refl, omega arith)
unmap_all-counts a (b ∷ maps) log =
    let ih = unmap_all-counts a maps (unmapped b ∷ log) in (ih.0, omega (arith, ih.1))

send_release_on-IsPlain :
    (o : Option ℕ) (id : ℕ) (c : DspClient) → IsPlain c → IsPlain (send_release_on o id c)
send_release_on-IsPlain none id c i = i
send_release_on-IsPlain (some fd) id c i = i

send_releases-IsPlain : (ids : List ℕ) (c : DspClient) → IsPlain c → IsPlain (send_releases ids c)
unfolding send_releases
send_releases-IsPlain [] c i = i
send_releases-IsPlain (id ∷ ids) c i =
    send_releases-IsPlain ids (send_release id c) (send_release_on-IsPlain c.sock id c i)

module _ (f a : ℕ) where
  -- Descriptor f is held n times by nobody in the client, and address a is mapped k times.
  abbrev pub Leaves : ℕ → ℕ → Memory → Type 0
  Leaves n k m = Settled f n m.client × (mapped_in a m.map_log ≡ k + unmapped_in a m.map_log)

  close_open_fd-Leaves :
      (fd : Option ℕ) (n k : ℕ) (m : Memory)
      → Leaves (n + fd_is f fd) k m
      → Leaves n k (close_open_fd fd m)
  close_open_fd-Leaves none n k m ((o, i), e) = ((omega (arith, o), i), e)
  close_open_fd-Leaves (some fd) n k m ((o, i), e) = ((omega (arith, o), i), e)

  pub close_fds-Leaves :
      (fds : List ℕ) (k : ℕ) (m : Memory) → Leaves (count f fds) k m → Leaves 0 k (close_fds fds m)
  close_fds-Leaves fds k m ((o, i), e) =
      ((close_planes-Owes f 0 fds m.client (omega (arith, o)), i), e)

  pub unmap-Leaves :
      (maps : List ℕ) (n : ℕ) (m : Memory)
      → Leaves n (count a maps) m
      → Leaves n 0 (record m { map_log = unmap_all maps m.map_log })
  unmap-Leaves maps n m (s, e) =
      let u = unmap_all-counts a maps m.map_log in (s, omega (arith, e, u.0, u.1))

  pub send-Leaves :
      (ids : List ℕ) (n k : ℕ) (m : Memory)
      → Leaves n k m
      → Leaves n k (record m { client = send_releases ids m.client })
  send-Leaves ids n k m ((o, i), e) =
      ((send_releases-Owes f n ids m.client o, send_releases-IsPlain ids m.client i), e)

  pub roll_back-Leaves :
      (p : SharedImportPool) (fd : Option ℕ) (m : Memory)
      → Leaves (count f p.fds + fd_is f fd) (count a p.maps) m
      → Leaves 0 0 (roll_back p fd m)
  unfolding roll_back
  roll_back-Leaves p fd m h =
      let m1 = record m { map_log = unmap_all p.maps m.map_log } in
      let m2 = close_open_fd fd m1 in
      send-Leaves p.ids 0 0 (close_fds p.fds m2) (
        close_fds-Leaves p.fds 0 m2 (
          close_open_fd-Leaves fd (count f p.fds) 0 m1
            (unmap-Leaves p.maps (count f p.fds + fd_is f fd) m h)))
