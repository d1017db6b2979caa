-- ===== src/DspClient/Shared.antt =====
-- cpp/src/dsp.cpp: SharedImportPool, import_shared_buffers and import_memfd. What the kernel answers
-- for the memory files is a script: after it there are no more of them.
use Prim.Native.String.{String}
use text.Mathlib.Text.{◌==◌ as str_eq}
use neoruntime_sdks.Base.{
  ℕ, zero, suc, ◌*◌, ◌-◌, ◌^◌, ◌%◌, List, [], ◌∷◌, ◌++◌, Option, none, some, Bool, true, false, not,
  ltb, if◌then◌else◌, get_elem?, Result, ok, err,
}
use neoruntime_sdks.Base.Int.{ℤ, to_u32}
use neoruntime_sdks.Media.{Call, opened, closed_fd, close_all}
use neoruntime_sdks.Wire.Dsp.{DspError, Triple, validate_geometry}
use neoruntime_sdks.DspClient.{
  DspFailure, wire_error, count_below_one, argb_only, memfd_failed, ftruncate_failed, write_failed,
  map_failed, DspClient, send_releases,
}
use neoruntime_sdks.DspClient.Import.{Imported, import_planes}
use neoruntime_sdks.DspClient.Pools.{id_at}

-- What memfd_create, ftruncate and mmap return for a slot.
pub record Slot : Type 0 where
  pub memfd : Option ℕ
  pub truncates : Bool
  pub mapping : Option ℕ

-- `maps` has a place for each mapping, and all have one size.
pub record SharedImportPool : Type 0 where
  pub ids : List ℕ
  pub maps : List ℕ
  pub fds : List ℕ
  pub released : Bool

pub data MapCall : Type 0 where
  mapped unmapped : ℕ → MapCall

-- The client, with the calls that map and unmap memory, the newest first.
pub record Memory : Type 0 where
  pub client : DspClient
  pub map_log : List MapCall

abbrev pub note_call : Call → Memory → Memory
note_call a m = record m { client = record m.client { log = a ∷ m.client.log } }

abbrev pub unmap_all : List ℕ → List MapCall → List MapCall
unmap_all [] log = log
unmap_all (a ∷ maps) log = unmap_all maps (unmapped a ∷ log)

abbrev pub close_open_fd : Option ℕ → Memory → Memory
close_open_fd none m = m
close_open_fd (some fd) m = note_call (closed_fd fd) m

abbrev pub close_fds : List ℕ → Memory → Memory
close_fds fds m = record m { client = record m.client { log = close_all fds m.client.log } }

-- The handler: mappings, the failing slot's own file, the other files, the ids.
unfoldable pub roll_back : SharedImportPool → Option ℕ → Memory → Memory
unfolding send_releases
roll_back p fd m =
    let undone =
      close_fds p.fds (close_open_fd fd (record m { map_log = unmap_all p.maps m.map_log })) in
    record undone { client = send_releases p.ids undone.client }

abbrev pub Shared : Type 0
Shared = Result DspFailure SharedImportPool × Memory

abbrev pub undo : DspFailure → SharedImportPool → Option ℕ → Memory → Shared
undo e p fd m = (err e, roll_back p fd m)

-- What one slot comes to: the pool with it, or the throw with what is rolled back.
abbrev pub map_slot : Option ℕ → ℕ → SharedImportPool → Memory → Shared
map_slot none fd p m = undo map_failed p (some fd) m
map_slot (some a) fd p m = (
  ok (record p { maps = p.maps ++ (a ∷ []); fds = p.fds ++ (fd ∷ []) }),
  record m { map_log = mapped a ∷ m.map_log },
)

abbrev pub slot_imported : Slot → ℕ → SharedImportPool → List MapCall → Imported → Shared
slot_imported s fd p log (err e, c) = undo e p (some fd) (record { client = c; map_log = log })
slot_imported s fd p log (ok id, c) =
    map_slot s.mapping fd (record p { ids = p.ids ++ (id ∷ []) })
      (record { client = c; map_log = log })

abbrev pub one : ℕ → Triple
one n = record { first = n; second = 0; third = 0 }

abbrev pub next_slot : List Slot → Slot × List Slot
next_slot [] = (record { memfd = none; truncates = false; mapping = none }, [])
next_slot (s ∷ ss) = (s, ss)

abbrev pub then_slots : Shared → (SharedImportPool → Memory → Shared) → Shared
then_slots (err e, m) next = (err e, m)
then_slots (ok p, m) next = next p m

module _ (width height : ℕ) (ms : ℕ) where
  abbrev pub stride : ℕ
  stride = (width * 4) % 2 ^ 32

  abbrev pub import_slot : DspClient → Imported
  import_slot c =
      import_planes width height "argb" 1 (one stride) (one ((stride * height) % 2 ^ 32)) ms c

  abbrev pub with_memfd : Slot → Option ℕ → SharedImportPool → Memory → Shared
  with_memfd s none p m = undo memfd_failed p none m
  with_memfd s (some fd) p m =
      let m' = note_call (opened fd) m in
      if not s.truncates
      then undo ftruncate_failed p (some fd) m'
      else slot_imported s fd p m'.map_log (import_slot m'.client)

  unfoldable pub import_slots : ℕ → List Slot → SharedImportPool → Memory → Shared
  unfolding roll_back import_planes
  import_slots zero ss p m = (ok p, m)
  import_slots (suc n) ss p m =
      let (s, rest) = next_slot ss in then_slots (with_memfd s s.memfd p m) (import_slots n rest)

abbrev pub shared_valid : ℤ → ℤ → ℕ → ℕ → List Slot → Result DspError (Unit {0}) → Memory → Shared
shared_valid width height n ms ss (err e) m = (err (wire_error e), m)
shared_valid width height n ms ss (ok _) m =
    let made =
      import_slots (to_u32 width) (to_u32 height) ms n ss
        (record { ids = []; maps = []; fds = []; released = false }) m in
    if ltb n 1 then (err count_below_one, m) else made

-- A negative count is 0; the timeout is in milliseconds.
unfoldable pub import_shared_buffers : ℤ → ℤ → String → ℕ → ℕ → List Slot → Memory → Shared
unfolding import_slots
import_shared_buffers width height fmt n ms ss m =
    let made =
      shared_valid width height n ms ss (validate_geometry width height fmt "shared import") m in
    if not (str_eq fmt "argb") then (err argb_only, m) else made

-- buffer_id of a shared pool, for an index that is not negative.
unfoldable pub shared_buffer_id : SharedImportPool → ℕ → Result DspFailure ℕ
shared_buffer_id p index = id_at index (get_elem? p.ids index)

abbrev pub release_live : SharedImportPool → Memory → SharedImportPool × Memory
release_live p m =
    let c = send_releases p.ids m.client in
    (
      record p { released = true; maps = []; fds = [] },
      close_fds p.fds (record { client = c; map_log = unmap_all p.maps m.map_log }),
    )

unfoldable pub release_shared : SharedImportPool → Memory → SharedImportPool × Memory
unfolding send_releases
release_shared p m = if p.released then (p, m) else release_live p m

-- One write(2) of a memory file.
pub data Write : Type 0 where
  wrote : ℕ → Write
  interrupted failed : Write

-- Whether `n` more bytes have been written.
unfoldable pub write_all : ℕ → List Write → Bool
write_all zero ws = true
write_all (suc n) [] = false
write_all (suc n) (wrote k ∷ ws) = write_all (suc n - k) ws
write_all (suc n) (interrupted ∷ ws) = write_all (suc n) ws
write_all (suc n) (failed ∷ ws) = false

abbrev pub close_file : ℕ → Imported → Imported
close_file fd (r, c) = (r, record c { log = closed_fd fd ∷ c.log })

abbrev pub import_file : ℕ → ℕ → ℕ → String → ℕ → ℕ → Bool → List Write → ℕ → DspClient → Imported
import_file n width height fmt row ms truncates ws fd c =
    let sent = import_planes width height fmt 1 (one row) (one (n % 2 ^ 32)) ms c in
    close_file fd (
      if not truncates
      then (err ftruncate_failed, c)
      else if not (write_all n ws)
      then (err write_failed, c)
      else sent)

-- The file of `n` bytes is closed whatever comes of it. The bytes are left out.
unfoldable pub import_memfd :
    ℕ → ℕ → ℕ → String → ℕ → ℕ → Option ℕ → Bool → List Write → DspClient → Imported
unfolding import_planes write_all
import_memfd n width height fmt row ms memfd truncates ws c = elim memfd [
  | none ↦ (err memfd_failed, c)
  | some fd ↦
      import_file n width height fmt row ms truncates ws fd (record c { log = opened fd ∷ c.log })
]
