-- ===== src/Manager/Waits.antt =====
-- Writers that wait for room in the channel of storage/memory/memtable_manager.go.
use equinoxdb.Base.{ℕ, ◌≤◌, ◌<◌, ◌≡◌, refl, ap, ◌∙◌, ◌≢◌, inl, inr}
use equinoxdb.Base.{Bool, true, false, Option, none, some, List, [], ◌∷◌, arith, ltb}
use equinoxdb.Base.{Bool-cases, length}
use equinoxdb.Manager.{MemManager, with_new, ensured, no_room, send_mem, after_new, ensure_mem}
use equinoxdb.Manager.{ensure_mem_for_write, take_from, take_flush_mem_table}
use equinoxdb.Manager.Runs.{fresh, inner}
use equinoxdb.Tables.{is_full}

take_room :
    (mm : MemManager) (fid : ℕ) (ch : List ℕ)
    → mm.mem ≡ some fid
    → is_full (mm.tables fid) ≡ true
    → mm.flush_ch ≡ ch
    → 0 < length ch
    → length ch ≤ mm.num_mem_tables
    → (f : ℕ) × (nn : MemManager) × (take_flush_mem_table mm ≡ some (f, nn))
      × (ensure_mem_for_write true nn ≡ some (ensured (fresh (send_mem fid nn))))
unfolding take_flush_mem_table ensure_mem_for_write
take_room mm fid [] e is_so at h g = absurd (omega (arith, h))
take_room mm fid (f ∷ fs) e is_so at h g =
    let room : ltb (length fs) mm.num_mem_tables ≡ true = ground arith in
    (
      f,
      record mm { flush_ch = fs },
      ap (take_from mm) at,
      ap (ensure_mem true (record mm { flush_ch = fs })) e ∙ rw (is_so, room) refl,
    )

crowded_room :
    (can_create : Bool) (mm : MemManager) (m : Option ℕ)
    → mm.mem ≡ m
    → ensure_mem can_create mm m ≡ some no_room
    → (fid : ℕ) × (mm.mem ≡ some fid)
      × (is_full (mm.tables fid) ≡ true)
      × (mm.num_mem_tables ≤ length mm.flush_ch)
crowded_room can_create mm none e f = absurd (cc)
crowded_room can_create mm (some fid) e f = elim (Bool-cases (is_full (mm.tables fid))) [
  | inl is_so ↦ elim (Bool-cases (ltb (length mm.flush_ch) mm.num_mem_tables)) [
    | inl room ↦ absurd (switched can_create (send_mem fid mm) (inner (rw (is_so, room) at f)))
    | inr crowded ↦ (fid, e, is_so, ground arith)
  ]
  | inr is_not ↦ absurd (let same : ensured mm ≡ no_room = inner (rw is_not at f) in cc)
]
  where
    switched : (can : Bool) (nn : MemManager) → after_new nn (with_new can nn) ≢ no_room
    switched true nn e = absurd (cc)
    switched false nn e = absurd (cc)

-- A writer that `EnsureMemForWrite` refuses waits for a table that can be taken from the channel:
-- with room for a table at all and no more in the channel than it has room for, `TakeFlushMemTable`
-- returns one, and behind it `EnsureMemForWrite`, if it can create the file, puts the full table into
-- the channel and a new one in its place.
pub ensure_mem_for_write-take_flush_mem_table :
    (can_create : Bool) (mm : MemManager)
    → 0 < mm.num_mem_tables
    → length mm.flush_ch ≤ mm.num_mem_tables
    → ensure_mem_for_write can_create mm ≡ some no_room
    → (fid f : ℕ) × (nn : MemManager) × (mm.mem ≡ some fid)
      × (take_flush_mem_table mm ≡ some (f, nn))
      × (ensure_mem_for_write true nn ≡ some (ensured (fresh (send_mem fid nn))))
unfolding ensure_mem_for_write
ensure_mem_for_write-take_flush_mem_table can_create mm some_room bounded e =
    let (fid, current, is_so, crowded) = crowded_room can_create mm mm.mem refl e in
    let (f, nn, took, again) =
      take_room mm fid mm.flush_ch current is_so refl (omega (arith, some_room, crowded)) bounded in
    (fid, f, nn, current, took, again)
