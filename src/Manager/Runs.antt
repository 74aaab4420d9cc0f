-- ===== src/Manager/Runs.antt =====
-- The manager of storage/memory/memtable_manager.go over time: the calls of the engine and of the one
-- goroutine that flushes tables (`doCompactMemTable` of storage/engine_compact_snap.go), which takes
-- a table when it has none.
use equinoxdb.Base.{ap, ◌∙◌, arith, ltb}
use equinoxdb.Manager.{wrote, delete_in_table}
use equinoxdb.Tables.{TableWrite, table_written, wal_failed, cache_failed, cache_panic, wal_panic}
use equinoxdb.Tables.{write_table}
use equinoxdb.Base.{◌+◌, ◌<◌, refl, inl, inr, Bool-cases}
use equinoxdb.Manager.{set_table, new_mem_table, with_new, Ensured, no_room, send_mem, after_new}
use equinoxdb.Manager.{ensure_mem, delete_in_tables}
use equinoxdb.Tables.{is_full}
use equinoxdb.Base.{ℕ, zero, suc, ◌≤◌, ◌≡◌, sym, subst, Bool, true, false, Option, none, some}
use equinoxdb.Base.{List, [], ◌∷◌, ◌++◌, ◌==◌, if◌then◌else◌, length}
use equinoxdb.Bytes.{Bytes}
use equinoxdb.Manager.{MemManager, ensured, not_created, ensure_mem_for_write}
use equinoxdb.Manager.{take_flush_mem_table, on_mem_table_flushed, write_multi_mem}
use equinoxdb.Manager.{delete_range_mem}
use equinoxdb.Wal.Log.{Snappy}
use equinoxdb.Wal.Sizes.{KeyValues}
use equinoxdb.Base.{◌>>=◌}

-- `taken` is the table that is being flushed; `released` are those whose flush `OnMemTableFlushed`
-- has taken out of the immutable ones; `given_up` tells whether the goroutine, at its end, has left a
-- table that it had taken.
pub record System : Type 0 where
  pub manager : MemManager
  pub taken : Option ℕ
  pub released : List ℕ
  pub given_up : Bool

abbrev pub one : Option ℕ → List ℕ
one none = []
one (some f) = f ∷ []

abbrev pub if_first : ℕ → List ℕ → List ℕ
if_first f [] = []
if_first f (i ∷ is) = if i == f then f ∷ [] else []

-- The numbers from `n` on.
abbrev pub upto : ℕ → ℕ → List ℕ
upto zero n = []
upto (suc k) n = n ∷ upto k (suc n)

pub data Step (s : Snappy) (a : System) : System → Type 0 where
  ensure_step :
      (can_create : Bool) (mm : MemManager)
      → ensure_mem_for_write can_create a.manager ≡ some (ensured mm)
      → Step s a (record a { manager = mm })
  fail_step :
      (can_create : Bool) (mm : MemManager)
      → ensure_mem_for_write can_create a.manager ≡ some (not_created mm)
      → Step s a (record a { manager = mm })
  write_step :
      (life h : Bytes → ℕ) (values : KeyValues) (mm : MemManager)
      → write_multi_mem s a.manager life h values ≡ some mm
      → Step s a (record a { manager = mm })
  delete_step :
      (keys : List Bytes) (min max : ℕ) (mm : MemManager)
      → delete_range_mem s a.manager keys min max ≡ some mm
      → Step s a (record a { manager = mm })
  take_step :
      (f : ℕ) (mm : MemManager)
      → a.taken ≡ none
      → take_flush_mem_table a.manager ≡ some (f, mm)
      → Step s a (record a { manager = mm; taken = some f })
  flushed_step :
      (f : ℕ) (mm : MemManager)
      → a.taken ≡ some f
      → on_mem_table_flushed a.manager f ≡ some mm
      → Step s a (record {
        manager = mm;
        taken = none;
        released = a.released ++ if_first f (a.manager).imm;
        given_up = a.given_up;
      })
  give_up_step : (f : ℕ) → a.taken ≡ some f → Step s a (record a { taken = none; given_up = true })

pub data Reach (s : Snappy) (a : System) : System → Type 0 where
  start : Reach s a a
  next : {b c : System} → Reach s a b → Step s b c → Reach s a c

pub record IsOrderly (a : System) : Type 0 where
  pub count : ℕ
  pub ids : a.released ++ ((a.manager).imm ++ one (a.manager).mem) ≡ upto count 1
  pub new_id : (a.manager).next_mem_fid ≡ suc count
  pub queued : a.given_up ≡ false → (a.manager).imm ≡ one a.taken ++ (a.manager).flush_ch
  pub bounded : length (a.manager).flush_ch ≤ (a.manager).num_mem_tables
  pub counted : (a.manager).flushing ≡ length (a.manager).imm

abbrev pub fresh : MemManager → MemManager
fresh mm = record (set_table mm mm.next_mem_fid (new_mem_table mm.max_mem_table_size)) {
  mem = some mm.next_mem_fid;
  next_mem_fid = suc mm.next_mem_fid;
}

-- What `EnsureMemForWrite` may do.
pub data Ensures (mm : MemManager) : Ensured → Type 0 where
  enough : Ensures mm (ensured mm)
  full_queue : Ensures mm no_room
  replaced :
      (fid : ℕ)
      → mm.mem ≡ some fid
      → length mm.flush_ch < mm.num_mem_tables
      → Ensures mm (ensured (fresh (send_mem fid mm)))
  without_new :
      (fid : ℕ)
      → mm.mem ≡ some fid
      → length mm.flush_ch < mm.num_mem_tables
      → Ensures mm (not_created (record (send_mem fid mm) { mem = none }))

pub inner : {A : Type 0} {x y : A} → some x ≡ some y → x ≡ y
inner e = cc

after_new-Ensures :
    (can_create : Bool) (mm : MemManager) (fid : ℕ)
    → mm.mem ≡ some fid
    → length mm.flush_ch < mm.num_mem_tables
    → Ensures mm (after_new (send_mem fid mm) (with_new can_create (send_mem fid mm)))
after_new-Ensures true mm fid e room = replaced fid e room
after_new-Ensures false mm fid e room = without_new fid e room

ensure_mem-Ensures :
    (can_create : Bool) (mm : MemManager) (m : Option ℕ) (r : Ensured)
    → mm.mem ≡ m
    → ensure_mem can_create mm m ≡ some r
    → Ensures mm r
ensure_mem-Ensures can_create mm none r e f = absurd (cc)
ensure_mem-Ensures can_create mm (some fid) r e f = elim (Bool-cases (is_full (mm.tables fid))) [
  | inl is_so ↦ elim (Bool-cases (ltb (length mm.flush_ch) mm.num_mem_tables)) [
    | inl room ↦
        subst (Ensures mm) (inner (rw (is_so, room) at f))
          (after_new-Ensures can_create mm fid e (ground arith))
    | inr crowded ↦ subst (Ensures mm) (inner (rw (is_so, crowded) at f)) full_queue
  ]
  | inr is_not ↦ subst (Ensures mm) (inner (rw is_not at f)) enough
]

pub ensure_mem_for_write-Ensures :
    (can_create : Bool) (mm : MemManager) (r : Ensured)
    → ensure_mem_for_write can_create mm ≡ some r
    → Ensures mm r
unfolding ensure_mem_for_write
ensure_mem_for_write-Ensures can_create mm r e = ensure_mem-Ensures can_create mm mm.mem r refl e

pub upto-snoc : (k n : ℕ) → upto (suc k) n ≡ upto k n ++ ((k + n) ∷ [])
upto-snoc zero n = ap (λ (m : ℕ). m ∷ []) (let e : n ≡ 0 + n = omega arith in e)
upto-snoc (suc k) n = ap (◌∷◌ n) (
    upto-snoc k (suc n)
    ∙ ap (λ (m : ℕ). upto k (suc n) ++ (m ∷ [])) (let e : k + suc n ≡ suc k + n = omega arith in e))

pub set_tables-IsOrderly :
    (a : System) (mm : MemManager)
    → mm ≡ record (a.manager) { tables = mm.tables }
    → IsOrderly a
    → IsOrderly (record a { manager = mm })
set_tables-IsOrderly a mm e v =
    subst (λ (nn : MemManager). IsOrderly (record a { manager = nn })) (sym e)
      (record {
        count = v.count;
        ids = v.ids;
        new_id = v.new_id;
        queued = v.queued;
        bounded = v.bounded;
        counted = v.counted;
      })

pub bind_cases :
    {A B : Type 0} (o : Option A) (f : A → Option B) (y : B)
    → (o >>= f) ≡ some y
    → (x : A) × (o ≡ some x) × (f x ≡ some y)
bind_cases none f y e = absurd (cc)
bind_cases (some x) f y e = (x, refl, e)

wrote-same :
    (s : Snappy) (mm nn : MemManager) (fid : ℕ) (r : TableWrite)
    → wrote s mm fid r ≡ some nn
    → nn ≡ record mm { tables = nn.tables }
wrote-same s mm nn fid (table_written t) e =
    let same : set_table mm fid t ≡ nn = inner e in
    subst (λ (m : MemManager). m ≡ record mm { tables = m.tables }) same refl
wrote-same s mm nn fid wal_failed e = absurd (cc)
wrote-same s mm nn fid (cache_failed w) e = absurd (cc)
wrote-same s mm nn fid (cache_panic w) e = absurd (cc)
wrote-same s mm nn fid wal_panic e = absurd (cc)

pub write-same :
    (s : Snappy) (mm nn : MemManager) (life h : Bytes → ℕ) (values : KeyValues)
    → write_multi_mem s mm life h values ≡ some nn
    → nn ≡ record mm { tables = nn.tables }
unfolding write_multi_mem
write-same s mm nn life h values e =
    let (fid, current, e1) = bind_cases mm.mem _ nn e in
    let (r, result, e2) = bind_cases (write_table s (mm.tables fid) life h values) _ nn e1 in
    wrote-same s mm nn fid r e2

pub delete-same :
    (s : Snappy) (mm nn : MemManager) (keys : List Bytes) (min max : ℕ) (fs : List ℕ)
    → delete_in_tables s keys min max mm fs ≡ some nn
    → nn ≡ record mm { tables = nn.tables }
unfolding delete_in_tables
delete-same s mm nn keys min max [] e =
    subst (λ (m : MemManager). m ≡ record mm { tables = m.tables }) (inner e) refl
delete-same s mm nn keys min max (f ∷ fs) e =
    let (t, done, e1) = bind_cases (delete_in_table s keys min max (mm.tables f)) _ nn e in
    delete-same s (set_table mm f t) nn keys min max fs e1
