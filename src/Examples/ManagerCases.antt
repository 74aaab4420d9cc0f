-- ===== src/Examples/ManagerCases.antt =====
-- The manager of the memory tables: storage/memory/memtable_manager.go.
use equinoxdb.Manager.{on_mem_table_flushed}
use equinoxdb.Manager.Runs.{flushed_step}
use equinoxdb.Base.{ℕ, ◌≡◌, refl, true, false, none, some, List, [], ◌∷◌, arith}
use equinoxdb.Cache.{new_cache}
use equinoxdb.Examples.WalCases.{marking}
use equinoxdb.Manager.{MemManager, new_mem_table, ensured, send_mem, ensure_mem_for_write}
use equinoxdb.Manager.{take_flush_mem_table, new_mem_manager}
use equinoxdb.Manager.Orders.{opened, Reach-opened-IsOrderly}
use equinoxdb.Manager.Runs.{ensure_step, take_step, fresh}
use equinoxdb.Manager.Stuck.{give_up_lem}
use equinoxdb.Manager.Waits.{ensure_mem_for_write-take_flush_mem_table}
use equinoxdb.Tables.{MemTable, is_full}
use equinoxdb.Manager.Runs.{System, start, next, Reach, IsOrderly}

abbrev no_tables : ℕ → MemTable
no_tables n = record {
  cache = new_cache;
  wal = record { pos = 0; size = 0; bytes = [] };
  max_size = 0;
}

-- Every table is full at once, and the channel has room for one.
abbrev small_manager : MemManager
small_manager = fresh (record {
  tables = no_tables;
  mem = none;
  imm = [];
  next_mem_fid = 1;
  flush_ch = [];
  flushing = 0;
  num_mem_tables = 1;
  max_mem_table_size = 0;
})

small_manager_lem : new_mem_manager true 1 0 no_tables ≡ some small_manager
unfolding new_mem_manager
small_manager_lem = refl

abbrev switched_manager : MemManager
switched_manager = fresh (send_mem 1 small_manager)

abbrev taking : System
taking = record {
  manager = record switched_manager { flush_ch = [] };
  taken = some 1;
  released = [];
  given_up = false;
}

Reach-taking : Reach marking (opened small_manager) taking
unfolding ensure_mem_for_write take_flush_mem_table is_full new_cache new_mem_table
Reach-taking =
    next (next start (ensure_step true switched_manager refl))
      (take_step 1 (record switched_manager { flush_ch = [] }) refl refl)

Reach-opened-IsOrderly_example : IsOrderly taking
Reach-opened-IsOrderly_example =
    Reach-opened-IsOrderly marking 1 0 no_tables small_manager small_manager_lem Reach-taking

-- After the first table was given up, the second one is taken and flushed.
abbrev later_manager : MemManager
later_manager = fresh (send_mem 2 (record switched_manager { flush_ch = [] }))

abbrev after_flush : System
after_flush = record {
  manager = record later_manager { flush_ch = [] };
  taken = none;
  released = [];
  given_up = true;
}

Reach-after_flush : Reach marking (record taking { taken = none; given_up = true }) after_flush
unfolding ensure_mem_for_write take_flush_mem_table on_mem_table_flushed is_full new_cache
    new_mem_table
Reach-after_flush =
    next
      (next (next start (ensure_step true later_manager refl))
        (take_step 2 (record later_manager { flush_ch = [] }) refl refl))
      (flushed_step 2 (record later_manager { flush_ch = [] }) refl refl)

give_up_lem_example :
    ((rest : List ℕ) × ((after_flush.manager).imm ≡ 1 ∷ rest))
    × (after_flush.released ≡ taking.released)
give_up_lem_example =
    give_up_lem marking taking 1
      (Reach-opened-IsOrderly marking 1 0 no_tables small_manager small_manager_lem Reach-taking)
      refl refl Reach-after_flush

ensure_mem_for_write-take_flush_mem_table_example :
    (fid f : ℕ) × (nn : MemManager) × (switched_manager.mem ≡ some fid)
    × (take_flush_mem_table switched_manager ≡ some (f, nn))
    × (ensure_mem_for_write true nn ≡ some (ensured (fresh (send_mem fid nn))))
unfolding ensure_mem_for_write is_full new_cache new_mem_table
ensure_mem_for_write-take_flush_mem_table_example =
    ensure_mem_for_write-take_flush_mem_table true switched_manager (omega arith) (omega arith) refl
