-- ===== src/Manager/Stuck.antt =====
-- A table that the flushing goroutine of storage/engine_compact_snap.go has taken and gives up when it
-- ends, before it is flushed, in the manager of storage/memory/memtable_manager.go.
use equinoxdb.Base.{ℕ, zero, suc, ◌+◌, ◌<◌, ◌≡◌, refl, sym, ap, ◌∙◌, subst, true, false, Option}
use equinoxdb.Base.{none, some, List, [], ◌∷◌, ◌++◌, append-nil, arith, ◌==◌, All, All-append}
use equinoxdb.Manager.{MemManager, ensured, not_created, take_from, take_flush_mem_table}
use equinoxdb.Manager.{release_first, on_mem_table_flushed, delete_range_mem}
use equinoxdb.Manager.Runs.{one, if_first, ensure_step, fail_step, write_step, delete_step}
use equinoxdb.Manager.Runs.{take_step, flushed_step, give_up_step, Ensures, enough, replaced}
use equinoxdb.Manager.Runs.{without_new, inner, ensure_mem_for_write-Ensures, bind_cases}
use equinoxdb.Manager.Runs.{write-same, delete-same}
use equinoxdb.Wal.Log.{Snappy}
use equinoxdb.Manager.Runs.{System, Step, upto, start, next, Reach, IsOrderly}

-- A table that was given up stands at the front, and all others are behind it.
record IsStuck (f : ℕ) (done : List ℕ) (a : System) : Type 0 where
  rest : List ℕ
  first : (a.manager).imm ≡ f ∷ rest
  same_done : a.released ≡ done
  behind : All (λ n. f < n) (one a.taken)
  waiting : All (λ n. f < n) (a.manager).flush_ch
  current : All (λ n. f < n) (one (a.manager).mem)
  new_id : f < (a.manager).next_mem_fid

upto_above : (m k n : ℕ) → m < n → All (λ i. m < i) (upto k n)
upto_above m zero n h = tt
upto_above m (suc k) n h = (h, upto_above m k (suc n) (omega (arith, h)))

upto_split :
    (xs : List ℕ) (f : ℕ) (ys : List ℕ) (k n : ℕ)
    → xs ++ (f ∷ ys) ≡ upto k n
    → All (λ i. f < i) ys × (f < n + k)
upto_split [] f ys zero n e = absurd (cc)
upto_split (x ∷ xs) f ys zero n e = absurd (cc)
upto_split [] f ys (suc k) n e =
    let first : f ≡ n = cc in
    let rest : ys ≡ upto k (suc n) = cc in
    (
      subst (All (λ i. f < i)) (sym rest) (upto_above f k (suc n) (omega (arith, first))),
      omega (arith, first),
    )
upto_split (x ∷ xs) f ys (suc k) n e =
    let rest : xs ++ (f ∷ ys) ≡ upto k (suc n) = cc in
    let (after, below) = upto_split xs f ys k (suc n) rest in (after, omega (arith, below))

All-parts : (P : ℕ → Type 0) (xs ys : List ℕ) → All P (xs ++ ys) → All P xs × All P ys
All-parts P [] ys h = (tt, h)
All-parts P (x ∷ xs) ys h = let (front, back) = All-parts P xs ys h.1 in ((h.0, front), back)

give_up-IsStuck :
    (a : System) (f : ℕ)
    → IsOrderly a
    → a.given_up ≡ false
    → a.taken ≡ some f
    → IsStuck f a.released (record a { taken = none; given_up = true })
give_up-IsStuck a f v none_yet e =
    let first : (a.manager).imm ≡ f ∷ (a.manager).flush_ch =
      v.queued none_yet ∙ ap (λ (o : Option ℕ). one o ++ (a.manager).flush_ch) e in
    let ids : a.released ++ (f ∷ ((a.manager).flush_ch ++ one (a.manager).mem)) ≡ upto v.count 1 =
      ap (λ (xs : List ℕ). a.released ++ (xs ++ one (a.manager).mem)) (sym first) ∙ v.ids in
    let (after, below) = upto_split a.released f _ v.count 1 ids in
    let (in_channel, in_use) =
      All-parts (λ n. f < n) (a.manager).flush_ch (one (a.manager).mem) after in
    record {
      rest = (a.manager).flush_ch;
      first = first;
      same_done = refl;
      behind = tt;
      waiting = in_channel;
      current = in_use;
      new_id = omega (arith, below, v.new_id);
    }

Ensures-IsStuck :
    (f : ℕ) (done : List ℕ) (a : System) (nn : MemManager)
    → Ensures a.manager (ensured nn)
    → IsStuck f done a
    → IsStuck f done (record a { manager = nn })
Ensures-IsStuck f done a nn enough v = v
Ensures-IsStuck f done a nn (replaced fid e room) v =
    let mine : All (λ n. f < n) (fid ∷ []) =
      subst (λ (o : Option ℕ). All (λ n. f < n) (one o)) e v.current in
    record {
      rest = v.rest ++ (fid ∷ []);
      first = ap (λ (xs : List ℕ). xs ++ (fid ∷ [])) v.first;
      same_done = v.same_done;
      behind = v.behind;
      waiting = All-append (λ n. f < n) (a.manager).flush_ch (fid ∷ []) v.waiting mine;
      current = (v.new_id, tt);
      new_id = omega (arith, v.new_id);
    }

fails-IsStuck :
    (f : ℕ) (done : List ℕ) (a : System) (nn : MemManager)
    → Ensures a.manager (not_created nn)
    → IsStuck f done a
    → IsStuck f done (record a { manager = nn })
fails-IsStuck f done a nn (without_new fid e room) v =
    let mine : All (λ n. f < n) (fid ∷ []) =
      subst (λ (o : Option ℕ). All (λ n. f < n) (one o)) e v.current in
    record {
      rest = v.rest ++ (fid ∷ []);
      first = ap (λ (xs : List ℕ). xs ++ (fid ∷ [])) v.first;
      same_done = v.same_done;
      behind = v.behind;
      waiting = All-append (λ n. f < n) (a.manager).flush_ch (fid ∷ []) v.waiting mine;
      current = tt;
      new_id = v.new_id;
    }

set_tables-IsStuck :
    (f : ℕ) (done : List ℕ) (a : System) (mm : MemManager)
    → mm ≡ record (a.manager) { tables = mm.tables }
    → IsStuck f done a
    → IsStuck f done (record a { manager = mm })
set_tables-IsStuck f done a mm e v =
    subst (λ (nn : MemManager). IsStuck f done (record a { manager = nn })) (sym e)
      (record {
        rest = v.rest;
        first = v.first;
        same_done = v.same_done;
        behind = v.behind;
        waiting = v.waiting;
        current = v.current;
        new_id = v.new_id;
      })

taken-IsStuck :
    (f : ℕ) (done : List ℕ) (a : System) (g : ℕ) (mm : MemManager) (fs : List ℕ)
    → (a.manager).flush_ch ≡ fs
    → take_from a.manager fs ≡ some (g, mm)
    → IsStuck f done a
    → IsStuck f done (record a { manager = mm; taken = some g })
taken-IsStuck f done a g mm [] at t v = absurd (cc)
taken-IsStuck f done a g mm (h ∷ fs) at t v =
    let same_id : h ≡ g = cc in
    let same_manager : record (a.manager) { flush_ch = fs } ≡ mm = cc in
    let (first_behind, left) = subst (All (λ n. f < n)) at v.waiting in
    subst (λ (nn : MemManager). IsStuck f done (record a { manager = nn; taken = some g }))
      same_manager
      (record {
        rest = v.rest;
        first = v.first;
        same_done = v.same_done;
        behind = (omega (arith, first_behind, same_id), tt);
        waiting = left;
        current = v.current;
        new_id = v.new_id;
      })

released-IsStuck :
    (f : ℕ) (done : List ℕ) (a : System) (g : ℕ) (mm : MemManager) (is : List ℕ)
    → a.taken ≡ some g
    → (a.manager).imm ≡ is
    → release_first a.manager g is ≡ some mm
    → IsStuck f done a
    → IsStuck f done (record {
      manager = mm;
      taken = none;
      released = a.released ++ if_first g is;
      given_up = a.given_up;
    })
released-IsStuck f done a g mm [] e at t v = absurd (cc)
released-IsStuck f done a g mm (i ∷ is) e at t v =
    let (first_behind, nothing) = subst (λ (o : Option ℕ). All (λ n. f < n) (one o)) e v.behind in
    let mine : i ∷ is ≡ f ∷ v.rest = sym at ∙ v.first in
    let same : i ≡ f = cc in
    let other : (i == g) ≡ false = ground (arith, first_behind, same) in
    let kept : a.manager ≡ mm = inner (rw other at t) in
    rw (other, append-nil a.released)
      (subst
        (λ (nn : MemManager).
          IsStuck f done
            (record { manager = nn; taken = none; released = a.released; given_up = a.given_up }))
        kept
        (record {
          rest = v.rest;
          first = v.first;
          same_done = v.same_done;
          behind = tt;
          waiting = v.waiting;
          current = v.current;
          new_id = v.new_id;
        }))

Step-IsStuck :
    (f : ℕ) (done : List ℕ) {s : Snappy} {a b : System}
    → Step s a b
    → IsStuck f done a
    → IsStuck f done b
unfolding take_flush_mem_table on_mem_table_flushed delete_range_mem
Step-IsStuck f done {a = a} (ensure_step c mm e) v =
    Ensures-IsStuck f done a mm (ensure_mem_for_write-Ensures c a.manager (ensured mm) e) v
Step-IsStuck f done {a = a} (fail_step c mm e) v =
    fails-IsStuck f done a mm (ensure_mem_for_write-Ensures c a.manager (not_created mm) e) v
Step-IsStuck f done {s} {a} (write_step life h values mm e) v =
    set_tables-IsStuck f done a mm (write-same s a.manager mm life h values e) v
Step-IsStuck f done {s} {a} (delete_step keys min max mm e) v =
    let (fid, in_use, e1) = bind_cases (a.manager).mem _ mm e in
    set_tables-IsStuck f done a mm
      (delete-same s a.manager mm keys min max (fid ∷ (a.manager).imm) e1) v
Step-IsStuck f done {a = a} (take_step g mm idle e) v =
    taken-IsStuck f done a g mm (a.manager).flush_ch refl e v
Step-IsStuck f done {a = a} (flushed_step g mm e t) v =
    released-IsStuck f done a g mm (a.manager).imm e refl t v
Step-IsStuck f done {a = a} (give_up_step g e) v = record {
  rest = v.rest;
  first = v.first;
  same_done = v.same_done;
  behind = tt;
  waiting = v.waiting;
  current = v.current;
  new_id = v.new_id;
}

Reach-IsStuck :
    (f : ℕ) (done : List ℕ) {s : Snappy} {a b : System}
    → Reach s a b
    → IsStuck f done a
    → IsStuck f done b
Reach-IsStuck f done start v = v
Reach-IsStuck f done (next r st) v = Step-IsStuck f done st (Reach-IsStuck f done r v)

-- In a manager whose tables are in the order of their ids, if the goroutine gives up a table that it has
-- taken, the first one to be given up, then over any
-- run that follows this table stays the first immutable one and no table is released any more, though
-- later ones are taken and flushed.
pub give_up_lem :
    (s : Snappy) (a : System) (f : ℕ) {b : System}
    → IsOrderly a
    → a.given_up ≡ false
    → a.taken ≡ some f
    → Reach s (record a { taken = none; given_up = true }) b
    → ((rest : List ℕ) × ((b.manager).imm ≡ f ∷ rest)) × (b.released ≡ a.released)
give_up_lem s a f v none_yet e r =
    let h = Reach-IsStuck f a.released r (give_up-IsStuck a f v none_yet e) in
    ((h.rest, h.first), h.same_done)
