-- ===== src/Manager/Orders.antt =====
-- The tables of the manager of storage/memory/memtable_manager.go, over any run, in the order of their
-- ids: those that are flushed, those that wait, and the current one.
use equinoxdb.Base.{true, false}
use equinoxdb.Manager.{new_mem_manager}
use equinoxdb.Tables.{MemTable}
use equinoxdb.Base.{◌+◌, ◌-◌, sym, append-nil, append_assoc}
use equinoxdb.Manager.Runs.{inner, upto-snoc}
use equinoxdb.Manager.Runs.{System, Step, start, next, Reach}
use equinoxdb.Base.{ℕ, suc, ◌≡◌, refl, ap, ap₂, ◌∙◌, subst, inl, inr, Option, none, some, List}
use equinoxdb.Base.{[], ◌∷◌, ◌++◌, arith, ◌==◌, Bool-cases, length, length-append}
use equinoxdb.Manager.{MemManager, ensured, not_created, take_from, take_flush_mem_table}
use equinoxdb.Manager.{release_first, on_mem_table_flushed, delete_range_mem}
use equinoxdb.Manager.Runs.{one, if_first, ensure_step, fail_step, write_step, delete_step}
use equinoxdb.Manager.Runs.{take_step, flushed_step, give_up_step, IsOrderly, Ensures, enough}
use equinoxdb.Manager.Runs.{replaced, without_new, ensure_mem_for_write-Ensures}
use equinoxdb.Manager.Runs.{set_tables-IsOrderly, bind_cases, write-same, delete-same}
use equinoxdb.Wal.Log.{Snappy}

ends_with :
    (xs ys : List ℕ) (o : Option ℕ) (f n : ℕ)
    → o ≡ some f
    → xs ++ (ys ++ ((f ∷ []) ++ (n ∷ []))) ≡ (xs ++ (ys ++ one o)) ++ (n ∷ [])
ends_with xs ys none f n e = absurd (cc)
ends_with xs ys (some g) f n e =
    let same : g ≡ f = inner e in
    ap (λ (zs : List ℕ). xs ++ zs) (sym (append_assoc ys (f ∷ []) (n ∷ [])))
    ∙ sym (append_assoc xs (ys ++ (f ∷ [])) (n ∷ []))
    ∙ ap (λ (k : ℕ). (xs ++ (ys ++ (k ∷ []))) ++ (n ∷ [])) (sym same)

sent_last :
    (o : Option ℕ) (imm ch : List ℕ) (f : ℕ)
    → imm ≡ one o ++ ch
    → imm ++ (f ∷ []) ≡ one o ++ (ch ++ (f ∷ []))
sent_last o imm ch f e = ap (λ (xs : List ℕ). xs ++ (f ∷ [])) e ∙ append_assoc (one o) ch (f ∷ [])

Ensures-IsOrderly :
    (a : System) (nn : MemManager)
    → Ensures a.manager (ensured nn)
    → IsOrderly a
    → IsOrderly (record a { manager = nn })
Ensures-IsOrderly a nn enough v = v
Ensures-IsOrderly a nn (replaced fid e room) v = record {
  count = suc v.count;
  ids =
      let last : (a.manager).next_mem_fid ≡ v.count + 1 = omega (arith, v.new_id) in
      ap (λ (xs : List ℕ). a.released ++ xs)
        (append_assoc (a.manager).imm (fid ∷ []) ((a.manager).next_mem_fid ∷ []))
      ∙ ends_with a.released (a.manager).imm (a.manager).mem fid (a.manager).next_mem_fid e
      ∙ ap₂ (λ (xs : List ℕ) (n : ℕ). xs ++ (n ∷ [])) v.ids last
      ∙ sym (upto-snoc v.count 1);
  new_id = ap suc v.new_id;
  queued = λ h. sent_last a.taken (a.manager).imm (a.manager).flush_ch fid (v.queued h);
  bounded = omega (arith, length-append (a.manager).flush_ch (fid ∷ []), room);
  counted = omega (arith, length-append (a.manager).imm (fid ∷ []), v.counted);
}

fails-IsOrderly :
    (a : System) (nn : MemManager)
    → Ensures a.manager (not_created nn)
    → IsOrderly a
    → IsOrderly (record a { manager = nn })
fails-IsOrderly a nn (without_new fid e room) v = record {
  count = v.count;
  ids =
      ap (λ (xs : List ℕ). a.released ++ xs)
        (append-nil ((a.manager).imm ++ (fid ∷ []))
          ∙ ap (λ (o : Option ℕ). (a.manager).imm ++ one o) (sym e))
      ∙ v.ids;
  new_id = v.new_id;
  queued = λ h. sent_last a.taken (a.manager).imm (a.manager).flush_ch fid (v.queued h);
  bounded = omega (arith, length-append (a.manager).flush_ch (fid ∷ []), room);
  counted = omega (arith, length-append (a.manager).imm (fid ∷ []), v.counted);
}

taken-IsOrderly :
    (a : System) (f : ℕ) (mm : MemManager) (fs : List ℕ)
    → a.taken ≡ none
    → (a.manager).flush_ch ≡ fs
    → take_from a.manager fs ≡ some (f, mm)
    → IsOrderly a
    → IsOrderly (record a { manager = mm; taken = some f })
taken-IsOrderly a f mm [] e at t v = absurd (cc)
taken-IsOrderly a f mm (g ∷ fs) e at t v =
    let same_id : g ≡ f = cc in
    let same_manager : record (a.manager) { flush_ch = fs } ≡ mm = cc in
    subst (λ (nn : MemManager). IsOrderly (record a { manager = nn; taken = some f })) same_manager
      (record {
        count = v.count;
        ids = v.ids;
        new_id = v.new_id;
        queued = λ h.
            v.queued h
            ∙ ap₂ (λ (o : Option ℕ) (xs : List ℕ). one o ++ xs) e at
            ∙ ap (λ (n : ℕ). n ∷ fs) same_id;
        bounded = omega (arith, v.bounded, ap length at);
        counted = v.counted;
      })

first_taken :
    (o : Option ℕ) (f : ℕ) {i : ℕ} {is imm ch : List ℕ}
    → o ≡ some f
    → imm ≡ i ∷ is
    → imm ≡ one o ++ ch
    → (i ≡ f) × (is ≡ ch)
first_taken none f e at q = absurd (cc)
first_taken (some g) f e at q = (cc, cc)

released-IsOrderly :
    (a : System) (f : ℕ) (mm : MemManager) (is : List ℕ)
    → a.taken ≡ some f
    → (a.manager).imm ≡ is
    → release_first a.manager f is ≡ some mm
    → IsOrderly a
    → IsOrderly (record {
      manager = mm;
      taken = none;
      released = a.released ++ if_first f is;
      given_up = a.given_up;
    })
released-IsOrderly a f mm [] e at t v = absurd (cc)
released-IsOrderly a f mm (i ∷ is) e at t v = elim (Bool-cases (i == f)) [
  | inl same ↦
      let first : i ≡ f = ground arith in
      let left : record (a.manager) { imm = is; flushing = (a.manager).flushing - 1 } ≡ mm =
        inner (rw same at t) in
      let one_less : (a.manager).flushing - 1 ≡ length is =
        omega (arith, v.counted, ap length at) in
      rw same (
        subst
          (λ (nn : MemManager). IsOrderly (record {
            manager = nn;
            taken = none;
            released = a.released ++ (f ∷ []);
            given_up = a.given_up;
          }))
          left
          (record {
            count = v.count;
            ids =
                append_assoc a.released (f ∷ []) (is ++ one (a.manager).mem)
                ∙ ap₂ (λ (n : ℕ) (xs : List ℕ). a.released ++ xs) first
                    (ap₂ (λ (n : ℕ) (xs : List ℕ). n ∷ (is ++ one (a.manager).mem)) (sym first) at)
                ∙ ap (λ (xs : List ℕ). a.released ++ (xs ++ one (a.manager).mem)) (sym at)
                ∙ v.ids;
            new_id = v.new_id;
            queued = λ h. (first_taken a.taken f e at (v.queued h)).1;
            bounded = v.bounded;
            counted = one_less;
          }))
  | inr other ↦
      let kept : a.manager ≡ mm = inner (rw other at t) in
      rw (other, append-nil a.released)
        (subst
          (λ (nn : MemManager).
            IsOrderly
              (record { manager = nn; taken = none; released = a.released; given_up = a.given_up }))
          kept
          (record {
            count = v.count;
            ids = v.ids;
            new_id = v.new_id;
            queued = λ h.
                let same = (first_taken a.taken f e at (v.queued h)).0 in absurd (ground arith);
            bounded = v.bounded;
            counted = v.counted;
          }))
]

Step-IsOrderly : {s : Snappy} {a b : System} → Step s a b → IsOrderly a → IsOrderly b
unfolding take_flush_mem_table on_mem_table_flushed delete_range_mem
Step-IsOrderly {a = a} (ensure_step c mm e) v =
    Ensures-IsOrderly a mm (ensure_mem_for_write-Ensures c a.manager (ensured mm) e) v
Step-IsOrderly {a = a} (fail_step c mm e) v =
    fails-IsOrderly a mm (ensure_mem_for_write-Ensures c a.manager (not_created mm) e) v
Step-IsOrderly {s} {a} (write_step life h values mm e) v =
    set_tables-IsOrderly a mm (write-same s a.manager mm life h values e) v
Step-IsOrderly {s} {a} (delete_step keys min max mm e) v =
    let (fid, current, e1) = bind_cases (a.manager).mem _ mm e in
    set_tables-IsOrderly a mm (delete-same s a.manager mm keys min max (fid ∷ (a.manager).imm) e1) v
Step-IsOrderly {a = a} (take_step f mm idle e) v =
    taken-IsOrderly a f mm (a.manager).flush_ch idle refl e v
Step-IsOrderly {a = a} (flushed_step f mm e t) v =
    released-IsOrderly a f mm (a.manager).imm e refl t v
Step-IsOrderly {a = a} (give_up_step f e) v = record {
  count = v.count;
  ids = v.ids;
  new_id = v.new_id;
  queued = λ h. absurd (cc);
  bounded = v.bounded;
  counted = v.counted;
}

Reach-IsOrderly : {s : Snappy} {a b : System} → Reach s a b → IsOrderly a → IsOrderly b
Reach-IsOrderly start v = v
Reach-IsOrderly (next r st) v = Step-IsOrderly st (Reach-IsOrderly r v)

abbrev pub opened : MemManager → System
opened mm = record { manager = mm; taken = none; released = []; given_up = false }

opened-IsOrderly :
    (num max : ℕ) (tables : ℕ → MemTable) (mm : MemManager)
    → new_mem_manager true num max tables ≡ some mm
    → IsOrderly (opened mm)
unfolding new_mem_manager
opened-IsOrderly num max tables mm e =
    subst (λ (m : MemManager). IsOrderly (opened m)) (inner e)
      (record {
        count = 1;
        ids = refl;
        new_id = refl;
        queued = λ h. refl;
        bounded = omega arith;
        counted = refl;
      })

-- From a new manager in a directory without logs, over any run of writes, deletions, switches of the
-- table (also where the new file cannot be created) and flushes: the tables that were flushed, the
-- immutable ones and the current one, in this order, are all tables that were ever made, each once;
-- no more wait in the channel than it has room for; the wait group counts the immutable tables; and
-- unless a table was given up, these are the one that is being flushed and then those in the channel.
pub Reach-opened-IsOrderly :
    (s : Snappy) (num max : ℕ) (tables : ℕ → MemTable) (mm : MemManager) {a : System}
    → new_mem_manager true num max tables ≡ some mm
    → Reach s (opened mm) a
    → IsOrderly a
Reach-opened-IsOrderly s num max tables mm e r =
    Reach-IsOrderly r (opened-IsOrderly num max tables mm e)
