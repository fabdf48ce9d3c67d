-- ===== src/RwLock/Exclusion.antt =====
-- Mutual exclusion, under any schedule of up to 2 ^ 24 threads.
use windows_system_wide_filt.Base.{
  ℕ, zero, suc, ◌+◌, ◌*◌, ◌%◌, ◌^◌, ◌≤◌, ◌<◌, ◌≡◌, ◌⊎◌, some, List, [], ◌∷◌, arith, total,
  total-set, get_elem?, set, dec32, refl, total-ge, System, Stepped, run, run_inv, if◌then◌else◌,
  ◌==◌,
}
use windows_system_wide_filt.RwLock.{RwSpinLock}
use windows_system_wide_filt.RwLock.Interleaving.{
  Pc, outside, undo, reading, writing, Choice, for_read, for_write, move, readers, undoing, writers,
  everybody, outsiders, all_outside, start,
}

-- What the word says about the threads: with few enough of them, one writer or the readers.
pub record Inv (s : System RwSpinLock Pc) : Type 0 where
  pub few : total everybody s.threads ≤ 2 ^ 24
  pub split :
      total outsiders s.threads
        + total readers s.threads
        + total undoing s.threads
        + total writers s.threads
      ≡ total everybody s.threads
  pub word : s.mem < 2 ^ 32
  pub counts :
      (s.mem + total readers s.threads + total undoing s.threads + 2 ^ 24 * total writers s.threads)
        % 2 ^ 32
      ≡ 2 ^ 24
  pub exclusive :
      ((total writers s.threads ≡ 0)
        ⊎ (total writers s.threads ≡ 1) × (total readers s.threads ≡ 0))

-- How the sums change when a thread goes from `p` to `q`.
record Changed (ps qs : List Pc) (p q : Pc) : Type 0 where
  r : total readers qs + readers p ≡ total readers ps + readers q
  u : total undoing qs + undoing p ≡ total undoing ps + undoing q
  w : total writers qs + writers p ≡ total writers ps + writers q
  e : total everybody qs ≡ total everybody ps
  r0 : readers p ≤ total readers ps
  u0 : undoing p ≤ total undoing ps
  w0 : writers p ≤ total writers ps
  below :
      total outsiders qs + total readers qs + total undoing qs + total writers qs
      ≡ total everybody qs

move-Inv :
    (c : Choice) (lock lock' : RwSpinLock) (p q : Pc) (ps qs : List Pc)
    → move c lock p ≡ some (lock', q)
    → Changed ps qs p q
    → Inv (record { mem = lock; threads = ps })
    → Inv (record { mem = lock'; threads = qs })
unfolding move
move-Inv for_read lock lock' outside q ps qs h ch v = ground arith
move-Inv for_write lock lock' outside q ps qs h ch v = ground arith
move-Inv c lock lock' undo q ps qs h ch v = ground arith
move-Inv c lock lock' reading q ps qs h ch v = ground arith
move-Inv c lock lock' writing q ps qs h ch v = ground arith

total-below :
    (ps : List Pc)
    → total outsiders ps + total readers ps + total undoing ps + total writers ps
      ≡ total everybody ps
total-below [] = omega arith
total-below (outside ∷ ps) = omega (arith, total-below ps)
total-below (undo ∷ ps) = omega (arith, total-below ps)
total-below (reading ∷ ps) = omega (arith, total-below ps)
total-below (writing ∷ ps) = omega (arith, total-below ps)

changed :
    (i : ℕ) (ps : List Pc) {p : Pc} (q : Pc) → get_elem? ps i ≡ some p → Changed ps (set ps i q) p q
changed i ps {p} q h = record {
  r = total-set readers ps i q h;
  u = total-set undoing ps i q h;
  w = total-set writers ps i q h;
  e = omega (arith, total-set everybody ps i q h);
  r0 = total-ge readers ps i h;
  u0 = total-ge undoing ps i h;
  w0 = total-ge writers ps i h;
  below = total-below (set ps i q);
}

pub Stepped-Inv :
    (i : ℕ) (c : Choice) (s t : System RwSpinLock Pc) → Stepped move i c s t → Inv s → Inv t
Stepped-Inv i c s t d v =
    move-Inv c s.mem t.mem d.before d.after s.threads t.threads d.moved
      (rw d.stands (changed i s.threads d.after d.stood)) v

all_outside-totals :
    (n : ℕ)
    → (total readers (all_outside n) ≡ 0)
      × (total undoing (all_outside n) ≡ 0)
      × (total writers (all_outside n) ≡ 0)
      × (total everybody (all_outside n) ≡ n)
all_outside-totals zero = (refl, refl, refl, refl)
all_outside-totals (suc n) = omega (arith, all_outside-totals n)

pub start-Inv : (n : ℕ) → n ≤ 2 ^ 24 → Inv (start n)
unfolding start
start-Inv n h = ground (arith, all_outside-totals n, total-below (all_outside n))

pub run-Inv :
    (n : ℕ) (l : List (ℕ × Choice)) {t : System RwSpinLock Pc}
    → n ≤ 2 ^ 24
    → run move l (start n) ≡ some t
    → Inv t
run-Inv n l small h = run_inv move Inv Stepped-Inv l (start n) h (start-Inv n small)

-- The lock excludes: after any schedule of up to 2 ^ 24 threads that start outside the lock just
-- initialised, either no thread holds it for writing, or exactly one does and no thread holds it
-- for reading.
pub writer_excludes :
    (n : ℕ) (l : List (ℕ × Choice)) {t : System RwSpinLock Pc}
    → n ≤ 2 ^ 24
    → run move l (start n) ≡ some t
    → ((total writers t.threads ≡ 0)
        ⊎ (total writers t.threads ≡ 1) × (total readers t.threads ≡ 0))
writer_excludes n l small h = (run-Inv n l small h).exclusive

-- When an attempt succeeds: after any schedule of up to 2 ^ 24 threads, an attempt of a thread that
-- is outside the lock takes it for reading exactly if no thread holds it for writing, and for
-- writing exactly if no thread holds it or is undoing an attempt to read. A failed attempt to write
-- leaves the word alone.
pub attempt_succeeds :
    (n : ℕ) (l : List (ℕ × Choice)) {t : System RwSpinLock Pc} (i : ℕ)
    → n ≤ 2 ^ 24
    → run move l (start n) ≡ some t
    → get_elem? t.threads i ≡ some outside
    → (move for_read t.mem outside
        ≡ some (dec32 t.mem, if total writers t.threads == 0 then reading else undo))
      × (move for_write t.mem outside ≡ (
          if total readers t.threads + total undoing t.threads + total writers t.threads == 0
          then some (0, writing)
          else some (t.mem, outside)))
unfolding move
attempt_succeeds n l {t} i small h out =
    let v = run-Inv n l small h in
    let there = total-ge outsiders t.threads i out in (ground arith, ground arith)
