-- ===== src/RemoveLock/Counts.antt =====
-- How many threads stand at each point of the remove lock, and how one step changes that.
use windows_system_wide_filt.Base.{
  ℕ, List, [], arith, get_elem?, refl, set, some, total, total-ge, total-set, ◌*◌, ◌+◌, ◌∷◌, ◌≡◌,
  ◌≤◌,
}
use windows_system_wide_filt.RemoveLock.{
  Pc, acquiring, backing_out, gone, holding, removing, removing_first, signalling, waiting,
}

abbrev pub acquirers : Pc → ℕ
acquirers acquiring = 1
acquirers _ = 0

abbrev pub quitters : Pc → ℕ
quitters backing_out = 1
quitters _ = 0

abbrev pub signallers : Pc → ℕ
signallers signalling = 1
signallers _ = 0

abbrev pub holders : Pc → ℕ
holders holding = 1
holders _ = 0

abbrev pub firsts : Pc → ℕ
firsts removing_first = 1
firsts _ = 0

abbrev pub removers : Pc → ℕ
removers removing = 1
removers _ = 0

abbrev pub waiters : Pc → ℕ
waiters waiting = 1
waiters _ = 0

abbrev pub leavers : Pc → ℕ
leavers gone = 1
leavers _ = 0

abbrev pub everybody : Pc → ℕ
everybody _ = 1

-- References that a thread stands for: its own, and the initial one before the first decrement.
abbrev pub references : Pc → ℕ
references p = acquirers p + quitters p + holders p + 2 * firsts p + removers p

-- One thread goes from `p` to `q`.
pub record Changed (ps qs : List Pc) (p q : Pc) : Type 0 where
  pub acquirers_eq : total acquirers qs + acquirers p ≡ total acquirers ps + acquirers q
  pub quitters_eq : total quitters qs + quitters p ≡ total quitters ps + quitters q
  pub signallers_eq : total signallers qs + signallers p ≡ total signallers ps + signallers q
  pub holders_eq : total holders qs + holders p ≡ total holders ps + holders q
  pub firsts_eq : total firsts qs + firsts p ≡ total firsts ps + firsts q
  pub removers_eq : total removers qs + removers p ≡ total removers ps + removers q
  pub waiters_eq : total waiters qs + waiters p ≡ total waiters ps + waiters q
  pub leavers_eq : total leavers qs + leavers p ≡ total leavers ps + leavers q
  pub everybody_eq : total everybody qs + everybody p ≡ total everybody ps + everybody q
  pub acquirers_le : acquirers p ≤ total acquirers ps
  pub quitters_le : quitters p ≤ total quitters ps
  pub signallers_le : signallers p ≤ total signallers ps
  pub holders_le : holders p ≤ total holders ps
  pub firsts_le : firsts p ≤ total firsts ps
  pub removers_le : removers p ≤ total removers ps
  pub waiters_le : waiters p ≤ total waiters ps
  pub leavers_le : leavers p ≤ total leavers ps
  pub references_eq : total references qs + references p ≡ total references ps + references q
  pub references_ge : references p ≤ total references ps
  pub inside_le : total references qs ≤ 2 * total everybody qs

references-le : (ps : List Pc) → total references ps ≤ 2 * total everybody ps
references-le [] = omega arith
references-le (p ∷ ps) = ground (arith, references-le ps)

pub changed :
    (i : ℕ) (ps : List Pc) {p : Pc} (q : Pc) → get_elem? ps i ≡ some p → Changed ps (set ps i q) p q
changed i ps q h = record {
  acquirers_eq = total-set acquirers ps i q h;
  quitters_eq = total-set quitters ps i q h;
  signallers_eq = total-set signallers ps i q h;
  holders_eq = total-set holders ps i q h;
  firsts_eq = total-set firsts ps i q h;
  removers_eq = total-set removers ps i q h;
  waiters_eq = total-set waiters ps i q h;
  leavers_eq = total-set leavers ps i q h;
  everybody_eq = total-set everybody ps i q h;
  acquirers_le = total-ge acquirers ps i h;
  quitters_le = total-ge quitters ps i h;
  signallers_le = total-ge signallers ps i h;
  holders_le = total-ge holders ps i h;
  firsts_le = total-ge firsts ps i h;
  removers_le = total-ge removers ps i h;
  waiters_le = total-ge waiters ps i h;
  leavers_le = total-ge leavers ps i h;
  references_eq = total-set references ps i q h;
  references_ge = total-ge references ps i h;
  inside_le = references-le (set ps i q);
}

-- The references, by the points where their owners stand.
pub references-split :
    (ps : List Pc)
    → total references ps
      ≡ total acquirers ps
        + total quitters ps
        + total holders ps
        + 2 * total firsts ps
        + total removers ps
references-split [] = refl
references-split (p ∷ ps) = omega (arith, references-split ps)
