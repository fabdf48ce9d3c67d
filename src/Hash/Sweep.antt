-- ===== src/Hash/Sweep.antt =====
-- The two functions of the hash table that go over all its lines: purging and traversing it.
use windows_system_wide_filt.Base.{
  ℕ, List, Option, [], get_elem?, if◌then◌else◌, inc32, lookup, none, not, some, suc, zero, ◌==◌,
  ◌>>=◌, ◌∷◌,
}
use windows_system_wide_filt.Object.{Store, reference_object}
use windows_system_wide_filt.Hash.State.{HashState, FunctionForContext, with_entry, with_hash}
use windows_system_wide_filt.Hash.Operations.{
  find_after_lock, free_removed_hash_entry_object, set_delete_function, set_line,
}

module _ {C : Type 0} where
  -- One round of the `while` of `OcHsPurgeAllEntriesFromHash`: the entry at the head of the line is
  -- taken off, and `rest` is left. While the purge of the entry is disabled the code sleeps; with
  -- nobody to enable it that is for ever, `none`.
  unfoldable pub purge_entry :
      ℕ
      → ℕ
      → Option (FunctionForContext C)
      → ℕ
      → List ℕ
      → Store (HashState C)
      → Option (Store (HashState C))
  purge_entry hash index function entry rest s = do
    h ← lookup hash s.client.hashes
    e ← lookup entry s.client.entries
    if not (e.purge_disabled == 0)
        then none
        else free_removed_hash_entry_object hash entry (
            with_entry entry (set_delete_function function e)
              (with_hash hash (set_line index rest h) s))

  unfoldable pub purge_line :
      ℕ
      → ℕ
      → Option (FunctionForContext C)
      → List ℕ
      → Store (HashState C)
      → Option (Store (HashState C))
  purge_line hash index function [] s = some s
  purge_line hash index function (entry ∷ rest) s =
      purge_entry hash index function entry rest s >>= purge_line hash index function rest

  -- The `for` of `OcHsPurgeAllEntriesFromHash`, with the rounds left.
  unfoldable pub purge_lines :
      ℕ → Option (FunctionForContext C) → ℕ → ℕ → Store (HashState C) → Option (Store (HashState C))
  purge_lines hash function zero index s = some s
  purge_lines hash function (suc rounds) index s = do
    h ← lookup hash s.client.hashes
    heads ← h.lines
    line ← get_elem? heads index
    s' ← purge_line hash index function line s
    purge_lines hash function rounds (suc index) s'

  unfoldable pub purge_all_entries_from_hash :
      ℕ → Option (FunctionForContext C) → Store (HashState C) → Option (Store (HashState C))
  purge_all_entries_from_hash hash function s = do
    h ← lookup hash s.client.hashes
    purge_lines hash function h.number_of_hash_lines 0 s

  -- One entry of `OcHsTraverseAllEntriesInHash`, while nobody inserts or removes: it is held while
  -- the function is called.
  unfoldable pub traverse_entry :
      FunctionForContext C → ℕ → Store (HashState C) → Option (Store (HashState C))
  traverse_entry function entry s = do
    e ← lookup entry s.client.entries
    s1 ← reference_object entry s
    let pinned = with_entry entry (record e { purge_disabled = inc32 e.purge_disabled }) s1
    r ← find_after_lock (some function) entry pinned
    some r.0

  unfoldable pub traverse_line :
      FunctionForContext C → List ℕ → Store (HashState C) → Option (Store (HashState C))
  traverse_line function [] s = some s
  traverse_line function (entry ∷ rest) s =
      traverse_entry function entry s >>= traverse_line function rest

  -- The `for` of `OcHsTraverseAllEntriesInHash`, with the rounds left.
  unfoldable pub traverse_lines :
      FunctionForContext C
      → List (List ℕ)
      → ℕ
      → ℕ
      → Store (HashState C)
      → Option (Store (HashState C))
  traverse_lines function heads zero index s = some s
  traverse_lines function heads (suc rounds) index s = do
    line ← get_elem? heads index
    s' ← traverse_line function line s
    traverse_lines function heads rounds (suc index) s'

  unfoldable pub traverse_all_entries_in_hash :
      ℕ → FunctionForContext C → Store (HashState C) → Option (Store (HashState C))
  traverse_all_entries_in_hash hash function s = lookup hash s.client.hashes >>= λ h.
      if h.number_of_hash_lines == 0
      then some s
      else do heads ← h.lines; traverse_lines function heads h.number_of_hash_lines 0 s
