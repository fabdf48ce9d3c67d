-- ===== src/Hash/Purge.antt =====
-- Purging an entry against removing its context.
use windows_system_wide_filt.Base.{
  ℕ, List, Option, lookup, some, get_elem?, ◌∷◌, ◌≡◌, refl, remove, ==_refl, sym, true, ◌==◌,
}
use windows_system_wide_filt.Object.{Store}
use windows_system_wide_filt.Hash.State.{
  HashState, FunctionForContext, HashEntryObject, HashObject, with_entry, with_hash,
}
use windows_system_wide_filt.Hash.Operations.{
  hash_line, universal_hash_key_function, remove_context_by_key_value, first_with_key,
  free_removed_hash_entry_object, set_delete_function, set_line,
}
use windows_system_wide_filt.Hash.Sweep.{purge_entry}

module _ {C : Type 0} (hash index entry : ℕ) (rest : List ℕ) (s : Store (HashState C)) where
  -- The entry stands at the head of a line of the table, the line of its key, and its purge is
  -- enabled.
  pub record AtHead : Type 0 where
    pub home : HashObject
    pub heads : List (List ℕ)
    pub body : HashEntryObject C
    pub has_hash : lookup hash s.client.hashes ≡ some home
    pub has_heads : home.lines ≡ some heads
    pub has_line : get_elem? heads index ≡ some (entry ∷ rest)
    pub has_body : lookup entry s.client.entries ≡ some body
    pub hashed : universal_hash_key_function home body.key_value ≡ some index
    pub enabled : body.purge_disabled ≡ 0

  remove_head : remove entry (entry ∷ rest) ≡ rest
  unfolding remove
  remove_head = rw ==_refl refl

  head_found :
      (at : AtHead)
      → first_with_key at.body.key_value (entry ∷ rest) s.client.entries ≡ some (some entry)
  unfolding first_with_key
  head_found at = rw (first_with_key, at.has_body, ==_refl) refl

  head_line :
      (at : AtHead) → hash_line hash at.body.key_value s ≡ some (at.home, index, entry ∷ rest)
  unfolding hash_line
  head_line at = rw (at.has_hash, at.hashed, at.has_heads, at.has_line) refl

  -- Purging is removing: for an entry at the head of its line whose purge is enabled, a round of
  -- `OcHsPurgeAllEntriesFromHash` does what `OcHsRemoveContextByKeyValue` does for the key of the
  -- entry: it takes the same entry off, keeps the same function for its context, and gives up the
  -- same references; it fails where that does.
  pub purge-remove :
      (at : AtHead) (function : Option (FunctionForContext C))
      → purge_entry hash index function entry rest s
        ≡ remove_context_by_key_value hash at.body.key_value function s
  unfolding purge_entry remove_context_by_key_value
  purge-remove at function =
      let kept = set_delete_function function at.body in
      let open_now : (at.body.purge_disabled == 0) ≡ true = rw at.enabled refl in
      rw (head_line at, head_found at, at.has_hash, at.has_body, open_now)
        (λ i.
          free_removed_hash_entry_object hash entry
            (with_entry entry kept (with_hash hash (set_line index (sym remove_head i) at.home) s)))
