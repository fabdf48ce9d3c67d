-- ===== src/Hash/Find.antt =====
-- What finding a context does, with nobody and with a removal between its two halves.
use windows_system_wide_filt.Base.{
  ℕ, List, Option, arith, inc32, lookup, some, update, ◌+◌, ◌<◌, ◌^◌, ◌≡◌, ◌≤◌, ==_refl, dec32,
  lookup-update, update-update, update_self, ◌-◌, none, ap,
}
use windows_system_wide_filt.Object.{Store, ObjectHeader, reference_object}
use windows_system_wide_filt.Hash.State.{
  HashState, FunctionForContext, HashEntryObject, HashObject, with_context, with_entry,
}
use windows_system_wide_filt.Hash.Operations.{
  hash_line, find_after_lock, find_under_lock, first_with_key, find_context_by_key_value,
}
use windows_system_wide_filt.Object.Lifetime.{dereference_more-eq}

-- The body and the header of an entry stand, and neither of its two counters is at its end.
pub record Stands {C : Type 0} (entry : ℕ) (s : Store (HashState C)) : Type 0 where
  pub body : HashEntryObject C
  pub header : ObjectHeader
  pub has_body : lookup entry s.client.entries ≡ some body
  pub has_header : lookup entry s.objects ≡ some header
  pub referenced : 1 ≤ header.ref_count
  pub count_room : header.ref_count + 1 < 2 ^ 32
  pub purge_room : body.purge_disabled + 1 < 2 ^ 32

-- Key `key` leads to `entry`, which stands: it is the first of its line that has the key.
pub record Leads {C : Type 0} (hash key : ℕ) (s : Store (HashState C)) (entry : ℕ) : Type 0 where
  pub home : HashObject
  pub index : ℕ
  pub line : List ℕ
  pub stands : Stands entry s
  pub open stands use *
  pub on_line : hash_line hash key s ≡ some (home, index, line)
  pub first : first_with_key key line s.client.entries ≡ some (some entry)

module _ {C : Type 0} {entry : ℕ} (s : Store (HashState C)) (at : Stands entry s) where
  abbrev pub more_header : ObjectHeader
  more_header = record at.header { ref_count = at.header.ref_count + 1 }

  abbrev pub pinned_body : HashEntryObject C
  pinned_body = record at.body { purge_disabled = at.body.purge_disabled + 1 }

  -- The store while the entry is held.
  abbrev pub held_store : Store (HashState C)
  held_store =
      with_entry entry pinned_body (record s { objects = update entry more_header s.objects })

  pub pinned-eq :
      reference_object entry s ≡ some (record s { objects = update entry more_header s.objects })
  unfolding reference_object
  pinned-eq =
      let r : inc32 at.header.ref_count ≡ at.header.ref_count + 1 = omega (arith, at.count_room) in
      rw (at.has_header, r)

  pub find_after_lock-eq :
      (function : Option (FunctionForContext C))
      → find_after_lock function entry held_store
        ≡ some (with_context function at.body.context s, at.body.context)
  unfolding find_after_lock
  find_after_lock-eq function =
      let look = lookup-update entry entry pinned_body at.body s.client.entries at.has_body in
      let there = lookup-update entry entry more_header at.header s.objects at.has_header in
      let p : dec32 (at.body.purge_disabled + 1) ≡ at.body.purge_disabled =
        omega (arith, at.purge_room) in
      let r : at.header.ref_count + 1 - 1 ≡ at.header.ref_count = omega arith in
      let before = with_entry entry at.body (with_context function at.body.context held_store) in
      let back =
        dereference_more-eq entry more_header before (rw (there, ==_refl))
          (omega (arith, at.referenced)) at.count_room in
      rw (look, ==_refl, p, back)
        (simp (r, update-update, update_self entry at.body s.client.entries at.has_body)
          (ap
            (λ m.
              some
                (record (with_context function at.body.context s) { objects = m }, at.body.context))
            (update_self entry at.header s.objects at.has_header)))

module _ {C : Type 0} (hash key : ℕ) (s : Store (HashState C)) {entry : ℕ}
    (at : Leads hash key s entry) where
  pub find_under_lock-eq : find_under_lock hash key s ≡ some (held_store s at.stands, some entry)
  unfolding find_under_lock
  find_under_lock-eq =
      let p : inc32 at.body.purge_disabled ≡ at.body.purge_disabled + 1 =
        omega (arith, at.purge_room) in
      rw (at.on_line, at.first, at.has_body, pinned-eq s at.stands, p)

  -- Finding a context that is there: if the key leads to an entry, `OcHsFindContextByKeyValue` with
  -- nobody in between returns the entry's context, calls the given function on it once, and changes
  -- nothing else: the entry's references and its purge count are what they were.
  pub find_context-eq :
      (function : Option (FunctionForContext C))
      → find_context_by_key_value hash key function s
        ≡ some (with_context function at.body.context s, at.body.context)
  unfolding find_context_by_key_value
  find_context-eq function = rw find_under_lock-eq (find_after_lock-eq s at.stands function)

module _ {C : Type 0} (hash key : ℕ) (s : Store (HashState C)) where
  -- Finding a context that is not there: if no entry of the key's line has the key,
  -- `OcHsFindContextByKeyValue` returns `NULL` and changes nothing, whatever function it is given.
  pub find_nothing :
      (function : Option (FunctionForContext C)) (h : HashObject) (index : ℕ) (line : List ℕ)
      → hash_line hash key s ≡ some (h, index, line)
      → first_with_key key line s.client.entries ≡ some none
      → find_context_by_key_value hash key function s ≡ some (s, 0)
  unfolding find_context_by_key_value find_under_lock
  find_nothing function h index line on_line nobody = rw (on_line, nobody)
