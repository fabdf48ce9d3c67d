-- ===== src/Hash/Traverse.antt =====
-- What traversing a hash table does.
use windows_system_wide_filt.Base.{
  ℕ, List, lookup, some, none, suc, get_elem?, ◌≡◌, ◌+◌, ◌∷◌, [], refl, arith, inc32, length, ◌++◌,
  ◌∙◌, subst, false, if◌then◌else◌, ◌==◌,
}
use windows_system_wide_filt.Object.{Store}
use windows_system_wide_filt.Hash.State.{HashState, FunctionForContext, HashEntryObject, HashObject}
use windows_system_wide_filt.Hash.Sweep.{
  traverse_entry, traverse_line, traverse_lines, traverse_all_entries_in_hash,
}
use windows_system_wide_filt.Hash.Find.{Stands, find_after_lock-eq, pinned-eq}

suc_ne_zero : (n : ℕ) → (suc n == 0) ≡ false
suc_ne_zero n = ground arith

module _ {C : Type 0} where
  -- The contexts of a line, from its head.
  unfoldable pub contexts : List ℕ → List (ℕ × HashEntryObject C) → List ℕ
  contexts [] entries = []
  contexts (entry ∷ line) entries =
      let later = contexts line entries in
      elim (lookup entry entries) [ none ↦ later | some e ↦ e.context ∷ later ]

  contexts-cons :
      (entry : ℕ) (line : List ℕ) (entries : List (ℕ × HashEntryObject C)) (e : HashEntryObject C)
      → lookup entry entries ≡ some e
      → contexts (entry ∷ line) entries ≡ e.context ∷ contexts line entries
  unfolding contexts
  contexts-cons entry line entries e there = rw (contexts, there)

  unfoldable pub all_contexts : List (List ℕ) → List (ℕ × HashEntryObject C) → List ℕ
  all_contexts [] entries = []
  all_contexts (line ∷ lines) entries = contexts line entries ++ all_contexts lines entries

  -- Call a function on each of a list of contexts, in order.
  unfoldable pub call_all : FunctionForContext C → List ℕ → C → C
  call_all function [] client = client
  call_all function (context ∷ contexts) client =
      call_all function contexts (function context client)

  call_all-append :
      (function : FunctionForContext C) (xs ys : List ℕ) (client : C)
      → call_all function (xs ++ ys) client ≡ call_all function ys (call_all function xs client)
  unfolding call_all
  call_all-append function [] ys client = refl
  call_all-append function (x ∷ xs) ys client = call_all-append function xs ys (function x client)

  unfoldable pub AllStand : List ℕ → Store (HashState C) → Type 0
  AllStand [] s = Unit
  AllStand (entry ∷ line) s = Stands entry s × AllStand line s

  unfoldable pub LinesStand : List (List ℕ) → Store (HashState C) → Type 0
  LinesStand [] s = Unit
  LinesStand (line ∷ lines) s = AllStand line s × LinesStand lines s

  abbrev with_client : C → Store (HashState C) → Store (HashState C)
  with_client client s = record s { client = record s.client { client = client } }

  Stands-client :
      (entry : ℕ) (client : C) (s : Store (HashState C))
      → Stands entry s
      → Stands entry (with_client client s)
  Stands-client entry client s st = record {
    body = st.body;
    header = st.header;
    has_body = st.has_body;
    has_header = st.has_header;
    referenced = st.referenced;
    count_room = st.count_room;
    purge_room = st.purge_room;
  }

  AllStand-client :
      (line : List ℕ) (client : C) (s : Store (HashState C))
      → AllStand line s
      → AllStand line (with_client client s)
  unfolding AllStand
  AllStand-client [] client s h = h
  AllStand-client (entry ∷ line) client s (h, hs) =
      (Stands-client entry client s h, AllStand-client line client s hs)

  LinesStand-client :
      (lines : List (List ℕ)) (client : C) (s : Store (HashState C))
      → LinesStand lines s
      → LinesStand lines (with_client client s)
  unfolding LinesStand
  LinesStand-client [] client s h = h
  LinesStand-client (line ∷ lines) client s (h, hs) =
      (AllStand-client line client s h, LinesStand-client lines client s hs)

  traverse_entry-eq :
      (function : FunctionForContext C) (entry : ℕ) (s : Store (HashState C)) (h : Stands entry s)
      → traverse_entry function entry s
        ≡ some (with_client (function h.body.context s.client.client) s)
  unfolding traverse_entry
  traverse_entry-eq function entry s h =
      let p : inc32 h.body.purge_disabled ≡ h.body.purge_disabled + 1 =
        omega (arith, h.purge_room) in
      rw (h.has_body, pinned-eq s h, p, find_after_lock-eq s h (some function))

  traverse_line-eq :
      (function : FunctionForContext C) (line : List ℕ) (s : Store (HashState C))
      → AllStand line s
      → traverse_line function line s
        ≡ some (with_client (call_all function (contexts line s.client.entries) s.client.client) s)
  unfolding traverse_line AllStand call_all contexts
  traverse_line-eq function [] s h = refl
  traverse_line-eq function (entry ∷ line) s (h, hs) =
      let next = function h.body.context s.client.client in
      rw
        (
          traverse_entry-eq function entry s h,
          contexts-cons entry line s.client.entries h.body h.has_body,
        )
        (traverse_line-eq function line (with_client next s) (AllStand-client line next s hs))

  traverse_lines-eq :
      (function : FunctionForContext C) (heads : List (List ℕ)) (lines : List (List ℕ)) (index : ℕ)
      (s : Store (HashState C))
      → ((i : ℕ) → get_elem? heads (index + i) ≡ get_elem? lines i)
      → LinesStand lines s
      → traverse_lines function heads (length lines) index s
        ≡ some (
            with_client (call_all function (all_contexts lines s.client.entries) s.client.client) s)
  unfolding traverse_lines LinesStand all_contexts call_all
  traverse_lines-eq function heads [] index s same h = refl
  traverse_lines-eq function heads (line ∷ lines) index s same (h, hs) =
      let next = call_all function (contexts line s.client.entries) s.client.client in
      let here : get_elem? heads index ≡ some line =
        subst (λ n. get_elem? heads n ≡ some line) (omega arith) (same 0) in
      rw (here, traverse_line-eq function line s h)
        (traverse_lines-eq function heads lines (suc index) (with_client next s)
            (λ i. subst (λ n. get_elem? heads n ≡ get_elem? lines i) (omega arith) (same (suc i)))
            (LinesStand-client lines next s hs)
          ∙ rw (
              call_all-append function (contexts line s.client.entries)
                (all_contexts lines s.client.entries) s.client.client))

  traverse_guarded :
      (function : FunctionForContext C) (heads : List (List ℕ)) (s : Store (HashState C))
      → LinesStand heads s
      → (if length heads == 0 then some s else traverse_lines function heads (length heads) 0 s)
        ≡ some (
            with_client (call_all function (all_contexts heads s.client.entries) s.client.client) s)
  unfolding call_all all_contexts
  traverse_guarded function [] s h = refl
  traverse_guarded function (line ∷ lines) s h = rw (suc_ne_zero (length lines)) (
      traverse_lines-eq function (line ∷ lines) (line ∷ lines) 0 s
        (λ i.
          subst (λ n. get_elem? (line ∷ lines) n ≡ get_elem? (line ∷ lines) i) (omega arith) refl)
        h)

module _ {C : Type 0} (hash : ℕ) (s : Store (HashState C)) where
  -- Traversing a table visits everything in order: if the array of heads has the announced number of
  -- lines and each entry of each line stands, `OcHsTraverseAllEntriesInHash` returns, has called the
  -- function on the context of each entry, line after line and each line from its head, and has
  -- changed nothing else: no reference and no purge count.
  pub traverse-all_contexts :
      (function : FunctionForContext C) (h : HashObject) (heads : List (List ℕ))
      → lookup hash s.client.hashes ≡ some h
      → h.lines ≡ some heads
      → h.number_of_hash_lines ≡ length heads
      → LinesStand heads s
      → traverse_all_entries_in_hash hash function s
        ≡ some (record s {
          client = record s.client {
            client = call_all function (all_contexts heads s.client.entries) s.client.client;
          };
        })
  unfolding traverse_all_entries_in_hash
  traverse-all_contexts function h heads there lines number stand =
      rw (there, lines, number) (traverse_guarded function heads s stand)
