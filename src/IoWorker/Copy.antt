-- ===== src/IoWorker/Copy.antt =====
-- The copies of contexts that o_core/o_core/ioworkerthread.c makes and frees.
use windows_system_wide_filt.Base.{
  ℕ, Option, arith, false, if◌then◌else◌, refl, some, true, ◌==◌, ◌∷◌, ◌≡◌, if_false, if_true, ◌∙◌,
}
use windows_system_wide_filt.Object.References.{
  referenced, Counted, Counted-weaken, dereference-referenced, reference-eq, referenced-Counted,
}
use windows_system_wide_filt.Object.{Store, dereference_object}
use windows_system_wide_filt.IoWorker.{Requests, NodeContext, create_node_ctx_copy}
use windows_system_wide_filt.Object.References.{Counted, dereference-referenced}

module _ {S : Type 0} where
  -- What the end of a copy does to the store.
  abbrev pub release_copy : NodeContext → Store S → Option (Store S)
  release_copy c store =
      if c.flags.device_object_referenced
      then dereference_object c.original_device_object store
      else some store

  -- A copy has been made at an address: what it says, what it did to the store, and that its end takes
  -- this back, whatever the clients do in between.
  pub record Copy (address : ℕ) (context : NodeContext) (s : Requests S) : Type 0 where
    pub store : Store S
    pub copy : NodeContext
    pub created :
        create_node_ctx_copy (some address) context s
        ≡ some (record s { store = store; contexts = (address, copy) ∷ s.contexts }, some address)
    pub from_pool : copy.flags.allocated_from_pool ≡ true
    pub released :
        (client : S)
        → release_copy copy (record store { client = client })
          ≡ some (record s.store { client = client })
    pub same_client : store.client ≡ s.store.client
    pub still_counted : (body : ℕ) → Counted 3 body s.store → Counted 2 body store

  pub Copy-null :
      (address : ℕ) (context : NodeContext) (s : Requests S)
      → context.flags.device_object_referenced ≡ false
      → (context.original_device_object == 0) ≡ true
      → Copy address context s
  unfolding create_node_ctx_copy
  Copy-null address context s own null = record {
    store = s.store;
    copy = record context { flags = record context.flags { allocated_from_pool = true } };
    created = if_true _ _ _ null;
    from_pool = refl;
    released = λ client. if_false _ _ _ own;
    same_client = refl;
    still_counted = λ body. Counted-weaken 2 body s.store;
  }

  pub Copy-device :
      (address : ℕ) (context : NodeContext) (s : Requests S)
      → (context.original_device_object == 0) ≡ false
      → Counted 3 context.original_device_object s.store
      → Copy address context s
  unfolding create_node_ctx_copy
  Copy-device address context s some_device c = record {
    store = referenced context.original_device_object c.header s.store;
    copy = record context {
      flags = record context.flags { allocated_from_pool = true; device_object_referenced = true };
    };
    created =
        if_false _ _ _ some_device
        ∙ rw (reference-eq 3 context.original_device_object s.store c) refl;
    from_pool = refl;
    released = λ client.
        dereference-referenced context.original_device_object c.header
          (record s.store { client = client }) c.there c.positive (omega (arith, c.small));
    same_client = refl;
    still_counted = λ body. referenced-Counted 2 context.original_device_object body s.store c;
  }
