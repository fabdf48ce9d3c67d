-- ===== src/Hash.antt =====
-- The hash table of common/hash/ochash.c: hash objects and hash entries are objects of the object
-- manager, whose bodies are the state that the manager's delete methods change. The state of the
-- clients of the table is `C`, which their context functions change. Division by no hash lines, and
-- an access to a body that is not there, are faults, `none`.
pub mod State
pub mod Operations
pub mod Sweep
pub mod Traverse
pub mod Purge
pub mod Find
pub mod Remove
pub mod Interleaved
pub mod Insert
pub mod Roundtrip
pub mod Manager
pub mod Create
