-- ===== src/Tests.antt =====
-- Concrete runs, and each theorem at one of them.
mod RwLock
mod RemoveLock
mod Object
mod Hash
mod QueueLock
mod IrpTracker
mod Ledger
mod WorkItems
mod CompletionHooker
mod IoWorker
mod DeviceTypes
mod SecurityDescriptors
mod DeviceTree
