-- ===== src/Supervisor/Slot.antt =====
-- triAI-Engine/src/supervisor/slot.rs: the slot of the process, and the leases on it. The slot is
-- the owner that its mutex guards; a lease is the name that it was taken under.
use carlo_one_core.Prelude.{String, Bool, Option, none, some, str_eq, if◌then◌else◌}

abbrev pub AtomicSlot : Type 0
AtomicSlot = Option String

abbrev pub SlotLease : Type 0
SlotLease = String

-- `none` is the error `WouldBlock`.
unfoldable pub acquire : String → AtomicSlot → Option (SlotLease × AtomicSlot)
acquire owner (some _) = none
acquire owner none = some (owner, some owner)

abbrev owned_by : String → AtomicSlot → Bool
owned_by owner none = Bool.false
owned_by owner (some current) = str_eq current owner

-- Drop for SlotLease
unfoldable pub release : SlotLease → AtomicSlot → AtomicSlot
release lease slot = if owned_by lease slot then none else slot

-- The drop of a field that may hold a lease.
unfoldable pub release? : Option SlotLease → AtomicSlot → AtomicSlot
unfolding release
release? none slot = slot
release? (some lease) slot = release lease slot
