-- ===== src/Simulator/Owner.antt =====
-- `Owner` of the SDK, with the comparisons that the code makes.
use poison_dart.Base.{ℕ, Bool, false, ◌==◌}

pub data Owner : Type 0 where
  address_owner object_owner : (address : ℕ) → Owner
  shared : (initial_shared_version : ℕ) → Owner
  immutable : Owner

-- `owner == Owner::AddressOwner(address)`.
unfoldable pub is_owned_by : (address : ℕ) → Owner → Bool
is_owned_by address (Owner.address_owner a) = a == address
is_owned_by address _ = false

-- `owner == Owner::ObjectOwner(parent)`.
unfoldable pub is_child_of : (parent : ℕ) → Owner → Bool
is_child_of parent (Owner.object_owner p) = p == parent
is_child_of parent _ = false
