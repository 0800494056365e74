-- ===== src/Sources/Addresses.antt =====
-- pkg/sources/summary/addrs.go: the address by which a node is reached.
pub mod Priority
use my_learning_journey.Base.{
  String, Bool, true, false, Option, none, some, List, [], ◌∷◌, Result, ok, err, if◌then◌else◌,
  ◌==◌, string_comparable,
}
use my_learning_journey.Errors.{Error}

-- What the program reads of a `v1.Node` (package core/v1): a type of address is a string.
pub record NodeAddress : Type 0 where
  pub type : String
  pub address : String

pub record Node : Type 0 where
  pub name : String
  pub namespace : String
  pub labels : List (String × String)
  pub addresses : List NodeAddress

unfoldable pub default_address_type_priority : List String
default_address_type_priority =
    "Hostname" ∷ "InternalDNS" ∷ "InternalIP" ∷ "ExternalDNS" ∷ "ExternalIP" ∷ []

-- The inner loop of `NodeAddress`.
unfoldable pub address_of_type : String → List NodeAddress → Option String
address_of_type addr_type [] = none
address_of_type addr_type (addr ∷ addrs) =
    if addr.type == addr_type then some addr.address else address_of_type addr_type addrs

-- The outer loop.
unfoldable pub address_by_priority : List String → List NodeAddress → Option String
unfolding address_of_type
address_by_priority [] addrs = none
address_by_priority (t ∷ ts) addrs = elim (address_of_type t addrs) [
  | some address ↦ some address
  | none ↦ address_by_priority ts addrs
]

unfoldable pub node_address : List String → Node → Result Error String
unfolding address_by_priority
node_address addr_type_priority node =
    elim (address_by_priority addr_type_priority node.addresses) [
      | some address ↦ ok address
      | none ↦ err (Error.no_address node.name addr_type_priority)
    ]

-- `NodeAddressResolver`
pub record NodeAddressResolver : Type 0 where
  pub resolve : Node → Result Error String

-- `NewPriorityNodeAddressResolver`
unfoldable pub new_priority_node_address_resolver : List String → NodeAddressResolver
unfolding node_address
new_priority_node_address_resolver type_priority = record { resolve = node_address type_priority }
