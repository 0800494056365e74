-- ===== src/Sources/Addresses/Priority.antt =====
-- prioNodeAddrResolver.NodeAddress: the order in which the addresses are tried.
use mathlib.Core.Bool.{false≢true}
use my_learning_journey.Base.{
  ◌≡◌, refl, sym, ap, ◌∙◌, ◌≢◌, inl, inr, String, Bool-cases, none, some, Option-cases, List, [],
  ◌∷◌, ◌++◌, Result, ok, err, arith, All, ◌==◌, string_comparable,
}
use my_learning_journey.Errors.{Error}
use my_learning_journey.Sources.Addresses.{
  NodeAddress, Node, address_of_type, address_by_priority, node_address,
}

abbrev pub HasNo : List NodeAddress → String → Type 0
HasNo addrs t = All (λ a. a.type ≢ t) addrs

-- The address is the first one of its type, and the node has none of a type that stands before it.
pub record IsPreferred (priority : List String) (addrs : List NodeAddress) (address : String)
    : Type 0 where
  pub better : List String
  pub chosen : String
  pub worse : List String
  pub priorities : priority ≡ better ++ chosen ∷ worse
  pub no_better : All (HasNo addrs) better
  pub before : List NodeAddress
  pub behind : List NodeAddress
  pub addresses : addrs ≡ before ++ record { type = chosen; address = address } ∷ behind
  pub first : HasNo before chosen

address_of_type-none :
    (t : String) (addrs : List NodeAddress) → address_of_type t addrs ≡ none → HasNo addrs t
unfolding address_of_type
address_of_type-none t [] h = tt
address_of_type-none t (a ∷ addrs) h = elim (Bool-cases (a.type == t)) [
  | inl same ↦ cc
  | inr other ↦ (
    λ e. false≢true (sym other ∙ (string_comparable.equal_iff a.type t).1 e),
    address_of_type-none t addrs (rw other at h),
  )
]

address_of_type-some :
    (t : String) (addrs : List NodeAddress) (address : String)
    → address_of_type t addrs ≡ some address
    → (before : List NodeAddress) × (behind : List NodeAddress) × (addrs
        ≡ before ++ record { type = t; address = address } ∷ behind)
      × HasNo before t
unfolding address_of_type
address_of_type-some t [] address h = cc
address_of_type-some t (a ∷ addrs) address h = elim (Bool-cases (a.type == t)) [
  | inl same ↦ ([], addrs, ground (arith, string_comparable.equal_iff a.type t), tt)
  | inr other ↦
      let (before, behind, e, first) = address_of_type-some t addrs address (rw other at h) in
      (
        a ∷ before,
        behind,
        ap (◌∷◌ a) e,
        ((λ same. false≢true (sym other ∙ (string_comparable.equal_iff a.type t).1 same)), first),
      )
]

address_by_priority-some :
    (priority : List String) (addrs : List NodeAddress) (address : String)
    → address_by_priority priority addrs ≡ some address
    → IsPreferred priority addrs address
unfolding address_by_priority
address_by_priority-some [] addrs address h = cc
address_by_priority-some (t ∷ ts) addrs address h = elim (Option-cases (address_of_type t addrs)) [
  | inl missing ↦
      let p = address_by_priority-some ts addrs address (ground arith) in
      record {
        better = t ∷ p.better;
        chosen = p.chosen;
        worse = p.worse;
        priorities = ap (◌∷◌ t) p.priorities;
        no_better = (address_of_type-none t addrs missing, p.no_better);
        before = p.before;
        behind = p.behind;
        addresses = p.addresses;
        first = p.first;
      }
  | inr (a, there) ↦
      let same : address_of_type t addrs ≡ some address = ground arith in
      let (before, behind, e, first) = address_of_type-some t addrs address same in
      record {
        better = [];
        chosen = t;
        worse = ts;
        priorities = refl;
        no_better = tt;
        before = before;
        behind = behind;
        addresses = e;
        first = first;
      }
]

address_by_priority-none :
    (priority : List String) (addrs : List NodeAddress)
    → address_by_priority priority addrs ≡ none
    → All (HasNo addrs) priority
unfolding address_by_priority
address_by_priority-none [] addrs h = tt
address_by_priority-none (t ∷ ts) addrs h = elim (Option-cases (address_of_type t addrs)) [
  | inl missing ↦
      (address_of_type-none t addrs missing, address_by_priority-none ts addrs (ground arith))
  | inr (a, there) ↦ absurd (ground arith)
]

-- The result of resolving a node's address: an address that is preferred, or, where the node has no
-- address of any listed type, an error that names the node and the types.
abbrev pub Resolves : List String → Node → Result Error String → Type 0
Resolves priority node (ok address) = IsPreferred priority node.addresses address
Resolves priority node (err e) =
    (e ≡ Error.no_address node.name priority) × All (HasNo node.addresses) priority

-- The resolver gives the first address of the first listed type that the node has an address of,
-- and its error exactly when the node has no address of a listed type.
pub node_address-Resolves :
    (priority : List String) (node : Node) → Resolves priority node (node_address priority node)
unfolding node_address
node_address-Resolves priority node =
    elim (Option-cases (address_by_priority priority node.addresses)) [
      | inl missing ↦
          rw (missing, node_address)
            (refl, address_by_priority-none priority node.addresses missing)
      | inr (address, there) ↦
          rw (there, node_address) (address_by_priority-some priority node.addresses address there)
    ]
