-- ===== src/Storage.antt =====
-- pkg/storage: what the two REST storages share: the options of a list request, and the functions
-- of the apimachinery and apiserver libraries that they call.
pub mod Nodes
pub mod Pods
use my_learning_journey.Base.{String, Bool, true, false, Option, none, some, List, ◌≡◌}

-- A label or field selector: its text, `Empty()`, and `Matches`.
pub record Selector : Type 0 where
  pub text : String
  pub empty : Bool
  pub matches : List (String × String) → Bool

pub record ListOptions : Type 0 where
  pub label_selector : Option Selector
  pub field_selector : Option Selector

-- `labels.Everything()`, `fields.Everything()`, and `generic.AddObjectMetaFieldsSet` of an object's
-- name and namespace.
pub record Selection : Type 0 where
  pub labels_everything : Selector
  pub fields_everything : Selector
  pub object_meta_fields_set : (name namespace : String) → List (String × String)

-- As it is documented, of a selector that says that it is empty.
abbrev pub EmptyMatches : Selector → Type 0
EmptyMatches s = s.empty ≡ true → (set : List (String × String)) → s.matches set ≡ true

-- `options.LabelSelector` if there is one, and the default otherwise.
abbrev pub label_selector_or : Selector → Option ListOptions → Selector
label_selector_or default none = default
label_selector_or default (some options) = elim options.label_selector [
  | none ↦ default
  | some s ↦ s
]

abbrev pub field_selector_or : Selector → Option ListOptions → Selector
field_selector_or default none = default
field_selector_or default (some options) = elim options.field_selector [
  | none ↦ default
  | some s ↦ s
]
