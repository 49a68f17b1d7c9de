-- ===== src/Memory/Layout.antt =====
-- The layouts of what the structs are made of: a type without addresses, a map of strings, a pair,
-- what may be nil, the elements of a slice, and the fields of a struct that hold addresses.
pub mod Image
pub mod Policy
use kwarm.Base.{ℕ, String, List, [], ◌∷◌, ◌++◌, map, Option, none, some, find}
use kwarm.Kube.{StringMap}
use kwarm.Memory.Copier.{Place, Layout}

abbrev pub assigned : {A : Type 0} → Layout A A
assigned = record { value = λ a. a; addresses = λ a. [] }

-- A map is what its keys find.
abbrev pub entries : Layout StringMap (String → Option String)
entries = record { value = λ m k. find k m; addresses = λ m. [] }

module _ {A V : Type 0} (l : Layout A V) where
  abbrev pub both : {B W : Type 0} → Layout B W → Layout (A × B) (V × W)
  both k = record {
    value = λ p. (l.value p.0, k.value p.1);
    addresses = λ p. l.addresses p.0 ++ k.addresses p.1;
  }

  abbrev pub optional_value : Option A → Option V
  optional_value none = none
  optional_value (some a) = some (l.value a)

  abbrev pub optional_addresses : Option A → List ℕ
  optional_addresses none = []
  optional_addresses (some a) = l.addresses a

  abbrev pub perhaps : Layout (Option A) (Option V)
  perhaps = record { value = optional_value; addresses = optional_addresses }

  abbrev pub pointed_value : Option (Place A) → Option V
  pointed_value none = none
  pointed_value (some p) = some (l.value p.content)

  abbrev pub pointed_addresses : Option (Place A) → List ℕ
  pointed_addresses none = []
  pointed_addresses (some p) = p.address ∷ l.addresses p.content

  -- What a pointer, a slice or a map refers to.
  abbrev pub pointed : Layout (Option (Place A)) (Option V)
  pointed = record { value = pointed_value; addresses = pointed_addresses }

  abbrev pub list_addresses : List A → List ℕ
  list_addresses [] = []
  list_addresses (x ∷ xs) = l.addresses x ++ list_addresses xs

  abbrev pub elements : Layout (List A) (List V)
  elements = record { value = map l.value; addresses = list_addresses }

  -- `from` has the fields that hold addresses, and `built` is the struct with their values.
  abbrev pub fields : {S T : Type 0} (from : S → A) (built : V → S → T) → Layout S T
  fields from built = record {
    value = λ s. built (l.value (from s)) s;
    addresses = λ s. l.addresses (from s);
  }
