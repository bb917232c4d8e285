-- ===== src/Dclass/Class.antt =====
-- src/dclass/dc/{Field,MolecularField,KeywordList,Struct}: the fields of a class as the state server
-- looks them up.
use astron.Base.{ℕ, List, [], ◌∷◌, ◌++◌, Option, none, some, Bool, false, ◌||◌, ◌==◌, if◌then◌else◌}
use astron.Dclass.Types.{DistributedType, Fields, end, field, molecular}
use Prim.Native.String.{String}
use text.Mathlib.Text.{◌==◌ as str_eq}

pub record AtomicField : Type 0 where
  pub id : ℕ
  pub keywords : List String
  pub type : DistributedType

-- A molecular's keywords are those of its first atomic field (MolecularField::add_field).
pub data Field : Type 0 where
  atomic : AtomicField → Field
  molecular_field : ℕ → List String → List AtomicField → Field

-- KeywordList::has_keyword.
unfoldable pub in_keywords : String → List String → Bool
in_keywords name [] = false
in_keywords name (k ∷ ks) = str_eq k name || in_keywords name ks

unfoldable pub get_id : Field → ℕ
get_id (atomic a) = a.id
get_id (molecular_field id keywords atomics) = id

unfoldable pub has_keyword : Field → String → Bool
unfolding in_keywords
has_keyword (atomic a) name = in_keywords name a.keywords
has_keyword (molecular_field id keywords atomics) name = in_keywords name keywords

unfoldable pub as_molecular : Field → Option (List AtomicField)
as_molecular (atomic a) = none
as_molecular (molecular_field id keywords atomics) = some atomics

unfoldable pub atomic_types : List AtomicField → Fields
atomic_types [] = end
atomic_types (a ∷ atomics) = field a.type (atomic_types atomics)

-- A molecular is its own type, a struct of its atomic fields.
unfoldable pub field_type : Field → DistributedType
unfolding atomic_types
field_type (atomic a) = a.type
field_type (molecular_field id keywords atomics) = molecular (atomic_types atomics)

-- `fields` is m_fields. m_fields_by_id holds the constructor too.
pub record Class : Type 0 where
  pub id : ℕ
  pub constructor : List Field
  pub fields : List Field

unfoldable pub find_field : ℕ → List Field → Option Field
find_field id [] = none
find_field id (f ∷ fs) = if get_id f == id then some f else find_field id fs

unfoldable pub get_field_by_id : Class → ℕ → Option Field
unfolding find_field
get_field_by_id c id = find_field id (c.constructor ++ c.fields)
