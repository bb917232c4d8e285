-- ===== src/DatabaseServer/Operation.antt =====
-- src/database/DBOperation.h and DBOperation.cpp: the operations and when two of them are independent.
use astron.Base.{ℕ, List, [], ◌∷◌, Bool, true, false, ◌!=◌, if◌then◌else◌}
use astron.Base.Table.{has_key}

pub data OperationType : Type 0 where
  create_object delete_object get_object get_fields set_fields update_fields : OperationType

-- The values by the id of their field, which stands for the pointer to it. An empty value deletes.
abbrev pub FieldValues : Type 0
FieldValues = List (ℕ × List ℕ)

-- The fields to get, to set and to compare are m_get_fields, m_set_fields and m_criteria_fields.
pub record DbOperation : Type 0 where
  pub type : OperationType
  pub doid : ℕ
  pub fields_to_get : List ℕ
  pub fields_to_set : FieldValues
  pub criteria_fields : FieldValues

-- The loops that look for a field of one operation among those of the other.
unfoldable pub none_changed : List ℕ → FieldValues → Bool
unfolding has_key
none_changed [] values = true
none_changed (f ∷ fs) values = if has_key f values then false else none_changed fs values

unfoldable pub none_in : FieldValues → FieldValues → Bool
unfolding has_key
none_in [] values = true
none_in ((f, v) ∷ rest) values = if has_key f values then false else none_in rest values

unfoldable pub none_in_either : FieldValues → FieldValues → FieldValues → Bool
unfolding has_key
none_in_either [] values criteria = true
none_in_either ((f, v) ∷ rest) values criteria =
    if has_key f values
    then false
    else if has_key f criteria
    then false
    else none_in_either rest values criteria

-- The switch of DBOperationGet, over the type of the other operation.
abbrev pub get_switch : OperationType → DbOperation → DbOperation → Bool
get_switch get_object self other = true
get_switch get_fields self other = true
get_switch set_fields self other = elim self.type [
  | get_object ↦ false
  | _ ↦ none_changed self.fields_to_get other.fields_to_set
]
get_switch update_fields self other = elim self.type [
  | get_object ↦ false
  | _ ↦ none_changed self.fields_to_get other.fields_to_set
]
get_switch create_object self other = false
get_switch delete_object self other = false

abbrev pub get_is_independent_of : DbOperation → DbOperation → Bool
get_is_independent_of self other =
    if self.doid != other.doid then true else get_switch other.type self other

abbrev pub set_switch : OperationType → DbOperation → DbOperation → Bool
set_switch get_object self other = get_is_independent_of other self
set_switch get_fields self other = get_is_independent_of other self
set_switch set_fields self other = none_in self.fields_to_set other.fields_to_set
set_switch update_fields self other =
    none_in_either self.fields_to_set other.fields_to_set other.criteria_fields
set_switch create_object self other = false
set_switch delete_object self other = false

abbrev pub set_is_independent_of : DbOperation → DbOperation → Bool
set_is_independent_of self other =
    if self.doid != other.doid then true else set_switch other.type self other

abbrev pub update_switch : OperationType → DbOperation → DbOperation → Bool
update_switch get_object self other = get_is_independent_of other self
update_switch get_fields self other = get_is_independent_of other self
update_switch set_fields self other = set_is_independent_of other self
update_switch update_fields self other =
    if none_in_either self.fields_to_set other.fields_to_set other.criteria_fields
    then none_in other.fields_to_set self.criteria_fields
    else false
update_switch create_object self other = false
update_switch delete_object self other = false

abbrev pub update_is_independent_of : DbOperation → DbOperation → Bool
update_is_independent_of self other =
    if self.doid != other.doid then true else update_switch other.type self other

-- DBOperation's own, which the operations that create and delete keep.
abbrev pub base_is_independent_of : DbOperation → DbOperation → Bool
base_is_independent_of self other = self.doid != other.doid

-- The call through the class of the operation, which its type tells.
abbrev pub independent : OperationType → DbOperation → DbOperation → Bool
independent create_object = base_is_independent_of
independent delete_object = base_is_independent_of
independent get_object = get_is_independent_of
independent get_fields = get_is_independent_of
independent set_fields = set_is_independent_of
independent update_fields = update_is_independent_of

unfoldable pub is_independent_of : DbOperation → DbOperation → Bool
unfolding none_changed none_in none_in_either
is_independent_of self other = independent self.type self other
