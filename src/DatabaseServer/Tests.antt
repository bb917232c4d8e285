-- ===== src/DatabaseServer/Tests.antt =====
-- src/database: the theorems at concrete operations.
use astron.Base.{ℕ, zero, suc, ◌≡◌, refl, [], ◌∷◌, false}
use astron.DatabaseServer.Operation.{
  get_object, get_fields, set_fields, update_fields, DbOperation, is_independent_of,
}
use astron.DatabaseServer.Symmetric.{conflict, is_independent_of-sym, is_independent_of-conflict}
use astron.DatabaseServer.Queue.{DatabaseServer, handle_operation, clear_operation}

-- Operations on object 7: 0 gets the field 3, 1 sets the field 4, 2 compares the field 4 and sets the field 3, the
-- others get the object.
abbrev get_3 : DbOperation
get_3 = record {
  type = get_fields;
  doid = 7;
  fields_to_get = 3 ∷ [];
  fields_to_set = [];
  criteria_fields = [];
}

abbrev set_4 : DbOperation
set_4 = record {
  type = set_fields;
  doid = 7;
  fields_to_get = [];
  fields_to_set = (4, 1 ∷ []) ∷ [];
  criteria_fields = [];
}

abbrev update_3 : DbOperation
update_3 = record {
  type = update_fields;
  doid = 7;
  fields_to_get = [];
  fields_to_set = (3, 1 ∷ []) ∷ [];
  criteria_fields = (4, 0 ∷ []) ∷ [];
}

abbrev get_7 : DbOperation
get_7 = record {
  type = get_object;
  doid = 7;
  fields_to_get = [];
  fields_to_set = [];
  criteria_fields = [];
}

abbrev operations : ℕ → DbOperation
operations zero = get_3
operations (suc zero) = set_4
operations (suc (suc zero)) = update_3
operations (suc (suc (suc n))) = get_7

is_independent_of-sym_example : is_independent_of set_4 update_3 ≡ is_independent_of update_3 set_4
is_independent_of-sym_example = is_independent_of-sym set_4 update_3

is_independent_of-conflict_example : conflict get_3 set_4 4 ≡ false
unfolding is_independent_of
is_independent_of-conflict_example = is_independent_of-conflict get_3 set_4 4 refl refl

-- The get and the set run together, the update waits for both.
abbrev no_operations : DatabaseServer
no_operations = record { queues = []; submitted = [] }

abbrev two_running : DatabaseServer
two_running =
    handle_operation operations 2
      (handle_operation operations 1 (handle_operation operations 0 no_operations))

two_submitted : two_running.submitted ≡ 0 ∷ 1 ∷ []
unfolding handle_operation
two_submitted = refl

then_update :
    (clear_operation operations 1 (clear_operation operations 0 two_running)).submitted
    ≡ 0 ∷ 1 ∷ 2 ∷ []
unfolding handle_operation clear_operation
then_update = refl
