-- ===== src/DatabaseServer/Symmetric.antt =====
-- src/database/DBOperation.cpp: independence is symmetric, and no field is written by one operation and used by
-- another that is independent of it.
use astron.Base.{ℕ, ◌≡◌, refl, sym, List, [], ◌∷◌, Bool, true, false, ◌&&◌, ◌||◌, ◌!=◌, arith}
use astron.Base.Table.{has_key}
use astron.StateServer.Object.{contains}
use astron.DatabaseServer.Operation.{
  get_object, get_fields, set_fields, update_fields, FieldValues, DbOperation, none_changed,
  none_in, none_in_either, is_independent_of,
}

-- Two tests that say the same when they hold.
both : (a b : Bool) → (a ≡ true → b ≡ true) → (b ≡ true → a ≡ true) → a ≡ b
both true b h k = sym (h refl)
both false true h k = k refl
both false false h k = refl

-- A field of the one list is not in the other.
none_in-false :
    (xs ys : FieldValues) (f : ℕ)
    → none_in xs ys ≡ true
    → has_key f xs ≡ true
    → has_key f ys ≡ false
unfolding none_in has_key
none_in-false [] ys f h k = ground arith
none_in-false ((x, v) ∷ xs) ys f h k = ground (arith, none_in-false xs ys f)

has_key-here : (x : ℕ) (v : List ℕ) (xs : FieldValues) → has_key x ((x, v) ∷ xs) ≡ true
unfolding has_key
has_key-here x v xs = ground arith

has_key-there :
    (x : ℕ) (v : List ℕ) (xs : FieldValues) (f : ℕ)
    → has_key f xs ≡ true
    → has_key f ((x, v) ∷ xs) ≡ true
unfolding has_key
has_key-there x v xs f h = ground (arith, h)

none_in-true :
    (xs ys : FieldValues)
    → ((f : ℕ) → has_key f xs ≡ true → has_key f ys ≡ false)
    → none_in xs ys ≡ true
unfolding none_in has_key
none_in-true [] ys h = refl
none_in-true ((x, v) ∷ xs) ys h =
    rw (h x (has_key-here x v xs), none_in-true xs ys (λ f e. h f (has_key-there x v xs f e)))

none_in-swap : (xs ys : FieldValues) → none_in xs ys ≡ true → none_in ys xs ≡ true
none_in-swap xs ys h = none_in-true ys xs (λ f e. disjoint f e)
  where
    disjoint : (f : ℕ) → has_key f ys ≡ true → has_key f xs ≡ false
    disjoint f e = ground (arith, e, none_in-false xs ys f h)

none_in-sym : (xs ys : FieldValues) → none_in xs ys ≡ none_in ys xs
none_in-sym xs ys = both (none_in xs ys) (none_in ys xs) (none_in-swap xs ys) (none_in-swap ys xs)

none_in_either-both :
    (xs ys zs : FieldValues) → none_in_either xs ys zs ≡ (none_in xs ys && none_in xs zs)
unfolding none_in_either none_in
none_in_either-both [] ys zs = refl
none_in_either-both ((x, v) ∷ xs) ys zs = ground (arith, none_in_either-both xs ys zs)

unequal-sym : (m n : ℕ) → (m != n) ≡ (n != m)
unequal-sym m n = ground arith

-- The contract of is_independent_of: the relation is symmetric.
pub is_independent_of-sym : (a b : DbOperation) → is_independent_of a b ≡ is_independent_of b a
unfolding is_independent_of
is_independent_of-sym a b = ground (
  arith,
  none_in-sym a.fields_to_set b.fields_to_set,
  none_in_either-both a.fields_to_set b.fields_to_set b.criteria_fields,
  none_in_either-both b.fields_to_set a.fields_to_set a.criteria_fields,
  none_in-sym a.fields_to_set b.criteria_fields,
  none_in-sym b.fields_to_set a.criteria_fields,
)

-- What an operation may look at and what it may change, field by field.
unfoldable pub reads : DbOperation → ℕ → Bool
unfolding contains has_key
reads op f = elim op.type [
  | get_object ↦ true
  | get_fields ↦ contains f op.fields_to_get
  | update_fields ↦ has_key f op.criteria_fields
  | _ ↦ false
]

unfoldable pub writes : DbOperation → ℕ → Bool
unfolding has_key
writes op f = elim op.type [
  | get_object ↦ false
  | get_fields ↦ false
  | set_fields ↦ has_key f op.fields_to_set
  | update_fields ↦ has_key f op.fields_to_set
  | _ ↦ true
]

unfoldable pub conflict : DbOperation → DbOperation → ℕ → Bool
unfolding reads writes
conflict a b f = (writes a f && (reads b f || writes b f)) || (writes b f && reads a f)

none_changed-false :
    (fs : List ℕ) (ys : FieldValues) (f : ℕ)
    → none_changed fs ys ≡ true
    → contains f fs ≡ true
    → has_key f ys ≡ false
unfolding none_changed contains has_key
none_changed-false [] ys f h k = ground arith
none_changed-false (x ∷ xs) ys f h k = ground (arith, none_changed-false xs ys f, h, k)

-- Of two operations on the same object that count as independent, neither changes a field that the other looks
-- at or changes.
pub is_independent_of-conflict :
    (a b : DbOperation) (f : ℕ)
    → a.doid ≡ b.doid
    → is_independent_of a b ≡ true
    → conflict a b f ≡ false
unfolding is_independent_of conflict
is_independent_of-conflict a b f e h = ground (
  arith,
  e,
  h,
  none_changed-false a.fields_to_get b.fields_to_set f,
  none_changed-false b.fields_to_get a.fields_to_set f,
  none_in-false a.fields_to_set b.fields_to_set f,
  none_in-false a.fields_to_set b.criteria_fields f,
  none_in-false b.fields_to_set a.criteria_fields f,
  none_in_either-both a.fields_to_set b.fields_to_set b.criteria_fields,
  none_in_either-both b.fields_to_set a.fields_to_set a.criteria_fields,
  none_in-sym a.fields_to_set b.fields_to_set,
)
