-- ===== src/Unpack/Arrays.antt =====
-- src/util/DatagramIterator.h: the arrays that unpack_dtype reads, over any input.
use astron.Base.{
  ℕ, zero, suc, ◌+◌, ◌-◌, ◌*◌, ◌≤◌, ◌≡◌, refl, sym, ap, ◌∙◌, ◌⊎◌, inl, inr, List, [], ◌++◌, length,
  arith, length-append, Bool, true, false, ltb, Bool-cases, le→ltb,
}
use astron.Base.Result.{Result, ok, constraint_violation, iterator_eof}
use astron.Bytes.{le_value}
use astron.Datagram.{dgsize_max}
use astron.Dclass.Types.{TypeTag, string, varstring, blob, fixed_array, vararray}
use astron.Iterator.{DatagramIterator, Reader, and_then, read_data}
use astron.Iterator.Cursor.{step}
use astron.Unpack.{ensure, is_ascii, unpack_while, unpack_elements, unpack_variable, unpack_array}
use astron.Unpack.Outcome.{Ahead, Threw, Copies, Copies-returns}
use mathlib.Core.List.{append_assoc, append-nil}
use astron.Unpack.Parts.{
  CopiesElement, read_data-cases, read_fixed-Copies, read_size-cases, unpack_times-Copies,
}

-- The outcome of a reader that counts elements too.
abbrev pub Counts : List ℕ → List ℕ → Result (List ℕ × ℕ) × DatagramIterator → Type 0
Counts rest buffer r =
    ((used : List ℕ) × (rest' : List ℕ) × (dgi' : DatagramIterator) × (count : ℕ) × (r
        ≡ (ok (buffer ++ used, count), dgi'))
      × (rest ≡ used ++ rest')
      × Ahead dgi' rest')
    ⊎ Threw r

while_done :
    (element : List ℕ → Reader (List ℕ)) (fuel len cur_ptr count : ℕ) (buffer rest : List ℕ)
    (dgi : DatagramIterator)
    → Ahead dgi rest
    → ltb (length buffer - cur_ptr) len ≡ false
    → Counts rest buffer (unpack_while element (suc fuel) len cur_ptr count buffer dgi)
unfolding unpack_while
while_done element fuel len cur_ptr count buffer rest dgi ahead done = inl (
  [],
  rest,
  dgi,
  count,
  rw done (ap (λ (b : List ℕ). (ok (b, count), dgi)) (sym (append-nil buffer))),
  refl,
  ahead,
)

Counts-bind :
    (k : ℕ) (rest buffer : List ℕ) (r : Result (List ℕ) × DatagramIterator)
    (f : List ℕ → Reader (List ℕ × ℕ))
    → Copies k rest buffer r
    → ((used rest' : List ℕ) (dgi' : DatagramIterator)
        → Ahead dgi' rest'
        → k ≤ length used
        → Counts rest' (buffer ++ used) (f (buffer ++ used) dgi'))
    → Counts rest buffer (and_then r f)
Counts-bind k rest buffer r f (inr (e, d, eq, doc)) next = inr (e, d, rw eq, doc)
Counts-bind k rest buffer r f (inl (used, rest', d, eq, split, ahead, long)) next =
    elim (next used rest' d ahead long) [
      | inr (e, d', eq', doc) ↦ inr (e, d', rw eq eq', doc)
      | inl (used', rest'', d', count, eq', split', ahead') ↦ inl (
        used ++ used',
        rest'',
        d',
        count,
        rw eq (eq' ∙ ap (λ (b : List ℕ). (ok (b, count), d')) (append_assoc buffer used used')),
        split ∙ ap (◌++◌ used) split' ∙ sym (append_assoc used used' rest''),
        ahead',
      )
    ]

-- The loop ends: each round but the last takes a byte at least.
pub unpack_while-Counts :
    (k : ℕ) (element : List ℕ → Reader (List ℕ))
    → 1 ≤ k
    → CopiesElement k element
    → (fuel len cur_ptr count : ℕ) (buffer rest : List ℕ) (dgi : DatagramIterator) → Ahead dgi rest
    → cur_ptr ≤ length buffer
    → len ≤ fuel + (length buffer - cur_ptr)
    → Counts rest buffer (unpack_while element (suc fuel) len cur_ptr count buffer dgi)
unfolding unpack_while
unpack_while-Counts k element pos good zero len cur_ptr count buffer rest dgi ahead low enough =
    while_done element zero len cur_ptr count buffer rest dgi ahead
      (le→ltb (length buffer - cur_ptr) len (omega arith))
unpack_while-Counts k element pos good (suc fuel) len cur_ptr count buffer rest dgi ahead low
      enough =
    elim (Bool-cases (ltb (length buffer - cur_ptr) len)) [
      | inr done ↦ while_done element (suc fuel) len cur_ptr count buffer rest dgi ahead done
      | inl more ↦ rw more (
          Counts-bind k rest buffer _ _ (good buffer rest dgi ahead) λ used rest' dgi' ahead' long.
            unpack_while-Counts k element pos good fuel len cur_ptr (count + 1) (buffer ++ used)
              rest' dgi' ahead' (omega (arith, length-append buffer used))
              (omega (arith, length-append buffer used)))
    ]

read_counted :
    (len : ℕ) (check : List ℕ → Bool) (buffer rest : List ℕ) (dgi : DatagramIterator)
    → len ≤ dgsize_max
    → Ahead dgi rest
    → Counts rest buffer (
        and_then
          (read_data len dgi)
          λ bytes d. and_then (ensure (check bytes) d) λ _ d'. (ok (buffer ++ bytes, len), d'))
read_counted len check buffer rest dgi small ahead =
    elim (read_data-cases len dgi rest ahead small) [
      | inr e ↦ inr (iterator_eof, dgi, rw e, inl refl)
      | inl (used, rest', e, (_, split, ahead', _)) ↦ elim (Bool-cases (check used)) [
        | inl good ↦ inl (used, rest', step len dgi, len, rw e (rw good), split, ahead')
        | inr bad ↦ inr (constraint_violation, step len dgi, rw e (rw bad), inr refl)
      ]
    ]

pub unpack_elements-Counts :
    (tag : TypeTag) (k : ℕ) (element : List ℕ → Reader (List ℕ))
    → (tag ≡ vararray → 1 ≤ k)
    → CopiesElement k element
    → (len : ℕ) (buffer rest : List ℕ) (dgi : DatagramIterator) → len ≤ dgsize_max
    → Ahead dgi rest
    → Counts rest buffer (unpack_elements tag element len buffer dgi)
unfolding unpack_elements
unpack_elements-Counts vararray k element pos good len buffer rest dgi small ahead =
    unpack_while-Counts k element (pos refl) good len len (length buffer) 0 buffer rest dgi ahead
      (omega arith) (omega arith)
unpack_elements-Counts varstring k element pos good len buffer rest dgi small ahead =
    read_counted len is_ascii buffer rest dgi small ahead
unpack_elements-Counts _ k element pos good len buffer rest dgi small ahead =
    read_counted len (λ _. true) buffer rest dgi small ahead

ranged :
    (in_range : ℕ → Bool) (buffer rest used rest' : List ℕ)
    (r : Result (List ℕ × ℕ) × DatagramIterator)
    → length used ≡ 2
    → rest ≡ used ++ rest'
    → Counts rest' (buffer ++ used) r
    → Copies 2 rest buffer
        (and_then r λ (bytes, count) d. and_then (ensure (in_range count) d) λ _ d'. (ok bytes, d'))
ranged in_range buffer rest used rest' r len split (inr (e, d, eq, doc)) = inr (e, d, rw eq, doc)
ranged in_range buffer rest used rest' r len split
      (inl (used', rest'', d, count, eq, split', ahead)) =
    elim (Bool-cases (in_range count)) [
      | inr bad ↦ inr (constraint_violation, d, rw (eq, bad), inr refl)
      | inl good ↦ inl (
        used ++ used',
        rest'',
        d,
        rw (eq, good) (ap (λ (b : List ℕ). (ok b, d)) (append_assoc buffer used used')),
        split ∙ ap (◌++◌ used) split' ∙ sym (append_assoc used used' rest''),
        ahead,
        omega (arith, length-append used used'),
      )
    ]

-- The length is copied in the form in which it was read.
pub unpack_variable-Copies :
    (tag : TypeTag) (k : ℕ) (element : List ℕ → Reader (List ℕ)) (in_range : ℕ → Bool)
    → (tag ≡ vararray → 1 ≤ k)
    → CopiesElement k element
    → CopiesElement 2 (unpack_variable tag element in_range)
unfolding unpack_variable
unpack_variable-Copies tag k element in_range pos good buffer rest dgi ahead =
    elim (read_size-cases dgi rest ahead) [
      | inr e ↦ inr (iterator_eof, dgi, rw e, inl refl)
      | inl (used, rest', e, (len, split, ahead', _), same, small) ↦
          rw (e, same)
            (ranged in_range buffer rest used rest' _ len split (
              unpack_elements-Counts tag k element pos good (le_value used) (buffer ++ used) rest'
                (step 2 dgi) small ahead'))
    ]

-- The bytes that an array takes at least, by the case of unpack_array.
unfoldable pub array_least : TypeTag → Bool → ℕ → ℕ → ℕ
array_least string _ size least = size
array_least blob _ size least = size
array_least fixed_array _ zero least = 0
array_least fixed_array true (suc size) least = least
array_least fixed_array false (suc size) least = suc size
array_least _ _ size least = 2

pub unpack_array-Copies :
    (tag : TypeTag) (constrained : Bool) (size count k : ℕ) (element : List ℕ → Reader (List ℕ))
    (in_range : ℕ → Bool)
    → size ≤ dgsize_max
    → (tag ≡ vararray → 1 ≤ k)
    → CopiesElement k element
    → CopiesElement
        (array_least tag constrained size (count * k))
        (unpack_array tag constrained size count element in_range)
unfolding unpack_array array_least
unpack_array-Copies string _ zero count k element in_range small pos good buffer rest dgi ahead =
    Copies-returns rest buffer dgi ahead
unpack_array-Copies string _ (suc size) count k element in_range small pos good buffer rest dgi
      ahead =
    read_fixed-Copies (suc size) is_ascii buffer rest dgi small ahead
unpack_array-Copies blob _ zero count k element in_range small pos good buffer rest dgi ahead =
    Copies-returns rest buffer dgi ahead
unpack_array-Copies blob _ (suc size) count k element in_range small pos good buffer rest dgi
      ahead =
    read_fixed-Copies (suc size) (λ _. true) buffer rest dgi small ahead
unpack_array-Copies fixed_array _ zero count k element in_range small pos good buffer rest dgi
      ahead =
    Copies-returns rest buffer dgi ahead
unpack_array-Copies fixed_array true (suc size) count k element in_range small pos good buffer rest
      dgi ahead =
    unpack_times-Copies k element good count buffer rest dgi ahead
unpack_array-Copies fixed_array false (suc size) count k element in_range small pos good buffer rest
      dgi ahead =
    read_fixed-Copies (suc size) (λ _. true) buffer rest dgi small ahead
unpack_array-Copies tag _ size count k element in_range small pos good buffer rest dgi ahead =
    unpack_variable-Copies tag k element in_range pos good buffer rest dgi ahead
