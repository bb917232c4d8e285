-- ===== src/Unpack/Outcome.antt =====
-- How reading a value can end: the rule that composes the readers of its parts.
use astron.Base.{
  ℕ, ◌+◌, ◌≤◌, ◌≡◌, refl, sym, ap, ◌∙◌, ◌⊎◌, inl, inr, List, [], ◌++◌, All, length, arith,
  length-append,
}
use astron.Base.Result.{Result, Exception, ok, err, constraint_violation, iterator_eof}
use astron.Bytes.{IsByte}
use astron.Iterator.{DatagramIterator, Reader, and_then}
use astron.Iterator.Cursor.{At}
use mathlib.Core.List.{append_assoc, append-nil}

-- An iterator with `rest` ahead, all of whose items are bytes.
abbrev pub Ahead : DatagramIterator → List ℕ → Type 0
Ahead dgi rest = At dgi rest × All IsByte rest

-- The reader copied `used`, at least `least` bytes, from the front of `rest` behind `buffer`, and
-- left the iterator behind them.
abbrev pub Copied : ℕ → List ℕ → List ℕ → Result (List ℕ) × DatagramIterator → Type 0
Copied least rest buffer r =
    (used : List ℕ) × (rest' : List ℕ) × (dgi' : DatagramIterator) × (r
      ≡ (ok (buffer ++ used), dgi'))
    × (rest ≡ used ++ rest')
    × Ahead dgi' rest'
    × (least ≤ length used)

-- It threw one of the two exceptions that the sources document.
abbrev pub Threw {ℓ} : {A : Type ℓ} → Result A × DatagramIterator → Type ℓ
Threw r =
    (e : Exception) × (dgi' : DatagramIterator) × (r ≡ (err e, dgi'))
    × ((e ≡ iterator_eof) ⊎ (e ≡ constraint_violation))

abbrev pub Copies : ℕ → List ℕ → List ℕ → Result (List ℕ) × DatagramIterator → Type 0
Copies least rest buffer r = Copied least rest buffer r ⊎ Threw r

pub Copies-bind :
    (m n : ℕ) (rest buffer : List ℕ) (r : Result (List ℕ) × DatagramIterator)
    (f : List ℕ → Reader (List ℕ))
    → Copies m rest buffer r
    → ((used rest' : List ℕ) (dgi' : DatagramIterator)
        → Ahead dgi' rest'
        → rest ≡ used ++ rest'
        → Copies n rest' (buffer ++ used) (f (buffer ++ used) dgi'))
    → Copies (m + n) rest buffer (and_then r f)
Copies-bind m n rest buffer r f (inr (e, d, eq, doc)) next = inr (e, d, rw eq, doc)
Copies-bind m n rest buffer r f (inl (used, rest', d, eq, split, ahead, long)) next =
    elim (next used rest' d ahead split) [
      | inr (e, d', eq', doc) ↦ inr (e, d', rw eq eq', doc)
      | inl (used', rest'', d', eq', split', ahead', long') ↦ inl (
        used ++ used',
        rest'',
        d',
        rw eq (eq' ∙ ap (λ (b : List ℕ). (ok b, d')) (append_assoc buffer used used')),
        split ∙ ap (◌++◌ used) split' ∙ sym (append_assoc used used' rest''),
        ahead',
        omega (arith, length-append used used'),
      )
    ]

pub Copies-weaken :
    (m n : ℕ) (rest buffer : List ℕ) (r : Result (List ℕ) × DatagramIterator)
    → n ≤ m
    → Copies m rest buffer r
    → Copies n rest buffer r
Copies-weaken m n rest buffer r h (inr threw) = inr threw
Copies-weaken m n rest buffer r h (inl (used, rest', d, eq, split, ahead, long)) =
    inl (used, rest', d, eq, split, ahead, omega arith)

pub Copies-returns :
    (rest buffer : List ℕ) (dgi : DatagramIterator)
    → Ahead dgi rest
    → Copies 0 rest buffer (ok buffer, dgi)
Copies-returns rest buffer dgi ahead = inl (
  [],
  rest,
  dgi,
  ap (λ (b : List ℕ). (ok b, dgi)) (sym (append-nil buffer)),
  refl,
  ahead,
  omega arith,
)
