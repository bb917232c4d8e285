-- ===== src/Unpack/Parts.antt =====
-- The reads that unpack_dtype is made of, over any input.
use astron.Base.{
  ℕ, zero, suc, ◌+◌, ◌*◌, ◌^◌, ◌≤◌, ◌<◌, ◌≡◌, refl, sym, ◌⊎◌, inl, inr, List, ◌++◌, All, length,
  take, drop, arith, length-take, take-append-drop, All-append-inv, Bool, Bool-cases,
}
use astron.Base.Result.{ok, err, constraint_violation, iterator_eof}
use astron.Bytes.{IsByte, le_bytes, le_value, le_bytes-le_value, le_value-lt}
use astron.Datagram.{dgsize_max}
use astron.Iterator.{DatagramIterator, Reader, read_data, read_size}
use astron.Iterator.Cursor.{At, step, read_data-Reads, read_data_eof}
use astron.Unpack.{read_fixed, unpack_times}
use astron.Unpack.Outcome.{Ahead, Copies, Copies-bind, Copies-weaken, Copies-returns}
use native.Mathlib.Decide.{dec_le}

-- `n` bytes from the front of `rest`, and the iterator behind them.
abbrev pub Took : ℕ → List ℕ → DatagramIterator → List ℕ → List ℕ → Type 0
Took n rest dgi used rest' =
    (length used ≡ n) × (rest ≡ used ++ rest') × Ahead (step n dgi) rest' × All IsByte used

pub read_data-cases :
    (n : ℕ) (dgi : DatagramIterator) (rest : List ℕ)
    → Ahead dgi rest
    → n ≤ dgsize_max
    → ((used : List ℕ) × (rest' : List ℕ) × (read_data n dgi ≡ (ok used, step n dgi))
        × Took n rest dgi used rest')
      ⊎ (read_data n dgi ≡ (err iterator_eof, dgi))
read_data-cases n dgi rest (at, bytes) small = elim (dec_le n (length rest)) [
  | no short ↦ inr (read_data_eof dgi rest n at small (omega arith))
  | yes enough ↦
      let whole : rest ≡ take n rest ++ drop n rest = sym (take-append-drop n rest) in
      let len : length (take n rest) ≡ n = omega (arith, length-take n rest) in
      let at' : At dgi (take n rest ++ drop n rest) = rw (← whole) at in
      let bytes' : All IsByte (take n rest ++ drop n rest) = rw (← whole) bytes in
      let (e, next) = read_data-Reads dgi (take n rest) (drop n rest) n at' len in
      let (front, back) = All-append-inv IsByte (take n rest) (drop n rest) bytes' in
      inl (take n rest, drop n rest, e, (len, whole, (next, back), front))
]

pub read_size-cases :
    (dgi : DatagramIterator) (rest : List ℕ)
    → Ahead dgi rest
    → ((used : List ℕ) × (rest' : List ℕ) × (read_size dgi ≡ (ok (le_value used), step 2 dgi))
        × Took 2 rest dgi used rest'
        × (le_bytes 2 (le_value used) ≡ used)
        × (le_value used ≤ dgsize_max))
      ⊎ (read_size dgi ≡ (err iterator_eof, dgi))
unfolding read_size
read_size-cases dgi rest ahead = elim (read_data-cases 2 dgi rest ahead (omega arith)) [
  | inr e ↦ inr (rw e)
  | inl (used, rest', e, took) ↦
      let (len, split, ahead', bytes) = took in
      let same : le_bytes 2 (le_value used) ≡ used = rw len at (le_bytes-le_value used bytes) in
      let bound : le_value used < 256 ^ 2 = rw len at (le_value-lt used bytes) in
      inl (used, rest', rw e, took, same, omega arith)
]

-- read_data followed by a check of the bytes, and by what becomes of the buffer.
pub read_fixed-Copies :
    (size : ℕ) (check : List ℕ → Bool) (buffer rest : List ℕ) (dgi : DatagramIterator)
    → size ≤ dgsize_max
    → Ahead dgi rest
    → Copies size rest buffer (read_fixed size check buffer dgi)
unfolding read_fixed
read_fixed-Copies size check buffer rest dgi small ahead =
    elim (read_data-cases size dgi rest ahead small) [
      | inr e ↦ inr (iterator_eof, dgi, rw e, inl refl)
      | inl (used, rest', e, (len, split, ahead', _)) ↦ elim (Bool-cases (check used)) [
        | inl good ↦ inl (used, rest', step size dgi, rw e (rw good), split, ahead', omega arith)
        | inr bad ↦ inr (constraint_violation, step size dgi, rw e (rw bad), inr refl)
      ]
    ]

-- What a reader of one element must satisfy.
abbrev pub CopiesElement : ℕ → (List ℕ → Reader (List ℕ)) → Type 0
CopiesElement k element =
    (buffer rest : List ℕ) (dgi : DatagramIterator)
    → Ahead dgi rest
    → Copies k rest buffer (element buffer dgi)

pub unpack_times-Copies :
    (k : ℕ) (element : List ℕ → Reader (List ℕ))
    → CopiesElement k element
    → (n : ℕ) → CopiesElement (n * k) (unpack_times element n)
unfolding unpack_times
unpack_times-Copies k element good zero buffer rest dgi ahead =
    Copies-weaken 0 (0 * k) rest buffer _ (omega arith) (Copies-returns rest buffer dgi ahead)
unpack_times-Copies k element good (suc n) buffer rest dgi ahead =
    Copies-weaken (k + n * k) (suc n * k) rest buffer _ (omega arith) (
      Copies-bind k (n * k) rest buffer _ _ (good buffer rest dgi ahead) λ used rest' dgi' ahead' _.
        unpack_times-Copies k element good n (buffer ++ used) rest' dgi' ahead')
