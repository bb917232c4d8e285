-- ===== src/Unpack/Stuck.antt =====
-- src/util/DatagramIterator.h: the loop over a variable array whose elements take no bytes.
use astron.Base.{ℕ, zero, suc, ◌+◌, ◌-◌, ◌<◌, ◌≡◌, refl, List, length, arith, lt→ltb}
use astron.Base.Result.{err, stuck}
use astron.Iterator.{DatagramIterator}
use astron.Dclass.Types.{struct, end, fields_size}
use astron.Unpack.{unpack_dtype, unpack_while}

-- Over a variable array of empty structs with a length that is not 0, no number of rounds ends the
-- loop: with any fuel the fuel runs out.
pub unpack_while_stuck :
    (fuel len cur_ptr count : ℕ) (buffer : List ℕ) (dgi : DatagramIterator)
    → 0 < len
    → length buffer ≡ cur_ptr
    → unpack_while (unpack_dtype (struct end)) fuel len cur_ptr count buffer dgi ≡ (err stuck, dgi)
unfolding unpack_while unpack_dtype fields_size
unpack_while_stuck zero len cur_ptr count buffer dgi h e = refl
unpack_while_stuck (suc fuel) len cur_ptr count buffer dgi h e =
    rw (lt→ltb (length buffer - cur_ptr) len (omega arith))
      (unpack_while_stuck fuel len cur_ptr (count + 1) buffer dgi h e)
