-- ===== src/Datagram/Memory.antt =====
-- src/util/Datagram.h: no add_<value> leaves the allocation, and each one appends or overflows.
use astron.Base.{
  ℕ, ◌+◌, ◌≤◌, ◌≡◌, refl, ap, ◌∙◌, List, ◌++◌, length, take, drop, replicate, arith, le→leb,
  length-append, length-take, length-drop, length-replicate, take-append_le, take-append_add,
  take_all, take-take,
}
use astron.Base.Result.{Result, ok}
use astron.Datagram.{
  Datagram, memory_write, memory_read, grow, store, contents, dgsize_max, to_size_t,
}

-- What the constructors establish: the offset lies in the allocation and in a dgsize_t.
pub record IsValid (dg : Datagram) : Type 0 where
  pub allocated : length dg.buf ≡ dg.buf_cap
  pub within_cap : dg.buf_offset ≤ dg.buf_cap
  pub within_max : dg.buf_offset ≤ dgsize_max

pub memory_write_lem :
    (buf : List ℕ) (offset : ℕ) (bytes : List ℕ)
    → offset + length bytes ≤ length buf
    → memory_write buf offset bytes
      ≡ ok (take offset buf ++ (bytes ++ drop (offset + length bytes) buf))
unfolding memory_write
memory_write_lem buf offset bytes h = rw (le→leb _ _ h)

pub memory_read_lem :
    (buf : List ℕ) (offset size : ℕ)
    → offset + size ≤ length buf
    → memory_read buf offset size ≡ ok (take size (drop offset buf))
unfolding memory_read
memory_read_lem buf offset size h = rw (le→leb _ _ h)

pub length-contents : (dg : Datagram) → IsValid dg → length (contents dg) ≡ dg.buf_offset
length-contents dg v = omega (arith, length-take dg.buf_offset dg.buf)

pub written : List ℕ → ℕ → List ℕ → List ℕ
written buf offset bytes = take offset buf ++ (bytes ++ drop (offset + length bytes) buf)

pub length-written :
    (buf : List ℕ) (offset : ℕ) (bytes : List ℕ)
    → offset + length bytes ≤ length buf
    → length (written buf offset bytes) ≡ length buf
unfolding written
length-written buf offset bytes h =
    rw (length-append, length-append)
      (omega (arith, length-take offset buf, length-drop (offset + length bytes) buf))

pub take-written :
    (buf : List ℕ) (offset : ℕ) (bytes : List ℕ)
    → offset + length bytes ≤ length buf
    → take (offset + length bytes) (written buf offset bytes) ≡ take offset buf ++ bytes
unfolding written
take-written buf offset bytes h =
    take-append_add (take offset buf) (bytes ++ drop (offset + length bytes) buf) (length bytes) _
      (omega (arith, length-take offset buf))
    ∙ ap (◌++◌ (take offset buf))
        (take-append_le (length bytes) bytes _ (omega arith) ∙ take_all _ bytes (omega arith))

abbrev pub Stores : Datagram → List ℕ → Result Datagram → Type 0
Stores dg bytes r =
    (dg' : Datagram) × (r ≡ ok dg')
    × (length dg'.buf ≡ dg'.buf_cap)
    × (dg'.buf_cap ≡ dg.buf_cap)
    × (dg'.buf_offset ≡ dg.buf_offset + length bytes)
    × (contents dg' ≡ contents dg ++ bytes)

pub store-Stores :
    (dg : Datagram) (bytes : List ℕ)
    → length dg.buf ≡ dg.buf_cap
    → dg.buf_offset + length bytes ≤ dg.buf_cap
    → dg.buf_offset + length bytes ≤ dgsize_max
    → Stores dg bytes (store dg bytes)
unfolding store written
store-Stores dg bytes e h m = (
  record dg {
    buf = written dg.buf dg.buf_offset bytes;
    buf_offset = to_size_t (dg.buf_offset + length bytes);
  },
  rw (memory_write_lem dg.buf dg.buf_offset bytes (omega arith)),
  length-written dg.buf dg.buf_offset bytes (omega arith) ∙ e,
  refl,
  omega arith,
  ap (λ (n : ℕ). take n (written dg.buf dg.buf_offset bytes)) (omega arith)
      ∙ take-written dg.buf dg.buf_offset bytes (omega arith),
)

abbrev pub Grows : Datagram → ℕ → Result Datagram → Type 0
Grows dg len r =
    (dg' : Datagram) × (r ≡ ok dg')
    × (length dg'.buf ≡ dg'.buf_cap)
    × (dg.buf_offset + len ≤ dg'.buf_cap)
    × (dg'.buf_cap ≤ dg.buf_cap + len + 64)
    × (dg'.buf_offset ≡ dg.buf_offset)
    × (contents dg' ≡ contents dg)

pub grow-Grows : (dg : Datagram) (len : ℕ) → IsValid dg → Grows dg len (grow dg len)
unfolding grow written
grow-Grows dg len v =
    let n : ℕ = dg.buf_cap + len + 64 in
    let zeros : List ℕ = replicate n 0 in
    let old : List ℕ = take dg.buf_cap dg.buf in
    let fits : 0 + length old ≤ length zeros =
      omega (arith, length-replicate {A = ℕ} n 0, length-take dg.buf_cap dg.buf) in
    (
      record dg { buf = written zeros 0 old; buf_cap = n },
      rw (memory_read_lem dg.buf 0 dg.buf_cap (omega arith))
          (rw (memory_write_lem zeros 0 old fits)),
      length-written zeros 0 old fits ∙ length-replicate n 0,
      omega (arith, v.within_cap),
      omega arith,
      refl,
      take-append_le dg.buf_offset old _ (omega (arith, length-take dg.buf_cap dg.buf))
          ∙ take-take dg.buf_offset dg.buf_cap dg.buf v.within_cap,
    )
