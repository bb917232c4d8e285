-- ===== src/Datagram/Appending.antt =====
-- src/util/Datagram.h: each add_<value> appends or overflows.
use astron.Base.{
  ℕ, ◌+◌, ◌≤◌, ◌<◌, ◌≡◌, refl, sym, ap, ◌∙◌, ◌⊎◌, inl, inr, List, [], ◌++◌, length, ltb, arith,
  length-append, Bool-cases,
}
use astron.Base.Result.{Result, ok, err, datagram_overflow, ◌>>=◌}
use astron.Datagram.{
  Datagram, memory_read, check_add_length, store, append, contents, dgsize_max, to_size_t,
  to_dgsize,
}
use mathlib.Core.List.{append-nil, append_assoc}
use astron.Datagram.Memory.{
  Grows, IsValid, grow-Grows, length-contents, memory_read_lem, store-Stores,
}

-- What a caller of check_add_length gets: room for `len` more bytes, or the overflow.
abbrev Reserves : Datagram → ℕ → Result Datagram → Type 0
Reserves dg len r =
    (Grows dg len r × (dg.buf_offset + len ≤ dgsize_max))
    ⊎ ((r ≡ err datagram_overflow) × (dgsize_max < dg.buf_offset + len))

pub check_add_length-Reserves :
    (dg : Datagram) (len : ℕ)
    → IsValid dg
    → len ≤ dgsize_max
    → Reserves dg len (check_add_length dg len)
unfolding check_add_length
check_add_length-Reserves dg len v h =
    elim (Bool-cases (ltb dgsize_max (to_size_t (dg.buf_offset + len)))) [
      | inl over ↦ inr (rw over, ground (arith, over))
      | inr fits ↦ elim (Bool-cases (ltb dg.buf_cap (to_size_t (dg.buf_offset + len)))) [
        | inl small ↦ inl (rw (fits, small) (grow-Grows dg len v), ground (arith, fits))
        | inr room ↦ inl (
          (dg, rw (fits, room), v.allocated, ground (arith, room), omega arith, refl, refl),
          ground (arith, fits),
        )
      ]
    ]

-- A call appends `bytes` and keeps the datagram valid, or throws DatagramOverflow; it throws
-- exactly when the size would pass DGSIZE_MAX.
abbrev pub Appends : Datagram → List ℕ → Result Datagram → Type 0
Appends dg bytes r =
    ((dg' : Datagram) × (r ≡ ok dg')
      × IsValid dg'
      × (contents dg' ≡ contents dg ++ bytes)
      × (dg'.buf_offset ≡ dg.buf_offset + length bytes))
    ⊎ ((r ≡ err datagram_overflow) × (dgsize_max < dg.buf_offset + length bytes))

-- A store into reserved room, seen from the datagram before the check.
store-after :
    (dg grown : Datagram) (bytes : List ℕ)
    → length grown.buf ≡ grown.buf_cap
    → dg.buf_offset + length bytes ≤ grown.buf_cap
    → grown.buf_offset ≡ dg.buf_offset
    → contents grown ≡ contents dg
    → dg.buf_offset + length bytes ≤ dgsize_max
    → Appends dg bytes (store grown bytes)
store-after dg grown bytes alloc room same kept fits =
    let (dg', e, alloc', cap, off, text) =
      store-Stores grown bytes alloc (omega arith) (omega arith) in
    inl (
      dg',
      e,
      record { allocated = alloc'; within_cap = omega arith; within_max = omega arith },
      text ∙ ap (λ (xs : List ℕ). xs ++ bytes) kept,
      omega arith,
    )

-- To a valid datagram, the append that every add_<value> makes either adds the bytes behind the contents and
-- leaves a valid datagram, or throws DatagramOverflow, exactly if the size would pass DGSIZE_MAX. The
-- checked length must be the length of the bytes and fit a dgsize_t.
pub append-Appends :
    (dg : Datagram) (len : ℕ) (bytes : List ℕ)
    → IsValid dg
    → length bytes ≡ len
    → len ≤ dgsize_max
    → Appends dg bytes (append dg len bytes)
unfolding append
append-Appends dg len bytes v eq h = elim (check_add_length-Reserves dg len v h) [
  | inr (over, big) ↦ inr (rw over, omega arith)
  | inl ((grown, e, alloc, room, _, same, kept), fits) ↦
      rw e (store-after dg grown bytes alloc (omega arith) same kept (omega arith))
]

-- One check for two stores.
pub store_twice-Appends :
    (dg : Datagram) (len : ℕ) (xs ys : List ℕ)
    → IsValid dg
    → length xs + length ys ≡ len
    → len ≤ dgsize_max
    → Appends dg (xs ++ ys) (check_add_length dg len >>= λ d. store d xs >>= λ d'. store d' ys)
store_twice-Appends dg len xs ys v eq h = elim (check_add_length-Reserves dg len v h) [
  | inr (over, big) ↦ inr (rw over, omega (arith, length-append xs ys))
  | inl ((grown, e, alloc, room, _, same, kept), fits) ↦
      let (d, e', alloc', cap, off, text) =
        store-Stores grown xs alloc (omega arith) (omega arith) in
      let (d', e'', alloc'', cap', off', text') =
        store-Stores d ys alloc' (omega arith) (omega arith) in
      inl (
        d',
        rw (e, e') e'',
        record { allocated = alloc''; within_cap = omega arith; within_max = omega arith },
        text' ∙ rw (text, kept) (append_assoc (contents dg) xs ys),
        omega (arith, length-append xs ys),
      )
]

-- The bytes of another datagram, copied by its own size.
pub copy-Appends :
    (dg other : Datagram)
    → IsValid dg
    → IsValid other
    → Appends dg (contents other) (
        check_add_length dg (to_dgsize other.buf_offset) >>= λ d.
        memory_read other.buf 0 other.buf_offset >>= λ bytes. store d bytes)
unfolding append
copy-Appends dg other v w = rw (memory_read_lem other.buf 0 other.buf_offset (omega arith)) (
    append-Appends dg (to_dgsize other.buf_offset) (contents other) v
      (omega (arith, length-contents other w)) (omega arith))

-- One call after another appends both byte strings.
pub Appends-bind :
    (dg : Datagram) (xs ys : List ℕ) (m : Result Datagram) (f : Datagram → Result Datagram)
    → Appends dg xs m
    → ((d : Datagram) → IsValid d → Appends d ys (f d))
    → Appends dg (xs ++ ys) (m >>= f)
Appends-bind dg xs ys m f (inr (over, big)) next = inr (rw over, omega (arith, length-append xs ys))
Appends-bind dg xs ys m f (inl (d, e, v, text, off)) next = elim (next d v) [
  | inr (over, big) ↦ inr (rw e over, omega (arith, length-append xs ys))
  | inl (d', e', v', text', off') ↦ inl (
    d',
    rw e e',
    v',
    text' ∙ ap (λ (zs : List ℕ). zs ++ ys) text ∙ append_assoc (contents dg) xs ys,
    omega (arith, length-append xs ys),
  )
]

-- Nothing added.
pub Appends-nil : (dg : Datagram) → IsValid dg → Appends dg [] (ok dg)
Appends-nil dg v = inl (dg, refl, v, sym (append-nil (contents dg)), omega arith)
