-- ===== src/Datagram/Values.antt =====
-- src/util/Datagram.h: what each add_<value> appends.
use astron.Base.{
  ℕ, ◌≤◌, ◌≡◌, refl, inl, inr, List, [], ◌∷◌, ◌++◌, false, length, ◌==◌, arith, Bool-cases, ==→eq,
}
use astron.Bytes.{le_bytes, length-le_bytes}
use astron.Datagram.{
  Datagram, append, contents, dgsize_max, to_dgsize, add_uint8, add_uint16, add_uint32, add_uint64,
  add_size, add_channel, add_doid, add_zone, add_location, add_data, add_blob, add_data_of,
  add_blob_of,
}
use astron.Datagram.Memory.{IsValid}
use astron.Datagram.Appending.{
  Appends, append-Appends, Appends-bind, Appends-nil, store_twice-Appends, copy-Appends,
}

add_word :
    (dg : Datagram) (k v : ℕ)
    → IsValid dg
    → k ≤ dgsize_max
    → Appends dg (le_bytes k v) (append dg k (le_bytes k v))
add_word dg k v valid h = append-Appends dg k (le_bytes k v) valid (length-le_bytes k v) h

to_dgsize_le : (n : ℕ) → n ≤ dgsize_max → to_dgsize n ≡ n
to_dgsize_le n h = omega arith

module _ (dg : Datagram) (valid : IsValid dg) where
  pub add_uint8-Appends : (v : ℕ) → Appends dg (le_bytes 1 v) (add_uint8 dg v)
  unfolding add_uint8
  add_uint8-Appends v = add_word dg 1 v valid (omega arith)

  pub add_uint16-Appends : (v : ℕ) → Appends dg (le_bytes 2 v) (add_uint16 dg v)
  unfolding add_uint16
  add_uint16-Appends v = add_word dg 2 v valid (omega arith)

  pub add_uint32-Appends : (v : ℕ) → Appends dg (le_bytes 4 v) (add_uint32 dg v)
  unfolding add_uint32
  add_uint32-Appends v = add_word dg 4 v valid (omega arith)

  pub add_uint64-Appends : (v : ℕ) → Appends dg (le_bytes 8 v) (add_uint64 dg v)
  unfolding add_uint64
  add_uint64-Appends v = add_word dg 8 v valid (omega arith)

  pub add_size-Appends : (v : ℕ) → Appends dg (le_bytes 2 v) (add_size dg v)
  unfolding add_size
  add_size-Appends v = add_word dg 2 v valid (omega arith)

  pub add_channel-Appends : (v : ℕ) → Appends dg (le_bytes 8 v) (add_channel dg v)
  unfolding add_channel
  add_channel-Appends v = add_word dg 8 v valid (omega arith)

  pub add_doid-Appends : (v : ℕ) → Appends dg (le_bytes 4 v) (add_doid dg v)
  unfolding add_doid
  add_doid-Appends v = add_word dg 4 v valid (omega arith)

  pub add_zone-Appends : (v : ℕ) → Appends dg (le_bytes 4 v) (add_zone dg v)
  unfolding add_zone
  add_zone-Appends v = add_word dg 4 v valid (omega arith)

  -- To a valid datagram, add_location appends the parent and the zone, in four bytes each, with one check for
  -- both; it throws DatagramOverflow exactly if the eight bytes would pass DGSIZE_MAX.
  pub add_location-Appends :
      (parent zone : ℕ)
      → Appends dg (le_bytes 4 parent ++ le_bytes 4 zone) (add_location dg parent zone)
  unfolding add_location
  add_location-Appends parent zone =
      store_twice-Appends dg 8 _ _ valid
        (omega (arith, length-le_bytes 4 parent, length-le_bytes 4 zone)) (omega arith)

  -- A vector that fits a dgsize_t is appended whole.
  pub add_data-Appends :
      (bytes : List ℕ) → length bytes ≤ dgsize_max → Appends dg bytes (add_data dg bytes)
  unfolding add_data
  add_data-Appends [] h = Appends-nil dg valid
  add_data-Appends (b ∷ bs) h =
      let some_bytes : (length (b ∷ bs) == 0) ≡ false = ground arith in
      rw some_bytes
        (append-Appends dg (to_dgsize (length (b ∷ bs))) (b ∷ bs) valid (omega arith) (omega arith))

  -- To a valid datagram, a blob or a string of at most DGSIZE_MAX bytes is appended whole, behind its length
  -- in two bytes; or DatagramOverflow is thrown, exactly if the two would pass DGSIZE_MAX.
  pub add_blob-Appends :
      (bytes : List ℕ)
      → length bytes ≤ dgsize_max
      → Appends dg (le_bytes 2 (length bytes) ++ bytes) (add_blob dg bytes)
  unfolding add_blob
  add_blob-Appends bytes h = rw (to_dgsize_le _ h) (
      Appends-bind dg _ _ _ _ (add_size-Appends (length bytes))
        λ d v. append-Appends d (length bytes) bytes v refl h)

  pub add_data_of-Appends :
      (other : Datagram) → IsValid other → Appends dg (contents other) (add_data_of dg other)
  unfolding add_data_of
  add_data_of-Appends other w = elim (Bool-cases (other.buf_offset == 0)) [
    | inl e ↦ rw e (rw (==→eq _ _ e) (Appends-nil dg valid))
    | inr e ↦ rw e (copy-Appends dg other valid w)
  ]

  pub add_blob_of-Appends :
      (other : Datagram)
      → IsValid other
      → Appends dg (le_bytes 2 other.buf_offset ++ contents other) (add_blob_of dg other)
  unfolding add_blob_of
  add_blob_of-Appends other w =
      Appends-bind dg _ _ _ _ (rw (to_dgsize_le _ w.within_max) (add_size-Appends other.buf_offset))
        λ d v. copy-Appends d other v w
