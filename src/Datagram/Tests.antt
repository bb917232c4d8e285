-- ===== src/Datagram/Tests.antt =====
-- src/util/Datagram.h: concrete datagrams.
use astron.Base.{ℕ, ◌^◌, ◌≡◌, refl, List, [], ◌∷◌, ◌++◌, replicate, arith}
use astron.Bytes.{le_bytes}
use astron.Datagram.{Datagram, append, empty, add_blob}
use astron.Datagram.Memory.{IsValid}
use astron.Datagram.Appending.{Appends, append-Appends}
use astron.Datagram.Values.{add_blob-Appends}
use astron.Datagram.Header.{
  empty-IsValid, header_bytes, add_server_header, add_server_header-Appends,
  add_server_header_single, add_server_header_single-eq,
}

-- A datagram that holds one byte in an allocation of two.
abbrev one_byte : Datagram
one_byte = record { buf = 7 ∷ 0 ∷ []; buf_cap = 2; buf_offset = 1 }

one_byte-IsValid : IsValid one_byte
one_byte-IsValid = record { allocated = refl; within_cap = omega arith; within_max = omega arith }

append-Appends_example : Appends one_byte (1 ∷ 2 ∷ 3 ∷ []) (append one_byte 3 (1 ∷ 2 ∷ 3 ∷ []))
append-Appends_example =
    append-Appends one_byte 3 (1 ∷ 2 ∷ 3 ∷ []) one_byte-IsValid refl (omega arith)

add_blob-Appends_example :
    Appends one_byte (le_bytes 2 2 ++ (5 ∷ 6 ∷ [])) (add_blob one_byte (5 ∷ 6 ∷ []))
add_blob-Appends_example = add_blob-Appends one_byte one_byte-IsValid (5 ∷ 6 ∷ []) (omega arith)

add_server_header-Appends_example :
    Appends empty (header_bytes (1 ∷ 2 ∷ []) 3 2020) (add_server_header empty (1 ∷ 2 ∷ []) 3 2020)
add_server_header-Appends_example =
    add_server_header-Appends empty (1 ∷ 2 ∷ []) 3 2020 empty-IsValid

add_server_header_single-eq_example :
    add_server_header_single empty 1 3 2020 ≡ add_server_header empty (1 ∷ []) 3 2020
add_server_header_single-eq_example = add_server_header_single-eq empty 1 3 2020

-- 65536 bytes after one.
abbrev many : List ℕ
many = replicate (2 ^ 16) 0
