-- ===== src/Iterator/Tests.antt =====
-- src/util/DatagramIterator.h: concrete reads.
use astron.Base.{ℕ, ◌≡◌, refl, [], ◌∷◌, ◌++◌, arith}
use astron.Base.Result.{ok, err, fault, iterator_eof}
use astron.Bytes.{le_bytes}
use astron.Datagram.{Datagram}
use astron.Datagram.Memory.{IsValid}
use astron.Datagram.Header.{header_bytes, channel_bytes}
use astron.Iterator.{
  DatagramIterator, read_data, read_blob, read_datagram, get_sender, get_msg_type,
}
use astron.Iterator.Cursor.{
  At, Reads, step, read_data-Reads, read_data_eof, read_blob-Reads, read_datagram_fault,
}
use astron.Iterator.Header.{Message, get_sender_lem, get_msg_type_lem}

-- A blob of two bytes, and one more byte.
abbrev packed : Datagram
packed = record { buf = 2 ∷ 0 ∷ 5 ∷ 6 ∷ 7 ∷ []; buf_cap = 5; buf_offset = 5 }

packed-IsValid : IsValid packed
packed-IsValid = record { allocated = refl; within_cap = omega arith; within_max = omega arith }

abbrev start : DatagramIterator
start = record { dg = packed; offset = 0 }

start-At : At start (2 ∷ 0 ∷ 5 ∷ 6 ∷ 7 ∷ [])
start-At = record { valid = packed-IsValid; inside = omega arith; ahead = refl }

two_bytes : le_bytes 2 2 ≡ 2 ∷ 0 ∷ []
unfolding le_bytes
two_bytes = refl

start_blob-At : At start (le_bytes 2 2 ++ ((5 ∷ 6 ∷ []) ++ (7 ∷ [])))
start_blob-At = rw two_bytes start-At

read_data-Reads_example : Reads (read_data 2 start) (2 ∷ 0 ∷ []) 2 start (5 ∷ 6 ∷ 7 ∷ [])
read_data-Reads_example = read_data-Reads start (2 ∷ 0 ∷ []) (5 ∷ 6 ∷ 7 ∷ []) 2 start-At refl

read_data_eof_example : read_data 6 start ≡ (err iterator_eof, start)
read_data_eof_example =
    read_data_eof start (2 ∷ 0 ∷ 5 ∷ 6 ∷ 7 ∷ []) 6 start-At (omega arith) (omega arith)

read_blob-Reads_example : Reads (read_blob start) (5 ∷ 6 ∷ []) 2 (step 2 start) (7 ∷ [])
read_blob-Reads_example = read_blob-Reads (5 ∷ 6 ∷ []) start (7 ∷ []) (omega arith) start_blob-At

-- A length of nine with one byte behind it.
abbrev short : DatagramIterator
short = record { dg = record { buf = 9 ∷ 0 ∷ 5 ∷ []; buf_cap = 3; buf_offset = 3 }; offset = 0 }

short-At : At short (le_bytes 2 9 ++ 5 ∷ [])
unfolding le_bytes
short-At = record {
  valid = record { allocated = refl; within_cap = omega arith; within_max = omega arith };
  inside = omega arith;
  ahead = refl;
}

read_datagram_fault_example : (read_datagram short).0 ≡ err fault
read_datagram_fault_example =
    read_datagram_fault 9 short (5 ∷ []) (omega arith) (omega arith) short-At

-- A message to the channels 1 and 2, from 3, of type 2020, with two bytes of payload.
abbrev mail : Datagram
mail = record {
  buf =
      2 ∷ 1 ∷ 0 ∷ 0 ∷ 0 ∷ 0 ∷ 0 ∷ 0 ∷ 0 ∷ 2 ∷ 0 ∷ 0 ∷ 0 ∷ 0 ∷ 0 ∷ 0 ∷ 0 ∷ 3 ∷ 0 ∷ 0 ∷ 0 ∷ 0 ∷ 0 ∷ 0
      ∷ 0 ∷ 228 ∷ 7 ∷ 8 ∷ 9 ∷ [];
  buf_cap = 29;
  buf_offset = 29;
}

mail-Message : Message mail (1 ∷ 2 ∷ []) 3 2020 (8 ∷ 9 ∷ [])
unfolding header_bytes channel_bytes le_bytes
mail-Message = record {
  valid = record { allocated = refl; within_cap = omega arith; within_max = omega arith };
  layout = refl;
  few = omega arith;
  channels = (omega arith, (omega arith, tt));
  sender = omega arith;
  type = omega arith;
}

abbrev mail_at : ℕ → DatagramIterator
mail_at n = record { dg = mail; offset = n }

get_sender_lem_example : get_sender (mail_at 5) ≡ (ok 3, mail_at 5)
get_sender_lem_example =
    get_sender_lem mail (1 ∷ 2 ∷ []) 3 2020 (8 ∷ 9 ∷ []) mail-Message 5 (omega arith)

get_msg_type_lem_example : get_msg_type (mail_at 5) ≡ (ok 2020, mail_at 5)
get_msg_type_lem_example =
    get_msg_type_lem mail (1 ∷ 2 ∷ []) 3 2020 (8 ∷ 9 ∷ []) mail-Message 5 (omega arith)
