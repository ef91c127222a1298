-- ===== src/Packet/Tests.antt =====
-- A writer in the middle of a small buffer and one near the limit, and the theorems at them.
use mmo_server.Common.{
  ℕ, ◌+◌, ◌≤◌, ◌<◌, ◌≡◌, ◌⊎◌, true, false, none, some, List, [], ◌∷◌, arith, length, take, drop,
  returned,
}
use mmo_server.Packet.{PacketWriter, PacketReader, max_packet_size, write_string, read_string}
use mmo_server.Packet.Bounds.{Bounded, advanced}
use mmo_server.Packet.RoundTrip.{length_bytes, write_string_outcome, write_string-read_string}
use mmo_server.Packet.Reading.{read_string_outcome}

abbrev middle_writer : PacketWriter
middle_writer = record { buffer = 1 ∷ 2 ∷ 3 ∷ []; offset = 1 }

middle_writer-Bounded : Bounded middle_writer
middle_writer-Bounded = record { inside = omega arith; limited = omega arith }

write_string-read_string_example :
    (w' : PacketWriter) × (write_string middle_writer (72 ∷ 105 ∷ []) ≡ returned (true, w'))
    × Bounded w'
    × (read_string (record { view = w'.buffer; offset = 1 })
        ≡ (some (72 ∷ 105 ∷ []), record { view = w'.buffer; offset = w'.offset }))
write_string-read_string_example =
    write_string-read_string middle_writer (72 ∷ 105 ∷ []) middle_writer-Bounded (omega arith)
      (omega arith)

write_string_outcome_example :
    ((1 + 4 + 1 ≤ max_packet_size)
      × (write_string middle_writer (72 ∷ [])
          ≡ returned (true, advanced (advanced middle_writer (length_bytes (72 ∷ []))) (72 ∷ []))))
    ⊎ (((1 + 4 ≤ max_packet_size)
          × (max_packet_size < 1 + 4 + 1)
          × (write_string middle_writer (72 ∷ [])
              ≡ returned
                  (false, record (advanced middle_writer (length_bytes (72 ∷ []))) { offset = 1 })))
        ⊎ ((max_packet_size < 1 + 4)
            × (write_string middle_writer (72 ∷ []) ≡ returned (false, middle_writer))))
write_string_outcome_example =
    write_string_outcome middle_writer (72 ∷ []) middle_writer-Bounded (omega arith)

abbrev broken_reader : PacketReader
broken_reader = record { view = 9 ∷ 0 ∷ 0 ∷ 0 ∷ 7 ∷ []; offset = 0 }

read_string_outcome_example :
    (read_string broken_reader ≡ (none, broken_reader))
    ⊎ ((str : List ℕ) × (0 + 4 + length str ≤ 5)
        × (str ≡ take (length str) (drop 4 broken_reader.view))
        × (read_string broken_reader
            ≡ (some str, record broken_reader { offset = 0 + 4 + length str })))
read_string_outcome_example = read_string_outcome broken_reader (omega arith)
