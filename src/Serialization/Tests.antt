-- ===== src/Serialization/Tests.antt =====
-- A string written into the middle of a small buffer, and the theorem at it.
use mmo_server.Common.{◌≡◌, true, [], ◌∷◌, arith, returned}
use mmo_server.Packet.{PacketWriter}
use mmo_server.Packet.Bounds.{Bounded}
use mmo_server.Serialization.{serialize, deserialize}
use mmo_server.Serialization.Strings.{serialize-deserialize}

abbrev inner_writer : PacketWriter
inner_writer = record { buffer = 1 ∷ 2 ∷ 3 ∷ []; offset = 2 }

inner_writer-Bounded : Bounded inner_writer
inner_writer-Bounded = record { inside = omega arith; limited = omega arith }

serialize-deserialize_example :
    (w' : PacketWriter) × (serialize inner_writer (72 ∷ 105 ∷ []) ≡ returned (true, w'))
    × Bounded w'
    × (deserialize (record { view = w'.buffer; offset = 2 }) (9 ∷ [])
        ≡ (true, 72 ∷ 105 ∷ [], record { view = w'.buffer; offset = w'.offset }))
serialize-deserialize_example =
    serialize-deserialize inner_writer (72 ∷ 105 ∷ []) (9 ∷ []) inner_writer-Bounded (omega arith)
      (omega arith)
