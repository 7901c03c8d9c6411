-- ===== src/Tests/Packets.antt =====
-- protocol: packets from a stream that starts inside a packet, and datagrams.
use restreamer.Prelude.{ℕ, zero, suc, ◌≡◌, ◌++◌, refl, List, [], ◌∷◌, arith}
use restreamer.Protocol.Packet.{read_mpeg_ts_packet, packet, mpeg_ts_sync_byte, fill, find_sync}
use restreamer.Protocol.Packet.Framing.{Framed, read_mpeg_ts_packet-Framed}
use restreamer.Protocol.FixedReader.{FixedReader, read, pending}
use restreamer.Protocol.FixedReader.Stream.{read_content, fixed_reader-Delivers, Delivers}
use restreamer.Tests.Readers.{list_reader, list_reader-IsProgressive}

abbrev zeros : ℕ → List ℕ
zeros zero = []
zeros (suc n) = 0 ∷ zeros n

-- Five stray bytes, then a packet.
abbrev pub stray : List ℕ
stray = zeros 5 ++ (mpeg_ts_sync_byte ∷ zeros 187)

stray_packet : read_mpeg_ts_packet list_reader 189 stray ≡ packet (mpeg_ts_sync_byte ∷ zeros 187) []
unfolding read_mpeg_ts_packet fill find_sync
stray_packet = refl

read_mpeg_ts_packet-Framed_example :
    Framed list_reader stray (read_mpeg_ts_packet list_reader 189 stray)
read_mpeg_ts_packet-Framed_example =
    read_mpeg_ts_packet-Framed list_reader list_reader-IsProgressive 189 stray (omega arith)

abbrev datagrams : FixedReader list_reader 1500
datagrams = record { reader = 1 ∷ 2 ∷ 3 ∷ 4 ∷ []; buffer = [] }

read_content_example :
    1 ∷ 2 ∷ 3 ∷ 4 ∷ []
    ≡ (read list_reader 1500 datagrams 2).1.bytes
      ++ pending list_reader 1500 (read list_reader 1500 datagrams 2).0
read_content_example = read_content list_reader 1500 datagrams 2

fixed_reader-Delivers_example :
    Delivers list_reader 1500 datagrams (read list_reader 1500 datagrams 2).1
fixed_reader-Delivers_example =
    fixed_reader-Delivers list_reader 1500 datagrams 2 list_reader-IsProgressive (omega arith)
      (omega arith)
