-- ===== src/Protocol/Packet.antt =====
-- protocol/packet.go: reading one MPEG-TS packet and finding the start of the next packet.
pub mod Fill
pub mod Framing
use restreamer.Prelude.{
  ℕ, zero, suc, ◌-◌, ◌≡◌, List, [], ◌∷◌, ◌++◌, Option, none, some, Bool, true, false, ltb, ◌==◌,
  length, drop, if◌then◌else◌,
}
use restreamer.Protocol.Reader.{Reader, Count, IoError}

abbrev pub mpeg_ts_packet_size : ℕ
mpeg_ts_packet_size = 188

abbrev pub mpeg_ts_sync_byte : ℕ
mpeg_ts_sync_byte = 0x47

-- How a reading loop ends: with a full buffer, with the reader's error, or for want of fuel.
pub data Filled (S : Type 0) : Type 0 where
  full : List ℕ → S → Filled S
  broken : IoError → S → Filled S
  out_of_fuel : Filled S

-- `for offset < MpegTsPacketSize { nbytes, err := reader.Read(buf[offset:]); ... }`. `buf` holds
-- the bytes read so far and `offset` is their number; each round takes one unit of fuel.
unfoldable pub fill : (r : Reader) → ℕ → List ℕ → r.State → Filled r.State
fill r zero buf s = out_of_fuel
fill r (suc fuel) buf s =
    let (s', count) = r.read s (mpeg_ts_packet_size - length buf) in
    let rest = fill r fuel (buf ++ count.bytes) s' in
    if ltb (length buf) mpeg_ts_packet_size
    then elim count.err [ none ↦ rest | some e ↦ broken e s' ]
    else full buf s

-- The first index of the sync byte.
unfoldable pub find_sync : List ℕ → Option ℕ
find_sync [] = none
find_sync (b ∷ bs) =
    if b == mpeg_ts_sync_byte
    then some 0
    else elim (find_sync bs) [ none ↦ none | some i ↦ some (suc i) ]

-- What the function returns: a packet, nil without an error, or the reader's error.
pub data Result (S : Type 0) : Type 0 where
  packet : List ℕ → S → Result S
  no_packet : S → Result S
  failed : IoError → S → Result S
  diverged : Result S

abbrev whole_packet : {S : Type 0} → Filled S → Result S
whole_packet (full buf s) = packet buf s
whole_packet (broken e s) = failed e s
whole_packet out_of_fuel = diverged

-- `garbage[0] != MpegTsSyncByte`; the buffer has 188 bytes there.
abbrev starts_in_sync : List ℕ → Bool
starts_in_sync [] = false
starts_in_sync (b ∷ bs) = b == mpeg_ts_sync_byte

-- The scan of a full buffer, and the second loop when the sync byte is not the first one.
resync : (r : Reader) → ℕ → List ℕ → r.State → Result r.State
resync r fuel garbage s = elim (find_sync garbage) [
  | none ↦ no_packet s
  | some sync ↦ whole_packet (fill r fuel (drop sync garbage) s)
]

-- The quick check of the buffer that the first loop has filled.
check_sync : (r : Reader) → ℕ → Filled r.State → Result r.State
unfolding resync
check_sync r fuel (full garbage s) =
    if starts_in_sync garbage then packet garbage s else resync r fuel garbage s
check_sync r fuel (broken e s) = failed e s
check_sync r fuel out_of_fuel = diverged

-- `fuel` bounds the rounds of each of the two reading loops.
unfoldable pub read_mpeg_ts_packet : (r : Reader) → ℕ → r.State → Result r.State
unfolding check_sync
read_mpeg_ts_packet r fuel s = check_sync r fuel (fill r fuel [] s)
