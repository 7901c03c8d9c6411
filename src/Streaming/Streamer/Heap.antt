-- ===== src/Streaming/Streamer/Heap.antt =====
-- The connections that pointers lead to, by the pointer's number.
use restreamer.Prelude.{ℕ, ◌≡◌, ◌≢◌, false, [], ◌==◌, arith, if◌then◌else◌}
use restreamer.Prelude.Http.{new_response}
use restreamer.Prelude.Channel.{new_channel}
use restreamer.Streaming.Connection.{Connection}

abbrev pub Conns : Type 0
Conns = ℕ → Connection

abbrev pub update : Conns → ℕ → Connection → Conns
update conns c conn d = if c == d then conn else conns d

-- What stands at a pointer before a connection is made there.
abbrev pub no_connection : Connection
no_connection = record {
  queue = new_channel 0;
  client_address = [];
  writer = new_response;
  closed = false;
}

pub update_self : (conns : Conns) (c : ℕ) (conn : Connection) → update conns c conn c ≡ conn
update_self conns c conn = ground arith

pub update_ne :
    (conns : Conns) (c d : ℕ) (conn : Connection) → c ≢ d → update conns c conn d ≡ conns d
update_ne conns c d conn h = ground arith
