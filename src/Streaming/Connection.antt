-- ===== src/Streaming/Connection.antt =====
-- streaming/connection.go: one client connection with its packet queue.
pub mod Order
use restreamer.Prelude.{
  ℕ, ◌≡◌, Bool, true, false, List, [], ◌∷◌, ◌++◌, Option, none, some, Text, codes, is_set,
  if◌then◌else◌,
}
use restreamer.Prelude.Http.{Response, set_header, write_header, write}
use restreamer.Prelude.Channel.{Channel, new_channel, receive, Received, value, at_end, blocks}

-- A packet is its bytes.
abbrev pub Packet : Type 0
Packet = Text

-- `writer` is the destination, with what was written to it; `closed` is the field `Closed`.
pub record Connection : Type 0 where
  pub queue : Channel Packet
  pub client_address : Text
  pub writer : Response
  pub closed : Bool

unfoldable pub new_connection : Response → ℕ → Text → Connection
new_connection destination qsize clientaddr = record {
  queue = new_channel qsize;
  client_address = clientaddr;
  writer = destination;
  closed = false;
}

-- The header of every answer with a stream; `now` is the time as it is formatted.
unfoldable pub stream_header : Text → Response → Response
stream_header now w = set_header (codes "Cache-Control") (codes "no-cache,no-store,no-transform") (
    set_header (codes "Accept-Range") (codes "none") (
      set_header (codes "Last-Modified") now
        (set_header (codes "Content-Type") (codes "video/mpeg") w)))

-- What the select statement of the loop may find ready. The outcome of the write is the client's.
pub data Ready : Type 0 where
  queue_ready : (write_succeeds : Bool) → Ready
  context_done : Ready

-- One round of the loop, which tells if the loop goes on.
unfoldable pub serve_round : Ready → Connection → Connection × Bool
serve_round context_done conn = (conn, false)
serve_round (queue_ready write_succeeds) conn = elim (receive conn.queue) [
  | value packet rest ↦
      if write_succeeds
      then (record conn { queue = rest; writer = write packet conn.writer }, true)
      else (record conn { queue = rest }, false)
  | at_end ↦ (record conn { closed = true }, false)
  | blocks ↦ (conn, true)
]

unfoldable pub serve_loop : List Ready → Connection → Connection × Bool
serve_loop [] conn = (conn, true)
serve_loop (r ∷ rs) conn =
    let (conn', running) = serve_round r conn in
    let rest = serve_loop rs conn' in if running then rest else (conn', false)

-- The header and the preamble; the result tells if the loop is entered.
unfoldable pub serve_start : Text → Text → Bool → Connection → Connection × Bool
unfolding stream_header
serve_start now preamble write_succeeds conn =
    let opened = write_header 200 (stream_header now conn.writer) in
    if is_set preamble
    then if write_succeeds
      then (record conn { writer = write preamble opened }, true)
      else (record conn { writer = opened }, false)
    else (record conn { writer = opened }, true)

-- The result tells if the loop still waits after the given events.
unfoldable pub serve : Text → Text → Bool → List Ready → Connection → Connection × Bool
unfolding serve_start serve_loop
serve now preamble write_succeeds rs conn =
    let (opened, running) = serve_start now preamble write_succeeds conn in
    let rest = serve_loop rs opened in if running then rest else (opened, false)

-- ServeStreamError ignores its status argument.
unfoldable pub serve_stream_error : Text → ℕ → Response → Response
unfolding stream_header
serve_stream_error now status w = write_header 404 (stream_header now w)
