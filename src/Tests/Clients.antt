-- ===== src/Tests/Clients.antt =====
-- streaming: an upstream client with two URLs, one of which cannot be parsed.
use restreamer.Prelude.{
  ◌+◌, ◌*◌, ◌<◌, ◌≡◌, ◌≢◌, refl, false, List, [], ◌∷◌, ◌++◌, Option, none, some, Text, codes,
  text_beq, length, arith, if◌then◌else◌,
}
use restreamer.Protocol.Reader.{io_error}
use restreamer.Streaming.Client.Sources.{
  Url, other, Source, Network, Opened, opened, refused, unanswered, unresolved,
}
use restreamer.Streaming.Client.{
  Client, new_client, parse_all, unconnected, second, open_input, start, ready,
}
use restreamer.Streaming.Client.Loop.{Moment, Loop, loop, loop_round, begin_loop, going, crashed}
use restreamer.Streaming.Client.Start.{Settles, Streams, start-Settles, start-Streams}
use restreamer.Streaming.Client.Urls.{unparsed_url_panics}
use restreamer.Protocol.Reader.{IoError}
use restreamer.Prelude.{ℕ, All, ◌⊎◌}
use restreamer.Streaming.Client.{returned}
use restreamer.Streaming.Client.Segments.{Segment, IsSegment, weave}
use restreamer.Streaming.Client.Start.{inputs}
use restreamer.Protocol.Packet.Framing.{Breaks}
use restreamer.Streaming.Relay.{Reaches, upstream-Reaches}
use restreamer.Streaming.Service.{acl_broker}
use restreamer.Tests.Streams.{busy}
use restreamer.Tests.Readers.{list_reader, list_reader-IsProgressive}
use restreamer.Tests.Packets.{stray}

abbrev pub upstream : Url
upstream = record {
  scheme = codes "tcp";
  host = codes "up:1";
  hostname = codes "up";
  path = [];
  raw_query = [];
}

abbrev tape : Source
tape = record { reader = list_reader; state = stray }

-- A network whose hosts answer to nothing but TCP.
abbrev network : Opened → Network
network answer = record {
  Address = Text;
  open_file = λ path. refused (io_error 2);
  get_url = λ u. unanswered (io_error 3);
  dial = λ scheme host. answer;
  resolve = λ host. unresolved (io_error 4);
  is_multicast = λ a. false;
  listen_multicast = λ interf a. refused (io_error 5);
  listen = λ a. refused (io_error 5);
  unescape = λ query. unresolved (io_error 6);
  run_command = λ command arguments. refused (io_error 7);
  close_input = λ i. none;
}

abbrev client : Client
client = unconnected (codes "tv") (some upstream ∷ none ∷ []) none 5 1 10 1500 7

start-Settles_example : Settles client (start 9 (network (opened tape)) upstream client)
start-Settles_example = start-Settles 9 (network (opened tape)) upstream client (refl, refl, refl)

tape_opens : open_input (network (opened tape)) upstream client ≡ ready none tape
unfolding open_input
tape_opens = refl

start-Streams_example : Streams client tape (start 4 (network (opened tape)) upstream client)
start-Streams_example =
    start-Streams 4 (network (opened tape)) upstream client none tape (refl, refl, refl) tape_opens
      list_reader-IsProgressive (omega arith)

abbrev moment : Moment
moment = record { elapsed = 1; overslept = 0; network = network (refused (io_error 1)); fuel = 9 }

abbrev pub parse : Text → Option Url
parse t = if text_beq t (codes "tcp://up:1") then some upstream else none

abbrev uris : List Text
uris = codes "tcp://up:1" ∷ codes ":" ∷ []

client_made : new_client parse (λ t. none) (codes "tv") uris 5 1 10 [] 1500 7 ≡ some client
unfolding new_client parse_all
client_made = refl

one_fewer : length (parse_all parse uris) < length uris
unfolding parse_all
one_fewer = omega arith

one_tried : 1 ≡ length (parse_all parse uris)
unfolding parse_all
one_tried = refl

abbrev tried : Loop
tried = record {
  first = false;
  deadline = 100 + 5 * second;
  next = 1;
  client = record client { logged = other (io_error 1) ∷ [] };
  clock = 100;
  set_at = 100 ∷ [];
  visited = 0 ∷ [];
}

first_tried : loop (moment ∷ []) (begin_loop 100 client) ≡ going tried
unfolding loop loop_round begin_loop open_input
first_tried = refl

unparsed_url_panics_example :
    loop ((moment ∷ []) ++ (moment ∷ [])) (begin_loop 100 client) ≡ crashed
unparsed_url_panics_example =
    unparsed_url_panics parse (λ t. none) (codes "tv") uris 5 1 10 [] 1500 7 client client_made 100
      (moment ∷ []) [] moment tried one_fewer waiting first_tried one_tried
  where
    waiting : client.wait ≢ 0
    waiting h = ground arith

upstream-Reaches_example :
    (c' : Client) × (e : IoError) × (xs : List Segment) × (rest : List ℕ)
    × (end : tape.reader.State) × (start 4 (network (opened tape)) upstream client
        ≡ returned c' (some (other e)))
    × Breaks tape.reader rest e end
    × (stray ≡ weave xs rest)
    × All IsSegment xs
    × (c'.sent ≡ inputs xs)
    × ((xs ≡ []) ⊎ Reaches acl_broker xs busy)
upstream-Reaches_example =
    upstream-Reaches acl_broker busy 4 (network (opened tape)) upstream client none tape
      (refl, refl, refl) tape_opens list_reader-IsProgressive (omega arith) (refl, (refl, tt))
      (refl, (refl, tt))
