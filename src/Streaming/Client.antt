-- ===== src/Streaming/Client.antt =====
-- streaming/client.go: the upstream client and an attempt of it to connect.
pub mod Sources
pub mod Pull
pub mod Segments
pub mod Rounds
pub mod Ending
pub mod Stopping
pub mod Start
pub mod Loop
pub mod Regular
pub mod Attempts
pub mod Urls
use restreamer.Prelude.{
  ℕ, zero, suc, ◌+◌, ◌*◌, ◌-◌, ◌%◌, Bool, true, false, not, ◌||◌, List, [], ◌∷◌, ◌++◌, Option, none,
  some, Text, codes, text_beq, is_set, ltb, ◌==◌, length, get_elem?, if◌then◌else◌,
}
use restreamer.Protocol.Reader.{Reader, IoError}
use restreamer.Protocol.FixedReader.Stream.{fixed_reader}
use restreamer.Streaming.Streamer.{Input}
use Pull.{SourceReport, pull}
use Sources.{
  Url, ClientError, invalid_protocol, no_connection, already_connected, no_url, other, Source,
  Opened, opened, refused, Answered, answered, unanswered, Resolved, resolved, unresolved, Network,
}

-- `interf` is the interface's name, if there is such an interface; a URL of the list may be nil.
-- `reports`, `sent` and `logged` hold the calls of the collector, what the streamer was sent, and the
-- errors that were logged, so far.
pub record Client : Type 1 where
  pub name : Text
  pub urls : List (Option Url)
  pub response : Option ℕ
  pub input : Option Source
  pub wait : ℕ
  pub read_timeout : ℕ
  pub running : Bool
  pub queue_size : ℕ
  pub interf : Option Text
  pub read_buffer_size : ℕ
  pub packet_size : ℕ
  pub reports : List SourceReport
  pub sent : List Input
  pub logged : List ClientError

-- The URLs that can be parsed.
unfoldable pub parse_all : (Text → Option Url) → List Text → List Url
parse_all parse [] = []
parse_all parse (t ∷ ts) = elim (parse t) [
  | none ↦ parse_all parse ts
  | some u ↦ u ∷ parse_all parse ts
]

-- `urls := make([]*url.URL, len(uris))`, of which the first `count` are then set.
abbrev pub fill_urls : List Text → List Url → List (Option Url)
fill_urls [] us = []
fill_urls (t ∷ ts) [] = none ∷ fill_urls ts []
fill_urls (t ∷ ts) (u ∷ us) = some u ∷ fill_urls ts us

-- One second as a time.Duration.
abbrev pub second : ℕ
second = 1000000000

-- The client as it is constructed; a uint is a number here.
abbrev pub unconnected : Text → List (Option Url) → Option Text → ℕ → ℕ → ℕ → ℕ → ℕ → Client
unconnected name urls interf reconnect readtimeout qsize buffer_size packet_size = record {
  name = name;
  urls = urls;
  response = none;
  input = none;
  wait = reconnect * second;
  read_timeout = readtimeout * second;
  running = false;
  queue_size = qsize;
  interf = interf;
  read_buffer_size = buffer_size * 188;
  packet_size = packet_size;
  reports = [];
  sent = [];
  logged = [];
}

-- none is ErrNoUrl.
unfoldable pub new_client :
    (Text → Option Url)
    → (Text → Option Text)
    → Text
    → List Text
    → ℕ
    → ℕ
    → ℕ
    → Text
    → ℕ
    → ℕ
    → Option Client
new_client parse interface_by_name name uris reconnect readtimeout qsize intf buffer_size
      packet_size =
    let parsed = parse_all parse uris in
    if ltb (length parsed) 1
    then none
    else some (
        unconnected name (fill_urls uris parsed)
          (if is_set intf then interface_by_name intf else none) reconnect readtimeout qsize
          buffer_size packet_size)

-- none is a nil error.
unfoldable pub close : Network → Client → Option ClientError
close net c = elim c.input [
  | some i ↦ elim (net.close_input i) [ none ↦ none | some e ↦ some (other e) ]
  | none ↦ some no_connection
]

unfoldable pub status_code : Client → ℕ
status_code c = elim c.response [
  | some code ↦ code
  | none ↦ elim c.input [ some i ↦ 200 | none ↦ 0 ]
]

unfoldable pub connected : Client → Bool
connected c = c.running

-- strings.Split(arguments, " "), where `word` is what was read of the current one.
abbrev split_space : Text → Text → List Text
split_space word [] = word ∷ []
split_space word (c ∷ cs) =
    let rest = split_space [] cs in
    let more = split_space (word ++ (c ∷ [])) cs in if c == b' ' then word ∷ rest else more

-- The switch over the scheme, with the status code of a response: what it assigns, or the error it
-- returns.
pub data Connected : Type 1 where
  ready : Option ℕ → Source → Connected
  failed : ClientError → Connected

abbrev socket : Opened → Connected
socket (opened i) = ready none i
socket (refused e) = failed (other e)

abbrev response_body : Answered → Connected
response_body (answered status i) = ready (some status) i
response_body (unanswered e) = failed (other e)

-- A UDP socket is read through the buffered reader.
abbrev datagrams : ℕ → Opened → Connected
datagrams size (opened i) = ready none (record {
  reader = fixed_reader i.reader size;
  state = record { reader = i.state; buffer = [] };
})
datagrams size (refused e) = failed (other e)

abbrev listen_udp : (net : Network) → Client → Resolved net.Address → Connected
listen_udp net c (unresolved e) = failed (other e)
listen_udp net c (resolved a) =
    datagrams c.packet_size
      (if net.is_multicast a then net.listen_multicast c.interf a else net.listen a)

abbrev fork : Network → Text → Resolved Text → Connected
fork net command (unresolved e) = failed (other e)
fork net command (resolved arguments) = socket (net.run_command command (split_space [] arguments))

abbrev is_domain : Text → Bool
is_domain s =
    text_beq s (codes "unix") || (text_beq s (codes "unixgram") || text_beq s (codes "unixpacket"))

unfoldable pub open_input : Network → Url → Client → Connected
open_input net u c =
    if text_beq u.scheme (codes "file")
    then socket (net.open_file u.path)
    else if text_beq u.scheme (codes "http") || text_beq u.scheme (codes "https")
    then response_body (net.get_url u)
    else if text_beq u.scheme (codes "tcp")
    then socket (net.dial u.scheme u.host)
    else if is_domain u.scheme
    then socket (net.dial u.scheme u.path)
    else if text_beq u.scheme (codes "udp")
    then listen_udp net c (net.resolve u.host)
    else if text_beq u.scheme (codes "fork")
    then fork net u.hostname (net.unescape u.raw_query)
    else failed invalid_protocol

-- How `start` ends, with its error; the client may also pull for longer than its fuel.
pub data Started : Type 1 where
  returned : Client → Option ClientError → Started
  pulling : Started

abbrev pub log_error : Option ClientError → Client → Client
log_error none c = c
log_error (some e) c = record c { logged = c.logged ++ (e ∷ []) }

-- After the pull: Close, whose error is only logged, and the reset of the fields.
unfoldable pub clean_up : Network → Client → Client
unfolding close
clean_up net c = record (log_error (close net c) c) { input = none; response = none }

-- The client when the pull has returned.
abbrev pub pulled : (i : Source) → Option ℕ → Client → Pull.Pull i.reader → Client
pulled i status c t = record c {
  response = elim status [ none ↦ c.response | some code ↦ some code ];
  input = some (record { reader = i.reader; state = t.input });
  running = t.running;
  reports = t.reports;
  sent = c.sent ++ elim t.queue [ none ↦ [] | some q ↦ q ];
}

abbrev pub reason : Option IoError → Option ClientError
reason none = none
reason (some e) = some (other e)

abbrev pub after_pull :
    Network → (i : Source) → Option ℕ → Client → Option (Pull.Pull i.reader) → Started
after_pull net i status c none = pulling
after_pull net i status c (some t) = returned (clean_up net (pulled i status c t)) (reason t.err)

-- The part of `start` behind the switch.
unfoldable pub stream_from : ℕ → Network → Source → Option ℕ → Client → Started
stream_from fuel net i status c = after_pull net i status c (
    pull i.reader fuel
      (record { input = i.state; running = true; queue = none; reports = c.reports; err = none }))

unfoldable pub start : ℕ → Network → Url → Client → Started
unfolding open_input stream_from
start fuel net u c = elim c.input [
  | some i ↦ returned c (some already_connected)
  | none ↦ elim (open_input net u c) [
    | failed e ↦ returned c (some e)
    | ready status i ↦ stream_from fuel net i status c
  ]
]
