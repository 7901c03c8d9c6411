-- ===== src/Streaming/Client/Start.antt =====
-- What an attempt to connect does to the client, on every branch.
use mathlib.Core.Path.{subst}
use restreamer.Prelude.{
  ℕ, ◌+◌, ◌*◌, ◌<◌, ◌≡◌, refl, sym, ap, ◌∙◌, false, true, List, [], ◌++◌, Option, none, some,
  length, All,
}
use restreamer.Protocol.Reader.{IsProgressive, IoError}
use restreamer.Streaming.Streamer.{Input}
use restreamer.Streaming.Client.Pull.{SourceReport, Pull, pull}
use restreamer.Streaming.Client.Ending.{Ended, pull_ends}
use restreamer.Streaming.Client.Sources.{
  ClientError, other, already_connected, Source, Network, Url,
}
use restreamer.Streaming.Client.{status_code, connected}
use restreamer.Streaming.Client.{
  Client, Connected, ready, failed, Started, returned, pulling, open_input, close, log_error,
  clean_up, pulled, reason, after_pull, stream_from, start,
}
use restreamer.Streaming.Client.Stopping.{Stopped, pull-Stopped}
use restreamer.Protocol.Packet.Framing.{Breaks}
use restreamer.Streaming.Client.Segments.{Segment, IsSegment, weave, sent, reported}

-- No connection, and nothing left of one.
abbrev pub IsIdle : Client → Type 1
IsIdle c = (c.input ≡ none) × (c.response ≡ none) × (c.running ≡ false)

-- What an attempt never changes.
abbrev pub Configured : Client → Client → Type 0
Configured c c' = (c'.urls ≡ c.urls) × (c'.wait ≡ c.wait)

-- The attempt is over: the client is as idle as before and its configuration the same, and there is
-- an error to log.
abbrev pub Settles : Client → Started → Type 1
Settles c pulling = Unit
Settles c (returned c' err) =
    IsIdle c'
    × (status_code c' ≡ 0)
    × (connected c' ≡ false)
    × Configured c c'
    × ((e : ClientError) × (err ≡ some e))

-- What the status interfaces say of a client without a connection.
IsIdle-status : (c : Client) → IsIdle c → (status_code c ≡ 0) × (connected c ≡ false)
unfolding status_code connected
IsIdle-status c (input, response, running) = (rw (status_code, response, input) refl, running)

log_error-rest :
    (e : Option ClientError) (c : Client)
    → ((log_error e c).urls ≡ c.urls)
      × ((log_error e c).wait ≡ c.wait)
      × ((log_error e c).running ≡ c.running)
log_error-rest none c = (refl, refl, refl)
log_error-rest (some e) c = (refl, refl, refl)

log_error-calls :
    (e : Option ClientError) (c : Client)
    → ((log_error e c).running ≡ c.running)
      × ((log_error e c).sent ≡ c.sent)
      × ((log_error e c).reports ≡ c.reports)
log_error-calls none c = (refl, refl, refl)
log_error-calls (some e) c = (refl, refl, refl)

stream_from-Settles :
    (fuel : ℕ) (net : Network) (i : Source) (status : Option ℕ) (c : Client)
    → IsIdle c
    → Settles c (stream_from fuel net i status c)
unfolding stream_from clean_up status_code connected
stream_from-Settles fuel net i status c idle =
    settle_pull (pull i.reader fuel _) (pull-Stopped i.reader fuel _ refl)
  where
    settle_pull :
        (o : Option (Pull i.reader)) → Stopped i.reader o → Settles c (after_pull net i status c o)
    settle_pull none h = tt
    settle_pull (some t) (down, (e, err)) =
        let c' : Client = pulled i status c t in
        let (urls, wait, running) = log_error-rest (close net c') c' in
        ((refl, refl, running ∙ down), refl, running ∙ down, (urls, wait), (other e, ap reason err))

pub start_idle :
    (fuel : ℕ) (net : Network) (u : Url) (c : Client)
    → c.input ≡ none
    → start fuel net u c ≡ elim (open_input net u c) [
      | failed e ↦ returned c (some e)
      | ready status i ↦ stream_from fuel net i status c
    ]
unfolding start
start_idle fuel net u c e =
    ap
      (λ (x : Option Source). elim x [
        | some i ↦ returned c (some already_connected)
        | none ↦ elim (open_input net u c) [
          | failed e ↦ returned c (some e)
          | ready status i ↦ stream_from fuel net i status c
        ]
      ])
      e

connect-Settles :
    (fuel : ℕ) (net : Network) (o : Connected) (c : Client)
    → IsIdle c
    → Settles c (elim o [
      | failed e ↦ returned c (some e)
      | ready status i ↦ stream_from fuel net i status c
    ])
connect-Settles fuel net (failed e) c idle =
    let (code, down) = IsIdle-status c idle in (idle, code, down, (refl, refl), (e, refl))
connect-Settles fuel net (ready status i) c idle = stream_from-Settles fuel net i status c idle

-- For every client without a connection, every URL and every behaviour of the network: if an
-- attempt to connect is over, then with an error, and the client has no input, no response and is
-- not running, its status code is 0 and it is not connected, and its URLs and its waiting time are
-- unchanged.
pub start-Settles :
    (fuel : ℕ) (net : Network) (u : Url) (c : Client) → IsIdle c → Settles c (start fuel net u c)
unfolding start
start-Settles fuel net u c idle =
    subst (Settles c) (sym (start_idle fuel net u c idle.0))
      (connect-Settles fuel net (open_input net u c) c idle)

-- The list of a queue that was made, or nothing.
abbrev pub inputs : List Segment → List Input
inputs xs = elim (sent xs) [ none ↦ [] | some q ↦ q ]

-- The attempt is over; the streamer and the collector were given what the source carries.
abbrev pub Streams : Client → Source → Started → Type 1
Streams c i o =
    (c' : Client) × (e : IoError) × (xs : List Segment) × (rest : List ℕ) × (end : i.reader.State)
    × (o ≡ returned c' (some (other e)))
    × Breaks i.reader rest e end
    × IsIdle c'
    × (i.reader.content i.state ≡ weave xs rest)
    × All IsSegment xs
    × (c'.sent ≡ c.sent ++ inputs xs)
    × (c'.reports ≡ c.reports ++ reported xs)

after_pull-Streams :
    (net : Network) (i : Source) (status : Option ℕ) (c : Client) (s : Pull i.reader)
    → s.input ≡ i.state
    → s.reports ≡ c.reports
    → (o : Option (Pull i.reader)) → Ended i.reader s o
    → Streams c i (after_pull net i status c o)
unfolding clean_up
after_pull-Streams net i status c s at told none h = elim h [ ]
after_pull-Streams net i status c s at told (some t)
      (xs, rest, read, all, queued, reports, down, (e, err, breaks)) =
    let c' : Client = pulled i status c t in
    let (running, sent', reports') = log_error-calls (close net c') c' in
    (
      record (log_error (close net c') c') { input = none; response = none },
      e,
      xs,
      rest,
      t.input,
      ap (returned (clean_up net c')) (ap reason err),
      breaks,
      (refl, refl, running ∙ down),
      ap i.reader.content (sym at) ∙ read,
      all,
      sent' ∙ ap (λ (q : Option (List Input)). c.sent ++ elim q [ none ↦ [] | some l ↦ l ]) queued,
      reports' ∙ reports ∙ ap (λ (l : List SourceReport). l ++ reported xs) told,
    )

-- For a client without a connection, and a network that opens a source for the URL whose reader
-- stores a byte or errs at each call: with a fuel that is more than one above a 188th of the bytes
-- that the source still has, the attempt is over. It fails with the error of a call of the source's
-- reader that failed, and the client is without a connection again. The bytes of the source in front
-- of this call are packets, each 188 bytes from a sync byte on, with no sync byte skipped in front of
-- any; behind the last one are some with no sync byte and then fewer than 188. The streamer is sent
-- these packets in order and then the end of the queue, and the collector is told of the connection,
-- of each packet and of the disconnection; without a packet, neither hears of it.
pub start-Streams :
    (fuel : ℕ) (net : Network) (u : Url) (c : Client) (status : Option ℕ) (i : Source)
    → IsIdle c
    → open_input net u c ≡ ready status i
    → IsProgressive i.reader
    → length (i.reader.content i.state) + 188 < 188 * fuel
    → Streams c i (start fuel net u c)
unfolding stream_from
start-Streams fuel net u c status i idle opens progress enough =
    subst (Streams c i)
      (sym (
        start_idle fuel net u c idle.0
        ∙ ap
            (λ (o : Connected). elim o [
              | failed e ↦ returned c (some e)
              | ready status i ↦ stream_from fuel net i status c
            ])
            opens))
      (after_pull-Streams net i status c begun refl refl _
        (pull_ends i.reader progress fuel begun refl refl enough))
  where
    begun : Pull i.reader
    begun = record {
      input = i.state;
      running = true;
      queue = none;
      reports = c.reports;
      err = none;
    }
