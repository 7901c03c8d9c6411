-- ===== src/Streaming/Service/Served.antt =====
-- What a client has got after the begin of Serve and after each of its rounds.
use mathlib.Core.List.{append_assoc, append-nil}
use mathlib.Core.Path.{subst}
use restreamer.Prelude.{
  ℕ, ◌≡◌, inl, inr, refl, sym, ap, ◌∙◌, Bool, true, false, List, [], ◌∷◌, ◌++◌, arith, Text,
  if◌then◌else◌, Bool-cases, is_set,
}
use restreamer.Streaming.Connection.{Packet, Connection, Ready, serve_round, serve_start}
use restreamer.Streaming.Connection.Order.{
  concat, concat-snoc, Round, waits, leaves, ends, delivers, fails, serve_round-Round,
}
use restreamer.Streaming.Streamer.Closing.{shut}
use restreamer.Streaming.Service.{serving, leaving}
use restreamer.Streaming.Service.Phases.{consistent}
use restreamer.Streaming.Service.Portions.{IsWhole, IsWhole-IsPart, nothing-IsWhole}
use restreamer.Streaming.Service.Feed.{Serves, Serves-Left, Fed}

unset_empty : (t : Text) → is_set t ≡ false → t ≡ []
unset_empty [] e = refl
unset_empty (c ∷ t) e = cc

module _ (qsize : ℕ) (preamble : Text) where
  closed_queue :
      (running in_pool is_closed flag : Bool)
      → consistent running in_pool serving is_closed flag ≡ true
      → is_closed ≡ true
      → running ≡ false
  closed_queue running in_pool is_closed flag h e = ground arith

  -- A round of Serve, in any of its ways.
  Fed-Round :
      (ps : List Packet) (running in_pool : Bool) (conn : Connection) {conn' : Connection}
      {goes_on : Bool}
      → Round conn conn' goes_on
      → consistent running in_pool serving conn.queue.is_closed conn.closed ≡ true
      → Serves qsize preamble ps conn
      → Fed qsize preamble ps running (if goes_on then serving else leaving) conn'
  Fed-Round ps running m conn waits h s = s
  Fed-Round ps running m conn leaves h s = Serves-Left qsize preamble ps running conn s
  Fed-Round ps running m conn (ends empty shut) h s = record {
    sent = s.sent;
    content = inl s.content;
    part = IsWhole-IsPart qsize ps s.sent conn.queue.items s.whole;
    complete = λ e. (
      closed_queue running m conn.queue.is_closed conn.closed h shut,
      subst (IsWhole qsize ps) (ap (λ (l : List Packet). s.sent ++ l) empty ∙ append-nil s.sent)
          s.whole,
    );
  }
  Fed-Round ps running m conn (delivers p rest e) h s = record {
    sent = s.sent ++ (p ∷ []);
    content =
        ap (λ (t : Text). t ++ p) s.content
        ∙ append_assoc preamble (concat s.sent) p
        ∙ ap (λ (t : Text). preamble ++ t) (sym (concat-snoc s.sent p));
    capacity = s.capacity;
    unflagged = s.unflagged;
    whole =
        subst (IsWhole qsize ps)
          (ap (λ (l : List Packet). s.sent ++ l) e ∙ sym (append_assoc s.sent (p ∷ []) rest))
          s.whole;
  }
  Fed-Round ps running m conn (fails p rest e) h s = record {
    sent = s.sent;
    content = inl s.content;
    part = IsWhole-IsPart qsize ps s.sent conn.queue.items s.whole;
    complete = λ e. cc (s.unflagged);
  }

  pub Fed-round :
      (ps : List Packet) (running in_pool : Bool) (r : Ready) (conn : Connection)
      → consistent running in_pool serving conn.queue.is_closed conn.closed ≡ true
      → Serves qsize preamble ps conn
      → Fed qsize preamble ps running
          (if (serve_round r conn).1 then serving else leaving)
          (serve_round r conn).0
  Fed-round ps running m r conn = Fed-Round ps running m conn (serve_round-Round r conn)

  -- A client is let in: the header and the preamble.
  pub Fed-start :
      (now : Text) (written running : Bool) (ps : List Packet) (conn : Connection)
      → ps ≡ []
      → conn.writer.body ≡ []
      → conn.queue.items ≡ []
      → conn.queue.capacity ≡ qsize
      → conn.closed ≡ false
      → let (conn', goes_on) = serve_start now preamble written conn in
        Fed qsize preamble ps running (if goes_on then serving else leaving) conn'
  unfolding serve_start concat
  Fed-start now written running ps conn none_yet empty none_waits room flag =
      elim (Bool-cases (is_set preamble)) [
        | inl some_preamble ↦ elim (Bool-cases written) [
          | inl done ↦
              rw (some_preamble, done)
                (record {
                  sent = [];
                  content = ap (λ (t : Text). t ++ preamble) empty ∙ sym (append-nil preamble);
                  capacity = room;
                  unflagged = flag;
                  whole = rw none_waits (nothing-IsWhole qsize ps none_yet);
                })
          | inr failed ↦
              rw (some_preamble, failed)
                (record {
                  sent = [];
                  content = inr (empty, refl);
                  part = IsWhole-IsPart qsize ps [] [] (nothing-IsWhole qsize ps none_yet);
                  complete = λ e. cc flag;
                })
        ]
        | inr no_preamble ↦ rw no_preamble (record {
          sent = [];
          content = empty ∙ sym (ap (λ (t : Text). t ++ []) (unset_empty preamble no_preamble));
          capacity = room;
          unflagged = flag;
          whole = rw none_waits (nothing-IsWhole qsize ps none_yet);
        })
      ]
