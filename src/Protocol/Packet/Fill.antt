-- ===== src/Protocol/Packet/Fill.antt =====
-- The reading loop: how many rounds it takes, and what it leaves in the buffer.
use mathlib.Core.List.{append-nil, append_assoc}
use restreamer.Prelude.{
  ℕ, zero, suc, ◌-◌, ◌≤◌, ◌<◌, ◌≡◌, refl, sym, ◌∙◌, ap, inl, inr, List, [], ◌++◌, none, some, true,
  ltb, length, length-append, arith, Bool-cases, Option-cases,
}
use restreamer.Protocol.Reader.{Reader, IoError, IsProgressive}
use restreamer.Protocol.Packet.{Filled, full, broken, out_of_fuel, fill, mpeg_ts_packet_size}

-- A call of the reader, with room for a byte at least, returned this error and state.
pub record FailsAt (r : Reader) (t : r.State) (e : IoError) (s' : r.State) : Type 0 where
  pub room : ℕ
  pub has_room : 0 < room
  pub leads : (r.read t room).0 ≡ s'
  pub fails : (r.read t room).1.err ≡ some e

-- The buffer is extended by the next bytes of the stream to a full one; or, with the buffer not full
-- yet, a call of the reader fails. The loop does not run out of fuel.
abbrev pub Fills : (r : Reader) → List ℕ → r.State → Filled r.State → Type 0
Fills r buf s (full p s') =
    (more : List ℕ) × (p ≡ buf ++ more)
    × (r.content s ≡ more ++ r.content s')
    × (length p ≡ mpeg_ts_packet_size)
Fills r buf s (broken e s') =
    (more : List ℕ) × (t : r.State) × (r.content s ≡ more ++ r.content t)
    × (length (buf ++ more) < mpeg_ts_packet_size)
    × FailsAt r t e s'
Fills r buf s out_of_fuel = ⊥

Fills-step :
    (r : Reader) (buf bs : List ℕ) (s s' : r.State) (f : Filled r.State)
    → r.content s ≡ bs ++ r.content s'
    → Fills r (buf ++ bs) s' f
    → Fills r buf s f
Fills-step r buf bs s s' (full p t) e (more, is_p, consumed, size) = (
  bs ++ more,
  is_p ∙ append_assoc buf bs more,
  e ∙ ap (◌++◌ bs) consumed ∙ sym (append_assoc bs more (r.content t)),
  size,
)
Fills-step r buf bs s s' (broken x t) e (more, u, consumed, few, at) = (
  bs ++ more,
  u,
  e ∙ ap (◌++◌ bs) consumed ∙ sym (append_assoc bs more (r.content u)),
  rw (sym (append_assoc buf bs more)) few,
  at,
)
Fills-step r buf bs s s' out_of_fuel e h = elim h [ ]

pub fill-Fills :
    (r : Reader) (progress : IsProgressive r) (fuel : ℕ) (buf : List ℕ) (s : r.State)
    → length buf ≤ mpeg_ts_packet_size
    → mpeg_ts_packet_size - length buf < fuel
    → Fills r buf s (fill r fuel buf s)
unfolding fill
fill-Fills r progress zero buf s h enough = absurd (omega arith)
fill-Fills r progress (suc fuel) buf s h enough =
    elim (Bool-cases (ltb (length buf) mpeg_ts_packet_size)) [
      | inr done ↦ rw done ([], sym (append-nil buf), refl, ground arith)
      | inl more ↦ rw more (elim (Option-cases (r.read s room).1.err) [
        | inl good ↦ rw good (
            Fills-step r buf bytes s s' _ (r.read_content s room) (
              fill-Fills r progress fuel (buf ++ bytes) s'
                (omega (arith, length-append buf bytes, bounded, shorter more))
                (omega (arith, length-append buf bytes, bounded, shorter more, grows good more))))
        | inr (e, bad) ↦ rw bad (
          [],
          s,
          refl,
          rw (append-nil buf) (shorter more),
          record { room = room; has_room = omega (arith, shorter more); leads = refl; fails = bad },
        )
      ])
    ]
  where
    room : ℕ
    room = mpeg_ts_packet_size - length buf

    bytes : List ℕ
    bytes = (r.read s room).1.bytes

    s' : r.State
    s' = (r.read s room).0

    shorter : ltb (length buf) mpeg_ts_packet_size ≡ true → length buf < mpeg_ts_packet_size
    shorter t = ground arith

    bounded : length bytes ≤ room
    bounded = r.read_bounded s room

    grows :
        (r.read s room).1.err ≡ none
        → ltb (length buf) mpeg_ts_packet_size ≡ true
        → 0 < length bytes
    grows g t = progress s room (omega (arith, shorter t)) g
