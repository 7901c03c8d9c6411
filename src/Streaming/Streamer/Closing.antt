-- ===== src/Streaming/Streamer/Closing.antt =====
-- Closing the queues of a pool: when it succeeds, and what is closed then.
use restreamer.Prelude.{
  ℕ, ◌≡◌, refl, sym, ap, ◌∙◌, inl, inr, ◌⊎◌, true, false, List, [], ◌∷◌, arith, Bool-cases, All,
  nat_eq, if◌then◌else◌,
}
use mathlib.Core.Path.{subst}
use restreamer.Prelude.Channel.{Outcome, ok, panic}
use restreamer.Streaming.Connection.{Packet, Connection}
use restreamer.Streaming.Streamer.{distribute, close_all}
use restreamer.Streaming.Streamer.Heap.{Conns, update, update_ne}
use restreamer.Streaming.Streamer.Distribute.{member, member-cons, IsDistinct, IsOpen, pool-cons}

abbrev pub IsClosed : Conns → ℕ → Type 0
IsClosed conns c = (conns c).queue.is_closed ≡ true

abbrev pub shut : Connection → Connection
shut conn = record conn { queue = record (conn.queue) { is_closed = true } }

pub close_all-cons :
    (c : ℕ) (cs : List ℕ) (conns : Conns)
    → IsOpen conns c
    → close_all (c ∷ cs) conns ≡ close_all cs (update conns c (shut (conns c)))
unfolding close_all
close_all-cons c cs conns o = rw o

pub close_all_closed :
    (c : ℕ) (cs : List ℕ) (conns : Conns) → IsClosed conns c → close_all (c ∷ cs) conns ≡ panic
unfolding close_all
close_all_closed c cs conns o = rw o

pub distribute_closed :
    (p : Packet) (c : ℕ) (cs : List ℕ) (conns : Conns)
    → IsClosed conns c
    → distribute p (c ∷ cs) conns ≡ panic
unfolding distribute
distribute_closed p c cs conns o = rw o

ok_or {ℓ} : {A : Type ℓ} → A → Outcome A → A
ok_or a (ok b) = b
ok_or a panic = a

pub ok-injective {ℓ} : {A : Type ℓ} {a b : A} → ok a ≡ ok b → a ≡ b
unfolding ok_or
ok-injective {a = a} e = ap (ok_or a) e

pub panic-ne-ok {ℓ} : {A : Type ℓ} {a : A} → panic ≡ ok a → ⊥
panic-ne-ok e = cc

-- Closing the queues of a pool keeps a closed queue closed.
close_all_keeps :
    (pool : List ℕ) (conns conns' : Conns) (c : ℕ)
    → close_all pool conns ≡ ok conns'
    → IsClosed conns c
    → IsClosed conns' c
unfolding close_all
close_all_keeps [] conns conns' c e h =
    subst (λ k. IsClosed k c) (ok-injective {a = conns} {b = conns'} e) h
close_all_keeps (d ∷ ds) conns conns' c e h = elim (Bool-cases (conns d).queue.is_closed) [
  | inl closed ↦ absurd (panic-ne-ok (sym (close_all_closed d ds conns closed) ∙ e))
  | inr o ↦
      close_all_keeps ds (update conns d (shut (conns d))) conns' c
        (sym (close_all-cons d ds conns o) ∙ e) (ground arith)
]

-- What closing the queues of a pool comes to: a panic, or every one of them is closed.
pub close_all_head :
    (c : ℕ) (cs : List ℕ) (conns conns' : Conns)
    → close_all (c ∷ cs) conns ≡ ok conns'
    → IsClosed conns' c
close_all_head c cs conns conns' e = elim (Bool-cases (conns c).queue.is_closed) [
  | inl closed ↦ absurd (panic-ne-ok (sym (close_all_closed c cs conns closed) ∙ e))
  | inr o ↦
      close_all_keeps cs (update conns c (shut (conns c))) conns' c
        (sym (close_all-cons c cs conns o) ∙ e) (ground arith)
]

update-IsOpen_ne :
    (conns : Conns) (c : ℕ) (conn : Connection) (pool : List ℕ)
    → member c pool ≡ false
    → All (IsOpen conns) pool
    → All (IsOpen (update conns c conn)) pool
update-IsOpen_ne conns c conn [] new all = tt
update-IsOpen_ne conns c conn (d ∷ ds) new all =
    let (other, rest) = member-cons c d ds new in
    (
      ap (λ (k : Connection). k.queue.is_closed) (update_ne conns c d conn (λ e. other (sym e)))
          ∙ all.0,
      update-IsOpen_ne conns c conn ds rest all.1,
    )

-- With distinct connections and open queues it succeeds, and closes those of the pool alone.
pub close_all_lem :
    (pool : List ℕ) (conns : Conns)
    → IsDistinct pool
    → All (IsOpen conns) pool
    → (conns' : Conns) × (close_all pool conns ≡ ok conns')
      × ((c : ℕ) → conns' c ≡ (if member c pool then shut (conns c) else conns c))
close_all_lem [] conns distinct all = (conns, unfold close_all in refl, λ c. refl)
close_all_lem (c ∷ cs) conns distinct all =
    let conns_c = update conns c (shut (conns c)) in
    let (conns', e, at) =
      close_all_lem cs conns_c distinct.1
        (update-IsOpen_ne conns c (shut (conns c)) cs distinct.0 all.1) in
    (conns', close_all-cons c cs conns all.0 ∙ e, pool-cons shut c cs conns conns' distinct.0 at)

pub Outcome-cases {ℓ} : {A : Type ℓ} (o : Outcome A) → (o ≡ panic) ⊎ ((a : A) × (o ≡ ok a))
Outcome-cases panic = inl refl
Outcome-cases (ok a) = inr (a, refl)
