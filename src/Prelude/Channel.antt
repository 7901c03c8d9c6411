-- ===== src/Prelude/Channel.antt =====
-- Go's buffered channels, as far as the program uses them. A channel of capacity 0 hands values
-- over only while a receiver waits; the model has none, and its non-blocking send fails.
use Prim.Native.Nat.{ℕ}
use mathlib.Core.Path.{◌≡◌, refl}
use mathlib.Core.Bool.{Bool, true, false}
use mathlib.Core.List.{List, [], ◌∷◌, ◌++◌}
use restreamer.Prelude.Tests.{ltb, if◌then◌else◌}
use restreamer.Prelude.Lists.{length}

pub record Channel (A : Type 0) : Type 0 where
  pub items : List A
  pub capacity : ℕ
  pub is_closed : Bool

abbrev pub new_channel : {A : Type 0} → ℕ → Channel A
new_channel capacity = record { items = []; capacity = capacity; is_closed = false }

-- A computation that may panic, as a send to a closed channel does.
pub data Outcome {ℓ} (A : Type ℓ) : Type ℓ where
  ok : A → Outcome A
  panic : Outcome A

infixl 5 ◌>>=◌
abbrev pub ◌>>=◌ {ℓ κ} : {A : Type ℓ} {B : Type κ} → Outcome A → (A → Outcome B) → Outcome B
ok a >>= f = f a
panic >>= f = panic

-- What holds of the result, if there is one.
abbrev pub OnOk {ℓ κ} : {A : Type ℓ} → (A → Type κ) → Outcome A → Type κ
OnOk P (ok a) = P a
OnOk P panic = Unit

pub OnOk-bind {ℓ κ μ ν} :
    {A : Type ℓ} {B : Type μ} (P : A → Type κ) (Q : B → Type ν) (o : Outcome A) (f : A → Outcome B)
    → OnOk P o
    → ((a : A) → P a → OnOk Q (f a))
    → OnOk Q (o >>= f)
OnOk-bind P Q (ok a) f p q = q a p
OnOk-bind P Q panic f p q = tt

pub OnOk-then {ℓ κ μ} :
    {A : Type ℓ} {B : Type μ} (Q : B → Type κ) (o : Outcome A) (f : A → Outcome B)
    → ((a : A) → OnOk Q (f a))
    → OnOk Q (o >>= f)
OnOk-then Q (ok a) f q = q a
OnOk-then Q panic f q = tt

pub OnOk-imp {ℓ κ μ} :
    {A : Type ℓ} {P : A → Type κ} {Q : A → Type μ} (o : Outcome A)
    → OnOk P o
    → ((a : A) → P a → Q a)
    → OnOk Q o
OnOk-imp (ok a) p f = f a p
OnOk-imp panic p f = tt

pub OnOk-both {ℓ κ μ} :
    {A : Type ℓ} (P : A → Type κ) (Q : A → Type μ) (o : Outcome A)
    → OnOk P o
    → OnOk Q o
    → OnOk (λ a. P a × Q a) o
OnOk-both P Q (ok a) p q = (p, q)
OnOk-both P Q panic p q = tt

pub OnOk-self {ℓ} : {A : Type ℓ} (o : Outcome A) → OnOk (λ a. o ≡ ok a) o
OnOk-self (ok a) = refl
OnOk-self panic = tt

-- `select { case channel <- a: ... default: ... }`: the result tells if the value was sent.
abbrev pub try_send : {A : Type 0} → A → Channel A → Outcome (Channel A × Bool)
try_send a channel =
    if channel.is_closed
    then panic
    else if ltb (length channel.items) channel.capacity
    then ok (record channel { items = channel.items ++ (a ∷ []) }, true)
    else ok (channel, false)

abbrev pub close : {A : Type 0} → Channel A → Outcome (Channel A)
close channel = if channel.is_closed then panic else ok (record channel { is_closed = true })

-- What a receiver finds: a value, the end of a closed channel, or nothing yet.
pub data Received (A : Type 0) : Type 0 where
  value : A → Channel A → Received A
  at_end : Received A
  blocks : Received A

abbrev pub receive : {A : Type 0} → Channel A → Received A
receive channel = elim channel.items [
  | [] ↦ if channel.is_closed then at_end else blocks
  | a ∷ rest ↦ value a (record channel { items = rest })
]
