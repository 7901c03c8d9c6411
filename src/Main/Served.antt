-- ===== src/Main/Served.antt =====
-- What it means that a stream is served, and what new routes do to the others.
use mathlib.Core.Path.{subst}
use restreamer.Prelude.{
  All-imp, ℕ, zero, suc, ◌+◌, ◌≡◌, refl, sym, ap, ◌∙◌, inl, inr, Bool, Bool-cases, true, false,
  List, [], ◌∷◌, ◌++◌, Option, none, some, Text, text_eq, text_beq, text_beq_iff, is_set, Map,
  lookup, assign, lookup-assign, lookup-assign_self, length, length-append, get_elem?, All, arith,
  if◌then◌else◌,
}
use restreamer.Prelude.Channel.{Outcome, panic, OnOk}
use restreamer.Main.{
  Stream, Endpoint, stream, static, health, statistics, prometheus, check, control, Routes,
  insert_pattern, handle_pattern,
}

-- A stream was made, and is served under its name.
abbrev pub IsServed : Routes → Text → ℕ → Type 1
IsServed m name k =
    (s : Stream) × (get_elem? m.streams k ≡ some s)
    × (s.name ≡ name)
    × (lookup name m.mux ≡ some (stream k))

-- What an endpoint stands for is served.
abbrev pub Refers : Routes → Text × Endpoint → Type 1
Refers m (p, stream k) = IsServed m p k
Refers m (p, check k a) = (name : Text) × IsServed m name k
Refers m (p, control k a) = (name : Text) × IsServed m name k
Refers m (p, static x) = Unit
Refers m (p, health a) = Unit
Refers m (p, statistics a) = Unit
Refers m (p, prometheus a) = Unit

abbrev pub IsRouted : Routes → Type 1
IsRouted m =
    All (Refers m) m.mux
    × All (λ x. IsServed m x.0 x.1) m.clients
    × (m.connected ≡ length m.streams)

-- Nothing that was served is lost.
abbrev pub Grows : Routes → Routes → Type 1
Grows m m' =
    ((k : ℕ) (s : Stream) → get_elem? m.streams k ≡ some s → get_elem? m'.streams k ≡ some s)
    × ((n : Text) (e : Endpoint) → lookup n m.mux ≡ some e → lookup n m'.mux ≡ some e)

pub IsServed-Grows :
    (m m' : Routes) (n : Text) (k : ℕ) → Grows m m' → IsServed m n k → IsServed m' n k
IsServed-Grows m m' n k g (s, at, named, served) = (s, g.0 k s at, named, g.1 n (stream k) served)

pub Refers-Grows : (m m' : Routes) → Grows m m' → (x : Text × Endpoint) → Refers m x → Refers m' x
Refers-Grows m m' g (p, stream k) h = IsServed-Grows m m' p k g h
Refers-Grows m m' g (p, check k a) (n, h) = (n, IsServed-Grows m m' n k g h)
Refers-Grows m m' g (p, control k a) (n, h) = (n, IsServed-Grows m m' n k g h)
Refers-Grows m m' g (p, static x) h = tt
Refers-Grows m m' g (p, health a) h = tt
Refers-Grows m m' g (p, statistics a) h = tt
Refers-Grows m m' g (p, prometheus a) h = tt

not_both : {A : Type 0} (a : A) → ◌≡◌ {A = Option A} none (some a) → ⊥
not_both a h = cc

some_inj : {A : Type 0} (a b : A) → ◌≡◌ {A = Option A} (some a) (some b) → a ≡ b
some_inj a b h = cc

module _ {V : Type 0} (P : Text × V → Type 1) where
  pub All-assign : (k : Text) (v : V) (m : Map Text V) → P (k, v) → All P m → All P (assign k v m)
  unfolding assign
  All-assign k v [] p h = (p, tt)
  All-assign k v ((j, w) ∷ m) p h = elim (Bool-cases (text_beq j k)) [
    | inl e ↦ rw e (subst (λ (x : Text). P (x, v)) (sym ((text_beq_iff j k).0 e)) p, h.1)
    | inr e ↦ rw e (h.0, All-assign k v m p h.1)
  ]

  pub All-lookup : (k : Text) (v : V) (m : Map Text V) → All P m → lookup k m ≡ some v → P (k, v)
  unfolding lookup
  All-lookup k v [] h e = cc
  All-lookup k v ((j, w) ∷ m) h e = elim (Bool-cases (text_beq j k)) [
    | inl same ↦
        let value : w ≡ v =
          some_inj w v (sym (ap (λ (b : Bool). if b then some w else lookup k m) same) ∙ e) in
        subst (λ (x : Text). P (x, v)) ((text_beq_iff j k).0 same)
          (subst (λ (y : V). P (j, y)) value h.0)
    | inr other ↦
        All-lookup k v m h.1 (sym (ap (λ (b : Bool). if b then some w else lookup k m) other) ∙ e)
  ]

get_elem?-append {ℓ} :
    {A : Type ℓ} (xs ys : List A) (k : ℕ) (s : A)
    → get_elem? xs k ≡ some s
    → get_elem? (xs ++ ys) k ≡ some s
get_elem?-append [] ys k s e = cc
get_elem?-append (x ∷ xs) ys zero s e = e
get_elem?-append (x ∷ xs) ys (suc k) s e = get_elem?-append xs ys k s e

get_elem?-length {ℓ} :
    {A : Type ℓ} (xs : List A) (s : A) → get_elem? (xs ++ (s ∷ [])) (length xs) ≡ some s
get_elem?-length [] s = refl
get_elem?-length (x ∷ xs) s = get_elem?-length xs s

-- A new pattern hides no other.
lookup-assign_new :
    (p n : Text) (e f : Endpoint) (mux : Map Text Endpoint)
    → lookup p mux ≡ none
    → lookup n mux ≡ some f
    → lookup n (assign p e mux) ≡ some f
lookup-assign_new p n e f mux free at = elim (Bool-cases (text_beq p n)) [
  | inl same ↦
      absurd
        (not_both f (sym free ∙ ap (λ (x : Text). lookup x mux) ((text_beq_iff p n).0 same) ∙ at))
  | inr other ↦ rw (lookup-assign p n e mux, other) at
]

pub OnOk-if {κ} :
    (Q : Routes → Type κ) (x y : Outcome Routes) (b : Bool)
    → OnOk Q x
    → OnOk Q y
    → OnOk Q (if b then x else y)
OnOk-if Q x y true h k = h
OnOk-if Q x y false h k = k

-- A pattern that is new.
module _ (p : Text) (e : Endpoint) (m : Routes) (free : lookup p m.mux ≡ none) where
  abbrev pub with_pattern : Routes
  with_pattern = record m { mux = assign p e m.mux }

  pub with_pattern-Grows : Grows m with_pattern
  with_pattern-Grows = (λ k s h. h, λ n f h. lookup-assign_new p n e f m.mux free h)

  pub with_pattern-IsRouted : Refers with_pattern (p, e) → IsRouted m → IsRouted with_pattern
  with_pattern-IsRouted new (mux, clients, count) = (
    All-assign (Refers with_pattern) p e m.mux new
        (All-imp _ _ m.mux (Refers-Grows m with_pattern with_pattern-Grows) mux),
    All-imp _ _ m.clients (λ x h. IsServed-Grows m with_pattern x.0 x.1 with_pattern-Grows h)
        clients,
    count,
  )

-- What handling a pattern gives, if it does not panic.
pub handle_pattern-new :
    (Q : Routes → Type 1) (p : Text) (e : Endpoint) (m : Routes)
    → ((free : lookup p m.mux ≡ none) → Q (with_pattern p e m free))
    → OnOk Q (handle_pattern p e m)
unfolding handle_pattern
handle_pattern-new Q p e m f = insert (lookup p m.mux) refl
  where
    insert : (o : Option Endpoint) → lookup p m.mux ≡ o → OnOk Q (insert_pattern p e m o)
    insert (some old) taken = tt
    insert none free = OnOk-if Q _ panic (is_set p) (f free) tt

-- A stream that is new.
module _ (serve : Text) (s : Stream) (m : Routes) (free : lookup serve m.mux ≡ none) where
  abbrev pub with_stream : Routes
  with_stream = record m {
    clients = assign serve (length m.streams) m.clients;
    streams = m.streams ++ (s ∷ []);
    mux = assign serve (stream (length m.streams)) m.mux;
    connected = m.connected + 1;
  }

  pub with_stream-Grows : Grows m with_stream
  with_stream-Grows = (
    λ k t h. get_elem?-append m.streams (s ∷ []) k t h,
    λ n f h. lookup-assign_new serve n (stream (length m.streams)) f m.mux free h,
  )

  with_stream-IsServed : s.name ≡ serve → IsServed with_stream serve (length m.streams)
  with_stream-IsServed named = (
    s,
    get_elem?-length m.streams s,
    named,
    lookup-assign_self serve (stream (length m.streams)) m.mux,
  )

  pub with_stream-IsRouted : s.name ≡ serve → IsRouted m → IsRouted with_stream
  with_stream-IsRouted named (mux, clients, count) = (
    All-assign (Refers with_stream) serve (stream (length m.streams)) m.mux
        (with_stream-IsServed named)
        (All-imp _ _ m.mux (Refers-Grows m with_stream with_stream-Grows) mux),
    All-assign (λ x. IsServed with_stream x.0 x.1) serve (length m.streams) m.clients
        (with_stream-IsServed named)
        (All-imp _ _ m.clients (λ x h. IsServed-Grows m with_stream x.0 x.1 with_stream-Grows h)
          clients),
    omega (arith, count, length-append m.streams (s ∷ [])),
  )
