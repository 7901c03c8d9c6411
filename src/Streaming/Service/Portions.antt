-- ===== src/Streaming/Service/Portions.antt =====
-- Which packets of a stream a client has got: in order, and without a gap where no queue was full.
use mathlib.Core.List.Sublist
use mathlib.Core.List.{append_assoc, nil-sublist, Sublist, sublist-append_left}
use restreamer.Prelude.{ℕ, ◌≤◌, ◌≡◌, ap, ◌∙◌, List, [], ◌∷◌, ◌++◌, length, length-append, arith}
use restreamer.Streaming.Connection.{Packet}

-- The packets `xs` stand in `ps` in this order. If a queue of the given size has room for all of
-- `ps`, they are its beginning.
pub record IsPart (qsize : ℕ) (ps xs : List Packet) : Type 0 where
  pub in_order : Sublist xs ps
  pub gapless : length ps ≤ qsize → (later : List Packet) × (ps ≡ xs ++ later)

-- The same, and they are all of it.
pub record IsWhole (qsize : ℕ) (ps xs : List Packet) : Type 0 where
  pub in_order : Sublist xs ps
  pub gapless : length ps ≤ qsize → ps ≡ xs

module _ (qsize : ℕ) (ps : List Packet) where
  pub nothing-IsWhole : ps ≡ [] → IsWhole qsize ps []
  nothing-IsWhole e = record { in_order = nil-sublist ps; gapless = λ h. e }

  -- What is taken from the front.
  pub IsWhole-IsPart : (xs ys : List Packet) → IsWhole qsize ps (xs ++ ys) → IsPart qsize ps xs
  IsWhole-IsPart xs ys t = record {
    in_order = Sublist.trans (sublist-append_left xs ys) t.in_order;
    gapless = λ h. (ys, t.gapless h);
  }

  -- One more packet, which a part does not have.
  pub IsPart-more :
      (p : Packet) (xs : List Packet) → IsPart qsize ps xs → IsPart qsize (ps ++ (p ∷ [])) xs
  IsPart-more p xs part = record {
    in_order = Sublist.trans part.in_order (sublist-append_left ps (p ∷ []));
    gapless = λ h.
        let (later, e) = part.gapless (omega (arith, length-append ps (p ∷ []))) in
        (
          later ++ (p ∷ []),
          ap (λ (l : List Packet). l ++ (p ∷ [])) e ∙ append_assoc xs later (p ∷ []),
        );
  }

  -- One more packet, which the client gets.
  pub IsWhole-got :
      (p : Packet) (xs : List Packet)
      → IsWhole qsize ps xs
      → IsWhole qsize (ps ++ (p ∷ [])) (xs ++ (p ∷ []))
  IsWhole-got p xs t = record {
    in_order = Sublist.append t.in_order (Sublist.refl (p ∷ []));
    gapless = λ h.
        ap (λ (l : List Packet). l ++ (p ∷ []))
          (t.gapless (omega (arith, length-append ps (p ∷ []))));
  }

  -- One more packet, which the client misses, since as many packets are waiting as there is room for.
  pub IsWhole-missed :
      (p : Packet) (xs waiting : List Packet)
      → qsize ≤ length waiting
      → IsWhole qsize ps (xs ++ waiting)
      → IsWhole qsize (ps ++ (p ∷ [])) (xs ++ waiting)
  IsWhole-missed p xs waiting full t = record {
    in_order = Sublist.trans t.in_order (sublist-append_left ps (p ∷ []));
    gapless = λ h.
        let e = t.gapless (omega (arith, length-append ps (p ∷ []))) in
        absurd (omega (arith, ap length e, length-append xs waiting, length-append ps (p ∷ [])));
  }
