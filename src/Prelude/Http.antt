-- ===== src/Prelude/Http.antt =====
-- What the program uses of net/http: the header of a request, and a response writer.
use Prim.Native.Nat.{ℕ}
use mathlib.Core.Path.{◌≡◌, refl, sym, ap, ◌∙◌}
use mathlib.Core.Logic.{inl, inr}
use mathlib.Core.Bool.{false}
use mathlib.Core.List.{List, [], ◌∷◌, ◌++◌}
use mathlib.Core.Option.{Option, none, some}
use restreamer.Prelude.Tests.{if◌then◌else◌, Bool-cases, beq_refl}
use restreamer.Prelude.Bytes.{Text, text_beq, text_beq_iff, text_eq}

abbrev pub Header : Type 0
Header = List (Text × Text)

-- The first value of a key, or the empty string.
abbrev pub get : Text → Header → Text
get k [] = []
get k ((j, v) ∷ h) = if text_beq j k then v else get k h

abbrev pub remove : Text → Header → Header
remove k [] = []
remove k ((j, v) ∷ h) = if text_beq j k then remove k h else (j, v) ∷ remove k h

-- A writer keeps the header, the status code once it is written, and the content.
pub record Response : Type 0 where
  pub header : Header
  pub status : Option ℕ
  pub body : Text

abbrev pub new_response : Response
new_response = record { header = []; status = none; body = [] }

abbrev pub add_header : Text → Text → Response → Response
add_header k v w = record w { header = w.header ++ ((k, v) ∷ []) }

abbrev pub set_header : Text → Text → Response → Response
set_header k v w = record w { header = remove k w.header ++ ((k, v) ∷ []) }

-- A second status code is ignored.
abbrev pub write_header : ℕ → Response → Response
write_header code w = record w { status = elim w.status [ none ↦ some code | some old ↦ some old ] }

-- The first content implies the status code 200.
abbrev pub write : Text → Response → Response
write bytes w = record w {
  status = elim w.status [ none ↦ some 200 | some old ↦ some old ];
  body = w.body ++ bytes;
}

pub get-append_ne :
    (j k v : Text) (h : Header) → text_beq k j ≡ false → get j (h ++ ((k, v) ∷ [])) ≡ get j h
get-append_ne j k v [] e = rw e refl
get-append_ne j k v ((i, u) ∷ h) e = elim (Bool-cases (text_beq i j)) [
  | inl f ↦ rw f refl
  | inr f ↦ rw f (get-append_ne j k v h e)
]

get-remove_append : (k v : Text) (h : Header) → get k (remove k h ++ ((k, v) ∷ [])) ≡ v
get-remove_append k v [] = rw (beq_refl k) refl
get-remove_append k v ((i, u) ∷ h) = elim (Bool-cases (text_beq i k)) [
  | inl f ↦ rw f (get-remove_append k v h)
  | inr f ↦ rw f (rw f (get-remove_append k v h))
]

get-remove_ne : (j k : Text) (h : Header) → text_beq k j ≡ false → get j (remove k h) ≡ get j h
get-remove_ne j k [] e = refl
get-remove_ne j k ((i, u) ∷ h) e = elim (Bool-cases (text_beq i k)) [
  | inl f ↦ rw f (
      get-remove_ne j k h e
      ∙ sym (rw (ap (λ (x : Text). text_beq x j) ((text_beq_iff i k).0 f) ∙ e) refl))
  | inr f ↦ rw f (elim (Bool-cases (text_beq i j)) [
    | inl g ↦ rw g refl
    | inr g ↦ rw g (get-remove_ne j k h e)
  ])
]

-- A header that was set is read back, and the others are as before.
pub get-set_header_self : (k v : Text) (w : Response) → get k (set_header k v w).header ≡ v
get-set_header_self k v w = get-remove_append k v w.header

pub get-set_header_ne :
    (j k v : Text) (w : Response)
    → text_beq k j ≡ false
    → get j (set_header k v w).header ≡ get j w.header
get-set_header_ne j k v w e =
    get-append_ne j k v (remove k w.header) e ∙ get-remove_ne j k w.header e
