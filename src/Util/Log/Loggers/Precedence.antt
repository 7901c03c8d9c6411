-- ===== src/Util/Log/Loggers/Precedence.antt =====
-- Which value a key of a line has after a module logger has processed it.
use restreamer.Prelude.{
  ◌≡◌, refl, ap, ◌∙◌, Bool, true, false, [], ◌∷◌, Option, none, some, Text, codes, text_eq,
  text_beq, lookup, assign, lookup-assign, arith, if◌then◌else◌, Bool-cases, inl, inr, text_beq_iff,
}
use restreamer.Util.Log.Keys.{Dict, Any, string, ModuleLogger, merge, process_line}

-- No key stands in a dictionary twice, as in any map of Go.
abbrev pub IsKeyed : Dict → Type 0
IsKeyed [] = Unit {0}
IsKeyed ((k, v) ∷ d) = (lookup k d ≡ none) × IsKeyed d

abbrev pub or_else : Option Any → Option Any → Option Any
or_else (some v) o = some v
or_else none o = o

pub lookup-merge :
    (k : Text) (line d : Dict)
    → IsKeyed line
    → lookup k (merge line d) ≡ or_else (lookup k line) (lookup k d)
unfolding merge lookup
lookup-merge k [] d h = refl
lookup-merge k ((j, v) ∷ line) d h =
    ground (arith, lookup-merge k line (assign j v d) h.1, lookup-assign j k v d, text_beq_iff j k)

assign-absent :
    (k j : Text) (v : Any) (d : Dict)
    → text_beq k j ≡ false
    → lookup j d ≡ none
    → lookup j (assign k v d) ≡ none
assign-absent k j v d other h = rw (lookup-assign k j v d) (rw other h)

pub IsKeyed-assign : (k : Text) (v : Any) (d : Dict) → IsKeyed d → IsKeyed (assign k v d)
unfolding assign
IsKeyed-assign k v [] h = (unfold lookup in refl, tt)
IsKeyed-assign k v ((j, w) ∷ d) h = elim (Bool-cases (text_beq j k)) [
  | inl same ↦ rw same h
  | inr other ↦ rw other (assign-absent k j v d (swapped j k other) h.0, IsKeyed-assign k v d h.1)
]
  where
    swapped : (j k : Text) → text_beq j k ≡ false → text_beq k j ≡ false
    swapped j k e = ground (arith, text_beq_iff j k, text_beq_iff k j)

pub IsKeyed-merge : (line d : Dict) → IsKeyed d → IsKeyed (merge line d)
unfolding merge
IsKeyed-merge [] d h = h
IsKeyed-merge ((k, v) ∷ line) d h = IsKeyed-merge line (assign k v d) (IsKeyed-assign k v d h)

pub process_line-IsKeyed :
    (logger : ModuleLogger) (now : Text) (line : Dict) → IsKeyed (process_line logger now line)
unfolding process_line
process_line-IsKeyed logger now line = IsKeyed-merge line _ (stamped logger.add_timestamp)
  where
    stamped :
        (b : Bool)
        → IsKeyed (
            if b
            then assign (codes "time") (string now) (merge logger.defaults [])
            else merge logger.defaults [])
    stamped true = IsKeyed-assign _ _ _ (IsKeyed-merge logger.defaults [] tt)
    stamped false = IsKeyed-merge logger.defaults [] tt

or_else-none : (o : Option Any) → or_else o none ≡ o
or_else-none none = refl
or_else-none (some v) = refl

-- For a line and defaults in which no key stands twice: a key has the value of the line, if the line
-- has the key; else the key "time" has the time, if one is to be added; and any other key has its
-- default, if there is one.
pub lookup-process_line :
    (logger : ModuleLogger) (now : Text) (line : Dict) (k : Text)
    → IsKeyed line
    → IsKeyed logger.defaults
    → lookup k (process_line logger now line)
      ≡ or_else (lookup k line) (
          if logger.add_timestamp
          then (if text_beq (codes "time") k then some (string now) else lookup k logger.defaults)
          else lookup k logger.defaults)
unfolding process_line
lookup-process_line logger now line k h h' =
    lookup-merge k line _ h ∙ ap (or_else (lookup k line)) (stamped logger.add_timestamp)
  where
    defaults : lookup k (merge logger.defaults []) ≡ lookup k logger.defaults
    defaults =
        lookup-merge k logger.defaults [] h'
        ∙ unfold lookup in or_else-none (lookup k logger.defaults)

    stamped :
        (b : Bool)
        → lookup k (
            if b
            then assign (codes "time") (string now) (merge logger.defaults [])
            else merge logger.defaults [])
          ≡ (if b
              then (if text_beq (codes "time") k
                  then some (string now)
                  else lookup k logger.defaults)
              else lookup k logger.defaults)
    stamped true =
        lookup-assign (codes "time") k (string now) (merge logger.defaults [])
        ∙ ap (λ (o : Option Any). if text_beq (codes "time") k then some (string now) else o)
            defaults
    stamped false = defaults
