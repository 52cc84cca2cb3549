-- ===== src/Http.antt =====
-- What the program uses of net/http's `Header`: names map to lists of values. The program writes
-- every name in one spelling, so names are compared as they are written.
use aegis_pulse.Base.{
  String, ◌≡◌, Option, none, some, List, [], ◌∷◌, ◌++◌, if◌then◌else◌, str_eq, eq_iff, arith, Dict,
  lookup, insert, lookup-insert, Text,
}

abbrev pub Header : Type 0
Header = Dict (List Text)

abbrev pub values_or_nil : Option (List Text) → List Text
values_or_nil none = []
values_or_nil (some vs) = vs

abbrev pub first_or_empty : List Text → Text
first_or_empty [] = []
first_or_empty (v ∷ vs) = v

abbrev pub values : String → Header → List Text
values k h = values_or_nil (lookup k h)

-- h.Get(k)
abbrev pub get : String → Header → Text
get k h = first_or_empty (values k h)

-- h.Set(k, v)
unfoldable pub set : String → Text → Header → Header
set k v h = insert k (v ∷ []) h

-- h.Add(k, v)
unfoldable pub add : String → Text → Header → Header
add k v h = insert k (values k h ++ v ∷ []) h

pub values-set :
    (k j : String) (v : Text) (h : Header)
    → values j (set k v h) ≡ (if str_eq k j then v ∷ [] else values j h)
unfolding set
values-set k j v h = rw (lookup-insert k j (v ∷ []) h) (ground arith)

pub values-add :
    (k j : String) (v : Text) (h : Header)
    → values j (add k v h) ≡ (if str_eq k j then values j h ++ v ∷ [] else values j h)
unfolding add
values-add k j v h = rw (lookup-insert k j (values k h ++ v ∷ []) h) (ground (arith, eq_iff k j))
