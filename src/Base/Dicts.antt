-- ===== src/Base/Dicts.antt =====
-- A Go `map[string]V` as an association list. The order of the entries stands for the order in
-- which a `range` over the map meets them, which Go leaves open.
use Prim.Native.String.{String}
use mathlib.Core.Path.{◌≡◌, refl}
use mathlib.Core.Option.{Option, none, some}
use mathlib.Core.List.{List, [], ◌∷◌}
use native.Mathlib.Omega.{arith}
use text.Mathlib.Text.{◌==◌ as str_eq}
use text.Mathlib.TextEquality.{eq_iff}
use text.Mathlib.TextPositions.{eq_refl}
use aegis_pulse.Base.Tests.{if◌then◌else◌}

abbrev pub Dict {ℓ} : Type ℓ → Type ℓ
Dict V = List (String × V)

module _ {ℓ} {V : Type ℓ} where
  -- m[k], if it is there
  unfoldable pub lookup : String → Dict V → Option V
  lookup key ((name, val) ∷ rest) = if str_eq name key then some val else lookup key rest
  lookup key [] = none

  -- delete(m, k)
  unfoldable pub erase : String → Dict V → Dict V
  erase key ((name, val) ∷ rest) =
      let kept = erase key rest in if str_eq name key then kept else (name, val) ∷ kept
  erase key [] = []

  -- m[k] = v
  unfoldable pub insert : String → V → Dict V → Dict V
  insert key new ((name, old) ∷ rest) =
      let after = insert key new rest in
      if str_eq name key then (name, new) ∷ rest else (name, old) ∷ after
  insert key new [] = (key, new) ∷ []

  pub lookup-erase :
      (key other : String) (m : Dict V)
      → lookup other (erase key m) ≡ (if str_eq key other then none else lookup other m)
  unfolding erase lookup
  lookup-erase key other ((name, val) ∷ rest) =
      ground
        (arith, lookup-erase key other rest, eq_iff name key, eq_iff name other, eq_iff key other)
  lookup-erase key other [] = ground arith

  pub lookup-insert :
      (key other : String) (new : V) (m : Dict V)
      → lookup other (insert key new m) ≡ (if str_eq key other then some new else lookup other m)
  unfolding insert lookup
  lookup-insert key other new ((name, old) ∷ rest) = ground (
    arith,
    lookup-insert key other new rest,
    eq_iff name key,
    eq_iff name other,
    eq_iff key other,
  )
  lookup-insert key other new [] = refl

  pub lookup-erase_self : (key : String) (m : Dict V) → lookup key (erase key m) ≡ none
  lookup-erase_self key m = rw (lookup-erase key key m, eq_refl key)

  pub lookup-insert_self :
      (key : String) (new : V) (m : Dict V) → lookup key (insert key new m) ≡ some new
  lookup-insert_self key new m = rw (lookup-insert key key new m, eq_refl key)

pub ruleset dict_laws = (lookup-insert, lookup-erase)
