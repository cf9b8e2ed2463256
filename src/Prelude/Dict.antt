-- ===== src/Prelude/Dict.antt =====
-- Go's `map[string]V` as an association list. A write replaces the entry of its key in place or
-- adds one at the end; the order of the entries stands for one iteration order.
use Prim.Native.String.{String}
use mathlib.Core.Path.{◌≡◌}
use mathlib.Core.Option.{Option, none, some}
use mathlib.Core.List.{List, [], ◌∷◌, map}
use native.Mathlib.Omega.{arith}
use text.Mathlib.Text.{◌==◌}
use text.Mathlib.TextEquality.{eq_iff}
use text.Mathlib.TextPositions.{eq_refl}
use beskar.Prelude.Tests.{if◌then◌else◌}

abbrev pub Dict {ℓ} : Type ℓ → Type ℓ
Dict V = List (String × V)

module _ {ℓ} {V : Type ℓ} where
  -- `m[key]` with its `ok`
  unfoldable pub lookup : String → Dict V → Option V
  lookup key [] = none
  lookup key ((name, value) ∷ entries) = if name == key then some value else lookup key entries

  -- `m[key] = new`
  unfoldable pub insert : String → V → Dict V → Dict V
  insert key new [] = (key, new) ∷ []
  insert key new ((name, value) ∷ entries) =
      if name == key then (name, new) ∷ entries else (name, value) ∷ insert key new entries

  -- `delete(m, key)`
  unfoldable pub remove : String → Dict V → Dict V
  remove key [] = []
  remove key ((name, value) ∷ entries) =
      let rest = remove key entries in if name == key then rest else (name, value) ∷ rest

  abbrev pub keys : Dict V → List String
  keys entries = map (λ e. e.0) entries

  pub lookup-remove :
      (key other : String) (entries : Dict V)
      → lookup other (remove key entries) ≡ (if key == other then none else lookup other entries)
  unfolding lookup remove
  lookup-remove key other [] = ground arith
  lookup-remove key other ((name, value) ∷ entries) =
      ground (
        arith,
        lookup-remove key other entries,
        eq_iff name key,
        eq_iff name other,
        eq_iff key other,
      )

  pub lookup-insert :
      (key other : String) (new : V) (entries : Dict V)
      → lookup other (insert key new entries)
        ≡ (if key == other then some new else lookup other entries)
  unfolding lookup insert
  lookup-insert key other new [] = ground arith
  lookup-insert key other new ((name, value) ∷ entries) = ground (
    arith,
    lookup-insert key other new entries,
    eq_iff name key,
    eq_iff name other,
    eq_iff key other,
  )

  pub lookup-remove_self :
      (key : String) (entries : Dict V) → lookup key (remove key entries) ≡ none
  lookup-remove_self key entries = simp (lookup-remove, eq_refl)

  pub lookup-insert_self :
      (key : String) (new : V) (entries : Dict V) → lookup key (insert key new entries) ≡ some new
  lookup-insert_self key new entries = simp (lookup-insert, eq_refl)

pub ruleset dict_laws = (lookup-insert, lookup-remove)
