-- ===== src/Base/Map.antt =====
-- A Go `map[string]V` as an association list with one entry for each key.
use Prim.Native.Nat.{suc, ◌≤◌}
use mathlib.Core.Path.{◌≡◌, refl}
use mathlib.Core.Option.{Option, none, some}
use mathlib.Core.List.{List, [], ◌∷◌}
use native.Mathlib.Omega.{arith}
use inkmail.Base.Tests.{if◌then◌else◌}
use inkmail.Base.Text.{Bytes, same, same_iff}
use inkmail.Base.Lists.{length}

abbrev pub Map {ℓ} : Type ℓ → Type ℓ
Map V = List (Bytes × V)

module _ {ℓ} {V : Type ℓ} where
  abbrev pub get : Bytes → Map V → Option V
  get k [] = none
  get k ((j, v) ∷ m) = let rest = get k m in if same k j then some v else rest

  -- `m[k] = v`
  abbrev pub put : Bytes → V → Map V → Map V
  put k v [] = (k, v) ∷ []
  put k v ((j, w) ∷ m) = let rest = put k v m in if same k j then (k, v) ∷ m else (j, w) ∷ rest

  -- `delete(m, k)`
  abbrev pub del : Bytes → Map V → Map V
  del k [] = []
  del k ((j, v) ∷ m) = let rest = del k m in if same k j then rest else (j, v) ∷ rest

  abbrev pub get_or : V → Bytes → Map V → V
  get_or d k m = elim (get k m) [ none ↦ d | some v ↦ v ]

  pub get-put :
      (j k : Bytes) (v : V) (m : Map V) → get j (put k v m) ≡ (if same j k then some v else get j m)
  get-put j k v [] = refl
  get-put j k v ((i, w) ∷ m) =
      ground (arith, same_iff k i, same_iff j i, same_iff j k, get-put j k v m)

  pub get-del : (j k : Bytes) (m : Map V) → get j (del k m) ≡ (if same j k then none else get j m)
  get-del j k [] = ground arith
  get-del j k ((i, w) ∷ m) = ground (arith, same_iff k i, same_iff j i, same_iff j k, get-del j k m)

  -- A write adds an entry only for a new key.
  pub length-put :
      (k : Bytes) (v : V) (m : Map V)
      → length (put k v m) ≡ elim (get k m) [ none ↦ suc (length m) | some _ ↦ length m ]
  length-put k v [] = refl
  length-put k v ((j, w) ∷ m) = ground (arith, length-put k v m)

  pub length-del-le : (k : Bytes) (m : Map V) → length (del k m) ≤ length m
  length-del-le k [] = omega arith
  length-del-le k ((j, w) ∷ m) = ground (arith, length-del-le k m)

  pub length-del_present :
      (k : Bytes) (v : V) (m : Map V) → get k m ≡ some v → suc (length (del k m)) ≤ length m
  length-del_present k v [] h = absurd (ground arith)
  length-del_present k v ((j, w) ∷ m) h =
      ground (arith, length-del_present k v m, length-del-le k m)
