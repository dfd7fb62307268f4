-- ===== src/Common/Map.antt =====
-- `std::map` and `std::unordered_map` with texts for keys, as association lists.
-- `assign` is `m[k] = v` and keeps the keys of a `std::map` in ascending order.
use mathlib.Core.Path.{◌≡◌, refl}
use mathlib.Core.Logic.{ite}
use mathlib.Core.List.{List, [], ◌∷◌}
use mathlib.Core.Option.{Option, none, some}
use native.Mathlib.Omega.{arith}
use qos_planner.Common.Tests.{if◌then◌else◌}
use qos_planner.Common.Text.{Str, Str-discrete, str_ltb}

module _ {ℓ} {V : Type ℓ} where
  unfoldable pub find : Str → List (Str × V) → Option V
  find k [] = none
  find k ((j, v) ∷ m) = ite (Str-discrete j k) (some v) (find k m)

  unfoldable pub assign : Str → V → List (Str × V) → List (Str × V)
  assign k v [] = (k, v) ∷ []
  assign k v ((j, w) ∷ m) =
      ite (Str-discrete j k) ((k, v) ∷ m)
        (if str_ltb k j then (k, v) ∷ (j, w) ∷ m else (j, w) ∷ assign k v m)

  -- The keys of a map are distinct: to drop every entry is to drop the one there is.
  unfoldable pub erase : Str → List (Str × V) → List (Str × V)
  erase k [] = []
  erase k ((j, w) ∷ m) = ite (Str-discrete j k) (erase k m) ((j, w) ∷ erase k m)

  pub find-assign :
      (k j : Str) (v : V) (m : List (Str × V))
      → find j (assign k v m) ≡ ite (Str-discrete k j) (some v) (find j m)
  unfolding find assign
  find-assign k j v [] = refl
  find-assign k j v ((i, w) ∷ m) = ground (arith, find-assign k j v m)

  pub find-erase :
      (k j : Str) (m : List (Str × V)) → find j (erase k m) ≡ ite (Str-discrete k j) none (find j m)
  unfolding find erase
  find-erase k j [] = ground arith
  find-erase k j ((i, w) ∷ m) = ground (arith, find-erase k j m)
