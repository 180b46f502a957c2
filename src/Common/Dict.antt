-- ===== src/Common/Dict.antt =====
-- Maps with string keys, as lists of pairs: `std::unordered_map`, whose order nothing here reads,
-- and `std::map`, which keeps its keys in order.
pub mod Order
pub mod Size
use mathlib.Core.Bool.{Bool, true, false, ◌&&◌, ◌||◌}
use mathlib.Core.List.{List, [], ◌∷◌}
use mathlib.Core.Option.{Option, none, some}
use mathlib.Core.Path.{◌≡◌, refl}
use native.Mathlib.Omega.{arith}
use cyclone_httpserver.Common.Bytes.{Text, text_eq, text_eq_iff}
use cyclone_httpserver.Common.Tests.{◌==◌, if◌then◌else◌, ltb}

abbrev pub Dict {ℓ} : Type ℓ → Type ℓ
Dict V = List (Text × V)

-- `operator<` of two strings.
abbrev pub text_lt : Text → Text → Bool
text_lt xs [] = false
text_lt [] (y ∷ ys) = true
text_lt (x ∷ xs) (y ∷ ys) = ltb x y || x == y && text_lt xs ys

module _ {ℓ} {V : Type ℓ} where
  -- `find`.
  abbrev pub lookup : Text → Dict V → Option V
  lookup k [] = none
  lookup k ((j, v) ∷ m) = if text_eq j k then some v else lookup k m

  -- `m[k] = v` of an unordered map.
  abbrev pub assign : Text → V → Dict V → Dict V
  assign k v [] = (k, v) ∷ []
  assign k v ((j, w) ∷ m) = if text_eq j k then (j, v) ∷ m else (j, w) ∷ assign k v m

  -- `erase`.
  abbrev pub erase : Text → Dict V → Dict V
  erase k [] = []
  erase k ((j, v) ∷ m) = if text_eq j k then erase k m else (j, v) ∷ erase k m

  -- `m[k] = v` of an ordered map.
  abbrev pub assign_sorted : Text → V → Dict V → Dict V
  assign_sorted k v [] = (k, v) ∷ []
  assign_sorted k v ((j, w) ∷ m) =
      if text_eq j k
      then (j, v) ∷ m
      else if text_lt k j
      then (k, v) ∷ (j, w) ∷ m
      else (j, w) ∷ assign_sorted k v m

  pub lookup-assign :
      (k q : Text) (v : V) (m : Dict V)
      → lookup q (assign k v m) ≡ (if text_eq k q then some v else lookup q m)
  lookup-assign k q v [] = refl
  lookup-assign k q v ((j, w) ∷ m) =
      ground (arith, text_eq_iff k q, text_eq_iff j k, text_eq_iff j q, lookup-assign k q v m)

  pub lookup-assign_sorted :
      (k q : Text) (v : V) (m : Dict V)
      → lookup q (assign_sorted k v m) ≡ (if text_eq k q then some v else lookup q m)
  lookup-assign_sorted k q v [] = refl
  lookup-assign_sorted k q v ((j, w) ∷ m) =
      ground
        (arith, text_eq_iff k q, text_eq_iff j k, text_eq_iff j q, lookup-assign_sorted k q v m)

  pub lookup-erase :
      (k q : Text) (m : Dict V) → lookup q (erase k m) ≡ (if text_eq k q then none else lookup q m)
  lookup-erase k q [] = ground arith
  lookup-erase k q ((j, w) ∷ m) =
      ground (arith, text_eq_iff k q, text_eq_iff j k, text_eq_iff j q, lookup-erase k q m)

  -- `(it == end()) ? std::string() : it->second`.
  abbrev pub get_or : Option V → V → V
  get_or none d = d
  get_or (some v) d = v
