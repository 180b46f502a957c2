-- ===== src/Common/Dict/Size.antt =====
-- The number of the keys of an unordered map, none of which stands in it twice.
use Prim.Native.Nat.{◌+◌}
use mathlib.Core.List.{[], ◌∷◌}
use mathlib.Core.Option.{none, some}
use mathlib.Core.Path.{◌≡◌, refl}
use native.Mathlib.Omega.{arith}
use cyclone_httpserver.Common.Bytes.{Text, text_eq_iff}
use cyclone_httpserver.Common.Dict.{Dict, lookup, assign, erase, lookup-assign, lookup-erase}
use cyclone_httpserver.Common.Lists.{length}

module _ {ℓ} {V : Type ℓ} where
  abbrev pub IsKeyed : Dict V → Type ℓ
  IsKeyed [] = Unit
  IsKeyed ((j, v) ∷ m) = (lookup j m ≡ none) × IsKeyed m

  erase-none : (k : Text) (m : Dict V) → lookup k m ≡ none → erase k m ≡ m
  erase-none k [] h = refl
  erase-none k ((j, v) ∷ m) h = ground (arith, erase-none k m)

  pub length-erase :
      (k : Text) (v : V) (m : Dict V)
      → IsKeyed m
      → lookup k m ≡ some v
      → length (erase k m) + 1 ≡ length m
  length-erase k v [] u h = ground arith
  length-erase k v ((j, w) ∷ m) u h =
      ground (arith, text_eq_iff j k, erase-none k m, length-erase k v m u.1)

  pub length-assign :
      (k : Text) (v : V) (m : Dict V) → lookup k m ≡ none → length (assign k v m) ≡ length m + 1
  length-assign k v [] h = omega arith
  length-assign k v ((j, w) ∷ m) h = ground (arith, length-assign k v m)

  pub erase-IsKeyed : (k : Text) (m : Dict V) → IsKeyed m → IsKeyed (erase k m)
  erase-IsKeyed k [] u = tt
  erase-IsKeyed k ((j, w) ∷ m) u = ground (arith, lookup-erase k j m, erase-IsKeyed k m u.1)

  pub assign-IsKeyed : (k : Text) (v : V) (m : Dict V) → IsKeyed m → IsKeyed (assign k v m)
  assign-IsKeyed k v [] u = (refl, tt)
  assign-IsKeyed k v ((j, w) ∷ m) u =
      ground
        (arith, lookup-assign k j v m, text_eq_iff k j, text_eq_iff j k, assign-IsKeyed k v m u.1)
