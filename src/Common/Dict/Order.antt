-- ===== src/Common/Dict/Order.antt =====
-- The keys of an ordered map stay in strict order.
use mathlib.Core.Bool.{true, false}
use mathlib.Core.List.{[], ◌∷◌}
use mathlib.Core.Path.{◌≡◌, refl}
use native.Mathlib.Omega.{arith}
use cyclone_httpserver.Common.Bytes.{Text, text_eq}
use cyclone_httpserver.Common.Dict.{Dict, text_lt, assign_sorted}

text_lt_connex : (k j : Text) → text_eq j k ≡ false → text_lt k j ≡ false → text_lt j k ≡ true
text_lt_connex [] [] e h = ground arith
text_lt_connex [] (y ∷ ys) e h = ground arith
text_lt_connex (x ∷ xs) [] e h = refl
text_lt_connex (x ∷ xs) (y ∷ ys) e h = ground (arith, text_lt_connex xs ys)

module _ {ℓ} {V : Type ℓ} where
  -- `j` is below the first key.
  abbrev pub Below : Text → Dict V → Type 0
  Below j [] = Unit
  Below j ((k, v) ∷ m) = text_lt j k ≡ true

  abbrev pub IsOrdered : Dict V → Type 0
  IsOrdered [] = Unit
  IsOrdered ((j, v) ∷ m) = Below j m × IsOrdered m

  Below-assign_sorted :
      (j k : Text) (v : V) (m : Dict V)
      → text_lt j k ≡ true
      → Below j m
      → Below j (assign_sorted k v m)
  Below-assign_sorted j k v [] h b = h
  Below-assign_sorted j k v ((i, w) ∷ m) h b = ground arith

  pub assign_sorted-IsOrdered :
      (k : Text) (v : V) (m : Dict V) → IsOrdered m → IsOrdered (assign_sorted k v m)
  assign_sorted-IsOrdered k v [] h = (tt, tt)
  assign_sorted-IsOrdered k v ((j, w) ∷ m) h =
      ground
        (arith, text_lt_connex k j, Below-assign_sorted j k v m, assign_sorted-IsOrdered k v m h.1)
