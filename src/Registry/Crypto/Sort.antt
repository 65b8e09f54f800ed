-- ===== src/Registry/Crypto/Sort.antt =====
-- `list.sort` on texts: the order of code points, and insertion, which gives the sorted list.
use Prim.Native.Nat.{compare, Ordering}
use peerdup.Prelude.{Text, Bool, true, false, List, [], ◌∷◌, if◌then◌else◌}

pub text_leb : Text → Text → Bool
text_leb [] t = true
text_leb (x ∷ s) [] = false
text_leb (x ∷ s) (y ∷ t) = elim (compare x y) [
  | Ordering.lt ↦ true
  | Ordering.eq ↦ text_leb s t
  | Ordering.gt ↦ false
]

pub insert : Text → List Text → List Text
unfolding text_leb
insert x [] = x ∷ []
insert x (y ∷ ys) = let rest = insert x ys in if text_leb x y then x ∷ y ∷ ys else y ∷ rest

unfoldable pub sort : List Text → List Text
unfolding insert
sort [] = []
sort (x ∷ xs) = insert x (sort xs)
