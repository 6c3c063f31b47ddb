-- ===== src/Base/Strings.antt =====
-- Comparing C strings, lists of the bytes before the NUL.
use Prim.Native.Nat.{ℕ, compare, Ordering}
use mathlib.Core.Path.{◌≡◌, refl}
use mathlib.Core.Bool.{Bool, true, false}
use mathlib.Core.List.{List, [], ◌∷◌}
use native.Mathlib.Omega.{arith}

-- strcmp(), by the sign of what it returns.
unfoldable pub strcmp : List ℕ → List ℕ → Ordering
strcmp [] [] = Ordering.eq
strcmp [] (b ∷ t) = Ordering.lt
strcmp (a ∷ s) [] = Ordering.gt
strcmp (a ∷ s) (b ∷ t) = elim (compare a b) [
  | Ordering.lt ↦ Ordering.lt
  | Ordering.eq ↦ strcmp s t
  | Ordering.gt ↦ Ordering.gt
]

-- strcmp(s, t) < 0
unfoldable pub is_before : List ℕ → List ℕ → Bool
unfolding strcmp
is_before s t = elim (strcmp s t) [ Ordering.lt ↦ true | _ ↦ false ]

pub strcmp_refl : (s : List ℕ) → strcmp s s ≡ Ordering.eq
unfolding strcmp
strcmp_refl [] = refl
strcmp_refl (a ∷ s) = ground (arith, strcmp_refl s)

pub is_before_asym : (s t : List ℕ) → is_before s t ≡ true → is_before t s ≡ false
unfolding is_before strcmp
is_before_asym [] [] h = refl
is_before_asym [] (b ∷ t) h = refl
is_before_asym (a ∷ s) [] h = cc
is_before_asym (a ∷ s) (b ∷ t) h = ground (arith, is_before_asym s t)

-- Not being before is a total preorder, the order of a sorted list.
pub not_before_trans :
    (s t u : List ℕ) → is_before t s ≡ false → is_before u t ≡ false → is_before u s ≡ false
unfolding is_before strcmp
not_before_trans [] [] u h k = k
not_before_trans [] (b ∷ t) [] h k = cc
not_before_trans [] (b ∷ t) (c ∷ u) h k = refl
not_before_trans (a ∷ s) [] u h k = cc
not_before_trans (a ∷ s) (b ∷ t) [] h k = cc
not_before_trans (a ∷ s) (b ∷ t) (c ∷ u) h k = ground (arith, not_before_trans s t u)

pub is_before_total : (s t : List ℕ) → is_before s t ≡ false → is_before t s ≡ false → s ≡ t
unfolding is_before strcmp
is_before_total [] [] h k = refl
is_before_total [] (b ∷ t) h k = cc
is_before_total (a ∷ s) [] h k = cc
is_before_total (a ∷ s) (b ∷ t) h k = ground (arith, is_before_total s t)
