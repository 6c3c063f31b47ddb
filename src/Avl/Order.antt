-- ===== src/Avl/Order.antt =====
-- The order of the tree of avl_tree.c: a walk reads the keys in ascending order, and lookup,
-- insertion and deletion are those of a sorted list.
use Prim.Native.Nat.Ordering.{lt, eq, gt}
use mathlib.Core.Logic.{◌≢◌}
use slony1_engine.Base.{
  ℕ, ◌+◌, ◌≡◌, refl, sym, ap, ◌∙◌, Bool, Option, none, some, List, [], ◌∷◌, ◌++◌, Ordering, arith,
  if◌then◌else◌, append_assoc, All, All-imp,
}
use slony1_engine.Avl.{
  Node, nil, node, Entry, Inserted, rotate_left, rotate_right, rebalance_right, rebalance_left,
  makenode, fresh, revive, insert_right, insert_left, insertinto, insert, lookup, entries,
}

-- What the tri-state comparison function promises: a total order.
pub record IsLawful {ℓ} {C : Type ℓ} (cmp : C → C → Ordering) : Type ℓ where
  pub cmp_refl : (a : C) → cmp a a ≡ eq
  pub eq_sym : (a b : C) → cmp a b ≡ eq → cmp b a ≡ eq
  pub eq_lt : (a b c : C) → cmp a b ≡ eq → cmp b c ≡ lt → cmp a c ≡ lt
  pub lt_eq : (a b c : C) → cmp a b ≡ lt → cmp b c ≡ eq → cmp a c ≡ lt
  pub lt_of_gt : (a b : C) → cmp a b ≡ gt → cmp b a ≡ lt
  pub gt_of_lt : (a b : C) → cmp a b ≡ lt → cmp b a ≡ gt
  pub lt_trans : (a b c : C) → cmp a b ≡ lt → cmp b c ≡ lt → cmp a c ≡ lt

module _ {ℓ} {C : Type ℓ} where
  entries-rotate_left : (t : Node C) → entries (rotate_left t) ≡ entries t
  unfolding rotate_left
  entries-rotate_left nil = refl
  entries-rotate_left (node l ld e rd nil) = refl
  entries-rotate_left (node l ld e rd (node rl rld re rrd rr)) =
      append_assoc (entries l) (e ∷ entries rl) (re ∷ entries rr)

  entries-rotate_right : (t : Node C) → entries (rotate_right t) ≡ entries t
  unfolding rotate_right
  entries-rotate_right nil = refl
  entries-rotate_right (node nil ld e rd r) = refl
  entries-rotate_right (node (node ll lld le lrd lr) ld e rd r) =
      sym (append_assoc (entries ll) (le ∷ entries lr) (e ∷ entries r))

  -- Rebalancing changes no entry and no order.
  entries-rebalance_right :
      (l : Node C) (ld : ℕ) (e : Entry C) (rd : ℕ) (r : Node C)
      → entries (rebalance_right l ld e rd r) ≡ entries l ++ e ∷ entries r
  unfolding rebalance_right
  entries-rebalance_right l ld e rd r = ground (
    arith,
    entries-rotate_left (node l ld e rd r),
    entries-rotate_left (node l ld e rd (rotate_right r)),
    entries-rotate_right r,
  )

  entries-rebalance_left :
      (l : Node C) (ld : ℕ) (e : Entry C) (rd : ℕ) (r : Node C)
      → entries (rebalance_left l ld e rd r) ≡ entries l ++ e ∷ entries r
  unfolding rebalance_left
  entries-rebalance_left l ld e rd r = ground (
    arith,
    entries-rotate_right (node l ld e rd r),
    entries-rotate_right (node (rotate_left l) ld e rd r),
    entries-rotate_left l,
  )

module _ {ℓ} {C : Type ℓ} (compfunc : C → C → Ordering) where
  abbrev pub Below : C → List (Entry C) → Type 0
  Below d es = All (λ e. compfunc e.cdata d ≡ lt) es

  abbrev pub Above : C → List (Entry C) → Type 0
  Above d es = All (λ e. compfunc d e.cdata ≡ lt) es

  -- A search tree.
  abbrev pub IsOrdered : Node C → Type 0
  IsOrdered nil = Unit
  IsOrdered (node l ld e rd r) =
      Below e.cdata (entries l) × Above e.cdata (entries r) × IsOrdered l × IsOrdered r

  -- The reference: lookup and insertion in a list, from the left.
  unfoldable pub find : C → List (Entry C) → Option (Entry C)
  find d [] = none
  find d (e ∷ es) = elim (compfunc d e.cdata) [
    | eq ↦ if e.deleted then none else some e
    | lt ↦ none
    | gt ↦ find d es
  ]

  module _ (has_free : Bool) (null : C) where
    unfoldable pub place : ℕ → C → List (Entry C) → List (Entry C)
    place a d [] = fresh has_free null a ∷ []
    place a d (e ∷ es) = elim (compfunc d e.cdata) [
      | eq ↦ revive has_free null e ∷ es
      | lt ↦ fresh has_free null a ∷ e ∷ es
      | gt ↦ e ∷ place a d es
    ]

module _ {ℓ} {C : Type ℓ} (compfunc : C → C → Ordering) (o : IsLawful compfunc) where
  find-append_lt :
      (d : C) (es : List (Entry C)) (e : Entry C) (fs : List (Entry C))
      → compfunc d e.cdata ≡ lt
      → find compfunc d (es ++ e ∷ fs) ≡ find compfunc d es
  unfolding find
  find-append_lt d [] e fs h = rw (h, find)
  find-append_lt d (x ∷ es) e fs h = ground (arith, find-append_lt d es e fs h)

  -- The entries that stand before an equal or a smaller key are passed over.
  find_skip :
      (d : C) (es : List (Entry C)) (fs : List (Entry C))
      → Below compfunc d es
      → find compfunc d (es ++ fs) ≡ find compfunc d fs
  unfolding find
  find_skip d [] fs h = refl
  find_skip d (x ∷ es) fs h = rw (o.gt_of_lt x.cdata d h.0, find) (find_skip d es fs h.1)

  pub Below-widen :
      (d k : C) (es : List (Entry C))
      → compfunc d k ≡ gt
      → Below compfunc k es
      → Below compfunc d es
  Below-widen d k es g = All-imp (λ e h. o.lt_trans e.cdata k d h (o.lt_of_gt d k g)) es

  pub Below-equal :
      (d k : C) (es : List (Entry C))
      → compfunc d k ≡ eq
      → Below compfunc k es
      → Below compfunc d es
  Below-equal d k es g = All-imp (λ e h. o.lt_eq e.cdata k d h (o.eq_sym d k g)) es

  -- If the comparison is a total order, the lookup of the code on a search tree finds what a scan
  -- of its entries from the left finds.
  pub lookup-find :
      (d : C) (t : Node C)
      → IsOrdered compfunc t
      → lookup compfunc d t ≡ find compfunc d (entries t)
  unfolding lookup find
  lookup-find d nil h = refl
  lookup-find d (node l ld e rd r) h = ground (
    arith,
    lookup-find d l h.2,
    lookup-find d r h.3,
    find-append_lt d (entries l) e (entries r),
    find_skip d (entries l) (e ∷ entries r),
    Below-widen d e.cdata (entries l),
    Below-equal d e.cdata (entries l),
  )

  module _ (has_free : Bool) (null : C) where
    place-append_lt :
        (a : ℕ) (d : C) (es : List (Entry C)) (e : Entry C) (fs : List (Entry C))
        → compfunc d e.cdata ≡ lt
        → place compfunc has_free null a d (es ++ e ∷ fs)
          ≡ place compfunc has_free null a d es ++ e ∷ fs
    unfolding place
    place-append_lt a d [] e fs h = rw (h, place)
    place-append_lt a d (x ∷ es) e fs h = ground (arith, place-append_lt a d es e fs h)

    place_skip :
        (a : ℕ) (d : C) (es fs : List (Entry C))
        → Below compfunc d es
        → place compfunc has_free null a d (es ++ fs) ≡ es ++ place compfunc has_free null a d fs
    unfolding place
    place_skip a d [] fs h = refl
    place_skip a d (x ∷ es) fs h =
        rw (o.gt_of_lt x.cdata d h.0, place)
          (ap (λ (t : List (Entry C)). x ∷ t) (place_skip a d es fs h.1))

    place_equal :
        (a : ℕ) (d : C) (e : Entry C) (fs : List (Entry C))
        → compfunc d e.cdata ≡ eq
        → place compfunc has_free null a d (e ∷ fs) ≡ revive has_free null e ∷ fs
    unfolding place
    place_equal a d e fs h = rw (h, place)

    place_greater :
        (a : ℕ) (d : C) (e : Entry C) (fs : List (Entry C))
        → compfunc d e.cdata ≡ gt
        → place compfunc has_free null a d (e ∷ fs) ≡ e ∷ place compfunc has_free null a d fs
    unfolding place
    place_greater a d e fs h = rw (h, place)

    entries-insert_right :
        (a : ℕ) (d : C) (l : Node C) (ld : ℕ) (e : Entry C) (rd : ℕ) (r : Node C)
        (below : Inserted C)
        → (r ≢ nil → entries below.tree ≡ place compfunc has_free null a d (entries r))
        → entries (insert_right has_free null a l ld e rd r below).tree
          ≡ entries l ++ e ∷ place compfunc has_free null a d (entries r)
    unfolding insert_right makenode place
    entries-insert_right a d l ld e rd nil below h = refl
    entries-insert_right a d l ld e rd (node rl rld re rrd rr) below h =
        entries-rebalance_right l ld e (below.depth + 1) below.tree
        ∙ ap (λ (t : List (Entry C)). entries l ++ e ∷ t) (h (λ p. cc))

    entries-insert_left :
        (a : ℕ) (d : C) (l : Node C) (ld : ℕ) (e : Entry C) (rd : ℕ) (r : Node C)
        (below : Inserted C)
        → (l ≢ nil → entries below.tree ≡ place compfunc has_free null a d (entries l))
        → entries (insert_left has_free null a l ld e rd r below).tree
          ≡ place compfunc has_free null a d (entries l) ++ e ∷ entries r
    unfolding insert_left makenode place
    entries-insert_left a d nil ld e rd r below h = refl
    entries-insert_left a d (node ll lld le lrd lr) ld e rd r below h =
        entries-rebalance_left below.tree (below.depth + 1) e rd r
        ∙ ap (λ (t : List (Entry C)). t ++ e ∷ entries r) (h (λ p. cc))

    entries-insertinto :
        (a : ℕ) (d : C) (t : Node C)
        → t ≢ nil
        → IsOrdered compfunc t
        → entries (insertinto compfunc has_free null a d t).tree
          ≡ place compfunc has_free null a d (entries t)
    unfolding insertinto
    entries-insertinto a d nil n h = absurd (n refl)
    entries-insertinto a d (node l ld e rd r) n h = ground (
      arith,
      entries-insert_right a d l ld e rd r (insertinto compfunc has_free null a d r)
          (λ n. entries-insertinto a d r n h.3),
      entries-insert_left a d l ld e rd r (insertinto compfunc has_free null a d l)
          (λ n. entries-insertinto a d l n h.2),
      place-append_lt a d (entries l) e (entries r),
      place_skip a d (entries l) (e ∷ entries r),
      place_equal a d e (entries r),
      place_greater a d e (entries r),
      Below-widen d e.cdata (entries l),
      Below-equal d e.cdata (entries l),
    )

    -- If the comparison is a total order, the insertion of the code into a search tree is the
    -- insertion into the list of its entries: an equal key keeps its node, and a new key gets one
    -- node at its place.
    pub entries-insert :
        (a : ℕ) (d : C) (t : Node C)
        → IsOrdered compfunc t
        → entries (insert compfunc has_free null a d t).tree
          ≡ place compfunc has_free null a d (entries t)
    unfolding insert makenode place
    entries-insert a d nil h = refl
    entries-insert a d (node l ld e rd r) h = entries-insertinto a d (node l ld e rd r) (λ p. cc) h
