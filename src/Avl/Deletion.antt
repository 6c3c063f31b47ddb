-- ===== src/Avl/Deletion.antt =====
-- avl_delete() of src/misc/avl_tree.c, which marks a node and leaves it in the tree.
use Prim.Native.Nat.Ordering.{eq}
use slony1_engine.Base.{
  ℕ, ◌≡◌, ◌≢◌, refl, sym, ◌∙◌, Bool, true, false, none, some, List, [], ◌∷◌, ◌++◌, Ordering, arith,
  ◌==◌, if◌then◌else◌, All, Ordering-cases, Option-cases, inl, inr,
}
use slony1_engine.Avl.{Node, nil, node, Entry, entries, lookup, mark_deleted, delete}
use slony1_engine.Avl.Order.{IsLawful, Below, Above, IsOrdered, find, lookup-find}
use slony1_engine.Avl.Sorted.{IsDistinct}

abbrev pub is_equal : Ordering → Bool
is_equal eq = true
is_equal _ = false

module _ {ℓ} {C : Type ℓ} where
  mark_list : ℕ → List (Entry C) → List (Entry C)
  mark_list a [] = []
  mark_list a (e ∷ es) = (if e.addr == a then record e { deleted = true } else e) ∷ mark_list a es

  mark_list-append :
      (a : ℕ) (es fs : List (Entry C)) → mark_list a (es ++ fs) ≡ mark_list a es ++ mark_list a fs
  unfolding mark_list
  mark_list-append a [] fs = refl
  mark_list-append a (e ∷ es) fs = rw (mark_list-append a es fs)

  entries-mark_deleted : (a : ℕ) (t : Node C) → entries (mark_deleted a t) ≡ mark_list a (entries t)
  unfolding mark_deleted mark_list
  entries-mark_deleted a nil = refl
  entries-mark_deleted a (node l ld e rd r) = rw (
    entries-mark_deleted a l,
    entries-mark_deleted a r,
    mark_list-append a (entries l) (e ∷ entries r),
  )

  mark_list_miss : (a : ℕ) (es : List (Entry C)) → All (λ f. f.addr ≢ a) es → mark_list a es ≡ es
  unfolding mark_list
  mark_list_miss a [] h = refl
  mark_list_miss a (e ∷ es) h = ground (arith, mark_list_miss a es h.1)

module _ {ℓ} {C : Type ℓ} (compfunc : C → C → Ordering) where
  -- Marks do not show in the order.
  Below-mark_list :
      (a : ℕ) (d : C) (es : List (Entry C))
      → Below compfunc d es
      → Below compfunc d (mark_list a es)
  unfolding mark_list
  Below-mark_list a d [] h = tt
  Below-mark_list a d (e ∷ es) h = ground (arith, Below-mark_list a d es h.1)

  Above-mark_list :
      (a : ℕ) (d : C) (es : List (Entry C))
      → Above compfunc d es
      → Above compfunc d (mark_list a es)
  unfolding mark_list
  Above-mark_list a d [] h = tt
  Above-mark_list a d (e ∷ es) h = ground (arith, Above-mark_list a d es h.1)

  IsOrdered-mark_deleted :
      (a : ℕ) (t : Node C) → IsOrdered compfunc t → IsOrdered compfunc (mark_deleted a t)
  unfolding mark_deleted
  IsOrdered-mark_deleted a nil h = tt
  IsOrdered-mark_deleted a (node l ld e rd r) h = ground (
    arith,
    entries-mark_deleted a l,
    entries-mark_deleted a r,
    Below-mark_list a e.cdata (entries l) h.0,
    Above-mark_list a e.cdata (entries r) h.1,
    IsOrdered-mark_deleted a l h.2,
    IsOrdered-mark_deleted a r h.3,
  )

  find-addr :
      (d : C) (a : ℕ) (es : List (Entry C)) (e : Entry C)
      → find compfunc d es ≡ some e
      → All (λ f. f.addr ≢ a) es
      → e.addr ≢ a
  unfolding find
  find-addr d a [] e h p = cc
  find-addr d a (x ∷ es) e h p = ground (arith, find-addr d a es e)

  module _ (o : IsLawful compfunc) where
    equal_trans : (a b c : C) → compfunc a b ≡ eq → compfunc b c ≡ eq → compfunc a c ≡ eq
    equal_trans a b c h k = ground (
      arith,
      o.lt_eq a c b,
      o.eq_sym b c k,
      o.lt_of_gt a c,
      o.lt_eq c a b,
      o.gt_of_lt c b,
      o.eq_sym a b h,
    )

    -- Equal keys compare alike.
    equal_left : (k d x : C) → compfunc k d ≡ eq → compfunc k x ≡ compfunc d x
    equal_left k d x h = elim (Ordering-cases (compfunc d x)) [
      | inl less ↦ o.eq_lt k d x h less ∙ sym less
      | inr (inl same) ↦ equal_trans k d x h same ∙ sym same
      | inr (inr more) ↦
          o.gt_of_lt x k (o.lt_eq x d k (o.lt_of_gt d x more) (o.eq_sym k d h)) ∙ sym more
    ]

    equal_right : (k d x : C) → compfunc k x ≡ eq → compfunc d x ≡ eq → compfunc k d ≡ eq
    equal_right k d x h p = equal_trans k x d h (o.eq_sym d x p)

    find_equal :
        (k d : C) (es : List (Entry C))
        → compfunc k d ≡ eq
        → find compfunc k es ≡ find compfunc d es
    unfolding find
    find_equal k d [] h = refl
    find_equal k d (x ∷ es) h = ground (arith, equal_left k d x.cdata h, find_equal k d es h)

    find-mark_list :
        (d k : C) (es : List (Entry C)) (e : Entry C)
        → IsDistinct es
        → find compfunc d es ≡ some e
        → find compfunc k (mark_list e.addr es)
          ≡ (if is_equal (compfunc k d) then none else find compfunc k es)
    unfolding find mark_list
    find-mark_list d k [] e p h = cc
    find-mark_list d k (x ∷ es) e p h = elim (Ordering-cases (compfunc d x.cdata)) [
      | inl less ↦ ground arith
      | inr (inl same) ↦
          ground
            (arith, mark_list_miss x.addr es p.0, equal_left k d x.cdata, equal_right k d x.cdata)
      | inr (inr more) ↦
          ground
            (arith, find-mark_list d k es e p.1, find-addr d x.addr es e, equal_left k d x.cdata)
    ]

    -- If the comparison is a total order, after a delete of a key, on a search tree whose nodes
    -- have addresses of their own, a lookup of this key finds nothing, and a lookup of any other
    -- key finds what it found before.
    pub lookup-delete :
        (d k : C) (t : Node C)
        → IsOrdered compfunc t
        → IsDistinct (entries t)
        → lookup compfunc k (delete compfunc d t).1
          ≡ (if is_equal (compfunc k d) then none else lookup compfunc k t)
    unfolding delete
    lookup-delete d k t h p = elim (Option-cases (lookup compfunc d t)) [
      | inl missing ↦ ground (
        arith,
        lookup-find compfunc o d t h,
        lookup-find compfunc o k t h,
        find_equal k d (entries t),
      )
      | inr (e, found) ↦ ground (
        arith,
        lookup-find compfunc o d t h,
        lookup-find compfunc o k t h,
        lookup-find compfunc o k (mark_deleted e.addr t) (IsOrdered-mark_deleted e.addr t h),
        entries-mark_deleted e.addr t,
        find-mark_list d k (entries t) e p,
      )
    ]
