-- ===== src/Avl/Shape.antt =====
-- The balance of the tree of avl_tree.c: the cached depths are the heights, the two sides of a
-- node differ by one at most, and so the height is logarithmic.
use slony1_engine.Base.{ℕ, suc, ◌+◌, ◌≤◌, ◌<◌, ◌≡◌, ◌≢◌, refl, Bool, Ordering, max, arith}
use slony1_engine.Avl.{
  Node, nil, node, Entry, Inserted, maxdepth, node_depth, link_depth, rotate_left, rotate_right,
  leans_right, leans_left, rebalance_right, rebalance_left, makenode, insert_right, insert_left,
  insertinto, insert, set_data,
}

-- `maxdepth` is the maximum.
maxdepth-max : (a b : ℕ) → maxdepth a b ≡ max a b
unfolding maxdepth
maxdepth-max a b = ground arith

module _ {ℓ} {C : Type ℓ} where
  abbrev pub height : Node C → ℕ
  height nil = 0
  height (node l ld e rd r) = suc (max (height l) (height r))

  abbrev pub IsAvl : Node C → Type 0
  IsAvl nil = Unit
  IsAvl (node l ld e rd r) =
      (ld ≡ height l)
      × (rd ≡ height r)
      × (height l ≤ height r + 1)
      × (height r ≤ height l + 1)
      × IsAvl l
      × IsAvl r

  -- One side is strictly deeper.
  abbrev IsLeaning : Node C → Type 0
  IsLeaning nil = Unit
  IsLeaning (node l ld e rd r) = height l ≢ height r

  pub link_depth-height : (t : Node C) → IsAvl t → link_depth t ≡ height t
  unfolding link_depth
  link_depth-height nil h = refl
  link_depth-height (node l ld e rd r) h = omega (arith, maxdepth-max ld rd)

  -- What an insertion below does to a subtree of height `h`.
  abbrev Grown : ℕ → Node C → Type 0
  Grown h t = IsAvl t × (h ≤ height t) × (height t ≤ h + 1) × (height t ≡ h + 1 → IsLeaning t)

  rebalance_right-Grown :
      (l : Node C) (e : Entry C) (r : Node C) (ld rd h : ℕ)
      → ld ≡ height l
      → rd ≡ height r
      → IsAvl l
      → Grown h r
      → height l ≤ h + 1
      → h ≤ height l + 1
      → Grown (suc (max (height l) h)) (rebalance_right l ld e rd r)
  unfolding rebalance_right leans_right rotate_left rotate_right
  rebalance_right-Grown l e nil ld rd h el er al g p q = ground arith
  rebalance_right-Grown l e (node nil rld re rrd rr) ld rd h el er al g p q =
      ground (arith, maxdepth-max ld 0)
  rebalance_right-Grown l e (node (node rll rlld rle rlrd rlr) rld re rrd rr) ld rd h el er al g p
        q =
      ground (
        arith,
        maxdepth-max ld (link_depth (node rll rlld rle rlrd rlr)),
        maxdepth-max ld (link_depth rll),
        maxdepth-max (link_depth rlr) rrd,
        link_depth-height (node rll rlld rle rlrd rlr),
        link_depth-height rll,
        link_depth-height rlr,
      )

  rebalance_left-Grown :
      (l : Node C) (e : Entry C) (r : Node C) (ld rd h : ℕ)
      → ld ≡ height l
      → rd ≡ height r
      → IsAvl r
      → Grown h l
      → height r ≤ h + 1
      → h ≤ height r + 1
      → Grown (suc (max h (height r))) (rebalance_left l ld e rd r)
  unfolding rebalance_left leans_left rotate_left rotate_right
  rebalance_left-Grown nil e r ld rd h el er ar g p q = ground arith
  rebalance_left-Grown (node ll lld le lrd nil) e r ld rd h el er ar g p q =
      ground (arith, maxdepth-max 0 rd)
  rebalance_left-Grown (node ll lld le lrd (node lrl lrld lre lrrd lrr)) e r ld rd h el er ar g p
        q =
      ground (
        arith,
        maxdepth-max (link_depth (node lrl lrld lre lrrd lrr)) rd,
        maxdepth-max (link_depth lrr) rd,
        maxdepth-max lld (link_depth lrl),
        link_depth-height (node lrl lrld lre lrrd lrr),
        link_depth-height lrl,
        link_depth-height lrr,
      )

  node_depth-height : (t : Node C) → IsAvl t → 0 < height t → node_depth t + 1 ≡ height t
  unfolding node_depth
  node_depth-height nil a h = absurd (omega arith)
  node_depth-height (node l ld e rd r) a h = omega (arith, maxdepth-max ld rd)

  -- What holds of a subtree of height `h` after an insertion into it.
  abbrev pub Balanced : ℕ → Inserted C → Type 0
  Balanced h s = Grown h s.tree × (s.depth + 1 ≡ height s.tree)

module _ {ℓ} {C : Type ℓ} where
  -- Replacing the data of a node changes no link.
  height-set_data : (a : ℕ) (d : C) (t : Node C) → height (set_data a d t) ≡ height t
  unfolding set_data
  height-set_data a d nil = refl
  height-set_data a d (node l ld e rd r) = rw (height-set_data a d l, height-set_data a d r)

  pub set_data-IsAvl : (a : ℕ) (d : C) (t : Node C) → IsAvl t → IsAvl (set_data a d t)
  unfolding set_data
  set_data-IsAvl a d nil h = tt
  set_data-IsAvl a d (node l ld e rd r) h = ground (
    arith,
    height-set_data a d l,
    height-set_data a d r,
    set_data-IsAvl a d l h.4,
    set_data-IsAvl a d r h.5,
  )

module _ {ℓ} {C : Type ℓ} (compfunc : C → C → Ordering) (has_free : Bool) (null : C) where
  insert_right-Balanced :
      (a : ℕ) (l : Node C) (ld : ℕ) (e : Entry C) (rd : ℕ) (r : Node C) (below : Inserted C)
      → IsAvl (node l ld e rd r)
      → (0 < height r → Balanced (height r) below)
      → Balanced (suc (max (height l) (height r))) (insert_right has_free null a l ld e rd r below)
  unfolding insert_right makenode
  insert_right-Balanced a l ld e rd nil below h ih = ground (arith, maxdepth-max ld 1)
  insert_right-Balanced a l ld e rd (node rl rld re rrd rr) below h ih =
      let g = ih (omega arith) in
      let k =
        rebalance_right-Grown l e below.tree ld (below.depth + 1) (height (node rl rld re rrd rr))
          h.0 g.1 h.4 g.0 h.2 h.3 in
      (k, node_depth-height _ k.0 (omega arith))

  insert_left-Balanced :
      (a : ℕ) (l : Node C) (ld : ℕ) (e : Entry C) (rd : ℕ) (r : Node C) (below : Inserted C)
      → IsAvl (node l ld e rd r)
      → (0 < height l → Balanced (height l) below)
      → Balanced (suc (max (height l) (height r))) (insert_left has_free null a l ld e rd r below)
  unfolding insert_left makenode
  insert_left-Balanced a nil ld e rd r below h ih = ground (arith, maxdepth-max 1 rd)
  insert_left-Balanced a (node ll lld le lrd lr) ld e rd r below h ih =
      let g = ih (omega arith) in
      let k =
        rebalance_left-Grown below.tree e r (below.depth + 1) rd (height (node ll lld le lrd lr))
          g.1 h.1 h.5 g.0 h.3 h.2 in
      (k, node_depth-height _ k.0 (omega arith))

  insertinto-Balanced :
      (a : ℕ) (d : C) (t : Node C)
      → IsAvl t
      → 0 < height t
      → Balanced (height t) (insertinto compfunc has_free null a d t)
  unfolding insertinto
  insertinto-Balanced a d nil h p = absurd (omega arith)
  insertinto-Balanced a d (node l ld e rd r) h p = ground (
    arith,
    maxdepth-max ld rd,
    insert_right-Balanced a l ld e rd r (insertinto compfunc has_free null a d r) h
        (insertinto-Balanced a d r h.5),
    insert_left-Balanced a l ld e rd r (insertinto compfunc has_free null a d l) h
        (insertinto-Balanced a d l h.4),
  )

  -- Inserting into a balanced tree leaves it balanced, with the cached depths equal to the heights,
  -- and at most one level higher than before.
  pub insert-IsAvl :
      (a : ℕ) (d : C) (t : Node C)
      → IsAvl t
      → IsAvl (insert compfunc has_free null a d t).tree
        × (height t ≤ height (insert compfunc has_free null a d t).tree)
        × (height (insert compfunc has_free null a d t).tree ≤ height t + 1)
  unfolding insert makenode
  insert-IsAvl a d nil h = omega arith
  insert-IsAvl a d (node l ld e rd r) h =
      let k = insertinto-Balanced a d (node l ld e rd r) h (omega arith) in (k.0.0, k.0.1, k.0.2)
