-- ===== src/Avl.antt =====
-- src/misc/avl_tree.c and avl_tree.h: an AVL tree with lazy deletion.
-- A node is named by the address that malloc() gave it, and keeps it under rotations; the code
-- hands that address out as `*result`. The comparison callback is a section parameter.
pub mod Shape
pub mod Height
pub mod Order
pub mod Sorted
pub mod Upsert
pub mod Callbacks
pub mod Deletion
mod Examples
use Prim.Native.Nat.Ordering.{lt, eq, gt}
use slony1_engine.Base.{
  ℕ, ◌+◌, Bool, true, false, ◌&&◌, Option, none, some, List, [], ◌∷◌, ◌++◌, Ordering, ltb, ◌==◌,
  if◌then◌else◌,
}

-- What a node holds beside its links: its address, `cdata` and `deleted`.
pub record Entry {ℓ} (C : Type ℓ) : Type ℓ where
  pub addr : ℕ
  pub cdata : C
  pub deleted : Bool

-- `AVLnode *`; `nil` is NULL. A node is `lnode ldepth entry rdepth rnode`.
pub data Node {ℓ} (C : Type ℓ) : Type ℓ where
  nil : Node C
  node : Node C → ℕ → Entry C → ℕ → Node C → Node C

-- AVL_MAXDEPTH on the two depths of a node.
pub maxdepth : ℕ → ℕ → ℕ
maxdepth ld rd = if ltb rd ld then ld else rd

-- What `avl_insertinto` leaves behind: the link it was given, its return value, `*result`, and the
-- elements handed to `freefunc`.
pub record Inserted {ℓ} (C : Type ℓ) : Type ℓ where
  pub tree : Node C
  pub depth : ℕ
  pub result : ℕ
  pub freed : List C

module _ {ℓ} {C : Type ℓ} where
  pub node_depth : Node C → ℕ
  unfolding maxdepth
  node_depth nil = 0
  node_depth (node l ld e rd r) = maxdepth ld rd

  -- The depth that a rotation records for a child: 0 for NULL, else its AVL_MAXDEPTH plus 1.
  pub link_depth : Node C → ℕ
  unfolding maxdepth
  link_depth nil = 0
  link_depth (node l ld e rd r) = maxdepth ld rd + 1

  -- The other shapes would dereference NULL; no call of the code meets them.
  pub rotate_left : Node C → Node C
  unfolding maxdepth link_depth
  rotate_left (node l ld e rd (node rl rld re rrd rr)) =
      node (node l ld e (link_depth rl) rl) (maxdepth ld (link_depth rl) + 1) re rrd rr
  rotate_left t = t

  pub rotate_right : Node C → Node C
  unfolding maxdepth link_depth
  rotate_right (node (node ll lld le lrd lr) ld e rd r) =
      node ll lld le (maxdepth (link_depth lr) rd + 1) (node lr (link_depth lr) e rd r)
  rotate_right t = t

  -- AVL_BALANCE(n) > 0 and AVL_BALANCE(n) < 0.
  pub leans_right : Node C → Bool
  leans_right nil = false
  leans_right (node l ld e rd r) = ltb ld rd

  pub leans_left : Node C → Bool
  leans_left nil = false
  leans_left (node l ld e rd r) = ltb rd ld

  -- The tail of the `cmp > 0` branch: AVL_BALANCE(*node) > 1, then the RR or the RL rotation.
  pub rebalance_right : Node C → ℕ → Entry C → ℕ → Node C → Node C
  unfolding rotate_left rotate_right leans_right
  rebalance_right l ld e rd r =
      if ltb (ld + 1) rd
      then (if leans_right r
          then rotate_left (node l ld e rd r)
          else rotate_left (node l ld e rd (rotate_right r)))
      else node l ld e rd r

  -- The tail of the `cmp < 0` branch: AVL_BALANCE(*node) < -1, then the LL or the LR rotation.
  pub rebalance_left : Node C → ℕ → Entry C → ℕ → Node C → Node C
  unfolding rotate_left rotate_right leans_left
  rebalance_left l ld e rd r =
      if ltb (rd + 1) ld
      then (if leans_left l
          then rotate_right (node l ld e rd r)
          else rotate_right (node (rotate_left l) ld e rd r))
      else node l ld e rd r

  -- AVL_SETDATA on the node with this address.
  pub set_data : ℕ → C → Node C → Node C
  set_data a d nil = nil
  set_data a d (node l ld e rd r) =
      node (set_data a d l) ld (if e.addr == a then record e { cdata = d } else e) rd
        (set_data a d r)

  -- AVL_DATA of the node with this address.
  pub data_at : ℕ → Node C → Option C
  data_at a nil = none
  data_at a (node l ld e rd r) = elim (data_at a l) [
    | some c ↦ some c
    | none ↦ if e.addr == a then some e.cdata else data_at a r
  ]

  -- avl_reset_node: the elements given to `freefunc`, children first.
  pub reset_node : Node C → List C
  reset_node nil = []
  reset_node (node l ld e rd r) = reset_node l ++ (reset_node r ++ e.cdata ∷ [])

  -- In key order, the order of a walk.
  abbrev pub entries : Node C → List (Entry C)
  entries nil = []
  entries (node l ld e rd r) = entries l ++ e ∷ entries r

-- Whether `freefunc` is set, and the pointer NULL in `cdata`.
module _ {ℓ} {C : Type ℓ} (has_free : Bool) (null : C) where
  pub fresh : ℕ → Entry C
  fresh a = record { addr = a; cdata = null; deleted = false }

  -- avl_makenode: malloc() returns the address `a`, and memset() clears the rest.
  pub makenode : ℕ → Node C
  unfolding fresh
  makenode a = node nil 0 (fresh a) 0 nil

  -- The branch for an equal key: free a deleted element, so that the caller can replace it.
  pub revive : Entry C → Entry C
  revive e = if e.deleted && has_free then record e { cdata = null; deleted = false } else e

  pub revive_frees : Entry C → List C
  revive_frees e = if e.deleted && has_free then e.cdata ∷ [] else []

  -- `below` is the recursive call on the child, made only if that is not NULL.
  pub insert_right : ℕ → Node C → ℕ → Entry C → ℕ → Node C → Inserted C → Inserted C
  unfolding makenode rebalance_right node_depth
  insert_right a l ld e rd nil below = record {
    tree = node l ld e 1 (makenode a);
    depth = 1;
    result = a;
    freed = [];
  }
  insert_right a l ld e rd (node _ _ _ _ _) below =
      let t = rebalance_right l ld e (below.depth + 1) below.tree in
      record { tree = t; depth = node_depth t; result = below.result; freed = below.freed }

  pub insert_left : ℕ → Node C → ℕ → Entry C → ℕ → Node C → Inserted C → Inserted C
  unfolding makenode rebalance_left node_depth maxdepth
  insert_left a nil ld e rd r below = record {
    tree = node (makenode a) 1 e rd r;
    depth = maxdepth 1 rd;
    result = a;
    freed = [];
  }
  insert_left a (node _ _ _ _ _) ld e rd r below =
      let t = rebalance_left below.tree (below.depth + 1) e rd r in
      record { tree = t; depth = node_depth t; result = below.result; freed = below.freed }

module _ {ℓ} {C : Type ℓ} where
  pub mark_deleted : ℕ → Node C → Node C
  mark_deleted a nil = nil
  mark_deleted a (node l ld e rd r) =
      node (mark_deleted a l) ld (if e.addr == a then record e { deleted = true } else e) rd
        (mark_deleted a r)

module _ {ℓ} {C : Type ℓ} (compfunc : C → C → Ordering) (has_free : Bool) (null : C) where
  -- avl_insertinto; the first clause is not reached, since the callers check for NULL.
  pub insertinto : ℕ → C → Node C → Inserted C
  unfolding insert_left insert_right revive revive_frees makenode maxdepth
  insertinto a d nil = record { tree = makenode has_free null a; depth = 0; result = a; freed = [] }
  insertinto a d (node l ld e rd r) =
      let on_right = insert_right has_free null a l ld e rd r (insertinto a d r) in
      let on_left = insert_left has_free null a l ld e rd r (insertinto a d l) in
      elim (compfunc d e.cdata) [
        | gt ↦ on_right
        | lt ↦ on_left
        | eq ↦ record {
          tree = node l ld (revive has_free null e) rd r;
          depth = maxdepth ld rd;
          result = e.addr;
          freed = revive_frees has_free null e;
        }
      ]

  -- avl_insert: the new root, and the node that is returned.
  pub insert : ℕ → C → Node C → Inserted C
  unfolding insertinto makenode
  insert a d nil = record { tree = makenode has_free null a; depth = 0; result = a; freed = [] }
  insert a d (node l ld e rd r) = insertinto a d (node l ld e rd r)

-- The comparison callback alone.
module _ {ℓ} {C : Type ℓ} (compfunc : C → C → Ordering) where
  -- avl_lookup, which takes a deleted element for absent.
  unfoldable pub lookup : C → Node C → Option (Entry C)
  lookup d nil = none
  lookup d (node l ld e rd r) = elim (compfunc d e.cdata) [
    | eq ↦ if e.deleted then none else some e
    | lt ↦ lookup d l
    | gt ↦ lookup d r
  ]

  -- avl_delete: 1 and the marked node, or 0.
  pub delete : C → Node C → Bool × Node C
  unfolding lookup mark_deleted
  delete d t = elim (lookup d t) [ none ↦ (false, t) | some e ↦ (true, mark_deleted e.addr t) ]
