-- ===== src/Avl/Height.antt =====
-- How deep a tree is that avl_insert() has built, src/misc/avl_tree.c.
use slony1_engine.Base.{ℕ, zero, suc, ◌+◌, Bool, Ordering, List, [], ◌∷◌}
use slony1_engine.Avl.{Node, insert}

-- The Fibonacci numbers 1, 1, 2, 3, 5, ...
abbrev pub fib : ℕ → ℕ
fib zero = 1
fib (suc zero) = 1
fib (suc (suc n)) = fib (suc n) + fib n

module _ {ℓ} {C : Type ℓ} where
  module _ (compfunc : C → C → Ordering) (has_free : Bool) (null : C) where
    -- The elements one after another, each in a node with an address of its own.
    unfoldable pub insert_all : List (ℕ × C) → Node C → Node C
    unfolding insert
    insert_all [] t = t
    insert_all ((a, d) ∷ ds) t = insert_all ds (insert compfunc has_free null a d t).tree
