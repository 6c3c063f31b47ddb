-- ===== src/Avl/Examples.antt =====
-- Runs of src/misc/avl_tree.c on small trees, with the keys compared as numbers.
use slony1_engine.Base.{
  none, if◌then◌else◌, ℕ, ◌+◌, ◌≤◌, ◌≡◌, refl, true, false, List, [], ◌∷◌, Ordering, compare, arith,
}
use slony1_engine.Avl.{Node, nil, node, Entry, entries, insert, lookup, delete}
use slony1_engine.Avl.Shape.{IsAvl, height, insert-IsAvl}
use slony1_engine.Avl.Sorted.{IsDistinct}
use slony1_engine.Avl.Deletion.{is_equal, lookup-delete}
use slony1_engine.Avl.Order.{IsLawful, IsOrdered, find, place, lookup-find, entries-insert}

abbrev by_number : ℕ → ℕ → Ordering
by_number a b = compare a b

by_number-IsLawful : IsLawful by_number
by_number-IsLawful = record {
  cmp_refl = λ a. ground arith;
  eq_sym = λ a b. ground arith;
  eq_lt = λ a b c. ground arith;
  lt_eq = λ a b c. ground arith;
  lt_of_gt = λ a b. ground arith;
  gt_of_lt = λ a b. ground arith;
  lt_trans = λ a b c. ground arith;
}

abbrev entry : ℕ → ℕ → Entry ℕ
entry a k = record { addr = a; cdata = k; deleted = false }

-- The keys 10 and 20; a key above these makes the root lean by two.
abbrev two_keys : Node ℕ
two_keys = node nil 0 (entry 0 10) 1 (node nil 0 (entry 1 20) 0 nil)

two_keys-IsAvl : IsAvl two_keys
two_keys-IsAvl =
    (refl, refl, omega arith, omega arith, tt, (refl, refl, omega arith, omega arith, tt, tt))

two_keys-IsOrdered : IsOrdered by_number two_keys
two_keys-IsOrdered = (tt, (refl, tt), tt, (tt, tt, tt, tt))

insert-IsAvl_example :
    IsAvl (insert by_number true 0 2 30 two_keys).tree
    × (height two_keys ≤ height (insert by_number true 0 2 30 two_keys).tree)
    × (height (insert by_number true 0 2 30 two_keys).tree ≤ height two_keys + 1)
insert-IsAvl_example = insert-IsAvl by_number true 0 2 30 two_keys two_keys-IsAvl

-- Four keys, upwards.
abbrev four_keys : List (ℕ × ℕ)
four_keys = (0, 10) ∷ (1, 20) ∷ (2, 30) ∷ (3, 40) ∷ []

lookup-find_example : lookup by_number 20 two_keys ≡ find by_number 20 (entries two_keys)
lookup-find_example = lookup-find by_number by_number-IsLawful 20 two_keys two_keys-IsOrdered

entries-insert_example :
    entries (insert by_number true 0 2 30 two_keys).tree
    ≡ place by_number true 0 2 30 (entries two_keys)
entries-insert_example =
    entries-insert by_number by_number-IsLawful true 0 2 30 two_keys two_keys-IsOrdered

two_keys-IsDistinct : IsDistinct (entries two_keys)
two_keys-IsDistinct = ((omega arith, tt), (tt, tt))

lookup-delete_example :
    lookup by_number 10 (delete by_number 20 two_keys).1
    ≡ (if is_equal (by_number 10 20) then none else lookup by_number 10 two_keys)
lookup-delete_example =
    lookup-delete by_number by_number-IsLawful 20 10 two_keys two_keys-IsOrdered two_keys-IsDistinct
