-- ===== src/Avl/Callbacks.antt =====
-- Two comparison callbacks that agree on the elements of a tree are the same to src/misc/avl_tree.c.
use slony1_engine.Base.{ℕ, ◌≡◌, refl, Bool, ◌∷◌, Ordering, All, All-left, All-right}
use slony1_engine.Avl.{Node, nil, node, entries, insertinto, insert, lookup}

module _ {ℓ} {C : Type ℓ} (f g : C → C → Ordering) where
  abbrev pub Agrees : C → Node C → Type 0
  Agrees d t = All (λ e. f d e.cdata ≡ g d e.cdata) (entries t)

  insertinto-Agrees :
      (has_free : Bool) (null : C) (a : ℕ) (d : C) (t : Node C)
      → Agrees d t
      → insertinto f has_free null a d t ≡ insertinto g has_free null a d t
  unfolding insertinto
  insertinto-Agrees has_free null a d nil h = refl
  insertinto-Agrees has_free null a d (node l ld e rd r) h =
      let left = All-left (λ x. f d x.cdata ≡ g d x.cdata) (entries l) (e ∷ entries r) h in
      let right = All-right (λ x. f d x.cdata ≡ g d x.cdata) (entries l) (e ∷ entries r) h in
      let here : f d e.cdata ≡ g d e.cdata = right.0 in
      cc (
        here,
        insertinto-Agrees has_free null a d l left,
        insertinto-Agrees has_free null a d r right.1,
      )

  pub insert-Agrees :
      (has_free : Bool) (null : C) (a : ℕ) (d : C) (t : Node C)
      → Agrees d t
      → insert f has_free null a d t ≡ insert g has_free null a d t
  unfolding insert
  insert-Agrees has_free null a d nil h = refl
  insert-Agrees has_free null a d (node l ld e rd r) h =
      insertinto-Agrees has_free null a d (node l ld e rd r) h

  pub lookup-Agrees : (d : C) (t : Node C) → Agrees d t → lookup f d t ≡ lookup g d t
  unfolding lookup
  lookup-Agrees d nil h = refl
  lookup-Agrees d (node l ld e rd r) h =
      let left = All-left (λ x. f d x.cdata ≡ g d x.cdata) (entries l) (e ∷ entries r) h in
      let right = All-right (λ x. f d x.cdata ≡ g d x.cdata) (entries l) (e ∷ entries r) h in
      let here : f d e.cdata ≡ g d e.cdata = right.0 in
      cc (here, lookup-Agrees d l left, lookup-Agrees d r right.1)
