-- ===== src/Shipper/Archives/Trees.antt =====
-- The tree of archscan_sort_in() and archscan_sort_out(), src/slony_logshipper/slony_logshipper.c.
use slony1_engine.Base.{
  ℕ, ◌+◌, ◌≡◌, refl, sym, subst, Bool, true, false, not, ◌&&◌, List, [], ◌∷◌, ◌++◌, if◌then◌else◌,
  filter, arith, All, All-append, All-left, All-right, All-imp,
}
use slony1_engine.Base.Strings.{is_before, is_before_asym, not_before_trans}
use slony1_engine.Misc.{strcmp_eq}
use slony1_engine.Shipper.Sorted.{IsSorted, occurs, occurs-append}
use slony1_engine.Shipper.Archives.{
  ArchscanEntry, nil, entry, sort_in, archscan_sort_in, is_ignored, is_applied, is_archive,
  scan_names,
}

-- The names of the tree, from left to right.
unfoldable pub in_order : ArchscanEntry → List (List ℕ)
in_order nil = []
in_order (entry f l r) = in_order l ++ f ∷ in_order r

-- On the left are names before the entry's, on the right none.
unfoldable pub IsOrdered : ArchscanEntry → Type 0
unfolding in_order
IsOrdered nil = Unit
IsOrdered (entry f l r) =
    All (λ g. is_before g f ≡ true) (in_order l)
    × All (λ g. is_before g f ≡ false) (in_order r)
    × IsOrdered l
    × IsOrdered r

module _ (fname : List ℕ) where
  All-sort_in :
      (P : List ℕ → Type 0) (t : ArchscanEntry)
      → P fname
      → All P (in_order t)
      → All P (in_order (sort_in fname t))
  unfolding in_order sort_in
  All-sort_in P nil h k = (h, tt)
  All-sort_in P (entry f l r) h k =
      elim (is_before fname f)
        as (λ b.
          All P
            (in_order (if b then entry f (sort_in fname l) r else entry f l (sort_in fname r)))) [
              | true ↦
                  All-append P (in_order (sort_in fname l)) (f ∷ in_order r)
                    (All-sort_in P l h (All-left P (in_order l) (f ∷ in_order r) k))
                    (All-right P (in_order l) (f ∷ in_order r) k)
              | false ↦
                  let right = All-right P (in_order l) (f ∷ in_order r) k in
                  All-append P (in_order l) (f ∷ in_order (sort_in fname r))
                    (All-left P (in_order l) (f ∷ in_order r) k)
                    (right.0, All-sort_in P r h right.1)
            ]

  sort_in-IsOrdered : (t : ArchscanEntry) → IsOrdered t → IsOrdered (sort_in fname t)
  unfolding IsOrdered sort_in
  sort_in-IsOrdered nil h = (tt, tt, tt, tt)
  sort_in-IsOrdered (entry f l r) h =
      elim (is_before fname f)
          as (λ b.
            is_before fname f ≡ b
            → IsOrdered (if b then entry f (sort_in fname l) r else entry f l (sort_in fname r))) [
              | true ↦ λ e. (
                All-sort_in (λ g. is_before g f ≡ true) l e h.0,
                h.1,
                sort_in-IsOrdered l h.2,
                h.3,
              )
              | false ↦ λ e. (
                h.0,
                All-sort_in (λ g. is_before g f ≡ false) r e h.1,
                h.2,
                sort_in-IsOrdered r h.3,
              )
            ]
        refl

  occurs-sort_in :
      (x : List ℕ) (t : ArchscanEntry)
      → occurs x (in_order (sort_in fname t))
        ≡ (if strcmp_eq x fname then 1 else 0) + occurs x (in_order t)
  unfolding occurs in_order sort_in
  occurs-sort_in x nil = omega arith
  occurs-sort_in x (entry f l r) =
      elim (is_before fname f)
        as (λ b.
          occurs x
            (in_order (if b then entry f (sort_in fname l) r else entry f l (sort_in fname r)))
          ≡ (if strcmp_eq x fname then 1 else 0) + occurs x (in_order l ++ f ∷ in_order r)) [
            | true ↦ omega (
              arith,
              occurs-append x (in_order (sort_in fname l)) (f ∷ in_order r),
              occurs-append x (in_order l) (f ∷ in_order r),
              occurs-sort_in x l,
            )
            | false ↦ omega (
              arith,
              occurs-append x (in_order l) (f ∷ in_order (sort_in fname r)),
              occurs-append x (in_order l) (f ∷ in_order r),
              occurs-sort_in x r,
            )
          ]

IsSorted-join :
    (xs : List (List ℕ)) (f : List ℕ) (ys : List (List ℕ))
    → IsSorted xs
    → All (λ g. is_before g f ≡ true) xs
    → IsSorted (f ∷ ys)
    → IsSorted (xs ++ f ∷ ys)
IsSorted-join [] f ys h k l = l
IsSorted-join (x ∷ xs) f ys h k l =
    let above : All (λ g. is_before g x ≡ false) ys =
      All-imp (λ g m. not_before_trans x f g (is_before_asym x f k.0) m) ys l.0 in
    (
      All-append (λ g. is_before g x ≡ false) xs (f ∷ ys) h.0 (is_before_asym x f k.0, above),
      IsSorted-join xs f ys h.1 k.1 l,
    )

-- An ordered tree gives its names in order.
pub in_order-IsSorted : (t : ArchscanEntry) → IsOrdered t → IsSorted (in_order t)
unfolding in_order IsOrdered
in_order-IsSorted nil h = tt
in_order-IsSorted (entry f l r) h =
    IsSorted-join (in_order l) f (in_order r) (in_order-IsSorted l h.2) h.0
      (h.1, in_order-IsSorted r h.3)

-- Whether a name of the directory goes to the tree.
abbrev pub is_wanted : List ℕ → List (List ℕ) → List ℕ → Bool
is_wanted done args fname =
    not (is_applied done fname) && is_archive fname && not (is_ignored args fname)

scan_step :
    (done : List ℕ) (args : List (List ℕ)) (f : List ℕ) (t : ArchscanEntry)
    → (if is_applied done f then t else if is_archive f then archscan_sort_in args f t else t)
      ≡ (if is_wanted done args f then sort_in f t else t)
unfolding archscan_sort_in
scan_step done args f t = ground arith

if-IsOrdered :
    (b : Bool) (f : List ℕ) (t : ArchscanEntry)
    → IsOrdered t
    → IsOrdered (if b then sort_in f t else t)
if-IsOrdered true f t h = sort_in-IsOrdered f t h
if-IsOrdered false f t h = h

occurs-if :
    (b : Bool) (x f : List ℕ) (t : ArchscanEntry) (rest : List (List ℕ))
    → occurs x (if b then f ∷ rest else rest) + occurs x (in_order t)
      ≡ occurs x rest + occurs x (in_order (if b then sort_in f t else t))
unfolding occurs
occurs-if true x f t rest = omega (arith, occurs-sort_in f x t)
occurs-if false x f t rest = refl

-- The scan makes an ordered tree, with each name that is wanted as often as the directory has it.
pub scan_names_lem :
    (done : List ℕ) (args names : List (List ℕ)) (t : ArchscanEntry)
    → IsOrdered t
    → IsOrdered (scan_names done args names t)
      × ((x : List ℕ)
          → occurs x (in_order (scan_names done args names t))
            ≡ occurs x (filter (is_wanted done args) names) + occurs x (in_order t))
unfolding scan_names filter occurs
scan_names_lem done args [] t h = (h, λ x. omega arith)
scan_names_lem done args (f ∷ fs) t h =
    let b = is_wanted done args f in
    let u = if b then sort_in f t else t in
    let rest = filter (is_wanted done args) fs in
    let x = scan_names_lem done args fs u (if-IsOrdered b f t h) in
    subst
      (λ v.
        IsOrdered (scan_names done args fs v)
        × ((x : List ℕ)
            → occurs x (in_order (scan_names done args fs v))
              ≡ occurs x (if b then f ∷ rest else rest) + occurs x (in_order t)))
      (sym (scan_step done args f t)) (x.0, λ y. omega (arith, x.1 y, occurs-if b y f t rest))

pub All-scan_names :
    (P : List ℕ → Type 0) (done : List ℕ) (args names : List (List ℕ)) (t : ArchscanEntry)
    → All P names
    → All P (in_order t)
    → All P (in_order (scan_names done args names t))
unfolding scan_names
All-scan_names P done args [] t h k = k
All-scan_names P done args (f ∷ fs) t h k =
    let b = is_wanted done args f in
    subst (λ v. All P (in_order (scan_names done args fs v))) (sym (scan_step done args f t))
      (All-scan_names P done args fs (if b then sort_in f t else t) h.1
        (elim b as (λ c. All P (in_order (if c then sort_in f t else t))) [
          | true ↦ All-sort_in f P t h.0 k
          | false ↦ k
        ]))
