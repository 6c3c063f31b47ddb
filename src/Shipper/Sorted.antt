-- ===== src/Shipper/Sorted.antt =====
-- Sorted insertion, and how often a path is in a queue: what src/slony_logshipper/ipcutil.c keeps.
use slony1_engine.Base.{
  ℕ, suc, ◌+◌, ◌≡◌, refl, ap, ◌⊎◌, inl, inr, true, false, none, some, List, [], ◌∷◌, ◌++◌,
  if◌then◌else◌, length, arith, All, All-imp,
}
use slony1_engine.Base.Strings.{is_before, is_before_asym, not_before_trans}
use slony1_engine.Misc.{strcmp_eq}
use slony1_engine.Query.{◌>>=◌}
use slony1_engine.Shipper.{insert_in_front}

-- No path comes before one in front of it.
abbrev pub IsSorted : List (List ℕ) → Type 0
IsSorted [] = Unit
IsSorted (p ∷ ps) = All (λ q. is_before q p ≡ false) ps × IsSorted ps

-- Sorted insertion, behind the paths that are equal.
unfoldable pub placed : List ℕ → List (List ℕ) → List (List ℕ)
placed path [] = path ∷ []
placed path (p ∷ ps) =
    let rest = placed path ps in if is_before path p then path ∷ p ∷ ps else p ∷ rest

-- How often a path is in a list.
unfoldable pub occurs : List ℕ → List (List ℕ) → ℕ
occurs x [] = 0
occurs x (p ∷ ps) = (if strcmp_eq x p then 1 else 0) + occurs x ps

pub occurs-append :
    (x : List ℕ) (ps qs : List (List ℕ)) → occurs x (ps ++ qs) ≡ occurs x ps + occurs x qs
unfolding occurs
occurs-append x [] qs = omega arith
occurs-append x (p ∷ ps) qs = omega (arith, occurs-append x ps qs)

module _ (path : List ℕ) where
  All-placed : (P : List ℕ → Type 0) (q : List (List ℕ)) → P path → All P q → All P (placed path q)
  unfolding placed
  All-placed P [] h k = (h, tt)
  All-placed P (p ∷ ps) h k =
      elim (is_before path p) as (λ b. All P (if b then path ∷ p ∷ ps else p ∷ placed path ps)) [
        | true ↦ (h, k)
        | false ↦ (k.0, All-placed P ps h k.1)
      ]

  pub placed-IsSorted : (q : List (List ℕ)) → IsSorted q → IsSorted (placed path q)
  unfolding placed
  placed-IsSorted [] h = (tt, tt)
  placed-IsSorted (p ∷ ps) h =
      elim (is_before path p)
          as (λ b.
            is_before path p ≡ b → IsSorted (if b then path ∷ p ∷ ps else p ∷ placed path ps)) [
              | true ↦ λ e.
                  let a = is_before_asym path p e in
                  ((a, All-imp (λ q k. not_before_trans path p q a k) ps h.0), h)
              | false ↦
                  λ e. (All-placed (λ q. is_before q p ≡ false) ps e h.0, placed-IsSorted ps h.1)
            ]
        refl

  pub occurs-placed :
      (x : List ℕ) (q : List (List ℕ))
      → occurs x (placed path q) ≡ (if strcmp_eq x path then 1 else 0) + occurs x q
  unfolding placed occurs
  occurs-placed x [] = omega arith
  occurs-placed x (p ∷ ps) =
      elim (is_before path p)
        as (λ b.
          occurs x (if b then path ∷ p ∷ ps else p ∷ placed path ps)
          ≡ (if strcmp_eq x path then 1 else 0)
            + ((if strcmp_eq x p then 1 else 0) + occurs x ps)) [
              | true ↦ refl
              | false ↦ omega (arith, occurs-placed x ps)
            ]

  pub placed-length : (q : List (List ℕ)) → length (placed path q) ≡ suc (length q)
  unfolding placed
  placed-length [] = refl
  placed-length (p ∷ ps) =
      elim (is_before path p)
        as (λ b. length (if b then path ∷ p ∷ ps else p ∷ placed path ps) ≡ suc (suc (length ps))) [
          | true ↦ refl
          | false ↦ ap suc (placed-length ps)
        ]

  -- The loop finds the place, or the path comes behind all.
  pub insert_in_front_lem :
      (q : List (List ℕ))
      → (insert_in_front path q ≡ some (placed path q))
        ⊎ ((insert_in_front path q ≡ none) × (placed path q ≡ q ++ path ∷ []))
  unfolding insert_in_front placed
  insert_in_front_lem [] = inr (refl, refl)
  insert_in_front_lem (p ∷ ps) =
      elim (is_before path p)
        as (λ b.
          let r =
            if b then some (path ∷ p ∷ ps) else insert_in_front path ps >>= λ q. some (p ∷ q) in
          let s = if b then path ∷ p ∷ ps else p ∷ placed path ps in
          (r ≡ some s) ⊎ ((r ≡ none) × (s ≡ (p ∷ ps) ++ path ∷ []))) [
            | true ↦ inl refl
            | false ↦ elim (insert_in_front_lem ps) [
              | inl e ↦ inl (ap (λ o. o >>= λ q. some (p ∷ q)) e)
              | inr e ↦ inr (ap (λ o. o >>= λ q. some (p ∷ q)) e.0, ap (λ q. p ∷ q) e.1)
            ]
          ]
