-- ===== src/Avl/Upsert.antt =====
-- The reference update of a sorted list of entries keeps what avl_tree.c relies on, and reads
-- back as the update of a map.
use Prim.Native.Nat.Ordering.{lt, eq}
use slony1_engine.Base.{
  ℕ, ◌≡◌, ◌≢◌, refl, sym, false, some, List, [], ◌∷◌, Ordering, Ordering-cases, inl, inr, arith,
  All, All-imp,
}
use slony1_engine.Avl.{Entry}
use slony1_engine.Avl.Order.{IsLawful}
use slony1_engine.Avl.Sorted.{IsSorted, IsDistinct, IsLive, hit, upsert}

module _ {ℓ} {C : Type ℓ} (compfunc : C → C → Ordering) where
  All-upsert {κ} :
      (P : Entry C → Type κ) (a : ℕ) (d : C) (es : List (Entry C))
      → P (record { addr = a; cdata = d; deleted = false })
      → ((e : Entry C) → P e → P (record e { cdata = d }))
      → All P es
      → All P (upsert compfunc a d es)
  unfolding upsert
  All-upsert P a d [] p k h = (p, tt)
  All-upsert P a d (e ∷ es) p k h = ground (arith, k e, All-upsert P a d es p k)

  pub upsert-IsLive :
      (a : ℕ) (d : C) (es : List (Entry C)) → IsLive es → IsLive (upsert compfunc a d es)
  upsert-IsLive a d es h = All-upsert (λ e. e.deleted ≡ false) a d es refl (λ e p. p) h

  -- The keys of the entries satisfy `P`, and so does the new one.
  pub upsert-cdata {κ} :
      (P : C → Type κ) (a : ℕ) (d : C) (es : List (Entry C))
      → P d
      → All (λ e. P e.cdata) es
      → All (λ e. P e.cdata) (upsert compfunc a d es)
  upsert-cdata P a d es p h = All-upsert (λ e. P e.cdata) a d es p (λ e q. p) h

  pub upsert-addr {κ} :
      (P : ℕ → Type κ) (a : ℕ) (d : C) (es : List (Entry C))
      → P a
      → All (λ e. P e.addr) es
      → All (λ e. P e.addr) (upsert compfunc a d es)
  upsert-addr P a d es p h = All-upsert (λ e. P e.addr) a d es p (λ e q. q) h

  pub upsert-IsDistinct :
      (a : ℕ) (d : C) (es : List (Entry C))
      → All (λ e. e.addr ≢ a) es
      → IsDistinct es
      → IsDistinct (upsert compfunc a d es)
  unfolding upsert
  upsert-IsDistinct a d [] n s = (tt, tt)
  upsert-IsDistinct a d (e ∷ es) n s = ground (
    arith,
    upsert-IsDistinct a d es n.1 s.1,
    upsert-addr (λ b. b ≢ e.addr) a d es (λ p. n.0 (sym p)) s.0,
  )

  module _ (o : IsLawful compfunc) where
    pub upsert-IsSorted :
        (a : ℕ) (d : C) (es : List (Entry C))
        → IsSorted compfunc es
        → IsSorted compfunc (upsert compfunc a d es)
    unfolding upsert
    upsert-IsSorted a d [] h = (tt, tt)
    upsert-IsSorted a d (e ∷ es) h = ground (
      arith,
      upsert-IsSorted a d es h.1,
      upsert-cdata (λ c. compfunc e.cdata c ≡ lt) a d es,
      o.lt_of_gt d e.cdata,
      λ (p : compfunc d e.cdata ≡ lt). All-imp (λ f q. o.lt_trans d e.cdata f.cdata p q) es h.0,
      λ (p : compfunc d e.cdata ≡ eq). All-imp (λ f q. o.eq_lt d e.cdata f.cdata p q) es h.0,
    )

    -- The new data is found under every key that equals it.
    pub hit-upsert_self :
        (a : ℕ) (d k : C) (es : List (Entry C))
        → compfunc k d ≡ eq
        → hit compfunc k (upsert compfunc a d es) ≡ some d
    unfolding hit upsert
    hit-upsert_self a d k [] q = rw (q, hit)
    hit-upsert_self a d k (e ∷ es) q = ground (
      arith,
      hit-upsert_self a d k es q,
      o.lt_of_gt d e.cdata,
      o.lt_eq e.cdata d k,
      o.eq_sym k d,
      o.gt_of_lt e.cdata k,
    )

    -- Every other key reads as before.
    pub hit-upsert_ne :
        (a : ℕ) (d k : C) (es : List (Entry C))
        → compfunc k d ≢ eq
        → hit compfunc k (upsert compfunc a d es) ≡ hit compfunc k es
    unfolding hit upsert
    hit-upsert_ne a d k [] q = elim (Ordering-cases (compfunc k d)) [
      | inl less ↦ rw (less, hit)
      | inr (inl same) ↦ absurd (q same)
      | inr (inr more) ↦ rw (more, hit)
    ]
    hit-upsert_ne a d k (e ∷ es) q = ground (
      arith,
      hit-upsert_ne a d k es q,
      o.lt_trans k d e.cdata,
      o.lt_eq k d e.cdata,
      o.eq_sym d e.cdata,
      o.lt_of_gt k d,
      o.eq_lt e.cdata d k,
      o.gt_of_lt e.cdata k,
    )
