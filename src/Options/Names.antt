-- ===== src/Options/Names.antt =====
-- The comparison of names by which src/slon/confoptions.c sorts the options and finds one.
use slony1_engine.Base.{
  ℕ, ◌≡◌, ◌↔◌, refl, sym, ap, ◌∙◌, true, List, [], ◌∷◌, if◌then◌else◌, ◌==◌, map, arith,
}
use slony1_engine.Base.Int.{ℤ, pos, negsuc, sub_ℕ, is_negative, ==ℤ_iff}
use slony1_engine.Misc.{negate}
use slony1_engine.Options.{downcase, conf_name_compare, same_name}

abbrev pub folded : List ℕ → List ℕ
folded cs = map downcase cs

-- With the characters in lower case the comparison is lexicographic.
compare_folded : List ℕ → List ℕ → ℤ
compare_folded [] [] = pos 0
compare_folded [] (b ∷ bs) = negsuc 0
compare_folded (a ∷ cs) [] = pos 1
compare_folded (a ∷ cs) (b ∷ bs) =
    let rest = compare_folded cs bs in if a == b then rest else sub_ℕ a b

conf_name_compare-folded :
    (a b : List ℕ) → conf_name_compare a b ≡ compare_folded (folded a) (folded b)
unfolding conf_name_compare compare_folded
conf_name_compare-folded [] [] = refl
conf_name_compare-folded [] (b ∷ bs) = refl
conf_name_compare-folded (a ∷ cs) [] = refl
conf_name_compare-folded (a ∷ cs) (b ∷ bs) = rw (conf_name_compare-folded cs bs) refl

compare_folded_swap : (a b : List ℕ) → compare_folded b a ≡ negate (compare_folded a b)
unfolding compare_folded
compare_folded_swap [] [] = refl
compare_folded_swap [] (b ∷ bs) = refl
compare_folded_swap (a ∷ cs) [] = refl
compare_folded_swap (a ∷ cs) (b ∷ bs) = ground (arith, compare_folded_swap cs bs)

compare_folded_zero : (a b : List ℕ) → compare_folded a b ≡ pos 0 → a ≡ b
unfolding compare_folded
compare_folded_zero [] [] h = refl
compare_folded_zero [] (b ∷ bs) h = cc
compare_folded_zero (a ∷ cs) [] h = ground arith
compare_folded_zero (a ∷ cs) (b ∷ bs) h = ground (arith, compare_folded_zero cs bs)

compare_folded_refl : (a : List ℕ) → compare_folded a a ≡ pos 0
unfolding compare_folded
compare_folded_refl [] = refl
compare_folded_refl (a ∷ cs) = ground (arith, compare_folded_refl cs)

compare_folded_trans :
    (a b c : List ℕ)
    → is_negative (compare_folded a b) ≡ true
    → is_negative (compare_folded b c) ≡ true
    → is_negative (compare_folded a c) ≡ true
unfolding compare_folded
compare_folded_trans [] [] c h k = ground arith
compare_folded_trans [] (b ∷ bs) [] h k = ground arith
compare_folded_trans [] (b ∷ bs) (c ∷ cs) h k = refl
compare_folded_trans (a ∷ as1) [] c h k = ground arith
compare_folded_trans (a ∷ as1) (b ∷ bs) [] h k = ground arith
compare_folded_trans (a ∷ as1) (b ∷ bs) (c ∷ cs) h k =
    ground (arith, compare_folded_trans as1 bs cs)

-- Names compare equal exactly if they are the same up to the case of their letters, and the
-- comparison of two names the other way round has the opposite sign.
conf_name_compare_swap :
    (a b : List ℕ)
    → (conf_name_compare b a ≡ negate (conf_name_compare a b))
      × ((conf_name_compare a b ≡ pos 0) ↔ (folded a ≡ folded b))
conf_name_compare_swap a b = (
  rw (conf_name_compare-folded b a, conf_name_compare-folded a b)
      (compare_folded_swap (folded a) (folded b)),
  (
    (λ h. compare_folded_zero (folded a) (folded b) (sym (conf_name_compare-folded a b) ∙ h)),
    (λ e.
        conf_name_compare-folded a b
        ∙ ap (λ x. compare_folded x (folded b)) e
        ∙ compare_folded_refl (folded b)),
  ),
)

-- A name that comes before a second one, and the second before a third, comes before the third: with
-- the sign rule this is what qsort() and bsearch() ask of the comparison.
conf_name_compare_trans :
    (a b c : List ℕ)
    → is_negative (conf_name_compare a b) ≡ true
    → is_negative (conf_name_compare b c) ≡ true
    → is_negative (conf_name_compare a c) ≡ true
conf_name_compare_trans a b c h k = rw (conf_name_compare-folded a c) (
    compare_folded_trans (folded a) (folded b) (folded c) (rw (conf_name_compare-folded a b) at h)
      (rw (conf_name_compare-folded b c) at k))

pub same_name_iff : (a b : List ℕ) → (same_name a b ≡ true) ↔ (folded a ≡ folded b)
same_name_iff a b = (
  (λ h. (conf_name_compare_swap a b).1.0 ((==ℤ_iff (conf_name_compare a b) (pos 0)).0 h)),
  (λ e. (==ℤ_iff (conf_name_compare a b) (pos 0)).1 ((conf_name_compare_swap a b).1.1 e)),
)
