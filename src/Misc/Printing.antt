-- ===== src/Misc/Printing.antt =====
-- slon_scanint64() of src/slon/misc.c reads back what is printed in decimal.
use slony1_engine.Base.{
  ℕ, zero, suc, ◌+◌, ◌-◌, ◌*◌, ◌/◌, ◌%◌, ◌<◌, ◌≡◌, ◌≢◌, refl, sym, ap, ◌∙◌, Bool, true, false, some,
  List, [], ◌∷◌, ◌++◌, arith, Bool-cases, inl, inr,
}
use slony1_engine.Base.Int.{ℤ, pos, negsuc, ◌==ℤ◌, ==ℤ_iff}
use slony1_engine.Base.Decimal.{digits_of, decimal, decimal_ℤ}
use slony1_engine.Misc.{skip_spaces, strcmp_eq, min_int64, scan_signed, slon_scanint64}
use slony1_engine.Misc.Integers.{
  value_from, read_natural, read_signed, read_integer, fits_int64, bounded, slon_scanint64-bounded,
}

value_from-snoc :
    (t v d : ℕ) (cs : List ℕ)
    → d < 10
    → value_from t cs ≡ some v
    → value_from t (cs ++ (b'0' + d) ∷ []) ≡ some (v * 10 + d)
unfolding value_from
value_from-snoc t v d [] k h = ground arith
value_from-snoc t v d (c ∷ cs) k h = ground (arith, value_from-snoc (t * 10 + (c - b'0')) v d cs k)

value_from-digits_of : (fuel n : ℕ) → n < fuel → value_from 0 (digits_of fuel n) ≡ some n
unfolding digits_of value_from
value_from-digits_of zero n h = absurd (omega arith)
value_from-digits_of (suc fuel) n h = digit (n / 10) refl (λ m k. value_from-digits_of fuel m k)
  where
    digit :
        (q : ℕ)
        → n / 10 ≡ q
        → ((m : ℕ) → m < fuel → value_from 0 (digits_of fuel m) ≡ some m)
        → value_from 0 (elim q [
          | zero ↦ (b'0' + n % 10) ∷ []
          | suc m ↦ digits_of fuel (suc m) ++ (b'0' + n % 10) ∷ []
        ])
          ≡ some n
    digit zero e ih =
        value_from-snoc 0 0 (n % 10) [] (omega arith) refl ∙ ap (λ (k : ℕ). some k) (omega arith)
    digit (suc m) e ih =
        value_from-snoc 0 (suc m) (n % 10) (digits_of fuel (suc m)) (omega arith)
          (ih (suc m) (omega arith))
        ∙ ap (λ (k : ℕ). some k) (omega arith)

value_from-decimal : (n : ℕ) → value_from 0 (decimal n) ≡ some n
unfolding decimal
value_from-decimal n = value_from-digits_of (suc n) n (omega arith)

-- There is at least one digit.
is_empty : List ℕ → Bool
is_empty [] = true
is_empty (c ∷ cs) = false

decimal_full : (n : ℕ) → is_empty (decimal n) ≡ false
unfolding decimal digits_of is_empty
decimal_full n = digit (n / 10)
  where
    snoc : (c : ℕ) (cs : List ℕ) → is_empty (cs ++ c ∷ []) ≡ false
    snoc c [] = refl
    snoc c (x ∷ cs) = refl

    digit :
        (q : ℕ)
        → is_empty (elim q [
          | zero ↦ (b'0' + n % 10) ∷ []
          | suc m ↦ digits_of n (suc m) ++ (b'0' + n % 10) ∷ []
        ])
          ≡ false
    digit zero = refl
    digit (suc m) = snoc (b'0' + n % 10) (digits_of n (suc m))

read_natural_full :
    (n : ℕ) (cs : List ℕ)
    → is_empty cs ≡ false
    → value_from 0 cs ≡ some n
    → read_natural cs ≡ some n
unfolding read_natural is_empty
read_natural_full n [] h e = cc
read_natural_full n (c ∷ cs) h e = e

read_integer_full :
    (n : ℕ) (cs : List ℕ)
    → is_empty cs ≡ false
    → value_from 0 cs ≡ some n
    → read_integer cs ≡ some (pos n)
unfolding read_integer read_signed skip_spaces value_from is_empty
read_integer_full n [] h e = cc
read_integer_full n (c ∷ cs) h e =
    let number : read_natural (c ∷ cs) ≡ some n = read_natural_full n (c ∷ cs) h e in ground arith

read_natural-decimal : (n : ℕ) → read_natural (decimal n) ≡ some n
read_natural-decimal n = read_natural_full n (decimal n) (decimal_full n) (value_from-decimal n)

-- Every integer, of any size, is read back from its decimal text.
read_integer-decimal_ℤ : (v : ℤ) → read_integer (decimal_ℤ v) ≡ some v
unfolding decimal_ℤ read_integer read_signed skip_spaces
read_integer-decimal_ℤ (pos n) =
    read_integer_full n (decimal n) (decimal_full n) (value_from-decimal n)
read_integer-decimal_ℤ (negsuc n) =
    rw (read_natural-decimal (suc n)) (ap (λ (k : ℤ). some k) (ground arith))

slon_scanint64-min : slon_scanint64 (decimal_ℤ min_int64) ≡ some min_int64
unfolding slon_scanint64 decimal_ℤ decimal digits_of skip_spaces scan_signed strcmp_eq
slon_scanint64-min = refl

-- Every 64-bit integer is read back from its decimal text, -2^63 included.
pub slon_scanint64-decimal_ℤ : (v : ℤ) → fits_int64 v ≡ true → slon_scanint64 (decimal_ℤ v) ≡ some v
slon_scanint64-decimal_ℤ v h = elim (Bool-cases (v ==ℤ min_int64)) [
  | inl least ↦ rw ((==ℤ_iff v min_int64).0 least) slon_scanint64-min
  | inr other ↦
      slon_scanint64-bounded (decimal_ℤ v)
        (λ e. absurd (differs other (sym (read_integer-decimal_ℤ v) ∙ e)))
      ∙ ap bounded (read_integer-decimal_ℤ v)
      ∙ rw h refl
]
  where
    differs : (v ==ℤ min_int64) ≡ false → some v ≢ some min_int64
    differs other e = ground (arith, ==ℤ_iff v min_int64)
