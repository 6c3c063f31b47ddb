-- ===== src/Misc/Integers.antt =====
-- slon_scanint64() of src/slon/misc.c and the integers in decimal.
use slony1_engine.Base.{
  ℕ, zero, suc, ◌+◌, ◌-◌, ◌*◌, ◌≤◌, ◌<◌, ◌≡◌, ◌≢◌, refl, ap, sym, ◌∙◌, Bool, true, false, Option,
  none, some, List, [], ◌∷◌, if◌then◌else◌, ltb, ◌==◌, arith, Bool-cases, lt_cases, inl, inr,
}
use slony1_engine.Base.Int.{ℤ, pos, negsuc, sub_ℕ, ◌+ℤ◌, ◌*ℤ◌, ◌==ℤ◌, ==ℤ_iff}
use slony1_engine.Misc.{
  is_digit, sign_bit, wrap_int64, quot_10, skip_spaces, strcmp_eq, scan_digits, scan_number,
  min_digits, min_int64, negated, scan_signed, slon_scanint64,
}

-- The value of a text of digits, behind digits with the value t.
unfoldable pub value_from : ℕ → List ℕ → Option ℕ
value_from t [] = some t
value_from t (c ∷ cs) =
    let rest = value_from (t * 10 + (c - b'0')) cs in if is_digit c then rest else none

unfoldable pub read_natural : List ℕ → Option ℕ
unfolding value_from
read_natural [] = none
read_natural (c ∷ cs) = value_from 0 (c ∷ cs)

abbrev pub with_sign : (ℕ → ℤ) → Option ℕ → Option ℤ
with_sign f none = none
with_sign f (some n) = some (f n)

-- An integer of any size: spaces, a sign or none, and digits, at least one.
unfoldable pub read_signed : List ℕ → Option ℤ
unfolding read_natural
read_signed [] = none
read_signed (c ∷ cs) =
    if c == b'-'
    then with_sign (λ n. sub_ℕ 0 n) (read_natural cs)
    else if c == b'+'
    then with_sign pos (read_natural cs)
    else with_sign pos (read_natural (c ∷ cs))

unfoldable pub read_integer : List ℕ → Option ℤ
unfolding skip_spaces read_signed
read_integer str = read_signed (skip_spaces str)

abbrev pub fits_int64 : ℤ → Bool
fits_int64 (pos n) = ltb n sign_bit
fits_int64 (negsuc n) = ltb n sign_bit

-- An integer that an int64 can hold.
abbrev pub bounded : Option ℤ → Option ℤ
bounded none = none
bounded (some v) = if fits_int64 v then some v else none

-- One digit: the sum is kept exactly if it did not overflow, and the check tells.
add_digit :
    (t d : ℕ)
    → t < sign_bit
    → d < 10
    → t * 10 + d < sign_bit
    → wrap_int64 (pos t *ℤ pos 10 +ℤ pos d) ≡ pos (t * 10 + d)
unfolding wrap_int64 ◌+ℤ◌ ◌*ℤ◌
add_digit t d h k l = ground arith

add_digit_overflow :
    (t d : ℕ)
    → t < sign_bit
    → d < 10
    → sign_bit ≤ t * 10 + d
    → (quot_10 (wrap_int64 (pos t *ℤ pos 10 +ℤ pos d)) ==ℤ pos t) ≡ false
unfolding wrap_int64 quot_10 ◌+ℤ◌ ◌*ℤ◌
add_digit_overflow t d h k l = ground arith

quot_add_digit : (t d : ℕ) → d < 10 → (quot_10 (pos (t * 10 + d)) ==ℤ pos t) ≡ true
unfolding quot_10
quot_add_digit t d k = ground arith

-- More digits do not lower the value.
value_from_large :
    (t : ℕ) (cs : List ℕ) → sign_bit ≤ t → bounded (with_sign pos (value_from t cs)) ≡ none
unfolding value_from
value_from_large t [] h = ground arith
value_from_large t (c ∷ cs) h = ground (arith, value_from_large (t * 10 + (c - b'0')) cs)

scan_digits_lem :
    (cs : List ℕ) (t : ℕ)
    → t < sign_bit
    → scan_digits cs (pos t) ≡ bounded (with_sign pos (value_from t cs))
unfolding scan_digits value_from
scan_digits_lem [] t h = ground arith
scan_digits_lem (c ∷ cs) t h = elim (Bool-cases (is_digit c)) [
  | inr junk ↦ ground arith
  | inl digit ↦ elim (lt_cases (t * 10 + (c - b'0')) sign_bit) [
    | inl small ↦ ground (
      arith,
      add_digit t (c - b'0') h (ground arith) small,
      quot_add_digit t (c - b'0') (ground arith),
      scan_digits_lem cs (t * 10 + (c - b'0')) small,
    )
    | inr large ↦ ground (
      arith,
      add_digit_overflow t (c - b'0') h (ground arith) large,
      value_from_large (t * 10 + (c - b'0')) cs large,
    )
  ]
]

scan_number_lem : (cs : List ℕ) → scan_number cs ≡ bounded (with_sign pos (read_natural cs))
unfolding scan_number read_natural value_from
scan_number_lem [] = refl
scan_number_lem (c ∷ cs) = ground (arith, scan_digits_lem (c ∷ cs) 0 (omega arith))

negated_lem :
    (n : Option ℕ)
    → n ≢ some sign_bit
    → negated (bounded (with_sign pos n)) ≡ bounded (with_sign (λ m. sub_ℕ 0 m) n)
negated_lem none h = refl
negated_lem (some zero) h = refl
negated_lem (some (suc m)) h =
    let other : suc m ≢ sign_bit = λ e. h (ap (λ (k : ℕ). some k) e) in ground arith

strcmp_eq_lem : (xs ys : List ℕ) → strcmp_eq xs ys ≡ true → xs ≡ ys
unfolding strcmp_eq
strcmp_eq_lem [] [] h = refl
strcmp_eq_lem [] (y ∷ ys) h = cc
strcmp_eq_lem (x ∷ xs) [] h = cc
strcmp_eq_lem (x ∷ xs) (y ∷ ys) h = ground (arith, strcmp_eq_lem xs ys)

read_natural-min_digits : read_natural min_digits ≡ some sign_bit
unfolding read_natural value_from
read_natural-min_digits = refl

scan_signed_minus :
    (cs : List ℕ)
    → read_natural cs ≢ some sign_bit
    → (if strcmp_eq cs min_digits then some min_int64 else negated (scan_number cs))
      ≡ bounded (with_sign (λ m. sub_ℕ 0 m) (read_natural cs))
scan_signed_minus cs h = elim (Bool-cases (strcmp_eq cs min_digits)) [
  | inl same ↦
      absurd (h (ap read_natural (strcmp_eq_lem cs min_digits same) ∙ read_natural-min_digits))
  | inr other ↦ rw (other, scan_number_lem cs) (negated_lem (read_natural cs) h)
]

scan_signed_lem :
    (cs : List ℕ) → read_signed cs ≢ some min_int64 → scan_signed cs ≡ bounded (read_signed cs)
unfolding scan_signed read_signed
scan_signed_lem [] h = refl
scan_signed_lem (c ∷ cs) h = elim (Bool-cases (c == b'-')) [
  | inl minus ↦
      rw minus (scan_signed_minus cs (λ e. h (rw minus (ap (λ n. with_sign (λ m. sub_ℕ 0 m) n) e))))
  | inr other ↦ elim (Bool-cases (c == b'+')) [
    | inl plus ↦ rw (other, plus) (scan_number_lem cs)
    | inr bare ↦ rw (other, bare) (scan_number_lem (c ∷ cs))
  ]
]

pub slon_scanint64-bounded :
    (str : List ℕ)
    → read_integer str ≢ some min_int64
    → slon_scanint64 str ≡ bounded (read_integer str)
unfolding slon_scanint64 read_integer
slon_scanint64-bounded str h = scan_signed_lem (skip_spaces str) h

-- The texts of -2^63.
scan_number_large : (cs : List ℕ) → read_natural cs ≡ some sign_bit → scan_number cs ≡ none
scan_number_large cs h = scan_number_lem cs ∙ ap (λ n. bounded (with_sign pos n)) h

natural_of_min : (n : Option ℕ) → with_sign (λ m. sub_ℕ 0 m) n ≡ some min_int64 → n ≡ some sign_bit
natural_of_min none h = absurd (ground arith)
natural_of_min (some zero) h = absurd (ground arith)
natural_of_min (some (suc m)) h = ground arith

not_positive : (n : Option ℕ) → with_sign pos n ≢ some min_int64
not_positive none h = cc
not_positive (some m) h = ground arith

-- The shortest text of -2^63.
abbrev pub min_text : List ℕ
min_text = b'-' ∷ min_digits

scan_signed_min :
    (cs : List ℕ)
    → read_signed cs ≡ some min_int64
    → scan_signed cs ≡ (if strcmp_eq cs min_text then some min_int64 else none)
unfolding scan_signed read_signed strcmp_eq
scan_signed_min [] h = cc
scan_signed_min (c ∷ cs) h = elim (Bool-cases (c == b'-')) [
  | inl minus ↦
      let x : with_sign (λ m. sub_ℕ 0 m) (read_natural cs) ≡ some min_int64 = rw minus at h in
      let large : scan_number cs ≡ none =
        scan_number_large cs (natural_of_min (read_natural cs) x) in
      rw (minus, large) refl
  | inr other ↦ elim (Bool-cases (c == b'+')) [
    | inl plus ↦
        let x : with_sign pos (read_natural cs) ≡ some min_int64 = rw (other, plus) at h in
        absurd (not_positive (read_natural cs) x)
    | inr bare ↦
        let x : with_sign pos (read_natural (c ∷ cs)) ≡ some min_int64 = rw (other, bare) at h in
        absurd (not_positive (read_natural (c ∷ cs)) x)
  ]
]

-- The integers that fit, of -2^63 only the shortest text.
abbrev pub accepted : List ℕ → Option ℤ → Option ℤ
accepted text none = none
accepted text (some v) =
    if v ==ℤ min_int64
    then (if strcmp_eq text min_text then some min_int64 else none)
    else bounded (some v)

scan_signed-accepted :
    (cs : List ℕ) (n : Option ℤ) → read_signed cs ≡ n → scan_signed cs ≡ accepted cs n
scan_signed-accepted cs none h = scan_signed_lem cs (λ e. cc) ∙ ap bounded h
scan_signed-accepted cs (some v) h = elim (Bool-cases (v ==ℤ min_int64)) [
  | inl same ↦
      rw same (scan_signed_min cs (h ∙ ap (λ (w : ℤ). some w) ((==ℤ_iff v min_int64).0 same)))
  | inr other ↦
      let differs : read_signed cs ≢ some min_int64 =
        λ e. let x : some v ≡ some min_int64 = sym h ∙ e in ground (arith, ==ℤ_iff v min_int64) in
      rw other (scan_signed_lem cs differs ∙ ap bounded h)
]

-- slon_scanint64() accepts the texts of an integer that fits into 64 bits and returns its value, and
-- no others, except that of the texts of -2^63 it accepts, behind spaces, just
-- "-9223372036854775808": neither an overflow nor a character that does not belong to the number goes
-- unnoticed.
pub slon_scanint64-accepted :
    (str : List ℕ) → slon_scanint64 str ≡ accepted (skip_spaces str) (read_integer str)
unfolding slon_scanint64 read_integer
slon_scanint64-accepted str =
    scan_signed-accepted (skip_spaces str) (read_signed (skip_spaces str)) refl
