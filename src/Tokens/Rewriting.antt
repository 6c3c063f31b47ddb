-- ===== src/Tokens/Rewriting.antt =====
-- What replace_tokens() of src/slonik/slonik.c makes of a script, and that it ends.
use slony1_engine.Base.{
  ℕ, zero, suc, ◌+◌, ◌≤◌, ◌<◌, ◌≡◌, refl, ap, subst, ◌∙◌, true, false, Option, none, some, List, [],
  ◌∷◌, ◌++◌, length, length-append, drop, arith, All, Bool-cases, Option-cases, inl, inr,
}
use slony1_engine.Query.{SlonDString, ◌>>=◌, dstring_append, dstring_addchar}
use slony1_engine.Query.Buffers.{
  IsRoomy, Extends, Extends-join, dstring_addchar-Extends, Extends-refl, Extends-terminate,
  dstring_append-Extends,
}
use slony1_engine.Tokens.{Token, starts_with, find_token, replace_from, replace_tokens}

-- The token stands at the beginning of the script, `rest` behind it.
abbrev pub Stands : Token → List ℕ → Type 0
Stands t src = (rest : List ℕ) × (src ≡ t.old_str ++ rest)

abbrev pub NoneStands : List Token → List ℕ → Type 0
NoneStands ts src = All (λ t. Stands t src → ⊥) ts

-- A script and what it is rewritten to: where a token stands, the first one of the list is replaced
-- and the rest behind it rewritten; elsewhere a character is kept.
pub data Rewrites (ts : List Token) : List ℕ → List ℕ → Type 0 where
  ends : Rewrites ts [] []
  replaces :
      (before : List Token) (t : Token) (after : List Token) {src rest out : List ℕ}
      → ts ≡ before ++ t ∷ after
      → NoneStands before src
      → src ≡ t.old_str ++ rest
      → Rewrites ts rest out
      → Rewrites ts src (t.new_str ++ out)
  keeps :
      {c : ℕ} {cs out : List ℕ}
      → NoneStands ts (c ∷ cs)
      → Rewrites ts cs out
      → Rewrites ts (c ∷ cs) (c ∷ out)

abbrev pub IsFull : Token → Type 0
IsFull t = 0 < length t.old_str

starts_with_lem : (s src : List ℕ) → starts_with s src ≡ true → src ≡ s ++ drop (length s) src
unfolding starts_with drop
starts_with_lem [] src h = refl
starts_with_lem (c ∷ cs) [] h = cc
starts_with_lem (c ∷ cs) (d ∷ ds) h = ground (arith, starts_with_lem cs ds)

starts_with-append : (s rest : List ℕ) → starts_with s (s ++ rest) ≡ true
unfolding starts_with
starts_with-append [] rest = refl
starts_with-append (c ∷ s) rest = ground (arith, starts_with-append s rest)

not_standing : (t : Token) (src : List ℕ) → starts_with t.old_str src ≡ false → Stands t src → ⊥
not_standing t src h (rest, e) =
    let x : starts_with t.old_str src ≡ true =
      ap (starts_with t.old_str) e ∙ starts_with-append t.old_str rest in
    cc

-- The token that is found has a place in the list, and none in front of it stands there.
abbrev IsFirst : List Token → List ℕ → Token → Type 0
IsFirst ts src t =
    (before : List Token) × (after : List Token) × (ts ≡ before ++ t ∷ after)
    × NoneStands before src
    × IsFull t
    × (src ≡ t.old_str ++ drop (length t.old_str) src)

find_token_lem :
    (ts : List Token) (src : List ℕ) (t : Token)
    → find_token ts src ≡ some t
    → All IsFull ts
    → IsFirst ts src t
unfolding find_token
find_token_lem [] src t h f = absurd (ground arith)
find_token_lem (u ∷ ts) src t h f = elim (Bool-cases (starts_with u.old_str src)) [
  | inl here ↦
      let x : some u ≡ some t = ground arith in
      let e : u ≡ t = ap (λ o. elim o [ none ↦ u | some v ↦ v ]) x in
      subst (IsFirst (u ∷ ts) src) e ([], ts, refl, tt, f.0, starts_with_lem u.old_str src here)
  | inr there ↦
      let (before, after, e, none_there, full, place) =
        find_token_lem ts src t (ground arith) f.1 in
      (u ∷ before, after, ap (λ us. u ∷ us) e, (not_standing u src there, none_there), full, place)
]

find_token-none : (ts : List Token) (src : List ℕ) → find_token ts src ≡ none → NoneStands ts src
unfolding find_token
find_token-none [] src h = tt
find_token-none (t ∷ ts) src h = elim (Bool-cases (starts_with t.old_str src)) [
  | inl here ↦ absurd (ground arith)
  | inr there ↦ (not_standing t src there, find_token-none ts src (ground arith))
]

abbrev pub EndsRewritten : List Token → List ℕ → SlonDString → Option SlonDString → Type 0
EndsRewritten ts src d r = (out : List ℕ) × Rewrites ts src out × Extends (some out) d r

length_behind : (s rest src : List ℕ) → src ≡ s ++ rest → length src ≡ length s + length rest
length_behind s rest src e = ap (λ (t : List ℕ). length t) e ∙ length-append s rest

-- One piece of text, and then the loop.
piece_then :
    (ts : List Token) (src rest s : List ℕ) (d : SlonDString) (m : Option SlonDString)
    (k : SlonDString → Option SlonDString)
    → ((out : List ℕ) → Rewrites ts rest out → Rewrites ts src (s ++ out))
    → Extends (some s) d m
    → ((e : SlonDString) → IsRoomy e → EndsRewritten ts rest e (k e))
    → EndsRewritten ts src d (m >>= k)
piece_then ts src rest s d none k w x g = elim x [ ]
piece_then ts src rest s d (some e) k w x g =
    let y = g e x.1 in (s ++ y.0, w y.0 y.1, Extends-join s (some y.0) d e (k e) x y.2)

replace_from-EndsRewritten :
    (fuel : ℕ) (ts : List Token) (src : List ℕ) (d : SlonDString)
    → length src ≤ fuel
    → All IsFull ts
    → IsRoomy d
    → EndsRewritten ts src d (replace_from fuel ts src d)
unfolding replace_from
replace_from-EndsRewritten fuel ts [] d h f r = ([], ends, Extends-refl d r)
replace_from-EndsRewritten zero ts (c ∷ cs) d h f r = absurd (omega arith)
replace_from-EndsRewritten (suc fuel) ts (c ∷ cs) d h f r =
    elim (Option-cases (find_token ts (c ∷ cs))) [
      | inl bare ↦
          rw (bare, replace_from)
            (piece_then ts (c ∷ cs) cs (c ∷ []) d (dstring_addchar c d)
              (λ e. replace_from fuel ts cs e) (λ out w. keeps (find_token-none ts (c ∷ cs) bare) w)
              (dstring_addchar-Extends c d r)
              (λ e q. replace_from-EndsRewritten fuel ts cs e (omega arith) f q))
      | inr (t, found) ↦
          let rest = drop (length t.old_str) (c ∷ cs) in
          let (before, after, e, none_there, full, place) = find_token_lem ts (c ∷ cs) t found f in
          rw (found, replace_from)
            (piece_then ts (c ∷ cs) rest t.new_str d (dstring_append t.new_str d)
              (λ e. replace_from fuel ts rest e)
              (λ out w. replaces before t after e none_there place w)
              (dstring_append-Extends t.new_str d r)
              (λ e q.
                replace_from-EndsRewritten fuel ts rest e
                  (omega (arith, full, length_behind t.old_str rest (c ∷ cs) place)) f q))
    ]

-- With tokens that are not empty and a destination with room for a NUL, replace_tokens() ends within
-- as many rounds as the script has characters. What it writes behind the destination's text, within
-- the buffer, is the rewritten script: from the left, where tokens stand the first of them in the
-- list is replaced, and any other character is kept.
pub replace_tokens-EndsRewritten :
    (src : List ℕ) (ts : List Token) (d : SlonDString)
    → All IsFull ts
    → IsRoomy d
    → EndsRewritten ts src d (replace_tokens d src ts)
unfolding replace_tokens
replace_tokens-EndsRewritten src ts d f r =
    let y = replace_from-EndsRewritten (length src) ts src d (omega arith) f r in
    (y.0, y.1, Extends-terminate (some y.0) d (replace_from (length src) ts src d) y.2)
