-- ===== src/Options/Settings.antt =====
-- set_config_option() of src/slon/confoptions.c: what it changes, and the bounds of the options.
use slony1_engine.Base.{
  ℕ, ◌≡◌, refl, ap, subst, sym, ◌∙◌, Bool, true, false, ◌⊎◌, Option, none, some, List, [], ◌∷◌,
  if◌then◌else◌, arith, Bool-cases, Option-cases, inl, inr,
}
use slony1_engine.Base.Bytes.{bytes}
use slony1_engine.Base.Int.{ℤ, pos, negsuc, ◌≤ℤ◌}
use slony1_engine.Options.{
  Setting, bool, int, string, is_abbreviation, parse_bool, strtol, is_int32, parse_int, is_between,
  ConfigOption, same_name, find_option, store_option, new_setting, set_config_option,
}
use slony1_engine.Options.Names.{same_name_iff}

same_name_subst : (a b c : List ℕ) → same_name a b ≡ true → same_name a c ≡ same_name b c
same_name_subst a b c h = ground (arith, same_name_iff a b, same_name_iff a c, same_name_iff b c)

find_option_same :
    (a b : List ℕ) (os : List ConfigOption)
    → same_name a b ≡ true
    → find_option a os ≡ find_option b os
unfolding find_option
find_option_same a b [] h = refl
find_option_same a b (o ∷ os) h = rw (same_name_subst a b o.name h, find_option_same a b os h) refl

find_option-store_option :
    (k name : List ℕ) (x y : Setting) (os : List ConfigOption)
    → find_option name os ≡ some x
    → find_option k (store_option name y os)
      ≡ (if same_name k name then some y else find_option k os)
unfolding find_option store_option
find_option-store_option k name x y [] h = cc
find_option-store_option k name x y (o ∷ os) h = elim (Bool-cases (same_name name o.name)) [
  | inl here ↦
      ground (arith, same_name_iff k name, same_name_iff name o.name, same_name_iff k o.name)
  | inr there ↦ ground (
    arith,
    find_option-store_option k name x y os,
    same_name_iff k name,
    same_name_iff name o.name,
    same_name_iff k o.name,
  )
]

of_some : (x y : Setting) → some x ≡ some y → y ≡ x
of_some x y h = ap (λ o. elim o [ none ↦ x | some z ↦ z ]) (sym h)

-- The words for a value of type bool, of which the first counts that the text abbreviates.
abbrev pub bool_words : List (List ℕ × Bool)
bool_words =
    (bytes "true", true)
    ∷ (bytes "false", false)
    ∷ (bytes "yes", true)
    ∷ (bytes "no", false)
    ∷ (bytes "on", true)
    ∷ (bytes "off", false)
    ∷ (bytes "1", true)
    ∷ (bytes "0", false)
    ∷ []

abbrev pub first_word : List ℕ → List (List ℕ × Bool) → Option Bool
first_word value [] = none
first_word value ((w, b) ∷ ws) = if is_abbreviation value w then some b else first_word value ws

first_word-parse_bool : (value : List ℕ) → parse_bool value ≡ first_word value bool_words
unfolding parse_bool bytes
first_word-parse_bool value = refl

-- What a value makes of a setting: one of type int is a number of strtol() with nothing behind it, an
-- int32 and within the bounds.
abbrev pub Becomes : Option (List ℕ) → Setting → Setting → Type 0
Becomes none (bool b) y = y ≡ bool false
Becomes none (int low high v) y = y ≡ int low high (pos 0)
Becomes (some s) (bool b) y = (c : Bool) × (first_word s bool_words ≡ some c) × (y ≡ bool c)
Becomes (some s) (int low high v) y =
    (n : ℤ) × (strtol s ≡ some (n, []))
    × (negsuc 2147483647 ≤ℤ n)
    × (n ≤ℤ pos 2147483647)
    × (low ≤ℤ n)
    × (n ≤ℤ high)
    × (y ≡ int low high n)
Becomes value (string s) y = y ≡ string value

in_int32 : (n : ℤ) → is_int32 n ≡ true → (negsuc 2147483647 ≤ℤ n) × (n ≤ℤ pos 2147483647)
in_int32 (pos n) h = ground arith
in_int32 (negsuc n) h = ground arith

int32_in : (n : ℤ) → negsuc 2147483647 ≤ℤ n → n ≤ℤ pos 2147483647 → is_int32 n ≡ true
int32_in (pos n) h k = ground arith
int32_in (negsuc n) h k = ground arith

parse_int_lem :
    (s : List ℕ) (n : ℤ)
    → parse_int s ≡ some n
    → (strtol s ≡ some (n, [])) × (negsuc 2147483647 ≤ℤ n) × (n ≤ℤ pos 2147483647)
unfolding parse_int
parse_int_lem s n h = go (strtol s) refl
  where
    go :
        (o : Option (ℤ × List ℕ))
        → strtol s ≡ o
        → (strtol s ≡ some (n, [])) × (negsuc 2147483647 ≤ℤ n) × (n ≤ℤ pos 2147483647)
    go none e = absurd (ground arith)
    go (some (m, c ∷ cs)) e = absurd (ground arith)
    go (some (m, [])) e = elim (Bool-cases (is_int32 m)) [
      | inr large ↦ absurd (ground arith)
      | inl small ↦
          let x : some m ≡ some n = ground arith in
          let same : m ≡ n = ap (λ o. elim o [ none ↦ m | some k ↦ k ]) x in
          let fits = in_int32 n (ap is_int32 (sym same) ∙ small) in
          (e ∙ ap (λ k. some (k, [])) same, fits.0, fits.1)
    ]

lem_parse_int :
    (s : List ℕ) (n : ℤ) → strtol s ≡ some (n, []) → is_int32 n ≡ true → parse_int s ≡ some n
unfolding parse_int
lem_parse_int s n h k =
    ap
      (λ o. elim o [
        | none ↦ none
        | some r ↦ elim r.1 [ [] ↦ (if is_int32 r.0 then some r.0 else none) | _ ∷ _ ↦ none ]
      ])
      h
    ∙ ap (λ b. if b then some n else none) k

new_setting-Becomes :
    (value : Option (List ℕ)) (x y : Setting) → new_setting value x ≡ some y → Becomes value x y
unfolding new_setting
new_setting-Becomes none (bool b) y h = of_some (bool false) y h
new_setting-Becomes none (int low high v) y h = of_some (int low high (pos 0)) y h
new_setting-Becomes none (string s) y h = of_some (string none) y h
new_setting-Becomes (some s) (string t) y h = of_some (string (some s)) y h
new_setting-Becomes (some s) (bool b) y h = elim (Option-cases (parse_bool s)) [
  | inl bad ↦ absurd (ground arith)
  | inr (c, ok) ↦
      let e : some (bool c) ≡ some y = rw (ok, new_setting) at h in
      (c, sym (first_word-parse_bool s) ∙ ok, of_some (bool c) y e)
]
new_setting-Becomes (some s) (int low high v) y h = elim (Option-cases (parse_int s)) [
  | inl bad ↦ absurd (ground arith)
  | inr (n, ok) ↦ elim (Bool-cases (is_between low high n)) [
    | inr outside ↦ absurd (ground arith)
    | inl within ↦
        let e : some (int low high n) ≡ some y = rw (ok, within, new_setting) at h in
        let p = parse_int_lem s n ok in
        (n, p.0, p.1, p.2, ground arith, ground arith, of_some (int low high n) y e)
  ]
]

Becomes-new_setting :
    (value : Option (List ℕ)) (x y : Setting) → Becomes value x y → new_setting value x ≡ some y
unfolding new_setting
Becomes-new_setting none (bool b) y h = ap (λ s. some s) (sym h)
Becomes-new_setting none (int low high v) y h = ap (λ s. some s) (sym h)
Becomes-new_setting none (string s) y h = ap (λ s. some s) (sym h)
Becomes-new_setting (some s) (string t) y h = ap (λ s. some s) (sym h)
Becomes-new_setting (some s) (bool b) y (c, h, e) =
    rw (first_word-parse_bool s ∙ h, new_setting) (ap (λ s. some s) (sym e))
Becomes-new_setting (some s) (int low high v) y (n, h, a, b, l, k, e) =
    let within : is_between low high n ≡ true = ground arith in
    rw (lem_parse_int s n h (int32_in n a b), within, new_setting) (ap (λ s. some s) (sym e))

pub set_config_option_unchanged :
    (name : List ℕ) (value : Option (List ℕ)) (os : List ConfigOption)
    → find_option name os ≡ none
    → set_config_option name value os ≡ (false, os)
unfolding set_config_option
set_config_option_unchanged name value os h = ground arith

pub set_config_option_refused :
    (name : List ℕ) (value : Option (List ℕ)) (x : Setting) (os : List ConfigOption)
    → find_option name os ≡ some x
    → new_setting value x ≡ none
    → set_config_option name value os ≡ (false, os)
unfolding set_config_option
set_config_option_refused name value x os h e = ground arith

pub set_config_option_accepted :
    (name : List ℕ) (value : Option (List ℕ)) (x y : Setting) (os : List ConfigOption)
    → find_option name os ≡ some x
    → new_setting value x ≡ some y
    → set_config_option name value os ≡ (true, store_option name y os)
unfolding set_config_option
set_config_option_accepted name value x y os h e = ground arith

-- No option has the name, or the value makes nothing of its setting.
abbrev pub IsRefused : Option (List ℕ) → Option Setting → Type 0
IsRefused value none = Unit
IsRefused value (some x) = (y : Setting) → Becomes value x y → ⊥

-- The two ways for a call to end.
abbrev pub Outcome :
    List ℕ → Option (List ℕ) → List ConfigOption → Bool × List ConfigOption → Type 0
Outcome name value os r =
    ((r.0 ≡ true)
      × ((x : Setting) × (y : Setting) × (find_option name os ≡ some x)
          × Becomes value x y
          × ((k : List ℕ)
              → find_option k r.1 ≡ (if same_name k name then some y else find_option k os))))
    ⊎ ((r.0 ≡ false) × (r.1 ≡ os) × IsRefused value (find_option name os))

-- set_config_option() returns true just if there is an option of that name and the value makes
-- something of its setting; then this is what the option has, and every other option is as it was,
-- whatever the case of the letters is. Else it returns false and changes nothing.
pub set_config_option-Outcome :
    (name : List ℕ) (value : Option (List ℕ)) (os : List ConfigOption)
    → Outcome name value os (set_config_option name value os)
set_config_option-Outcome name value os = elim (Option-cases (find_option name os)) [
  | inl missing ↦
      subst (Outcome name value os) (sym (set_config_option_unchanged name value os missing))
        (inr (refl, refl, subst (IsRefused value) (sym missing) tt))
  | inr (x, found) ↦ elim (Option-cases (new_setting value x)) [
    | inl refused ↦
        let no : IsRefused value (some x) = λ y b. let e = Becomes-new_setting value x y b in cc in
        subst (Outcome name value os)
          (sym (set_config_option_refused name value x os found refused))
          (inr (refl, refl, subst (IsRefused value) (sym found) no))
    | inr (y, taken) ↦
        subst (Outcome name value os)
          (sym (set_config_option_accepted name value x y os found taken))
          (inl (
            refl,
            (
              x,
              y,
              found,
              new_setting-Becomes value x y taken,
              λ k. find_option-store_option k name x y os found,
            ),
          ))
  ]
]
