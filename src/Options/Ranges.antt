-- ===== src/Options/Ranges.antt =====
-- The bounds of the options of src/slon/confoptions.c, kept by set_config_option().
use slony1_engine.Base.{
  ℕ, ◌≡◌, refl, ◌∙◌, Bool, true, false, none, some, List, [], ◌∷◌, map, arith, All, Bool-cases,
  Option-cases, inl, inr,
}
use slony1_engine.Base.Int.{ℤ, pos}
use slony1_engine.Options.{
  Setting, bool, int, string, ConfigOption, same_name, find_option, store_option, parse_bool,
  parse_int, is_between, new_setting, set_config_option,
}
use slony1_engine.Options.Settings.{
  set_config_option_unchanged, set_config_option_refused, set_config_option_accepted,
}
use slony1_engine.Options.Tables.{
  configure_names_int, configure_names_bool, configure_names_string, initial_options,
}

-- The value of an int option lies within its bounds.
abbrev pub IsWithin : Setting → Type 0
IsWithin (bool b) = Unit
IsWithin (int low high v) = is_between low high v ≡ true
IsWithin (string s) = Unit

abbrev pub IsInRange : ConfigOption → Type 0
IsInRange o = IsWithin o.setting

-- A setting without its value: its type and bounds.
abbrev pub kind : Setting → Setting
kind (bool b) = bool false
kind (int low high v) = int low high (pos 0)
kind (string s) = string none

abbrev pub kind_of : ConfigOption → ConfigOption
kind_of o = record o { setting = kind o.setting }

-- A value that is accepted for a setting is of its type and within its bounds.
new_setting-IsWithin :
    (s : List ℕ) (x y : Setting) → new_setting (some s) x ≡ some y → IsWithin y × (kind y ≡ kind x)
unfolding new_setting
new_setting-IsWithin s (bool b) y h = elim (Option-cases (parse_bool s)) [
  | inl bad ↦ absurd (ground arith)
  | inr (c, ok) ↦ go c y (ground arith)
]
  where
    go : (c : Bool) (y : Setting) → some (bool c) ≡ some y → IsWithin y × (kind y ≡ bool false)
    go c (bool d) e = (tt, refl)
    go c (int low high v) e = absurd (ground arith)
    go c (string t) e = absurd (ground arith)
new_setting-IsWithin s (int low high v) y h = elim (Option-cases (parse_int s)) [
  | inl bad ↦ absurd (ground arith)
  | inr (n, ok) ↦ elim (Bool-cases (is_between low high n)) [
    | inl within ↦ go n y within (ground arith)
    | inr outside ↦ absurd (ground arith)
  ]
]
  where
    go :
        (n : ℤ) (y : Setting)
        → is_between low high n ≡ true
        → some (int low high n) ≡ some y
        → IsWithin y × (kind y ≡ int low high (pos 0))
    go n (bool d) w e = absurd (ground arith)
    go n (int l k m) w e = ground arith
    go n (string t) w e = absurd (ground arith)
new_setting-IsWithin s (string t) y h = go y h
  where
    go : (y : Setting) → some (string (some s)) ≡ some y → IsWithin y × (kind y ≡ string none)
    go (bool d) e = absurd (ground arith)
    go (int l k m) e = absurd (ground arith)
    go (string u) e = (tt, refl)

store_option-IsInRange :
    (name : List ℕ) (x : Setting) (os : List ConfigOption)
    → IsWithin x
    → All IsInRange os
    → All IsInRange (store_option name x os)
unfolding store_option
store_option-IsInRange name x [] w r = tt
store_option-IsInRange name x (o ∷ os) w r = elim (Bool-cases (same_name name o.name)) [
  | inl here ↦ rw here (w, r.1)
  | inr there ↦ rw there (r.0, store_option-IsInRange name x os w r.1)
]

kinds-store_option :
    (name : List ℕ) (x y : Setting) (os : List ConfigOption)
    → find_option name os ≡ some x
    → kind y ≡ kind x
    → map kind_of (store_option name y os) ≡ map kind_of os
unfolding find_option store_option
kinds-store_option name x y [] h e = refl
kinds-store_option name x y (o ∷ os) h e = elim (Bool-cases (same_name name o.name)) [
  | inl here ↦ ground arith
  | inr there ↦ ground (arith, kinds-store_option name x y os)
]

-- The settings of a configuration file, one after the other.
unfoldable pub set_all : List (List ℕ × List ℕ) → List ConfigOption → List ConfigOption
unfolding set_config_option
set_all [] os = os
set_all ((name, value) ∷ settings) os = set_all settings (set_config_option name (some value) os).1

set_config_option-IsInRange :
    (name value : List ℕ) (os : List ConfigOption)
    → All IsInRange os
    → All IsInRange (set_config_option name (some value) os).1
      × (map kind_of (set_config_option name (some value) os).1 ≡ map kind_of os)
set_config_option-IsInRange name value os r = elim (Option-cases (find_option name os)) [
  | inl missing ↦ rw (set_config_option_unchanged name (some value) os missing) (r, refl)
  | inr (x, found) ↦ elim (Option-cases (new_setting (some value) x)) [
    | inl refused ↦ rw (set_config_option_refused name (some value) x os found refused) (r, refl)
    | inr (y, accepted) ↦
        let ok = new_setting-IsWithin value x y accepted in
        rw (set_config_option_accepted name (some value) x y os found accepted)
          (store_option-IsInRange name y os ok.0 r, kinds-store_option name x y os found ok.1)
  ]
]

set_all-IsInRange :
    (settings : List (List ℕ × List ℕ)) (os : List ConfigOption)
    → All IsInRange os
    → All IsInRange (set_all settings os) × (map kind_of (set_all settings os) ≡ map kind_of os)
unfolding set_all
set_all-IsInRange [] os r = (r, refl)
set_all-IsInRange ((name, value) ∷ settings) os r =
    let one = set_config_option-IsInRange name value os r in
    let rest = set_all-IsInRange settings (set_config_option name (some value) os).1 one.0 in
    (rest.0, rest.1 ∙ one.1)

initial_options-IsInRange : All IsInRange initial_options
unfolding initial_options configure_names_int configure_names_bool configure_names_string
initial_options-IsInRange = ground arith

-- Whatever a configuration file sets, to accepted or refused values: the value of every option lies
-- within its bounds, and its name, type and bounds are those of the tables.
pub set_all-initial_options :
    (settings : List (List ℕ × List ℕ))
    → All IsInRange (set_all settings initial_options)
      × (map kind_of (set_all settings initial_options) ≡ map kind_of initial_options)
set_all-initial_options settings =
    set_all-IsInRange settings initial_options initial_options-IsInRange
