-- ===== src/Options.antt =====
-- The options of slon: src/slon/confoptions.c, with the tables of confoptions.h's records. The names
-- are ASCII. The sorted array and bsearch() find the option of a name, which is the only one; so
-- does a search of the list. The one option of type real is a placeholder and left out.
pub mod Tables
pub mod Names
pub mod Settings
pub mod Ranges
mod Examples
use slony1_engine.Base.{
  ℕ, zero, suc, ◌+◌, ◌-◌, ◌*◌, Bool, true, false, not, ◌&&◌, ◌||◌, Option, none, some, List, [],
  ◌∷◌, if◌then◌else◌, leb, ltb, ◌==◌, drop,
}
use slony1_engine.Base.Int.{ℤ, pos, negsuc, sub_ℕ, ◌==ℤ◌, ltb_ℤ}
use slony1_engine.Misc.{is_digit, skip_spaces, negate}

-- config_bool, config_int and config_string: the bounds, and the variable's value.
pub data Setting : Type 0 where
  bool : Bool → Setting
  int : ℤ → ℤ → ℤ → Setting
  string : Option (List ℕ) → Setting

pub record ConfigOption : Type 0 where
  pub name : List ℕ
  pub setting : Setting

abbrev pub downcase : ℕ → ℕ
downcase c = if leb b'A' c && leb c b'Z' then c + 32 else c

unfoldable pub conf_name_compare : List ℕ → List ℕ → ℤ
conf_name_compare [] [] = pos 0
conf_name_compare [] (b ∷ bs) = negsuc 0
conf_name_compare (a ∷ cs) [] = pos 1
conf_name_compare (a ∷ cs) (b ∷ bs) =
    let rest = conf_name_compare cs bs in
    if downcase a == downcase b then rest else sub_ℕ (downcase a) (downcase b)

abbrev pub same_name : List ℕ → List ℕ → Bool
same_name a b = conf_name_compare a b ==ℤ pos 0

unfoldable pub find_option : List ℕ → List ConfigOption → Option Setting
unfolding conf_name_compare
find_option name [] = none
find_option name (o ∷ os) = if same_name name o.name then some o.setting else find_option name os

-- A store to the variable of the option that was found.
unfoldable pub store_option : List ℕ → Setting → List ConfigOption → List ConfigOption
unfolding conf_name_compare
store_option name x [] = []
store_option name x (o ∷ os) =
    if same_name name o.name then record o { setting = x } ∷ os else o ∷ store_option name x os

-- strncasecmp(value, word, strlen(value)) == 0
unfoldable pub is_abbreviation : List ℕ → List ℕ → Bool
is_abbreviation [] word = true
is_abbreviation (c ∷ cs) [] = false
is_abbreviation (c ∷ cs) (w ∷ ws) = downcase c == downcase w && is_abbreviation cs ws

unfoldable pub parse_bool : List ℕ → Option Bool
unfolding is_abbreviation
parse_bool value =
    if is_abbreviation value (b't' ∷ b'r' ∷ b'u' ∷ b'e' ∷ [])
    then some true
    else if is_abbreviation value (b'f' ∷ b'a' ∷ b'l' ∷ b's' ∷ b'e' ∷ [])
    then some false
    else if is_abbreviation value (b'y' ∷ b'e' ∷ b's' ∷ [])
    then some true
    else if is_abbreviation value (b'n' ∷ b'o' ∷ [])
    then some false
    else if is_abbreviation value (b'o' ∷ b'n' ∷ [])
    then some true
    else if is_abbreviation value (b'o' ∷ b'f' ∷ b'f' ∷ [])
    then some false
    else if is_abbreviation value (b'1' ∷ [])
    then some true
    else if is_abbreviation value (b'0' ∷ [])
    then some false
    else none

-- The value of a digit, at most 15; 16 for any other character.
abbrev pub digit_value : ℕ → ℕ
digit_value c =
    if is_digit c
    then c - b'0'
    else if leb b'a' c && leb c b'f'
    then c - 87
    else if leb b'A' c && leb c b'F'
    then c - 55
    else 16

unfoldable pub strtol_digits : ℕ → ℕ → List ℕ → ℕ × List ℕ
strtol_digits base acc [] = (acc, [])
strtol_digits base acc (c ∷ cs) =
    let rest = strtol_digits base (acc * base + digit_value c) cs in
    if ltb (digit_value c) base then rest else (acc, c ∷ cs)

unfoldable pub starts_hex : List ℕ → Bool
starts_hex [] = false
starts_hex (x ∷ []) = false
starts_hex (x ∷ d ∷ cs) = (x == b'x' || x == b'X') && ltb (digit_value d) 16

-- The base is 16 behind `0x`, 8 behind `0`, and else 10.
unfoldable pub strtol_magnitude : List ℕ → Option (ℕ × List ℕ)
unfolding strtol_digits starts_hex
strtol_magnitude [] = none
strtol_magnitude (c ∷ cs) =
    if c == b'0'
    then (if starts_hex cs
        then some (strtol_digits 16 0 (drop 1 cs))
        else some (strtol_digits 8 0 cs))
    else if is_digit c
    then some (strtol_digits 10 0 (c ∷ cs))
    else none

abbrev pub signed : Bool → Option (ℕ × List ℕ) → Option (ℤ × List ℕ)
signed minus none = none
signed minus (some r) = some ((if minus then negate (pos r.0) else pos r.0), r.1)

-- strtol() in base 0: the value, of any size, and what follows; nothing where no number is found.
unfoldable pub strtol : List ℕ → Option (ℤ × List ℕ)
unfolding strtol_magnitude
strtol value = elim (skip_spaces value) [
  | [] ↦ none
  | c ∷ cs ↦
      if c == b'-'
      then signed true (strtol_magnitude cs)
      else if c == b'+'
      then signed false (strtol_magnitude cs)
      else signed false (strtol_magnitude (c ∷ cs))
]

-- The values of int32; ERANGE lies far outside.
abbrev pub is_int32 : ℤ → Bool
is_int32 (pos n) = ltb n 2147483648
is_int32 (negsuc n) = ltb n 2147483648

unfoldable pub parse_int : List ℕ → Option ℤ
unfolding strtol
parse_int value = elim (strtol value) [
  | none ↦ none
  | some r ↦ elim r.1 [ [] ↦ (if is_int32 r.0 then some r.0 else none) | _ ∷ _ ↦ none ]
]

abbrev pub is_between : ℤ → ℤ → ℤ → Bool
is_between low high v = not (ltb_ℤ v low) && not (ltb_ℤ high v)

-- The new value of a setting; a value that is NULL turns it off, whatever its bounds are.
unfoldable pub new_setting : Option (List ℕ) → Setting → Option Setting
unfolding parse_bool parse_int
new_setting none (bool b) = some (bool false)
new_setting (some s) (bool b) = elim (parse_bool s) [ none ↦ none | some c ↦ some (bool c) ]
new_setting none (int low high v) = some (int low high (pos 0))
new_setting (some s) (int low high v) = elim (parse_int s) [
  | none ↦ none
  | some n ↦ if is_between low high n then some (int low high n) else none
]
new_setting value (string s) = some (string value)

-- Whether the value was accepted, and the options.
unfoldable pub set_config_option :
    List ℕ → Option (List ℕ) → List ConfigOption → Bool × List ConfigOption
unfolding find_option new_setting store_option
set_config_option name value os = elim (find_option name os) [
  | none ↦ (false, os)
  | some x ↦ elim (new_setting value x) [
    | none ↦ (false, os)
    | some y ↦ (true, store_option name y os)
  ]
]
