-- ===== src/Options/Examples.antt =====
-- Settings of the options of src/slon/confoptions.c.
use slony1_engine.Base.{ℕ, ◌≡◌, some, List, [], ◌∷◌, map, All}
use slony1_engine.Options.{set_config_option}
use slony1_engine.Options.Tables.{initial_options}
use slony1_engine.Options.Settings.{Outcome, set_config_option-Outcome}
use slony1_engine.Options.Ranges.{IsInRange, kind_of, set_all, set_all-initial_options}

-- syslog and SYSLOG
abbrev lower : List ℕ
lower = b's' ∷ b'y' ∷ b's' ∷ b'l' ∷ b'o' ∷ b'g' ∷ []

abbrev upper : List ℕ
upper = b'S' ∷ b'Y' ∷ b'S' ∷ b'L' ∷ b'O' ∷ b'G' ∷ []

set_config_option-Outcome_example :
    Outcome upper
      (some (b'2' ∷ []))
      initial_options
      (set_config_option upper (some (b'2' ∷ [])) initial_options)
set_config_option-Outcome_example =
    set_config_option-Outcome upper (some (b'2' ∷ [])) initial_options

-- The second value is out of range.
abbrev settings : List (List ℕ × List ℕ)
settings = (lower, b'1' ∷ []) ∷ (upper, b'9' ∷ []) ∷ []

set_all-initial_options_example :
    All IsInRange (set_all settings initial_options)
    × (map kind_of (set_all settings initial_options) ≡ map kind_of initial_options)
set_all-initial_options_example = set_all-initial_options settings
