-- ===== src/Options/Tables.antt =====
-- The options of slon with their bounds and defaults, src/slon/confoptions.c, on a system with
-- syslog. Each name is written by its characters.
use slony1_engine.Base.{ℕ, true, false, none, some, List, [], ◌∷◌, ◌++◌}
use slony1_engine.Base.Int.{ℤ, pos, negsuc}
use slony1_engine.Options.{bool, int, string, ConfigOption}

abbrev int_option : List ℕ → ℤ → ℤ → ℤ → ConfigOption
int_option name default low high = record { name = name; setting = int low high default }

unfoldable pub configure_names_int : List ConfigOption
configure_names_int =
    int_option
      (b'v' ∷ b'a' ∷ b'c' ∷ b'_' ∷ b'f' ∷ b'r' ∷ b'e' ∷ b'q' ∷ b'u' ∷ b'e' ∷ b'n' ∷ b'c' ∷ b'y'
        ∷ [])
      (pos 3) (pos 0) (pos 100)
    ∷ int_option (b'l' ∷ b'o' ∷ b'g' ∷ b'_' ∷ b'l' ∷ b'e' ∷ b'v' ∷ b'e' ∷ b'l' ∷ []) (pos 0)
        (negsuc 0) (pos 4)
    ∷ int_option
        (b's' ∷ b'y' ∷ b'n' ∷ b'c' ∷ b'_' ∷ b'i' ∷ b'n' ∷ b't' ∷ b'e' ∷ b'r' ∷ b'v' ∷ b'a' ∷ b'l'
          ∷ [])
        (pos 2000) (pos 10) (pos 60000)
    ∷ int_option
        (b's' ∷ b'y' ∷ b'n' ∷ b'c' ∷ b'_' ∷ b'i' ∷ b'n' ∷ b't' ∷ b'e' ∷ b'r' ∷ b'v' ∷ b'a' ∷ b'l'
          ∷ b'_' ∷ b't' ∷ b'i' ∷ b'm' ∷ b'e' ∷ b'o' ∷ b'u' ∷ b't' ∷ [])
        (pos 10000) (pos 0) (pos 1200000)
    ∷ int_option
        (b's' ∷ b'y' ∷ b'n' ∷ b'c' ∷ b'_' ∷ b'g' ∷ b'r' ∷ b'o' ∷ b'u' ∷ b'p' ∷ b'_' ∷ b'm' ∷ b'a'
          ∷ b'x' ∷ b's' ∷ b'i' ∷ b'z' ∷ b'e' ∷ [])
        (pos 20) (pos 0) (pos 10000)
    ∷ int_option (b's' ∷ b'y' ∷ b's' ∷ b'l' ∷ b'o' ∷ b'g' ∷ []) (pos 0) (pos 0) (pos 2)
    ∷ int_option
        (b'q' ∷ b'u' ∷ b'i' ∷ b't' ∷ b'_' ∷ b's' ∷ b'y' ∷ b'n' ∷ b'c' ∷ b'_' ∷ b'p' ∷ b'r' ∷ b'o'
          ∷ b'v' ∷ b'i' ∷ b'd' ∷ b'e' ∷ b'r' ∷ [])
        (pos 0) (pos 0) (pos 2147483647)
    ∷ int_option
        (b'r' ∷ b'e' ∷ b'm' ∷ b'o' ∷ b't' ∷ b'e' ∷ b'_' ∷ b'l' ∷ b'i' ∷ b's' ∷ b't' ∷ b'e' ∷ b'n'
          ∷ b'_' ∷ b't' ∷ b'i' ∷ b'm' ∷ b'e' ∷ b'o' ∷ b'u' ∷ b't' ∷ [])
        (pos 300) (pos 30) (pos 30000)
    ∷ int_option
        (b'm' ∷ b'o' ∷ b'n' ∷ b'i' ∷ b't' ∷ b'o' ∷ b'r' ∷ b'_' ∷ b'i' ∷ b'n' ∷ b't' ∷ b'e' ∷ b'r'
          ∷ b'v' ∷ b'a' ∷ b'l' ∷ [])
        (pos 500) (pos 10) (pos 12000)
    ∷ int_option
        (b'e' ∷ b'x' ∷ b'p' ∷ b'l' ∷ b'a' ∷ b'i' ∷ b'n' ∷ b'_' ∷ b'i' ∷ b'n' ∷ b't' ∷ b'e' ∷ b'r'
          ∷ b'v' ∷ b'a' ∷ b'l' ∷ [])
        (pos 0) (pos 0) (pos 86400)
    ∷ int_option
        (b't' ∷ b'c' ∷ b'p' ∷ b'_' ∷ b'k' ∷ b'e' ∷ b'e' ∷ b'p' ∷ b'a' ∷ b'l' ∷ b'i' ∷ b'v' ∷ b'e'
          ∷ b'_' ∷ b'i' ∷ b'd' ∷ b'l' ∷ b'e' ∷ [])
        (pos 0) (pos 0) (pos 1073741824)
    ∷ int_option
        (b't' ∷ b'c' ∷ b'p' ∷ b'_' ∷ b'k' ∷ b'e' ∷ b'e' ∷ b'p' ∷ b'a' ∷ b'l' ∷ b'i' ∷ b'v' ∷ b'e'
          ∷ b'_' ∷ b'i' ∷ b'n' ∷ b't' ∷ b'e' ∷ b'r' ∷ b'v' ∷ b'a' ∷ b'l' ∷ [])
        (pos 0) (pos 0) (pos 1073741824)
    ∷ int_option
        (b't' ∷ b'c' ∷ b'p' ∷ b'_' ∷ b'k' ∷ b'e' ∷ b'e' ∷ b'p' ∷ b'a' ∷ b'l' ∷ b'i' ∷ b'v' ∷ b'e'
          ∷ b'_' ∷ b'c' ∷ b'o' ∷ b'u' ∷ b'n' ∷ b't' ∷ [])
        (pos 0) (pos 0) (pos 1073741824)
    ∷ int_option
        (b'a' ∷ b'p' ∷ b'p' ∷ b'l' ∷ b'y' ∷ b'_' ∷ b'c' ∷ b'a' ∷ b'c' ∷ b'h' ∷ b'e' ∷ b'_' ∷ b's'
          ∷ b'i' ∷ b'z' ∷ b'e' ∷ [])
        (pos 100) (pos 10) (pos 2000)
    ∷ []

unfoldable pub configure_names_bool : List ConfigOption
configure_names_bool =
    record { name = b'l' ∷ b'o' ∷ b'g' ∷ b'_' ∷ b'p' ∷ b'i' ∷ b'd' ∷ []; setting = bool false }
    ∷ record {
      name =
          b'l' ∷ b'o' ∷ b'g' ∷ b'_' ∷ b't' ∷ b'i' ∷ b'm' ∷ b'e' ∷ b's' ∷ b't' ∷ b'a' ∷ b'm' ∷ b'p'
          ∷ [];
      setting = bool true;
    }
    ∷ record {
      name =
          b't' ∷ b'c' ∷ b'p' ∷ b'_' ∷ b'k' ∷ b'e' ∷ b'e' ∷ b'p' ∷ b'a' ∷ b'l' ∷ b'i' ∷ b'v' ∷ b'e'
          ∷ [];
      setting = bool true;
    }
    ∷ record {
      name =
          b'm' ∷ b'o' ∷ b'n' ∷ b'i' ∷ b't' ∷ b'o' ∷ b'r' ∷ b'_' ∷ b't' ∷ b'h' ∷ b'r' ∷ b'e' ∷ b'a'
          ∷ b'd' ∷ b's' ∷ [];
      setting = bool true;
    }
    ∷ record {
      name =
          b'e' ∷ b'n' ∷ b'a' ∷ b'b' ∷ b'l' ∷ b'e' ∷ b'_' ∷ b'v' ∷ b'e' ∷ b'r' ∷ b's' ∷ b'i' ∷ b'o'
          ∷ b'n' ∷ b'_' ∷ b'c' ∷ b'h' ∷ b'e' ∷ b'c' ∷ b'k' ∷ [];
      setting = bool true;
    }
    ∷ record {
      name =
          b'r' ∷ b'e' ∷ b'm' ∷ b'o' ∷ b't' ∷ b'e' ∷ b'_' ∷ b'l' ∷ b'i' ∷ b's' ∷ b't' ∷ b'e' ∷ b'n'
          ∷ b'_' ∷ b's' ∷ b'e' ∷ b'r' ∷ b'i' ∷ b'a' ∷ b'l' ∷ b'i' ∷ b'z' ∷ b'a' ∷ b'b' ∷ b'l' ∷ b'e'
          ∷ b'_' ∷ b't' ∷ b'r' ∷ b'a' ∷ b'n' ∷ b's' ∷ b'a' ∷ b'c' ∷ b't' ∷ b'i' ∷ b'o' ∷ b'n' ∷ b's'
          ∷ [];
      setting = bool true;
    }
    ∷ []

unfoldable pub configure_names_string : List ConfigOption
configure_names_string =
    record {
      name = b'c' ∷ b'l' ∷ b'u' ∷ b's' ∷ b't' ∷ b'e' ∷ b'r' ∷ b'_' ∷ b'n' ∷ b'a' ∷ b'm' ∷ b'e' ∷ [];
      setting = string none;
    }
    ∷ record {
      name = b'c' ∷ b'o' ∷ b'n' ∷ b'n' ∷ b'_' ∷ b'i' ∷ b'n' ∷ b'f' ∷ b'o' ∷ [];
      setting = string none;
    }
    ∷ record {
      name = b'p' ∷ b'i' ∷ b'd' ∷ b'_' ∷ b'f' ∷ b'i' ∷ b'l' ∷ b'e' ∷ [];
      setting = string none;
    }
    ∷ record {
      name =
          b'l' ∷ b'o' ∷ b'g' ∷ b'_' ∷ b't' ∷ b'i' ∷ b'm' ∷ b'e' ∷ b's' ∷ b't' ∷ b'a' ∷ b'm' ∷ b'p'
          ∷ b'_' ∷ b'f' ∷ b'o' ∷ b'r' ∷ b'm' ∷ b'a' ∷ b't' ∷ [];
      setting = string (
          some (
            b'%' ∷ b'Y' ∷ b'-' ∷ b'%' ∷ b'm' ∷ b'-' ∷ b'%' ∷ b'd' ∷ 32 ∷ b'%' ∷ b'H' ∷ b':' ∷ b'%'
            ∷ b'M' ∷ b':' ∷ b'%' ∷ b'S' ∷ 32 ∷ b'%' ∷ b'Z' ∷ 32 ∷ []));
    }
    ∷ record {
      name = b'a' ∷ b'r' ∷ b'c' ∷ b'h' ∷ b'i' ∷ b'v' ∷ b'e' ∷ b'_' ∷ b'd' ∷ b'i' ∷ b'r' ∷ [];
      setting = string none;
    }
    ∷ record {
      name =
          b's' ∷ b'q' ∷ b'l' ∷ b'_' ∷ b'o' ∷ b'n' ∷ b'_' ∷ b'c' ∷ b'o' ∷ b'n' ∷ b'n' ∷ b'e' ∷ b'c'
          ∷ b't' ∷ b'i' ∷ b'o' ∷ b'n' ∷ [];
      setting = string none;
    }
    ∷ record {
      name = b'l' ∷ b'a' ∷ b'g' ∷ b'_' ∷ b'i' ∷ b'n' ∷ b't' ∷ b'e' ∷ b'r' ∷ b'v' ∷ b'a' ∷ b'l' ∷ [];
      setting = string none;
    }
    ∷ record {
      name =
          b'c' ∷ b'o' ∷ b'm' ∷ b'm' ∷ b'a' ∷ b'n' ∷ b'd' ∷ b'_' ∷ b'o' ∷ b'n' ∷ b'_' ∷ b'l' ∷ b'o'
          ∷ b'g' ∷ b'a' ∷ b'r' ∷ b'c' ∷ b'h' ∷ b'i' ∷ b'v' ∷ b'e' ∷ [];
      setting = string none;
    }
    ∷ record {
      name =
          b's' ∷ b'y' ∷ b's' ∷ b'l' ∷ b'o' ∷ b'g' ∷ b'_' ∷ b'f' ∷ b'a' ∷ b'c' ∷ b'i' ∷ b'l' ∷ b'i'
          ∷ b't' ∷ b'y' ∷ [];
      setting = string (some (b'L' ∷ b'O' ∷ b'C' ∷ b'A' ∷ b'L' ∷ b'0' ∷ []));
    }
    ∷ record {
      name = b's' ∷ b'y' ∷ b's' ∷ b'l' ∷ b'o' ∷ b'g' ∷ b'_' ∷ b'i' ∷ b'd' ∷ b'e' ∷ b'n' ∷ b't' ∷ [];
      setting = string (some (b's' ∷ b'l' ∷ b'o' ∷ b'n' ∷ []));
    }
    ∷ record {
      name =
          b'c' ∷ b'l' ∷ b'e' ∷ b'a' ∷ b'n' ∷ b'u' ∷ b'p' ∷ b'_' ∷ b'i' ∷ b'n' ∷ b't' ∷ b'e' ∷ b'r'
          ∷ b'v' ∷ b'a' ∷ b'l' ∷ [];
      setting =
          string (some (b'1' ∷ b'0' ∷ 32 ∷ b'm' ∷ b'i' ∷ b'n' ∷ b'u' ∷ b't' ∷ b'e' ∷ b's' ∷ []));
    }
    ∷ []

-- The order of build_conf_variables(), before qsort().
unfoldable pub initial_options : List ConfigOption
unfolding configure_names_int configure_names_bool configure_names_string
initial_options = configure_names_bool ++ (configure_names_int ++ configure_names_string)
