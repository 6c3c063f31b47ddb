-- ===== src/Misc/Examples.antt =====
-- Numbers and lines of src/slon/misc.c.
use slony1_engine.Base.{ℕ, ◌≡◌, refl, true, some, List, [], ◌∷◌, All}
use slony1_engine.Base.Int.{negsuc}
use slony1_engine.Base.Decimal.{decimal_ℤ}
use slony1_engine.Misc.{skip_spaces, slon_scanint64, write_syslog}
use slony1_engine.Misc.Integers.{read_integer, accepted, slon_scanint64-accepted}
use slony1_engine.Misc.Printing.{slon_scanint64-decimal_ℤ}
use slony1_engine.Misc.Chunks.{texts, without_newlines, IsShort, write_syslog-Divides}

-- ` 9223372036854775808`, which is one too large.
abbrev large : List ℕ
large =
    32 ∷ b'9' ∷ b'2' ∷ b'2' ∷ b'3' ∷ b'3' ∷ b'7' ∷ b'2' ∷ b'0' ∷ b'3' ∷ b'6' ∷ b'8' ∷ b'5' ∷ b'4'
    ∷ b'7' ∷ b'7' ∷ b'5' ∷ b'8' ∷ b'0' ∷ b'8' ∷ []

slon_scanint64-accepted_example :
    slon_scanint64 large ≡ accepted (skip_spaces large) (read_integer large)
slon_scanint64-accepted_example = slon_scanint64-accepted large

slon_scanint64-decimal_ℤ_example : slon_scanint64 (decimal_ℤ (negsuc 41)) ≡ some (negsuc 41)
slon_scanint64-decimal_ℤ_example = slon_scanint64-decimal_ℤ (negsuc 41) refl

abbrev two_lines : List ℕ
two_lines = b'a' ∷ b'b' ∷ 10 ∷ b'c' ∷ []

write_syslog-Divides_example :
    (texts (write_syslog true two_lines 7).1 ≡ without_newlines two_lines)
    × All IsShort (write_syslog true two_lines 7).1
write_syslog-Divides_example = write_syslog-Divides two_lines 7
