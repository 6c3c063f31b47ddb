-- ===== src/Shipper/Counters.antt =====
-- The counters of src/slony_logshipper/slony_logshipper.c: which archive was applied already. What
-- the database answers is an argument.
use slony1_engine.Base.{
  ℕ, zero, suc, ◌+◌, ◌-◌, ◌*◌, ◌≤◌, ◌<◌, ◌≡◌, refl, ap, sym, ◌∙◌, Bool, true, false, not, ◌&&◌,
  Option, none, some, List, [], ◌∷◌, ◌++◌, if◌then◌else◌, length, length-append, ltb, leb, arith,
  All, Ordering, compare,
}
use slony1_engine.Base.Strings.{strcmp}
use slony1_engine.Base.Bytes.{bytes}

-- Whether PQconnectdb() gives a connection and the query for the settings has a result, and the value
-- of the counter that its query finds.
pub record CounterAnswers : Type 0 where
  pub connects : Bool
  pub lists_settings : Bool
  pub value : Option (List ℕ)

-- get_current_at_counter(): the counter, or how it fails: without a connection, with ipc_finish(true);
-- at the query for the settings; or behind that, with PQfinish() and ipc_finish(true).
pub data Reading : Type 0 where
  counter_read : List ℕ → Reading
  unconnected unlisted closed : Reading

-- Whether dbconn is there; strlen(s) > 20 is an error.
unfoldable pub get_current_at_counter : CounterAnswers → Bool → Reading
get_current_at_counter q has_dbconn =
    if not has_dbconn && not q.connects
    then unconnected
    else if not q.lists_settings
    then unlisted
    else elim q.value [
      | none ↦ closed
      | some s ↦ if ltb 20 (length s) then closed else counter_read s
    ]

unfoldable pub zeros : ℕ → List ℕ
zeros zero = []
zeros (suc n) = b'0' ∷ zeros n

-- The buffer with zeros in front, of 20 digits.
unfoldable pub padded : List ℕ → List ℕ
unfolding zeros
padded s = zeros (20 - length s) ++ s

-- strcmp(s, t) <= 0
unfoldable pub is_at_most : List ℕ → List ℕ → Bool
unfolding strcmp
is_at_most s t = elim (strcmp s t) [ Ordering.gt ↦ false | _ ↦ true ]

-- What process_check_at_counter() returns: -1, 1 and 0.
pub data Check : Type 0 where
  unreadable skip apply : Check

-- Whether there is a database, the counter of the archive and what was read of the database.
unfoldable pub process_check_at_counter : Bool → List ℕ → Reading → Check
unfolding padded is_at_most
process_check_at_counter has_database at_counter reading =
    if has_database
    then (if ltb 20 (length at_counter) then unreadable else elim reading [
      | counter_read s ↦ if is_at_most (padded at_counter) (padded s) then skip else apply
      | _ ↦ unreadable
    ])
    else apply

-- counter_done_buf of archscan().
unfoldable pub counter_done : Bool → List ℕ → List ℕ
unfolding padded bytes
counter_done has_database current = if has_database then padded current ++ bytes ".sql" else []

-- The number that digits stand for, behind the digits of `n`.
abbrev pub number : ℕ → List ℕ → ℕ
number n [] = n
number n (c ∷ s) = number (n * 10 + (c - b'0')) s

abbrev pub IsDigit : ℕ → Type 0
IsDigit c = (b'0' ≤ c) × (c ≤ b'9')

abbrev pub IsNumeral : List ℕ → Type 0
IsNumeral s = All IsDigit s

-- A lead is kept by digits of the same length.
number_mono :
    (m n : ℕ) (s t : List ℕ)
    → length s ≡ length t
    → IsNumeral s
    → IsNumeral t
    → m < n
    → number m s < number n t
number_mono m n [] [] l h k o = o
number_mono m n [] (b ∷ t) l h k o = omega (arith, l)
number_mono m n (a ∷ s) [] l h k o = omega (arith, l)
number_mono m n (a ∷ s) (b ∷ t) l h k o =
    number_mono (m * 10 + (a - b'0')) (n * 10 + (b - b'0')) s t (omega (arith, l)) h.1 k.1
      (omega (arith, h.0, k.0, o))

-- Numerals of the same length compare as their numbers do.
strcmp-number :
    (n : ℕ) (s t : List ℕ)
    → length s ≡ length t
    → IsNumeral s
    → IsNumeral t
    → strcmp s t ≡ compare (number n s) (number n t)
unfolding strcmp
strcmp-number n [] [] l h k = ground arith
strcmp-number n [] (b ∷ t) l h k = absurd (omega (arith, l))
strcmp-number n (a ∷ s) [] l h k = absurd (omega (arith, l))
strcmp-number n (a ∷ s) (b ∷ t) l h k = ground (
  arith,
  strcmp-number (n * 10 + (a - b'0')) s t,
  number_mono (n * 10 + (a - b'0')) (n * 10 + (b - b'0')) s t,
  number_mono (n * 10 + (b - b'0')) (n * 10 + (a - b'0')) t s,
)

zeros_lem : (n : ℕ) (s : List ℕ) → number 0 (zeros n ++ s) ≡ number 0 s
unfolding zeros
zeros_lem zero s = refl
zeros_lem (suc n) s = zeros_lem n s

zeros-IsNumeral : (n : ℕ) (s : List ℕ) → IsNumeral s → IsNumeral (zeros n ++ s)
unfolding zeros
zeros-IsNumeral zero s h = h
zeros-IsNumeral (suc n) s h = (ground arith, zeros-IsNumeral n s h)

zeros-length : (n : ℕ) → length (zeros n) ≡ n
unfolding zeros
zeros-length zero = refl
zeros-length (suc n) = ap suc (zeros-length n)

pub padded-length : (s : List ℕ) → length s ≤ 20 → length (padded s) ≡ 20
unfolding padded
padded-length s h =
    omega (arith, h, length-append (zeros (20 - length s)) s, zeros-length (20 - length s))

-- Twenty digits stay as they are.
pub padded_whole : (s : List ℕ) → length s ≡ 20 → padded s ≡ s
unfolding padded zeros
padded_whole s h = ap (λ n. zeros n ++ s) none_missing
  where
    none_missing : 20 - length s ≡ 0
    none_missing = omega (arith, h)

pub strcmp-padded :
    (s t : List ℕ)
    → length s ≤ 20
    → length t ≤ 20
    → IsNumeral s
    → IsNumeral t
    → strcmp (padded s) (padded t) ≡ compare (number 0 s) (number 0 t)
unfolding padded
strcmp-padded s t k l h i =
    strcmp-number 0 (padded s) (padded t) (padded-length s k ∙ sym (padded-length t l))
      (zeros-IsNumeral (20 - length s) s h) (zeros-IsNumeral (20 - length t) t i)
    ∙ ap (λ x. compare x (number 0 (padded t))) (zeros_lem (20 - length s) s)
    ∙ ap (compare (number 0 s)) (zeros_lem (20 - length t) t)

-- Where there is a database with a counter of at most 20 digits, an archive whose counter has at most
-- 20 digits is applied if its counter is the greater number, and else skipped; with more digits it is
-- an error, and with no database it is applied.
pub process_check_at_counter_lem :
    (has_database : Bool) (at_counter s : List ℕ)
    → IsNumeral at_counter
    → IsNumeral s
    → length s ≤ 20
    → process_check_at_counter has_database at_counter (counter_read s) ≡ (
        if has_database
        then (if ltb 20 (length at_counter)
            then unreadable
            else if leb (number 0 at_counter) (number 0 s)
            then skip
            else apply)
        else apply)
unfolding process_check_at_counter is_at_most
process_check_at_counter_lem has_database at_counter s h k l =
    ground (arith, strcmp-padded at_counter s)
