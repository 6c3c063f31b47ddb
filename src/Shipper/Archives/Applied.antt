-- ===== src/Shipper/Archives/Applied.antt =====
-- Which archives archscan() of src/slony_logshipper/slony_logshipper.c takes for applied.
use slony1_engine.Base.{
  ℕ, ◌-◌, ◌≤◌, ◌<◌, ◌≡◌, refl, ap, sym, ◌∙◌, true, false, ◌&&◌, List, [], ◌∷◌, ◌++◌, length,
  length-append, drop, drop-append, leb, arith, lt→ltb, Ordering, compare,
}
use slony1_engine.Base.Strings.{strcmp, strcmp_refl}
use slony1_engine.Base.Bytes.{bytes}
use slony1_engine.Shipper.Archives.{suffix, is_applied}
use slony1_engine.Shipper.Counters.{
  is_at_most, padded, counter_done, number, IsNumeral, padded-length, strcmp-padded, padded_whole,
}

strcmp-append : (s t u : List ℕ) → length s ≡ length t → strcmp (s ++ u) (t ++ u) ≡ strcmp s t
unfolding strcmp
strcmp-append [] [] u l = strcmp_refl u
strcmp-append [] (b ∷ t) u l = absurd (omega (arith, l))
strcmp-append (a ∷ s) [] u l = absurd (omega (arith, l))
strcmp-append (a ∷ s) (b ∷ t) u l = ground (arith, strcmp-append s t u)

sql-length : length (bytes ".sql") ≡ 4
unfolding bytes
sql-length = refl

-- In the database's mode, with a counter of at most 20 digits there, a file whose name ends in a counter
-- of 20 digits and `.sql`, with something in front, is taken for applied just if its counter is not
-- the greater number.
pub is_applied-number :
    (pre at_counter current : List ℕ)
    → 0 < length pre
    → length at_counter ≡ 20
    → length current ≤ 20
    → IsNumeral at_counter
    → IsNumeral current
    → is_applied (counter_done true current) (pre ++ (at_counter ++ bytes ".sql"))
      ≡ leb (number 0 at_counter) (number 0 current)
unfolding is_applied counter_done is_at_most
is_applied-number pre at_counter current p a c h k =
    let tail = at_counter ++ bytes ".sql" in
    let name : List ℕ = pre ++ tail in
    let done : List ℕ = padded current ++ bytes ".sql" in
    let l = length-append at_counter (bytes ".sql") in
    let m = length-append pre tail in
    let long : 24 < length name = omega (arith, p, a, l, m, sql-length) in
    let front : length name - 24 ≡ length pre = omega (arith, a, l, m, sql-length) in
    let end : suffix 24 name ≡ tail = ap (λ n. drop n name) front ∙ drop-append pre tail in
    let order : strcmp tail done ≡ compare (number 0 at_counter) (number 0 current) =
      strcmp-append at_counter (padded current) (bytes ".sql") (a ∙ sym (padded-length current c))
      ∙ ap (λ s. strcmp s (padded current)) (sym (padded_whole at_counter a))
      ∙ strcmp-padded at_counter current (omega (arith, a)) c h k in
    ap (λ b. b && is_at_most (suffix 24 name) done) (lt→ltb 24 (length name) long)
    ∙ ap (λ s. is_at_most s done) end
    ∙ ap (λ o. elim o [ Ordering.gt ↦ false | _ ↦ true ]) order
