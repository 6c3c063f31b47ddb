-- ===== src/Shipper/Renames/Rules.antt =====
-- The identifiers and the rules of src/slony_logshipper/slony_logshipper.c: which are the same, and
-- which rule a table's name meets.
use slony1_engine.Base.{
  ℕ, ◌≡◌, refl, sym, ap, ◌∙◌, Bool, true, false, not, ◌&&◌, ◌||◌, Option, none, some, List, [], ◌∷◌,
  ◌++◌, if◌then◌else◌, filter, ◌==◌, arith,
}
use slony1_engine.Misc.{strcmp_eq}
use slony1_engine.Shipper.Renames.{
  to_lower, strcasecmp_eq, is_quoted, idents_are_distinct, RenameObject, Renamed, config_add_rename,
  use_names, is_table_rule, matches_table, matches_namespace, lookup_table, lookup_namespace,
  lookup_rename,
}

strcmp_sym : (s t : List ℕ) → strcmp_eq s t ≡ strcmp_eq t s
unfolding strcmp_eq
strcmp_sym [] [] = refl
strcmp_sym [] (b ∷ t) = refl
strcmp_sym (a ∷ s) [] = refl
strcmp_sym (a ∷ s) (b ∷ t) = ground (arith, strcmp_sym s t)

strcasecmp_sym : (s t : List ℕ) → strcasecmp_eq s t ≡ strcasecmp_eq t s
unfolding strcasecmp_eq
strcasecmp_sym [] [] = refl
strcasecmp_sym [] (b ∷ t) = refl
strcasecmp_sym (a ∷ s) [] = refl
strcasecmp_sym (a ∷ s) (b ∷ t) =
    ap (λ x. x && strcasecmp_eq s t) (==_sym (to_lower a) (to_lower b))
    ∙ ap (λ x. (to_lower b == to_lower a) && x) (strcasecmp_sym s t)
  where
    ==_sym : (m n : ℕ) → (m == n) ≡ (n == m)
    ==_sym m n = ground arith

strcmp_trans : (s t u : List ℕ) → strcmp_eq s t ≡ true → strcmp_eq t u ≡ true → strcmp_eq s u ≡ true
unfolding strcmp_eq
strcmp_trans [] [] u h k = k
strcmp_trans [] (b ∷ t) u h k = cc
strcmp_trans (a ∷ s) [] u h k = cc
strcmp_trans (a ∷ s) (b ∷ t) [] h k = cc
strcmp_trans (a ∷ s) (b ∷ t) (c ∷ u) h k = ground (arith, strcmp_trans s t u)

strcasecmp_trans :
    (s t u : List ℕ)
    → strcasecmp_eq s t ≡ true
    → strcasecmp_eq t u ≡ true
    → strcasecmp_eq s u ≡ true
unfolding strcasecmp_eq
strcasecmp_trans [] [] u h k = k
strcasecmp_trans [] (b ∷ t) u h k = cc
strcasecmp_trans (a ∷ s) [] u h k = cc
strcasecmp_trans (a ∷ s) (b ∷ t) [] h k = cc
strcasecmp_trans (a ∷ s) (b ∷ t) (c ∷ u) h k = ground (arith, strcasecmp_trans s t u)

-- An identifier in quotes is none without.
quoted_differ :
    (s t : List ℕ)
    → is_quoted s ≡ true
    → is_quoted t ≡ false
    → (strcmp_eq s t ≡ false) × (strcasecmp_eq t s ≡ false)
unfolding strcmp_eq strcasecmp_eq
quoted_differ [] t h k = cc
quoted_differ (a ∷ s) [] h k = (refl, refl)
quoted_differ (a ∷ s) (b ∷ t) h k = ground arith

-- Being the same is an equivalence of identifiers, with or without quotes and with no identifier too.
pub idents_are_distinct_sym :
    (i j : Option (List ℕ)) → idents_are_distinct i j ≡ idents_are_distinct j i
unfolding idents_are_distinct
idents_are_distinct_sym none none = refl
idents_are_distinct_sym none (some t) = refl
idents_are_distinct_sym (some s) none = refl
idents_are_distinct_sym (some s) (some t) =
    ground (arith, quoted_differ s t, quoted_differ t s, strcmp_sym s t, strcasecmp_sym s t)

pub idents_are_distinct_trans :
    (i j k : Option (List ℕ))
    → idents_are_distinct i j ≡ false
    → idents_are_distinct j k ≡ false
    → idents_are_distinct i k ≡ false
unfolding idents_are_distinct
idents_are_distinct_trans none none k h l = l
idents_are_distinct_trans none (some t) k h l = cc
idents_are_distinct_trans (some s) none k h l = cc
idents_are_distinct_trans (some s) (some t) none h l = cc
idents_are_distinct_trans (some s) (some t) (some u) h l = ground (
  arith,
  quoted_differ s t,
  quoted_differ t s,
  quoted_differ t u,
  quoted_differ u t,
  strcmp_sym s t,
  strcmp_sym t u,
  strcmp_trans s t u,
  strcasecmp_trans s t u,
)

module _ (namespace name : List ℕ) where
  abbrev is_namespace_rule : RenameObject → Bool
  is_namespace_rule entry = not (is_table_rule entry)

  table_rules_lem :
      (rules : List RenameObject) (r : Renamed)
      → lookup_table namespace name (filter is_table_rule rules) r
        ≡ lookup_table namespace name rules r
  unfolding lookup_table filter
  table_rules_lem [] r = refl
  table_rules_lem (e ∷ es) r = ground (arith, table_rules_lem es r)

  only_namespace_rules :
      (rules : List RenameObject)
      → lookup_namespace namespace name (filter is_namespace_rule rules)
        ≡ lookup_namespace namespace name rules
  unfolding lookup_namespace filter
  only_namespace_rules [] = refl
  only_namespace_rules (e ∷ es) = ground (arith, only_namespace_rules es)

  -- Only the order of the table rules and that of the namespace rules matter: a rule for the table
  -- goes before one for its namespace, wherever they stand.
  pub lookup_rename-same :
      (xs ys : List RenameObject)
      → filter is_table_rule xs ≡ filter is_table_rule ys
      → filter is_namespace_rule xs ≡ filter is_namespace_rule ys
      → lookup_rename namespace name xs ≡ lookup_rename namespace name ys
  unfolding lookup_rename
  lookup_rename-same xs ys h k =
      let table : List RenameObject → Renamed → Renamed = lookup_table namespace name in
      let rest : List RenameObject → Renamed = lookup_namespace namespace name in
      sym (table_rules_lem xs (rest xs))
      ∙ ap (λ l. table l (rest xs)) h
      ∙ table_rules_lem ys (rest xs)
      ∙ ap (table ys) (sym (only_namespace_rules xs) ∙ ap rest k ∙ only_namespace_rules ys)

  -- Whether some rule of the list is for the table, or for its namespace.
  abbrev pub any_table : List RenameObject → Bool
  any_table [] = false
  any_table (e ∷ es) = matches_table namespace name e || any_table es

  abbrev pub any_namespace : List RenameObject → Bool
  any_namespace [] = false
  any_namespace (e ∷ es) = matches_namespace namespace name e || any_namespace es

  lookup_table-last :
      (es : List RenameObject) (e : RenameObject) (q r : Renamed)
      → (any_table es ≡ true
          → lookup_table namespace name (es ++ e ∷ []) q ≡ lookup_table namespace name es r)
        × (any_table es ≡ false
            → lookup_table namespace name (es ++ e ∷ []) q ≡ (
                if matches_table namespace name e then use_names e.new_namespace e.new_name else q))
  unfolding lookup_table
  lookup_table-last [] e q r = (λ h. cc, λ h. refl)
  lookup_table-last (x ∷ xs) e q r = ground (arith, lookup_table-last xs e q r)

  lookup_table_none :
      (es : List RenameObject) (r : Renamed)
      → any_table es ≡ false
      → lookup_table namespace name es r ≡ r
  unfolding lookup_table
  lookup_table_none [] r h = refl
  lookup_table_none (x ∷ xs) r h = ground (arith, lookup_table_none xs r)

  lookup_namespace-last :
      (es : List RenameObject) (e : RenameObject)
      → lookup_namespace namespace name (es ++ e ∷ []) ≡ (
          if any_namespace es
          then lookup_namespace namespace name es
          else if matches_namespace namespace name e
          then use_names e.new_namespace (some name)
          else some (namespace, some name))
  unfolding lookup_namespace
  lookup_namespace-last [] e = refl
  lookup_namespace-last (x ∷ xs) e = ground (arith, lookup_namespace-last xs e)

  lookup_namespace_none :
      (es : List RenameObject)
      → any_namespace es ≡ false
      → lookup_namespace namespace name es ≡ some (namespace, some name)
  unfolding lookup_namespace
  lookup_namespace_none [] h = refl
  lookup_namespace_none (x ∷ xs) h = ground (arith, lookup_namespace_none xs)

  -- A rule that is added counts where no earlier rule is for the table and, if it is for a
  -- namespace, no earlier rule is for that; else it changes nothing.
  pub lookup_rename-config_add_rename :
      (es : List RenameObject) (e : RenameObject)
      → lookup_rename namespace name (config_add_rename e es) ≡ (
          if any_table es
          then lookup_rename namespace name es
          else if matches_table namespace name e
          then use_names e.new_namespace e.new_name
          else if not (any_namespace es) && matches_namespace namespace name e
          then use_names e.new_namespace (some name)
          else lookup_rename namespace name es)
  unfolding lookup_rename config_add_rename
  lookup_rename-config_add_rename es e = ground (
    arith,
    lookup_table-last es e (lookup_namespace namespace name (es ++ e ∷ []))
        (lookup_namespace namespace name es),
    lookup_table_none es (lookup_namespace namespace name es),
    lookup_namespace-last es e,
    lookup_namespace_none es,
  )
