-- ===== src/Shipper/Renames.antt =====
-- The renaming of tables and namespaces, src/slony_logshipper/slony_logshipper.c. An identifier is
-- compared by its bytes where it stands in quotes, and else without regard to case.
pub mod Rules
use slony1_engine.Base.{
  ℕ, ◌+◌, ◌≡◌, refl, sym, ap, ◌∙◌, Bool, true, false, not, ◌&&◌, ◌||◌, Option, none, some, List, [],
  ◌∷◌, ◌++◌, if◌then◌else◌, map, filter, leb, ◌==◌, arith, Bool-cases, inl, inr, Option-cases,
}
use slony1_engine.Misc.{strcmp_eq}

-- tolower() of the C locale, which strcasecmp() goes by.
abbrev pub to_lower : ℕ → ℕ
to_lower c = if leb b'A' c && leb c b'Z' then c + 32 else c

-- strcasecmp() == 0
unfoldable pub strcasecmp_eq : List ℕ → List ℕ → Bool
strcasecmp_eq [] [] = true
strcasecmp_eq [] (b ∷ t) = false
strcasecmp_eq (a ∷ s) [] = false
strcasecmp_eq (a ∷ s) (b ∷ t) = to_lower a == to_lower b && strcasecmp_eq s t

abbrev pub is_quoted : List ℕ → Bool
is_quoted [] = false
is_quoted (c ∷ s) = c == b'"'

unfoldable pub idents_are_distinct : Option (List ℕ) → Option (List ℕ) → Bool
unfolding strcmp_eq strcasecmp_eq
idents_are_distinct none none = false
idents_are_distinct none (some t) = true
idents_are_distinct (some s) none = true
idents_are_distinct (some s) (some t) =
    if is_quoted s then not (strcmp_eq s t) else not (strcasecmp_eq s t)

-- A rule has no new namespace where the table or namespace is ignored.
pub record RenameObject : Type 0 where
  pub old_namespace : Option (List ℕ)
  pub old_name : Option (List ℕ)
  pub new_namespace : Option (List ℕ)
  pub new_name : Option (List ℕ)

-- The loop continues on every rule, whether or not it is distinct, and the rule becomes the last.
unfoldable pub config_add_rename : RenameObject → List RenameObject → List RenameObject
config_add_rename entry rename_list = rename_list ++ entry ∷ []

-- What lookup_rename() gives for a rule: nothing where it returns 0, and else the two names.
abbrev pub Renamed : Type 0
Renamed = Option (List ℕ × Option (List ℕ))

abbrev pub use_names : Option (List ℕ) → Option (List ℕ) → Renamed
use_names none name = none
use_names (some namespace) name = some (namespace, name)

abbrev pub is_table_rule : RenameObject → Bool
is_table_rule entry = elim entry.old_name [ none ↦ false | some n ↦ true ]

module _ (namespace name : List ℕ) where
  abbrev pub matches_table : RenameObject → Bool
  matches_table entry =
      is_table_rule entry
      && not (
          idents_are_distinct entry.old_namespace (some namespace)
          || idents_are_distinct entry.old_name (some name))

  abbrev pub matches_namespace : RenameObject → Bool
  matches_namespace entry =
      not (is_table_rule entry) && not (idents_are_distinct entry.old_namespace (some namespace))

  -- "first we look for a table specific entry", where `fallback` is what comes behind the loop
  unfoldable pub lookup_table : List RenameObject → Renamed → Renamed
  unfolding idents_are_distinct
  lookup_table [] fallback = fallback
  lookup_table (entry ∷ rest) fallback =
      let next = lookup_table rest fallback in
      if matches_table entry then use_names entry.new_namespace entry.new_name else next

  -- "second we look for a whole namespace"; "No match found - just keep the item as it is"
  unfoldable pub lookup_namespace : List RenameObject → Renamed
  unfolding idents_are_distinct
  lookup_namespace [] = some (namespace, some name)
  lookup_namespace (entry ∷ rest) =
      let next = lookup_namespace rest in
      if matches_namespace entry then use_names entry.new_namespace (some name) else next

  unfoldable pub lookup_rename : List RenameObject → Renamed
  unfolding lookup_table lookup_namespace
  lookup_rename rename_list = lookup_table rename_list (lookup_namespace rename_list)
