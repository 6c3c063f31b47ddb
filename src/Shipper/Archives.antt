-- ===== src/Shipper/Archives.antt =====
-- The scan of the archive directory, archscan() of src/slony_logshipper/slony_logshipper.c: the files
-- that are to be applied, sorted by a tree. The directory's names are an argument. Where it fails main() ends;
-- the PQfinish() and ipc_finish(true) in front of that are left out.
pub mod Trees
pub mod Wanted
pub mod Applied
use slony1_engine.Base.{
  ℕ, zero, suc, ◌+◌, ◌-◌, Bool, true, false, not, ◌&&◌, ◌||◌, Option, none, some, List, [], ◌∷◌,
  ◌++◌, if◌then◌else◌, length, take, drop, ltb, ◌==◌, map,
}
use slony1_engine.Base.Strings.{strcmp, is_before}
use slony1_engine.Base.Bytes.{bytes}
use slony1_engine.Misc.{strcmp_eq}
use slony1_engine.Query.{◌>>=◌}
use slony1_engine.Shipper.{Shipper, ipc_send_path}
use slony1_engine.Shipper.Counters.{is_at_most}

pub data ArchscanEntry : Type 0 where
  nil : ArchscanEntry
  entry : List ℕ → ArchscanEntry → ArchscanEntry → ArchscanEntry

-- Behind the last slash, by strrchr().
unfoldable pub base_name : List ℕ → List ℕ
base_name [] = []
base_name (c ∷ s) =
    let rest = base_name s in if has_slash s then rest else if c == b'/' then s else c ∷ s
  where
    has_slash : List ℕ → Bool
    has_slash [] = false
    has_slash (d ∷ t) = d == b'/' || has_slash t

-- "Ignore files that compare higher or equal to any of our command line arguments."
unfoldable pub is_ignored : List (List ℕ) → List ℕ → Bool
unfolding base_name is_before
is_ignored [] fname = false
is_ignored (arg ∷ args) fname = not (is_before fname (base_name arg)) || is_ignored args fname

unfoldable pub sort_in : List ℕ → ArchscanEntry → ArchscanEntry
unfolding is_before
sort_in fname nil = entry fname nil nil
sort_in fname (entry f l r) =
    let left = sort_in fname l in
    let right = sort_in fname r in if is_before fname f then entry f left r else entry f l right

unfoldable pub archscan_sort_in : List (List ℕ) → List ℕ → ArchscanEntry → ArchscanEntry
unfolding is_ignored sort_in
archscan_sort_in args fname ent = if is_ignored args fname then ent else sort_in fname ent

-- Into the queue, from left to right; an error of ipc_send_path() ends it.
unfoldable pub archscan_sort_out :
    ℕ → Bool → List ℕ → ArchscanEntry → Shipper → Option (Bool × Shipper)
unfolding ipc_send_path
archscan_sort_out msgmax sends dir nil s = some (true, s)
archscan_sort_out msgmax sends dir (entry f l r) s = archscan_sort_out msgmax sends dir l s >>= λ a.
    if a.0
    then (ipc_send_path msgmax sends (dir ++ b'/' ∷ f) a.1 >>= λ b.
        if b.0 then archscan_sort_out msgmax sends dir r b.1 else some b)
    else some a

-- The last n bytes.
abbrev pub suffix : ℕ → List ℕ → List ℕ
suffix n s = drop (length s - n) s

-- The tests of archscan() on a name, with counter_done_buf.
unfoldable pub is_applied : List ℕ → List ℕ → Bool
unfolding is_at_most
is_applied done fname = ltb 24 (length fname) && is_at_most (suffix 24 fname) done

unfoldable pub is_archive : List ℕ → Bool
unfolding strcmp_eq bytes
is_archive fname =
    ltb 15 (length fname)
    && strcmp_eq (take 11 fname) (bytes "slony1_log_")
    && strcmp_eq (suffix 4 fname) (bytes ".sql")

-- The loop of readdir().
unfoldable pub scan_names : List ℕ → List (List ℕ) → List (List ℕ) → ArchscanEntry → ArchscanEntry
unfolding is_applied is_archive archscan_sort_in
scan_names done args [] ent = ent
scan_names done args (f ∷ fs) ent =
    scan_names done args fs
      (if is_applied done f then ent else if is_archive f then archscan_sort_in args f ent else ent)

-- archscan() behind the counter, with the names in the directory if it could be opened.
unfoldable pub archscan :
    ℕ
    → Bool
    → List ℕ
    → List ℕ
    → List (List ℕ)
    → Option (List (List ℕ))
    → Shipper
    → Option (Bool × Shipper)
unfolding scan_names archscan_sort_out
archscan msgmax sends dir done args none s = some (false, s)
archscan msgmax sends dir done args (some names) s =
    archscan_sort_out msgmax sends dir (scan_names done args names nil) s
