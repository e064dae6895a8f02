-- ===== src/FilePurger.antt =====
-- FilePurger (include/libant/file_utils/file_purger.h, src/file_utils/file_purger.cpp): which files a
-- round of purging removes. The file system is a tree of entries, each with the seconds since it was
-- written, unknown where `last_write_time` fails; whether the system lets an entry be removed is a
-- parameter. The tree has no symbolic links: a link to a directory, which the program follows and may
-- remove as a link, is not modelled. A time in the future counts as 0 seconds, and the inactive time
-- of a rule is not negative: so no comparison of the two changes.
pub mod Kept
mod Tests
use libant.Common.{
  ℕ, ltb, ◌==◌, ◌&&◌, Bool, true, false, if◌then◌else◌, List, [], ◌∷◌, Option, none, some,
}

-- The entries of a directory: none, an error, or one of the three kinds and the entries behind it.
pub data Entries : Type 0 where
  nothing : Entries
  unreadable : Entries
  file : ℕ → Option ℕ → Entries → Entries
  directory : ℕ → Option ℕ → Entries → Entries → Entries
  other : ℕ → Option ℕ → Entries → Entries

pub record PurgingRule : Type 0 where
  pub inactive_time : ℕ
  pub purge_recursively : Bool
  pub purge_empty_directory : Bool

abbrev pub is_empty : Entries → Bool
is_empty nothing = true
is_empty _ = false

-- `purgeOldFiles`: what is left of the entries of a directory.
unfoldable pub purge_old_files : (ℕ → Bool) → PurgingRule → Entries → Entries
purge_old_files removable rule nothing = nothing
purge_old_files removable rule unreadable = unreadable
purge_old_files removable rule (file name none next) =
    file name none (purge_old_files removable rule next)
purge_old_files removable rule (file name (some elapsed) next) =
    let rest = purge_old_files removable rule next in
    if ltb rule.inactive_time elapsed && removable name then rest else file name (some elapsed) rest
purge_old_files removable rule (directory name none inside next) =
    directory name none inside (purge_old_files removable rule next)
purge_old_files removable rule (directory name (some elapsed) inside next) =
    let rest = purge_old_files removable rule next in
    let purged = purge_old_files removable rule inside in
    let left = if rule.purge_recursively then purged else inside in
    if (rule.purge_empty_directory && ltb rule.inactive_time elapsed)
      && (is_empty left && removable name)
    then rest
    else directory name (some elapsed) left rest
purge_old_files removable rule (other name elapsed next) =
    other name elapsed (purge_old_files removable rule next)

-- `rules_`, with `insert_or_assign`, `erase` and `clear`; directories are known by numbers.
abbrev pub remove : ℕ → List (ℕ × PurgingRule) → List (ℕ × PurgingRule)
remove dir [] = []
remove dir ((d, rule) ∷ rules) =
    let rest = remove dir rules in if d == dir then rest else (d, rule) ∷ rest

abbrev pub add : ℕ → PurgingRule → List (ℕ × PurgingRule) → List (ℕ × PurgingRule)
add dir rule rules = (dir, rule) ∷ remove dir rules

abbrev pub clear : List (ℕ × PurgingRule) → List (ℕ × PurgingRule)
clear rules = []
