-- ===== src/FilePurger/Tests.antt =====
-- The witnesses of the properties of FilePurger.
use libant.Common.{ℕ, ◌≡◌, ◌≢◌, refl, arith, true, [], Option, none, some, Bool}
use libant.FilePurger.{Entries, nothing, file, directory, PurgingRule, purge_old_files}
use libant.FilePurger.Kept.{old_files, Scanned, purge_old_files-old}

abbrev rule : PurgingRule
rule = record { inactive_time = 60; purge_recursively = true; purge_empty_directory = true }

abbrev tree : Entries
tree =
    directory 1 (some 100) (file 2 (some 61) nothing) (file 3 (some 60) (file 4 (some 90) nothing))

abbrev removable : ℕ → Bool
removable name = true

known : (n : ℕ) → ◌≢◌ {A = Option ℕ} (some n) none
known n eq = ground arith

tree-Scanned : Scanned tree
unfolding Scanned
tree-Scanned = (known 100, (known 61, tt), (known 60, (known 90, tt)))

purge_old_files-old_example : old_files rule (purge_old_files removable rule tree) ≡ []
purge_old_files-old_example =
    purge_old_files-old removable rule tree (λ name. refl) refl tree-Scanned
