-- ===== src/FilePurger/Kept.antt =====
-- What a round of purging leaves.
use libant.Common.{
  ℕ, ◌≡◌, refl, ap, arith, ltb, ◌&&◌, Bool, Bool-cases, true, false, if◌then◌else◌, inl, inr,
}
use libant.Common.{◌≢◌, List, [], ◌∷◌, ◌++◌, none, some, ◌∙◌}
use libant.FilePurger.{
  Entries, nothing, unreadable, file, directory, other, PurgingRule, is_empty, purge_old_files,
}

-- Every entry can be read and dated.
unfoldable pub Scanned : Entries → Type 0
Scanned nothing = Unit
Scanned unreadable = ⊥
Scanned (file name elapsed next) = (elapsed ≢ none) × Scanned next
Scanned (directory name elapsed inside next) = (elapsed ≢ none) × Scanned inside × Scanned next
Scanned (other name elapsed next) = Scanned next

unfoldable pub old_files : PurgingRule → Entries → List ℕ
old_files rule nothing = []
old_files rule unreadable = []
old_files rule (file name none next) = old_files rule next
old_files rule (file name (some elapsed) next) =
    let rest = old_files rule next in if ltb rule.inactive_time elapsed then name ∷ rest else rest
old_files rule (directory name elapsed inside next) = old_files rule inside ++ old_files rule next
old_files rule (other name elapsed next) = old_files rule next

-- With a rule that purges recursively, a tree in which every entry can be read and dated, and a system
-- that lets every file be removed, a round of purging leaves no file that is older than allowed.
pub purge_old_files-old :
    (removable : ℕ → Bool) (rule : PurgingRule) (es : Entries)
    → ((name : ℕ) → removable name ≡ true)
    → rule.purge_recursively ≡ true
    → Scanned es
    → old_files rule (purge_old_files removable rule es) ≡ []
unfolding old_files purge_old_files Scanned
purge_old_files-old removable rule nothing free deep h = refl
purge_old_files-old removable rule unreadable free deep h = absurd h
purge_old_files-old removable rule (file name none next) free deep h = absurd (h.0 refl)
purge_old_files-old removable rule (file name (some elapsed) next) free deep (known, h) =
    elim (Bool-cases (ltb rule.inactive_time elapsed)) [
      | inl old ↦ rw (old, free name) (purge_old_files-old removable rule next free deep h)
      | inr young ↦ rw (young, young) (purge_old_files-old removable rule next free deep h)
    ]
purge_old_files-old removable rule (directory name none inside next) free deep h = absurd (h.0 refl)
purge_old_files-old removable rule (directory name (some elapsed) inside next) free deep
      (known, hi, h) =
    purged
      ((rule.purge_empty_directory && ltb rule.inactive_time elapsed)
        && (is_empty
              (if rule.purge_recursively then purge_old_files removable rule inside else inside)
            && removable name))
      (if rule.purge_recursively then purge_old_files removable rule inside else inside)
      (purge_old_files removable rule next)
      (entered rule.purge_recursively deep (purge_old_files-old removable rule inside free deep hi))
      (purge_old_files-old removable rule next free deep h)
  where
    purged :
        (gone : Bool) (left rest : Entries)
        → old_files rule left ≡ []
        → old_files rule rest ≡ []
        → old_files rule (if gone then rest else directory name (some elapsed) left rest) ≡ []
    purged true left rest none_left none_behind = none_behind
    purged false left rest none_left none_behind =
        ap (λ l. l ++ old_files rule rest) none_left ∙ none_behind

    entered :
        (r : Bool)
        → r ≡ true
        → old_files rule (purge_old_files removable rule inside) ≡ []
        → old_files rule (if r then purge_old_files removable rule inside else inside) ≡ []
    entered true eq ih = ih
    entered false eq ih = ground arith
purge_old_files-old removable rule (other name elapsed next) free deep h =
    purge_old_files-old removable rule next free deep h
