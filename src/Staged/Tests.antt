-- ===== src/Staged/Tests.antt =====
-- An index directory that is replaced, and two artifacts that are moved.
use ltsearch.Common.{
  String, true, false, none, some, List, [], ◌∷◌, ok, is_err, ◌≡◌, refl, str_eq, ◌⊎◌, ◌&&◌, ◌||◌,
  if◌then◌else◌, arith, str_eq_iff,
}
use ltsearch.Disk.{Disk, Faults, create_dir_all, rename, remove, copy, exists}
use ltsearch.Staged.{commit, commit_replace_dir}
use ltsearch.Staged.Replace.{IsApart, IsReplaced, commit_replace_dir-IsReplaced}
use ltsearch.Staged.Moves.{renamed, commit-IsAllOrNone}

-- What stands at a path is its text.
abbrev before : Disk String
before path =
    if str_eq path "index" then some "old" else if str_eq path ".staging" then some "new" else none

-- The staged directory cannot be renamed.
abbrev no_rename : Faults String
no_rename = record {
  fails = λ c. elim c [
    | create_dir_all p ↦ false
    | rename a b ↦ str_eq a ".staging"
    | remove p ↦ false
    | copy a b ↦ false
  ];
  left = λ n. none;
  within = λ a b. false;
}

apart : IsApart no_rename ".staging" "index" ".backup"
apart = (
  λ e. ground (arith, e, str_eq_iff "index" ".staging"),
  λ e. ground (arith, e, str_eq_iff "index" ".backup"),
  λ e. ground (arith, e, str_eq_iff ".backup" ".staging"),
  refl,
  refl,
  refl,
)

restored_test :
    (commit_replace_dir no_rename ".staging" "index" (ok ".backup") before).1 "index" ≡ some "old"
unfolding commit_replace_dir
restored_test = refl

commit_replace_dir-IsReplaced_example :
    IsReplaced no_rename ".staging" "index" ".backup"
      (some "old")
      "new"
      (commit_replace_dir no_rename ".staging" "index" (ok ".backup") before)
commit_replace_dir-IsReplaced_example =
    commit_replace_dir-IsReplaced no_rename ".staging" "index" ".backup" before "new" apart refl
      refl

-- The second artifact cannot be moved.
abbrev no_text : Faults String
no_text = record {
  fails = λ c. elim c [
    | create_dir_all p ↦ false
    | rename a b ↦ str_eq b "out/text"
    | remove p ↦ false
    | copy a b ↦ false
  ];
  left = λ n. none;
  within = λ a b. str_eq a ".staging" && (str_eq b ".staging/lance" || str_eq b ".staging/text");
}

abbrev artifacts : List (String × String)
artifacts = (".staging/lance", "out/lance") ∷ (".staging/text", "out/text") ∷ []

abbrev written : Disk String
written path =
    if str_eq path ".staging/lance"
    then some "lance"
    else if str_eq path ".staging/text"
    then some "text"
    else none

undone_test : (commit no_text ".staging" artifacts written).1 "out/lance" ≡ none
unfolding commit
undone_test = refl

commit-IsAllOrNone_example :
    (((commit no_text ".staging" artifacts written).0 ≡ ok tt)
      × ((commit no_text ".staging" artifacts written).1 "out/lance"
          ≡ renamed artifacts written "out/lance"))
    ⊎ ((is_err (commit no_text ".staging" artifacts written).0 ≡ true)
        × ((exists "out/lance" written ≡ true)
            ⊎ ((commit no_text ".staging" artifacts written).1 "out/lance" ≡ none)))
commit-IsAllOrNone_example =
    commit-IsAllOrNone no_text ".staging" artifacts "out/lance" written (λ path. refl)
      (λ e. ground (arith, e, str_eq_iff "out/lance" ".staging")) refl
