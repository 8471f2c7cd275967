-- ===== src/Staged/Moves.antt =====
-- The moves of staged artifacts into their places: all of them, or none that is left behind.
use ltsearch.Common.{
  String, true, false, Bool-cases, Option-cases, none, List, [], ◌∷◌, ◌++◌, Result, ok, err, is_err,
  ◌≡◌, ◌≢◌, refl, sym, arith, ◌⊎◌, inl, inr, str_eq, str_eq-ne, str_eq_iff, str_eq_refl, In,
}
use ltsearch.Errors.{IndexError}
use ltsearch.Disk.{
  Disk, Faults, create_dir_all, rename, remove, exists, put, rename_entry, remove_entry,
}
use ltsearch.Staged.{
  operation, remove_if_exists, move_into_place, remove_all, give_up, commit_from, commit,
}

In-last : (x : String) (xs : List String) → In x (xs ++ (x ∷ []))
In-last x [] = inl refl
In-last x (y ∷ ys) = inr (In-last x ys)

In-front : (x : String) (xs ys : List String) → In x xs → In x (xs ++ ys)
In-front x [] ys m = absurd m
In-front x (y ∷ xs) ys (inl e) = inl e
In-front x (y ∷ xs) ys (inr m) = inr (In-front x xs ys m)

module _ {N : Type 0} where
  -- The moves, one after the other, with nothing that fails.
  abbrev pub renamed : List (String × String) → Disk N → Disk N
  renamed [] d = d
  renamed ((source, destination) ∷ moves) d =
      renamed moves (put destination (d source) (put source none d))

module _ {N : Type 0} (f : Faults N) where
  abbrev pub Removes : Type 0
  Removes = (path : String) → f.fails (remove path) ≡ false

  remove-none :
      (p q : String) (d : Disk N) → Removes → d q ≡ none → (remove_if_exists f p d).1 q ≡ none
  unfolding remove_if_exists remove_entry
  remove-none p q d h e = ground (arith, h p, e)

  remove-same : (q : String) (d : Disk N) → Removes → (remove_if_exists f q d).1 q ≡ none
  unfolding remove_if_exists remove_entry
  remove-same q d h = ground (arith, h q, str_eq_refl q)

  remove_all-none :
      (ps : List String) (q : String) (d : Disk N)
      → Removes
      → d q ≡ none
      → (remove_all f ps d).1 q ≡ none
  unfolding remove_all
  remove_all-none [] q d h e = e
  remove_all-none (p ∷ ps) q d h e =
      remove_all-none ps q (remove_if_exists f p d).1 h (remove-none p q d h e)

  remove_all-In :
      (ps : List String) (q : String) (d : Disk N)
      → Removes
      → In q ps
      → (remove_all f ps d).1 q ≡ none
  unfolding remove_all
  remove_all-In [] q d h m = absurd m
  remove_all-In (p ∷ ps) q d h (inr m) = remove_all-In ps q (remove_if_exists f p d).1 h m
  remove_all-In (p ∷ ps) q d h (inl e) =
      remove_all-none ps q (remove_if_exists f p d).1 h (rw (sym e) (remove-same q d h))

  give_up-err :
      (root : String) (moved : List String) (e : IndexError) (d : Disk N)
      → is_err (give_up f root moved e d).0 ≡ true
  unfolding give_up
  give_up-err root moved e d = refl

  -- A path that was free, or that was moved to, is free after the cleanup.
  give_up-free :
      (root : String) (moved : List String) (e : IndexError) (q : String) (d : Disk N)
      → Removes
      → In q moved ⊎ (d q ≡ none)
      → (give_up f root moved e d).1 q ≡ none
  unfolding give_up
  give_up-free root moved e q d h (inl m) =
      remove_all-In (moved ++ (root ∷ [])) q d h (In-front q moved (root ∷ []) m)
  give_up-free root moved e q d h (inr n) = remove_all-none (moved ++ (root ∷ [])) q d h n

  -- A move is the rename, or leaves the disk as it is.
  move_cases :
      (s t : String) (d : Disk N)
      → (move_into_place f s t d ≡ (ok tt, put t (d s) (put s none d)))
        ⊎ ((e : IndexError) × (move_into_place f s t d ≡ (err e, d)))
  unfolding move_into_place rename_entry
  move_cases s t d = elim (Bool-cases (f.fails (create_dir_all t))) [
    | inl stuck ↦ inr (operation "failed to create directory", rw (stuck) refl)
    | inr made ↦ elim (Bool-cases (f.fails (rename s t))) [
      | inl stuck ↦ inr (operation "failed to publish staged artifact", rw (made, stuck) refl)
      | inr free ↦ elim (Option-cases (d s)) [
        | inl absent ↦
            inr (operation "failed to publish staged artifact", rw (made, free, absent) refl)
        | inr (n, there) ↦ inl (rw (made, free, there) refl)
      ]
    ]
  ]

  finish :
      (root q : String) (d : Disk N)
      → Removes
      → q ≢ root
      → f.within root q ≡ false
      → ((remove_if_exists f root d).0 ≡ ok tt) × ((remove_if_exists f root d).1 q ≡ d q)
  unfolding remove_if_exists remove_entry
  finish root q d h apart outside = ground (arith, h root, str_eq-ne q root apart)

  -- What a commit leaves at a path outside of the staging root.
  abbrev IsCommitted :
      List String
      → List (String × String)
      → String
      → Disk N
      → Result IndexError (Unit {0}) × Disk N
      → Type 0
  IsCommitted moved moves q d (r, d1) =
      ((r ≡ ok tt) × (d1 q ≡ renamed moves d q))
      ⊎ ((is_err r ≡ true) × ((In q moved ⊎ (d q ≡ none)) → d1 q ≡ none))

  freed :
      (moved : List String) (s t q : String) (d : Disk N)
      → In q moved ⊎ (d q ≡ none)
      → In q (moved ++ (t ∷ [])) ⊎ (put t (d s) (put s none d) q ≡ none)
  freed moved s t q d (inl m) = inl (In-front q moved (t ∷ []) m)
  freed moved s t q d (inr n) = elim (Bool-cases (str_eq q t)) [
    | inl same ↦ inl (rw ((str_eq_iff q t).0 same) (In-last t moved))
    | inr other ↦ inr (ground (arith, other, n))
  ]

  commit_from-IsCommitted :
      (root : String) (moved : List String) (moves : List (String × String)) (q : String)
      (d : Disk N)
      → Removes
      → q ≢ root
      → f.within root q ≡ false
      → IsCommitted moved moves q d (commit_from f root moved moves d)
  unfolding commit_from
  commit_from-IsCommitted root moved [] q d h apart outside = inl (finish root q d h apart outside)
  commit_from-IsCommitted root moved ((s, t) ∷ moves) q d h apart outside =
      elim (move_cases s t d) [
        | inl ran ↦
            rw (ran, commit_from)
              (elim (commit_from-IsCommitted root (moved ++ (t ∷ [])) moves q
                (put t (d s) (put s none d)) h apart outside) [
                  | inl done ↦ inl done
                  | inr (failed, free) ↦ inr (failed, λ m. free (freed moved s t q d m))
                ])
        | inr (e, stuck) ↦
            rw (stuck, commit_from)
              (inr (give_up-err root moved e d, λ m. give_up-free root moved e q d h m))
      ]

  -- Where no removal fails, at every path outside of the staging directory: after a success stands what
  -- the renames, one after the other, put there; after an error nothing stands where nothing stood.
  pub commit-IsAllOrNone :
      (root : String) (moves : List (String × String)) (q : String) (d : Disk N)
      → ((path : String) → f.fails (remove path) ≡ false)
      → q ≢ root
      → f.within root q ≡ false
      → (((commit f root moves d).0 ≡ ok tt) × ((commit f root moves d).1 q ≡ renamed moves d q))
        ⊎ ((is_err (commit f root moves d).0 ≡ true)
            × ((exists q d ≡ true) ⊎ ((commit f root moves d).1 q ≡ none)))
  unfolding commit
  commit-IsAllOrNone root moves q d h apart outside =
      elim (commit_from-IsCommitted root [] moves q d h apart outside) [
        | inl done ↦ inl done
        | inr (failed, free) ↦ elim (Option-cases (d q)) [
          | inl absent ↦ inr (failed, inr (free (inr absent)))
          | inr (n, there) ↦ inr (failed, inl (rw (there, exists) refl))
        ]
      ]
