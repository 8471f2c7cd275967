-- ===== src/Activation/Verify/Same.antt =====
-- Releases with the same identifier are the same files.
use ltsearch.Common.{
  ℕ, String, Bool, false, Option, none, some, List, [], ◌∷◌, Result, ok, ◌≡◌, refl, sym, ap, ◌∙◌,
  subst, arith, All, ◌⊎◌, inl, inr, ◌==◌, Bool-cases,
}
use ltsearch.Query.Ranker.{str_less}
use ltsearch.Turbo.Release.{ReleaseManifest, OutputFile, insert_output, sort_outputs, sha256_hex}
use ltsearch.Turbo.Release.Framing.{bytes_cases}
use ltsearch.Turbo.Release.Identity.{IsWritten, Collision, derive_release_id-SameContents}
use ltsearch.Activation.{StaticActivateError}
use ltsearch.Activation.Verify.{
  release_output_files, v3_release_output_files, v4_release_output_files, names_of,
  verify_release_dir,
}
use ltsearch.Activation.Verify.Checked.{IsOnDisk, OutputsFit, verify_release_dir-IsVerified}

abbrev Ascending : List String → Type 0
Ascending [] = Unit
Ascending (a ∷ []) = Unit
Ascending (a ∷ b ∷ names) = (str_less b a ≡ false) × Ascending (b ∷ names)

release_output_files-Ascending :
    (version : ℕ) (files : List String)
    → release_output_files version ≡ some files
    → Ascending files
unfolding release_output_files str_less
release_output_files-Ascending version files e = elim (Bool-cases (version == 3)) [
  | inl three ↦
      subst Ascending {x = v3_release_output_files} (ground (arith, e, three)) v3_ascending
  | inr other ↦ elim (Bool-cases (version == 4)) [
    | inl four ↦
        subst Ascending {x = v4_release_output_files} (ground (arith, e, other, four)) v4_ascending
    | inr none_of ↦ absurd (ground (arith, e, other, none_of))
  ]
]
  where
    v3_ascending : Ascending v3_release_output_files
    v3_ascending = (refl, (refl, (refl, (refl, (refl, (refl, (refl, (refl, tt))))))))

    v4_ascending : Ascending v4_release_output_files
    v4_ascending = (refl, (refl, (refl, (refl, (refl, (refl, (refl, (refl, (refl, tt)))))))))

-- Outputs in the order of their names stay as they are.
sort_outputs-eq : (os : List OutputFile) → Ascending (names_of os) → sort_outputs os ≡ os
unfolding sort_outputs insert_output
sort_outputs-eq [] h = refl
sort_outputs-eq (o ∷ []) h = refl
sort_outputs-eq (o ∷ p ∷ os) (h, rest) = rw (sort_outputs-eq (p ∷ os) rest, h) refl

module _ (sha256 : List ℕ → List ℕ) (hex_encode : List ℕ → String) where
  abbrev Reads : Type 0
  Reads = String → Option (List ℕ)

  -- The files of the outputs, in two directories that both hold them.
  same_files :
      (read other : Reads) (os : List OutputFile)
      → All (IsOnDisk sha256 hex_encode read) os
      → All (IsOnDisk sha256 hex_encode other) os
      → All (λ name. read name ≡ other name) (names_of os) ⊎ Collision sha256 hex_encode
  unfolding sha256_hex
  same_files read other [] h k = inl tt
  same_files read other (o ∷ os) ((b, r, _, x), h) ((c, s, _, y), k) = elim (bytes_cases b c) [
    | inr differ ↦ inr (b, c, differ, x ∙ sym y)
    | inl same ↦ elim (same_files read other os h k) [
      | inr collision ↦ inr collision
      | inl rest ↦ inl (r ∙ ap some same ∙ sym s, rest)
    ]
  ]

  fitting :
      (read : Reads) (files : List String) (m : ReleaseManifest)
      → Ascending files
      → OutputsFit sha256 hex_encode read files m
      → sort_outputs m.outputs ≡ m.outputs
  fitting read files m h fits = sort_outputs-eq m.outputs (subst Ascending (sym fits.0) h)

  module _ (from_utf8 : List ℕ → Option String)
      (parse_manifest : List ℕ → Result String ReleaseManifest) (is_aligned : String → Bool) where
    abbrev pub verified : Reads → Option (Result StaticActivateError ReleaseManifest)
    verified read =
        verify_release_dir sha256 hex_encode read from_utf8 parse_manifest is_aligned none none

    -- Two release directories that verify, with the same identifier, hold the same bytes in every file of
    -- the release, or two texts have the same digest; provided that the fields of both manifests fit their
    -- types and the hashes of their files have 64 bytes.
    pub verify_release_dir-same :
        (read other : Reads) (m n : ReleaseManifest)
        → verified read ≡ some (ok m)
        → verified other ≡ some (ok n)
        → IsWritten m
        → IsWritten n
        → m.release_id ≡ n.release_id
        → ((files : List String) × (release_output_files m.turbo_version ≡ some files)
            × All (λ name. read name ≡ other name) files)
          ⊎ Collision sha256 hex_encode
    verify_release_dir-same read other m n e k hm hn same =
        let (_, ((files, listed, fits), _, _, _), _) =
          verify_release_dir-IsVerified sha256 hex_encode read parse_manifest is_aligned none none
            from_utf8 m e in
        let (_, ((files', listed', fits'), _, _, _), _) =
          verify_release_dir-IsVerified sha256 hex_encode other parse_manifest is_aligned none none
            from_utf8 n k in
        elim (derive_release_id-SameContents sha256 hex_encode m n hm hn
          (fits.2 ∙ same ∙ sym fits'.2)) [
            | inr collision ↦ inr collision
            | inl (_, _, _, _, sorted) ↦
                let outputs : m.outputs ≡ n.outputs =
                  sym (
                    fitting read files m
                      (release_output_files-Ascending m.turbo_version files listed) fits)
                  ∙ sorted
                  ∙ fitting other files' n
                      (release_output_files-Ascending n.turbo_version files' listed') fits' in
                elim (same_files read other m.outputs fits.1
                  (subst (λ os. All (IsOnDisk sha256 hex_encode other) os) (sym outputs) fits'.1)) [
                    | inr collision ↦ inr collision
                    | inl all ↦ inl (
                      files,
                      listed,
                      subst (λ l. All (λ name. read name ≡ other name) l) fits.0 all,
                    )
                  ]
          ]
