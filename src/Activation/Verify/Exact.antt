-- ===== src/Activation/Verify/Exact.antt =====
-- Which release directories verify.
use ltsearch.Common.{
  ℕ, String, Bool, true, Option, some, List, [], ◌∷◌, Result, ok, str_eq_refl, ◌==◌, ◌≡◌, ◌↔◌, refl,
  ap, subst, arith, All,
}
use ltsearch.Common.Outcome.{map_err, ok_or, ok_or-eq-ok, each, >>=-eq-ok}
use ltsearch.Turbo.Codec.{TurboQuantConfig}
use ltsearch.Turbo.MmapIndex.{MmapIndex}
use ltsearch.Turbo.Loader.{IndexCodec}
use ltsearch.Turbo.Accessors.{check_utf8}
use ltsearch.Turbo.Release.{ReleaseManifest, OutputFile}
use ltsearch.Activation.{StaticActivateError, verify}
use ltsearch.Activation.Verify.{
  release_manifest_file, check_versions, check_provenance, check_profile, check_codec, check_output,
  check_outputs, check_image, check_release, verify_release_dir,
}
use ltsearch.Activation.Verify.Codecs.{pair-eq}
use ltsearch.Activation.Verify.Checked.{
  IsOnDisk, OutputsFit, ImageFits, IsVerified, check_release-IsVerified, checked_texts-ok,
}
use ltsearch.Activation.Verify.Accepted.{
  IsFromLance, IsExpected, provenance_lem, provenance_complete, profile_lem, profile_complete,
  versions_complete, versions_schema, same_names_refl, eqb_same, codec_complete,
}

module _ (sha256 : List ℕ → List ℕ) (hex_encode : List ℕ → String)
    (read : String → Option (List ℕ)) where
  output_complete :
      (o : OutputFile)
      → IsOnDisk sha256 hex_encode read o
      → check_output sha256 hex_encode read o ≡ ok tt
  unfolding check_output
  output_complete o (bytes, r, size, hash) = rw (r, size, hash, str_eq_refl o.sha256) (ground arith)

  each_complete :
      (os : List OutputFile)
      → All (IsOnDisk sha256 hex_encode read) os
      → each (check_output sha256 hex_encode read) os ≡ ok tt
  unfolding each
  each_complete [] all = refl
  each_complete (o ∷ os) (fits, all) = rw (output_complete o fits) (each_complete os all)

  outputs_complete :
      (files : List String) (m : ReleaseManifest)
      → OutputsFit sha256 hex_encode read files m
      → check_outputs sha256 hex_encode read files m ≡ ok tt
  unfolding check_outputs
  outputs_complete files m (names, all, id) =
      rw (names, same_names_refl files, each_complete m.outputs all, id, str_eq_refl m.release_id)
        refl

  image_complete :
      (is_aligned : String → Bool) (m : ReleaseManifest) (config : Option TurboQuantConfig)
      (index : MmapIndex IndexCodec)
      → ImageFits sha256 hex_encode read is_aligned m index
      → check_codec config index.codec ≡ ok tt
      → check_image sha256 hex_encode read is_aligned m config ≡ ok index
  unfolding check_image
  image_complete is_aligned m config index (loads, version, count, _) codec =
      let same : (index.header.version == m.turbo_version) ≡ true = eqb_same _ _ version in
      let rows : (index.header.record_count == m.source.table_row_count) ≡ true =
        eqb_same _ _ count in
      rw (loads, same, codec, rows) refl

  module _ (parse_manifest : List ℕ → Result String ReleaseManifest) (is_aligned : String → Bool)
      (expect_model_id : Option String) (expect_dim : Option ℕ) where
    -- A release of the schema, of a table and for the profile that are expected, whose manifest is in the
    -- directory and which is as the manifest says.
    abbrev pub IsRelease : ReleaseManifest → MmapIndex IndexCodec → Type 0
    IsRelease m index =
        ((bytes : List ℕ) × (read release_manifest_file ≡ some bytes)
          × (parse_manifest bytes ≡ ok m))
        × (m.manifest_schema_version ≡ 1)
        × IsFromLance m
        × IsExpected expect_model_id expect_dim m
        × IsVerified sha256 hex_encode read is_aligned m index

    abbrev Facts : ReleaseManifest → Type 0
    Facts m =
        ((bytes : List ℕ) × (read release_manifest_file ≡ some bytes)
          × (parse_manifest bytes ≡ ok m))
        × (m.manifest_schema_version ≡ 1)
        × IsFromLance m
        × IsExpected expect_model_id expect_dim m

    abbrev checking : Result StaticActivateError (ReleaseManifest × MmapIndex IndexCodec)
    checking =
        check_release sha256 hex_encode read parse_manifest is_aligned expect_model_id expect_dim

    check_release_complete :
        (m : ReleaseManifest) (index : MmapIndex IndexCodec)
        → IsRelease m index
        → checking ≡ ok (m, index)
    unfolding check_release
    check_release_complete m index
          ((bytes, r, p), schema, lance, expected, ((files, listed, fits), same, count, image)) =
        let (config, made, codec) = codec_complete m.codec index.codec image.3 in
        let versions = versions_complete m files config schema listed same made in
        rw
          (
            r,
            p,
            versions,
            outputs_complete files m fits,
            provenance_complete m lance count,
            profile_complete expect_model_id expect_dim m expected,
            image_complete is_aligned m config index image codec,
          )
          refl

    parsed :
        (bytes : List ℕ) {m : ReleaseManifest}
        → map_err (λ f. verify "failed to parse release manifest") (parse_manifest bytes) ≡ ok m
        → parse_manifest bytes ≡ ok m
    parsed bytes e = ground (arith, e)

    check_release-Facts :
        (m : ReleaseManifest) (index : MmapIndex IndexCodec) → checking ≡ ok (m, index) → Facts m
    unfolding check_release
    check_release-Facts m index e =
        >>=-eq-ok (ok_or (read release_manifest_file) (verify "failed to read release manifest")) _
          e
          λ bytes r e1.
            >>=-eq-ok
              (map_err (λ f. verify "failed to parse release manifest") (parse_manifest bytes)) _ e1
              λ n p e2. >>=-eq-ok (check_versions n) _ e2 λ expected v e3.
                >>=-eq-ok (check_outputs sha256 hex_encode read expected.0 n) _ e3 λ u o e4.
                  >>=-eq-ok (check_provenance n) _ e4 λ w provenance e5.
                    >>=-eq-ok (check_profile expect_model_id expect_dim n) _ e5 λ x profile e6.
                      >>=-eq-ok (check_image sha256 hex_encode read is_aligned n expected.1) _ e6
                        λ i image e7. subst Facts (ap (λ q. q.0) (pair-eq n i m index e7)) (
                          (bytes, ok_or-eq-ok (read release_manifest_file) _ r, parsed bytes p),
                          versions_schema n v,
                          provenance_lem n provenance,
                          profile_lem expect_model_id expect_dim n profile,
                        )

    -- A release directory verifies exactly if its manifest, which can be read, is that of a release of the
    -- schema, from a table and for the expected profile; the directory holds the files of its version,
    -- each with the size and the hash that the manifest names; the identifier is that of the contents; and
    -- the image loads, of the manifest's version, with a record for each row, with the codec that the
    -- manifest's section stands for, and passes the check of its texts.
    pub verify_release_dir-exact :
        (from_utf8 : List ℕ → Option String) (m : ReleaseManifest)
        → (verify_release_dir sha256 hex_encode read from_utf8 parse_manifest is_aligned
              expect_model_id expect_dim
            ≡ some (ok m))
          ↔ ((index : MmapIndex IndexCodec) × IsRelease m index
              × (check_utf8 from_utf8 index ≡ some (ok tt)))
    unfolding verify_release_dir
    verify_release_dir-exact from_utf8 m = (
      λ e.
          let (index, checked, texts) =
            checked_texts-ok sha256 hex_encode read parse_manifest is_aligned expect_model_id
              expect_dim from_utf8 checking e in
          let (manifest, schema, lance, expected) = check_release-Facts m index checked in
          (
            index,
            (
              manifest,
              schema,
              lance,
              expected,
              check_release-IsVerified sha256 hex_encode read parse_manifest is_aligned
                  expect_model_id expect_dim m index checked,
            ),
            texts,
          ),
      λ (index, release, texts). rw (check_release_complete m index release, texts) refl,
    )
