-- ===== src/Activation/Verify/Checked.antt =====
-- What a release directory is that verifies.
use ltsearch.Common.{
  ℕ, String, Bool, Option, none, some, List, [], ◌∷◌, length, Result, ok, err, str_eq_iff, ◌==◌,
  ◌≡◌, refl, ap, subst, arith, All,
}
use ltsearch.Common.Outcome.{guard, map_err, ok_or, each, >>=-eq-ok, guard-eq-ok, ok_or-eq-ok}
use ltsearch.Turbo.Codec.{TurboQuantConfig}
use ltsearch.Turbo.MmapIndex.{MmapIndex, MmapIndexError}
use ltsearch.Turbo.Loader.{IndexCodec, load}
use ltsearch.Turbo.Accessors.{check_utf8}
use ltsearch.Turbo.Release.{
  ReleaseManifest, OutputFile, codec_turbo_version, sha256_hex, derive_release_id,
}
use ltsearch.Activation.{StaticActivateError, verify}
use ltsearch.Activation.Verify.{
  release_output_files, same_names, names_of, v4_config_of, check_versions, check_provenance,
  check_profile, check_codec, check_output, check_outputs, mmap_file, check_image, check_release,
  verify_release_dir, checked_texts, after_texts, release_manifest_file,
}
use ltsearch.Activation.Verify.Codecs.{
  pair-eq, eqb-eq, same_names-eq, provenance-count, CodecIs, check_codec-CodecIs,
  check_versions-fits,
}

module _ (sha256 : List ℕ → List ℕ) (hex_encode : List ℕ → String)
    (read : String → Option (List ℕ)) where
  -- The output's file is there, with its size and its hash.
  abbrev pub IsOnDisk : OutputFile → Type 0
  IsOnDisk o =
      (bytes : List ℕ) × (read o.name ≡ some bytes)
      × (length bytes ≡ o.size_bytes)
      × (sha256_hex sha256 hex_encode bytes ≡ o.sha256)

  check_output-IsOnDisk :
      (o : OutputFile) → check_output sha256 hex_encode read o ≡ ok tt → IsOnDisk o
  unfolding check_output
  check_output-IsOnDisk o e =
      >>=-eq-ok (ok_or (read o.name) (verify "failed to read output")) _ e λ bytes r e1. (
        bytes,
        ok_or-eq-ok (read o.name) _ r,
        ground (arith, e1),
        ground (arith, e1, str_eq_iff (sha256_hex sha256 hex_encode bytes) o.sha256),
      )

  each-IsOnDisk :
      (os : List OutputFile)
      → each (check_output sha256 hex_encode read) os ≡ ok tt
      → All IsOnDisk os
  unfolding each
  each-IsOnDisk [] e = tt
  each-IsOnDisk (o ∷ os) e =
      >>=-eq-ok (check_output sha256 hex_encode read o) _ e
        λ u good rest. (check_output-IsOnDisk o (ground (arith, good)), each-IsOnDisk os rest)

  abbrev pub OutputsFit : List String → ReleaseManifest → Type 0
  OutputsFit expected_files m =
      (names_of m.outputs ≡ expected_files)
      × All IsOnDisk m.outputs
      × (derive_release_id sha256 hex_encode m.turbo_version m.embedding_profile m.codec
            m.input_fingerprint.content_digest m.outputs
          ≡ m.release_id)

  check_outputs-fit :
      (expected_files : List String) (m : ReleaseManifest)
      → check_outputs sha256 hex_encode read expected_files m ≡ ok tt
      → OutputsFit expected_files m
  unfolding check_outputs
  check_outputs-fit expected_files m e =
      >>=-eq-ok (guard (same_names (names_of m.outputs) expected_files) _) _ e λ u same e1.
        >>=-eq-ok (each (check_output sha256 hex_encode read) m.outputs) _ e1 λ v good e2. (
          same_names-eq (names_of m.outputs) expected_files (guard-eq-ok _ _ same),
          each-IsOnDisk m.outputs (ground (arith, good)),
          (str_eq_iff _ m.release_id).0 (guard-eq-ok _ _ e2),
        )

  -- The image loads, as one of the manifest's version, with a record for each row.
  abbrev pub ImageFits : (String → Bool) → ReleaseManifest → MmapIndex IndexCodec → Type 0
  ImageFits is_aligned m index =
      (load sha256 (mmap_file sha256 hex_encode read) is_aligned ≡ ok index)
      × (index.header.version ≡ m.turbo_version)
      × (index.header.record_count ≡ m.source.table_row_count)
      × CodecIs m.codec index.codec

  check_image-fits :
      (is_aligned : String → Bool) (m : ReleaseManifest) (config : Option TurboQuantConfig)
      (index : MmapIndex IndexCodec)
      → v4_config_of m.codec ≡ ok config
      → check_image sha256 hex_encode read is_aligned m config ≡ ok index
      → ImageFits is_aligned m index
  unfolding check_image
  check_image-fits is_aligned m config index made e =
      >>=-eq-ok
        (map_err (λ f. verify "MmapIndex::load failed")
          (load sha256 (mmap_file sha256 hex_encode read) is_aligned))
        _ e
        λ i loads e1. >>=-eq-ok (guard (i.header.version == m.turbo_version) _) _ e1 λ u version e2.
          >>=-eq-ok (check_codec config i.codec) _ e2 λ v codec e3.
            >>=-eq-ok (guard (i.header.record_count == m.source.table_row_count) _) _ e3
              λ w count e4.
                let same : i ≡ index = ground (arith, e4) in
                subst (λ j. ImageFits is_aligned m j) same
                  (
                    ground (arith, loads),
                    eqb-eq _ _ (guard-eq-ok _ _ version),
                    eqb-eq _ _ (guard-eq-ok _ _ count),
                    check_codec-CodecIs m.codec config i.codec made (ground (arith, codec)),
                  )

  -- The release is one that the version's writer writes, its files are on the disk as the manifest says,
  -- its identifier is that of its contents, and its image loads.
  abbrev pub IsVerified : (String → Bool) → ReleaseManifest → MmapIndex IndexCodec → Type 0
  IsVerified is_aligned m index =
      ((files : List String) × (release_output_files m.turbo_version ≡ some files)
        × OutputsFit files m)
      × (codec_turbo_version m.codec ≡ m.turbo_version)
      × (m.source.table_row_count ≡ m.input_fingerprint.doc_count)
      × ImageFits is_aligned m index

  module _ (parse_manifest : List ℕ → Result String ReleaseManifest) (is_aligned : String → Bool)
      (expect_model_id : Option String) (expect_dim : Option ℕ) where
    assembled :
        (m n : ReleaseManifest) (index i : MmapIndex IndexCodec)
        (expected : List String × Option TurboQuantConfig) {u w : Unit {0}}
        → ◌≡◌ {A = Result StaticActivateError (ReleaseManifest × MmapIndex IndexCodec)}
            (ok (n, i))
            (ok (m, index))
        → check_versions n ≡ ok expected
        → check_outputs sha256 hex_encode read expected.0 n ≡ ok u
        → check_provenance n ≡ ok w
        → check_image sha256 hex_encode read is_aligned n expected.1 ≡ ok i
        → IsVerified is_aligned m index
    assembled m n index i expected e v o provenance image =
        let (files, codec, config) = check_versions-fits n expected v in
        subst (λ (p : ReleaseManifest × MmapIndex IndexCodec). IsVerified is_aligned p.0 p.1)
          (pair-eq n i m index e)
          (
            (expected.0, files, check_outputs-fit expected.0 n o),
            codec,
            provenance-count n provenance,
            check_image-fits is_aligned n expected.1 i config image,
          )

    pub check_release-IsVerified :
        (m : ReleaseManifest) (index : MmapIndex IndexCodec)
        → check_release sha256 hex_encode read parse_manifest is_aligned expect_model_id expect_dim
          ≡ ok (m, index)
        → IsVerified is_aligned m index
    unfolding check_release
    check_release-IsVerified m index e =
        >>=-eq-ok (ok_or (read release_manifest_file) (verify "failed to read release manifest")) _
          e
          λ bytes r e1.
            >>=-eq-ok
              (map_err (λ f. verify "failed to parse release manifest") (parse_manifest bytes)) _ e1
              λ n p e2. >>=-eq-ok (check_versions n) _ e2 λ expected v e3.
                >>=-eq-ok (check_outputs sha256 hex_encode read expected.0 n) _ e3 λ u o e4.
                  >>=-eq-ok (check_provenance n) _ e4 λ w provenance e5.
                    >>=-eq-ok (check_profile expect_model_id expect_dim n) _ e5 λ x profile e6.
                      >>=-eq-ok (check_image sha256 hex_encode read is_aligned n expected.1) _ e6
                        λ i image e7. assembled m n index i expected e7 v o provenance image

    after_texts-ok :
        (n : ReleaseManifest) (o : Option (Result MmapIndexError (Unit {0}))) {m : ReleaseManifest}
        → after_texts sha256 hex_encode read n o ≡ some (ok m)
        → (o ≡ some (ok tt)) × (n ≡ m)
    after_texts-ok n none e = absurd (ground (arith, e))
    after_texts-ok n (some (err f)) e = absurd (ground (arith, e))
    after_texts-ok n (some (ok u)) e = (refl, ground (arith, e))

    pub checked_texts-ok :
        (from_utf8 : List ℕ → Option String)
        (r : Result StaticActivateError (ReleaseManifest × MmapIndex IndexCodec))
        {m : ReleaseManifest}
        → checked_texts sha256 hex_encode read from_utf8 r ≡ some (ok m)
        → (index : MmapIndex IndexCodec) × (r ≡ ok (m, index))
          × (check_utf8 from_utf8 index ≡ some (ok tt))
    checked_texts-ok from_utf8 (err f) e = absurd (ground (arith, e))
    checked_texts-ok from_utf8 (ok (n, index)) e =
        let (texts, same) = after_texts-ok n (check_utf8 from_utf8 index) e in
        (index, ap (λ k. ok (k, index)) same, texts)

    -- A release directory that verifies holds the files of its version, each with the size and the hash
    -- that the manifest names; the identifier is that of the contents; and its image loads, of the
    -- manifest's version, with a record for each row, with the codec that the manifest's section stands
    -- for, and passes the check of its texts.
    pub verify_release_dir-IsVerified :
        (from_utf8 : List ℕ → Option String) (m : ReleaseManifest)
        → verify_release_dir sha256 hex_encode read from_utf8 parse_manifest is_aligned
            expect_model_id expect_dim
          ≡ some (ok m)
        → (index : MmapIndex IndexCodec) × IsVerified is_aligned m index
          × (check_utf8 from_utf8 index ≡ some (ok tt))
    unfolding verify_release_dir
    verify_release_dir-IsVerified from_utf8 m e =
        let (index, checked, texts) =
          checked_texts-ok from_utf8
            (check_release sha256 hex_encode read parse_manifest is_aligned expect_model_id
              expect_dim)
            e in
        (index, check_release-IsVerified m index checked, texts)
