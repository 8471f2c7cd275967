-- ===== src/Activation/Verify/Codecs.antt =====
-- The versions and the codec section of a release that verifies.
use ltsearch.Common.{
  ℕ, String, Bool, true, false, Option, none, some, List, [], ◌∷◌, Result, ok, str_eq_iff, ◌==◌,
  ◌≡◌, refl, sym, ap, ◌∙◌, subst, arith,
}
use ltsearch.Common.Outcome.{guard, map_err, ok_or, ◌>>◌, >>=-eq-ok, guard-eq-ok, ok_or-eq-ok}
use ltsearch.Turbo.Codec.{
  TurboQuantConfig, CodecMetadata, legacy_v1, to_v3_codec_metadata, centroids_per_dim,
  from_v4_codec_metadata,
}
use ltsearch.Turbo.ProdCodec.{TurboQuantProdV1}
use ltsearch.Turbo.Loader.{IndexCodec, legacy, prod}
use ltsearch.Turbo.Release.{ReleaseManifest, ManifestCodec, v3, v4, codec_turbo_version}
use ltsearch.Activation.{StaticActivateError, verify}
use ltsearch.Activation.Verify.{
  release_output_files, same_names, same_config, same_metadata, v4_config_of, check_versions,
  check_provenance, check_codec,
}

pub pair-eq :
    {A B : Type 0} {E : Type 0} (a : A) (b : B) (c : A) (d : B)
    → ◌≡◌ {A = Result E (A × B)} (ok (a, b)) (ok (c, d))
    → ◌≡◌ {A = A × B} (a, b) (c, d)
pair-eq a b c d e = cc

pub eqb-eq : (a b : ℕ) → (a == b) ≡ true → a ≡ b
eqb-eq a b h = ground (arith, h)

pub same_names-eq : (a b : List String) → same_names a b ≡ true → a ≡ b
unfolding same_names
same_names-eq [] [] h = refl
same_names-eq [] (y ∷ ys) h = absurd (ground (arith, h))
same_names-eq (x ∷ xs) [] h = absurd (ground (arith, h))
same_names-eq (x ∷ xs) (y ∷ ys) h = ground (arith, h, same_names-eq xs ys, str_eq_iff x y)

pub provenance-count :
    (m : ReleaseManifest)
    → check_provenance m ≡ ok tt
    → m.source.table_row_count ≡ m.input_fingerprint.doc_count
unfolding check_provenance
provenance-count m e = ground (arith, e)

same_config-eq : (a b : TurboQuantConfig) → same_config a b ≡ true → a ≡ b
unfolding same_config
same_config-eq a b h = ground (arith, h)

same_metadata-eq : (a b : CodecMetadata) → same_metadata a b ≡ true → a ≡ b
unfolding same_metadata
same_metadata-eq a b h = ground (arith, h)

-- The codec section is that of the legacy codec, or the image's codec is the one it stands for.
abbrev pub CodecIs : ManifestCodec → IndexCodec → Type 0
CodecIs (v3 section) codec = to_v3_codec_metadata legacy_v1 ≡ ok section
CodecIs (v4 section) codec =
    (a : TurboQuantProdV1) × (codec ≡ prod a) × (from_v4_codec_metadata section ≡ ok a.config)

check_codec-prod :
    (expected : TurboQuantConfig) (codec : IndexCodec)
    → check_codec (some expected) codec ≡ ok tt
    → (a : TurboQuantProdV1) × (codec ≡ prod a) × (a.config ≡ expected)
unfolding check_codec
check_codec-prod expected (legacy centroids projection) e = absurd (ground (arith, e))
check_codec-prod expected (prod a) e =
    (a, refl, same_config-eq a.config expected (guard-eq-ok _ _ e))

abbrev pub legacy_section : CodecMetadata
legacy_section = record {
  dim = 512;
  centroids_per_dim = some 4;
  centroids_seed = 7;
  projection_seed = 11;
}

guarded :
    (b : Bool) (f : StaticActivateError) {config : Option TurboQuantConfig}
    → (do guard b f; ok none) ≡ ok config
    → b ≡ true
guarded true f e = refl
guarded false f e = absurd (ground (arith, e))

pub check_codec-CodecIs :
    (section : ManifestCodec) (config : Option TurboQuantConfig) (codec : IndexCodec)
    → v4_config_of section ≡ ok config
    → check_codec config codec ≡ ok tt
    → CodecIs section codec
unfolding v4_config_of to_v3_codec_metadata centroids_per_dim
check_codec-CodecIs (v3 section) config codec e c =
    ap ok (sym (same_metadata-eq section legacy_section (guarded _ _ e)))
check_codec-CodecIs (v4 section) config codec e c =
    >>=-eq-ok (map_err (λ f. verify "invalid codec section") (from_v4_codec_metadata section)) _ e
      λ expected made e1.
        let some_expected : some expected ≡ config = ground (arith, e1) in
        let (a, is, same) =
          check_codec-prod expected codec
            (subst (λ o. check_codec o codec ≡ ok tt) (sym some_expected) c) in
        (a, is, ground (arith, made) ∙ ap ok (sym same))

abbrev pub VersionsFit : ReleaseManifest → List String × Option TurboQuantConfig → Type 0
VersionsFit m expected =
    (release_output_files m.turbo_version ≡ some expected.0)
    × (codec_turbo_version m.codec ≡ m.turbo_version)
    × (v4_config_of m.codec ≡ ok expected.1)

pub check_versions-fits :
    (m : ReleaseManifest) (expected : List String × Option TurboQuantConfig)
    → check_versions m ≡ ok expected
    → VersionsFit m expected
unfolding check_versions
check_versions-fits m expected e =
    >>=-eq-ok (guard (m.manifest_schema_version == 1) _) _ e λ u s e1.
      >>=-eq-ok (ok_or (release_output_files m.turbo_version) (verify "turbo_version")) _ e1
        λ files f e2.
          >>=-eq-ok (guard (codec_turbo_version m.codec == m.turbo_version) _) _ e2 λ v same e3.
            >>=-eq-ok (v4_config_of m.codec) _ e3 λ config c e4. (
              ok_or-eq-ok (release_output_files m.turbo_version) _ f ∙ ap some (ground (arith, e4)),
              eqb-eq _ _ (guard-eq-ok _ _ same),
              c ∙ ap ok (ground (arith, e4)),
            )
