-- ===== src/Activation/Verify/Accepted.antt =====
-- What the checks of a manifest ask for, and that they accept it.
use ltsearch.Common.{
  ℕ, ◌<◌, String, true, false, not, Option, none, some, List, [], ◌∷◌, Result, ok, str_eq_iff,
  str_eq_refl, ◌==◌, ◌≡◌, refl, subst, arith,
}
use ltsearch.Common.Outcome.{guard, >>=-eq-ok, guard-eq-ok}
use ltsearch.Common.Text.{is_empty}
use ltsearch.Turbo.Codec.{
  TurboQuantConfig, TurboQuantConfigError, centroids_per_dim, CodecMetadata, to_v3_codec_metadata,
}
use ltsearch.Turbo.Loader.{IndexCodec}
use ltsearch.Turbo.Release.{ReleaseManifest, ManifestCodec, v3, v4, codec_dim, codec_turbo_version}
use ltsearch.Activation.Verify.{
  release_output_files, same_config, same_names, v4_config_of, expected_is, dim_is, check_versions,
  check_provenance, check_profile, check_codec,
}
use ltsearch.Activation.Verify.Codecs.{CodecIs, legacy_section, eqb-eq}

-- Where the release comes from.
abbrev pub IsFromLance : ReleaseManifest → Type 0
IsFromLance m =
    (m.source.kind ≡ "lance")
    × (is_empty m.source.dataset_path ≡ false)
    × (0 < m.source.table_version)

-- The profile is of the one dimension that there is, and what the caller expects.
abbrev pub IsExpected : Option String → Option ℕ → ReleaseManifest → Type 0
IsExpected expect_model_id expect_dim m =
    (m.embedding_profile.dim ≡ 512)
    × (codec_dim m.codec ≡ 512)
    × (is_empty m.embedding_profile.model_id ≡ false)
    × (expected_is expect_model_id m.embedding_profile.model_id ≡ true)
    × (dim_is expect_dim m.embedding_profile.dim ≡ true)

pub provenance_lem : (m : ReleaseManifest) → check_provenance m ≡ ok tt → IsFromLance m
unfolding check_provenance
provenance_lem m e = ground (arith, e, str_eq_iff m.source.kind "lance")

pub provenance_complete :
    (m : ReleaseManifest)
    → IsFromLance m
    → m.source.table_row_count ≡ m.input_fingerprint.doc_count
    → check_provenance m ≡ ok tt
unfolding check_provenance
provenance_complete m (kind, path, version) count =
    ground (arith, kind, path, version, count, str_eq_iff m.source.kind "lance")

pub profile_lem :
    (a : Option String) (b : Option ℕ) (m : ReleaseManifest)
    → check_profile a b m ≡ ok tt
    → IsExpected a b m
unfolding check_profile
profile_lem a b m e = >>=-eq-ok (guard (m.embedding_profile.dim == 512) _) _ e λ u dim e1.
    >>=-eq-ok (guard (codec_dim m.codec == 512) _) _ e1 λ v codec e2.
      >>=-eq-ok (guard (not (is_empty m.embedding_profile.model_id)) _) _ e2 λ w named e3.
        >>=-eq-ok (guard (expected_is a m.embedding_profile.model_id) _) _ e3 λ x model e4. (
          ground (arith, dim),
          ground (arith, codec),
          ground (arith, named),
          guard-eq-ok _ _ model,
          guard-eq-ok _ _ e4,
        )

pub profile_complete :
    (a : Option String) (b : Option ℕ) (m : ReleaseManifest)
    → IsExpected a b m
    → check_profile a b m ≡ ok tt
unfolding check_profile
profile_complete a b m (dim, codec, named, model, expected) =
    ground (arith, dim, codec, named, model, expected)

pub versions_complete :
    (m : ReleaseManifest) (files : List String) (config : Option TurboQuantConfig)
    → m.manifest_schema_version ≡ 1
    → release_output_files m.turbo_version ≡ some files
    → codec_turbo_version m.codec ≡ m.turbo_version
    → v4_config_of m.codec ≡ ok config
    → check_versions m ≡ ok (files, config)
unfolding check_versions
versions_complete m files config schema listed same made =
    ground (arith, schema, listed, same, made)

pub versions_schema :
    (m : ReleaseManifest) {expected : List String × Option TurboQuantConfig}
    → check_versions m ≡ ok expected
    → m.manifest_schema_version ≡ 1
unfolding check_versions
versions_schema m e =
    >>=-eq-ok (guard (m.manifest_schema_version == 1) _) _ e
      λ u schema e1. eqb-eq _ _ (guard-eq-ok _ _ schema)

pub same_names_refl : (names : List String) → same_names names names ≡ true
unfolding same_names
same_names_refl [] = refl
same_names_refl (name ∷ names) = rw (str_eq_refl name) (same_names_refl names)

pub same_config_refl : (c : TurboQuantConfig) → same_config c c ≡ true
unfolding same_config
same_config_refl c = ground arith

pub eqb_same : (a b : ℕ) → a ≡ b → (a == b) ≡ true
eqb_same a b e = ground (arith, e)

pub section-eq :
    (a b : CodecMetadata)
    → ◌≡◌ {A = Result TurboQuantConfigError CodecMetadata} (ok a) (ok b)
    → a ≡ b
section-eq a b e = cc

-- The section's configuration, from the image's codec.
pub codec_complete :
    (section : ManifestCodec) (codec : IndexCodec)
    → CodecIs section codec
    → (config : Option TurboQuantConfig) × (v4_config_of section ≡ ok config)
      × (check_codec config codec ≡ ok tt)
unfolding v4_config_of check_codec to_v3_codec_metadata centroids_per_dim
codec_complete (v3 section) codec is = (
  none,
  subst (λ s. v4_config_of (v3 s) ≡ ok none) (section-eq legacy_section section is) refl,
  refl,
)
codec_complete (v4 section) codec (a, is, made) =
    (some a.config, rw made refl, rw (is, same_config_refl a.config) refl)
