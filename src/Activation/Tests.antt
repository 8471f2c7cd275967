-- ===== src/Activation/Tests.antt =====
-- A release of no documents is verified, installed, uploaded and activated.
use ltsearch.Common.{
  String, true, false, Option, none, some, List, ok, ◌≡◌, ◌↔◌, refl, All, arith, ◌⊎◌, str_eq,
  str_eq_iff, if◌then◌else◌,
}
use ltsearch.Turbo.Loader.Sample.{no_hash, all_aligned, rotation_size, qjl_size, codebook_size}
use ltsearch.Turbo.MmapIndex.{MmapIndex}
use ltsearch.Turbo.Loader.{IndexCodec}
use ltsearch.Turbo.Accessors.{check_utf8}
use ltsearch.Turbo.Release.{codec_turbo_version}
use ltsearch.Common.Utf8.{as_bytes}
use ltsearch.Turbo.Release.Identity.{IsWritten, Collision}
use ltsearch.Activation.Sample.{
  one_hex, release_file, manifest, parse_manifest, from_utf8, release_verified,
}
use ltsearch.Disk.{Disk, Faults, create_dir_all, rename, remove, copy, exists}
use ltsearch.Activation.Install.{
  static_release_dir_key, install_into_managed_store, staging_of, target, install, IsApart,
  IsInstalled, install_into_managed_store-IsInstalled,
}
use ltsearch.Activation.Verify.{release_output_files, verify_release_dir}
use ltsearch.Activation.Verify.Exact.{IsRelease, verify_release_dir-exact}
use ltsearch.Activation.Verify.Same.{verify_release_dir-same}

verify_release_dir-exact_example :
    (verify_release_dir no_hash one_hex release_file from_utf8 parse_manifest all_aligned none none
      ≡ some (ok manifest))
    ↔ ((index : MmapIndex IndexCodec) × IsRelease no_hash one_hex release_file parse_manifest
          all_aligned none none manifest index
        × (check_utf8 from_utf8 index ≡ some (ok tt)))
verify_release_dir-exact_example =
    verify_release_dir-exact no_hash one_hex release_file parse_manifest all_aligned none none
      from_utf8 manifest

manifest-IsWritten : IsWritten manifest
unfolding codec_turbo_version as_bytes
manifest-IsWritten = ground (arith, rotation_size, qjl_size, codebook_size)

verify_release_dir-same_example :
    ((files : List String) × (release_output_files 4 ≡ some files)
      × All (λ name. release_file name ≡ release_file name) files)
    ⊎ Collision no_hash one_hex
verify_release_dir-same_example =
    verify_release_dir-same no_hash one_hex from_utf8 parse_manifest all_aligned release_file
      release_file manifest manifest release_verified release_verified manifest-IsWritten
      manifest-IsWritten refl

-- What stands at a path is its text; renaming the built directory fails, as between two file systems.
abbrev built : Disk String
built path = if str_eq path "built" then some "release" else none

abbrev two_systems : Faults String
two_systems = record {
  fails = λ c. elim c [
    | create_dir_all p ↦ false
    | rename a b ↦ str_eq a "built"
    | remove p ↦ false
    | copy a b ↦ false
  ];
  left = λ n. none;
  within = λ a b. false;
}

abbrev parent : String → Option String
parent path = some "root/static/releases"

apart :
    IsApart two_systems "built"
      (target two_systems parent "root" "id" "built")
      (staging_of two_systems parent "root" "id" "built" "root/static/releases")
unfolding static_release_dir_key
apart = (
  λ e. ground (arith, e, str_eq_iff "root/static/releases/id" "built"),
  λ e. ground (arith, e, str_eq_iff "root/static/releases/.id-staging" "root/static/releases/id"),
  λ e. ground (arith, e, str_eq_iff "root/static/releases/.id-staging" "built"),
  refl,
  refl,
)

copied_test :
    (install two_systems parent "root" "id" "built" built).1 "root/static/releases/id"
    ≡ some "release"
unfolding install_into_managed_store
copied_test = refl

install_into_managed_store-IsInstalled_example :
    ((exists (target two_systems parent "root" "id" "built") built ≡ true)
      × (install two_systems parent "root" "id" "built" built ≡ (ok tt, built)))
    ⊎ ((exists (target two_systems parent "root" "id" "built") built ≡ false)
        × IsInstalled two_systems "built"
            (target two_systems parent "root" "id" "built")
            (staging_of two_systems parent "root" "id" "built" "root/static/releases")
            "release"
            (install two_systems parent "root" "id" "built" built))
install_into_managed_store-IsInstalled_example =
    install_into_managed_store-IsInstalled two_systems parent "root" "id" "built"
      "root/static/releases" built "release" refl apart refl
