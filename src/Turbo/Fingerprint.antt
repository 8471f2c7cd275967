-- ===== src/Turbo/Fingerprint.antt =====
-- `TurboQuantConfig::fingerprint` of src/index/codec_config.rs, which ties records to the asset files
-- that they were encoded with. SHA-256 is a parameter; a name is its UTF-8 bytes, which `str::cmp`
-- compares.
pub mod Order
use ltsearch.Common.{
  ℕ, Bool, true, false, List, [], ◌∷◌, ◌++◌, length, take, ltb, ◌==◌, ◌&&◌, ◌||◌, if◌then◌else◌,
}
use ltsearch.Common.Words.{le_bytes}
use ltsearch.Turbo.Codec.{TurboQuantConfig, canonical_bytes}

-- b"ltsearch/turbo-codec-fingerprint/v1"
abbrev pub fingerprint_domain : List ℕ
fingerprint_domain =
    b'l' ∷ b't' ∷ b's' ∷ b'e' ∷ b'a' ∷ b'r' ∷ b'c' ∷ b'h' ∷ b'/' ∷ b't' ∷ b'u' ∷ b'r' ∷ b'b' ∷ b'o'
    ∷ b'-' ∷ b'c' ∷ b'o' ∷ b'd' ∷ b'e' ∷ b'c' ∷ b'-' ∷ b'f' ∷ b'i' ∷ b'n' ∷ b'g' ∷ b'e' ∷ b'r'
    ∷ b'p' ∷ b'r' ∷ b'i' ∷ b'n' ∷ b't' ∷ b'/' ∷ b'v' ∷ b'1' ∷ []

abbrev pub codec_fingerprint_len : ℕ
codec_fingerprint_len = 8

-- The name and the bytes of an asset file.
abbrev pub Asset : Type 0
Asset = List ℕ × List ℕ

-- `<` on `&str`
unfoldable pub name_less : List ℕ → List ℕ → Bool
name_less [] [] = false
name_less [] (d ∷ t) = true
name_less (c ∷ s) [] = false
name_less (c ∷ s) (d ∷ t) = ltb c d || c == d && name_less s t

unfoldable pub insert_asset : Asset → List Asset → List Asset
unfolding name_less
insert_asset a [] = a ∷ []
insert_asset a (b ∷ bs) =
    let later = b ∷ insert_asset a bs in if name_less b.0 a.0 then later else a ∷ b ∷ bs

-- `sorted.sort_by_key(|(name, _)| *name)`
unfoldable pub sort_assets : List Asset → List Asset
unfolding insert_asset
sort_assets [] = []
sort_assets (a ∷ as') = insert_asset a (sort_assets as')

module _ (sha256 : List ℕ → List ℕ) where
  -- What the loop feeds to the hasher.
  unfoldable pub asset_bytes : List Asset → List ℕ
  asset_bytes [] = []
  asset_bytes ((name, bytes) ∷ rest) =
      le_bytes 8 (length name) ++ (name ++ (sha256 bytes ++ asset_bytes rest))

  unfoldable pub fingerprint : TurboQuantConfig → List Asset → List ℕ
  unfolding canonical_bytes sort_assets asset_bytes
  fingerprint config asset_files = take codec_fingerprint_len (
      sha256
        (fingerprint_domain ++ (canonical_bytes config ++ asset_bytes (sort_assets asset_files))))
