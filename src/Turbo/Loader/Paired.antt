-- ===== src/Turbo/Loader/Paired.antt =====
-- What the codec of a loaded v4 image has to do with its header.
use ltsearch.Common.{
  ℕ, ◌≡◌, refl, sym, subst, arith, String, Bool, true, Option, none, some, List, [], ◌∷◌, Result,
  ok,
}
use ltsearch.Common.Outcome.{guard, guard-eq-ok, map_err, >>=-eq-ok}
use ltsearch.Common.Words.{same_bytes}
use ltsearch.Turbo.Codec.{TurboQuantConfig, validate}
use ltsearch.Turbo.Codec.Rules.{IsSupported, validate-exact}
use ltsearch.Turbo.Fingerprint.{fingerprint}
use ltsearch.Turbo.Header.{TurboHeader, v4_dim_512, codec_fingerprint}
use ltsearch.Turbo.Record.{holds_codes_of}
use ltsearch.Turbo.Assets.{
  Rotation, QjlMatrix, LloydMaxCodebook, rotation_from_bytes, qjl_from_bytes, codebook_from_bytes,
}
use ltsearch.Turbo.ProdCodec.{
  TurboQuantProdV1, from_assets, check_config, committed_codebook, committed, d512_b2_centroids,
}
use ltsearch.Turbo.MmapIndex.{MmapIndex, MmapIndexError, asset}
use ltsearch.Turbo.MmapIndex.Checks.{load_image-codec}
use ltsearch.Turbo.Loader.{
  IndexCodec, prod, load_codec, load, config_of_assets, asset_files, same_fingerprint,
  load_prod_codec,
}

pub same_bytes-eq : (a b : List ℕ) → same_bytes a b ≡ true → a ≡ b
same_bytes-eq [] [] h = refl
same_bytes-eq [] (y ∷ ys) h = absurd (ground (arith, h))
same_bytes-eq (x ∷ xs) [] h = absurd (ground (arith, h))
same_bytes-eq (x ∷ xs) (y ∷ ys) h = ground (arith, h, same_bytes-eq xs ys)

check_config-ok :
    (c : TurboQuantConfig) → check_config c ≡ ok tt → (validate c ≡ ok tt) × (c.mse_bits ≡ 2)
unfolding check_config
check_config-ok c e = ground (arith, e)

-- The assets are those that the configuration names.
abbrev pub AreNamed : TurboQuantConfig → Rotation → LloydMaxCodebook → QjlMatrix → Type 0
AreNamed c rotation codebook qjl =
    (rotation.dim ≡ c.dim)
    × (rotation.seed ≡ c.mse_seed)
    × (rotation.generator_version ≡ c.generator_version)
    × (codebook.dim ≡ c.dim)
    × (codebook.bits ≡ c.mse_bits)
    × (qjl.dim ≡ c.dim)
    × (qjl.qjl_dim ≡ c.qjl_dim)
    × (qjl.seed ≡ c.qjl_seed)
    × (qjl.generator_version ≡ c.generator_version)

from_assets-checks :
    (c : TurboQuantConfig) (r : Rotation) (b : LloydMaxCodebook) (q : QjlMatrix)
    (a : TurboQuantProdV1)
    → from_assets c r b q ≡ ok a
    → check_config c ≡ ok tt
unfolding from_assets
from_assets-checks c r b q a e = ground (arith, e)

from_assets-AreNamed :
    (c : TurboQuantConfig) (r : Rotation) (b : LloydMaxCodebook) (q : QjlMatrix)
    (a : TurboQuantProdV1)
    → from_assets c r b q ≡ ok a
    → AreNamed c r b q
unfolding from_assets
from_assets-AreNamed c r b q a e = ground (arith, e)

from_assets-parts :
    (c : TurboQuantConfig) (r : Rotation) (b : LloydMaxCodebook) (q : QjlMatrix)
    (a : TurboQuantProdV1)
    → from_assets c r b q ≡ ok a
    → a ≡ record { config = c; rotation = r; codebook = b; qjl = q }
unfolding from_assets
from_assets-parts c r b q a e = ground (arith, e)

from_assets-committed :
    (c : TurboQuantConfig) (r : Rotation) (b : LloydMaxCodebook) (q : QjlMatrix)
    (a : TurboQuantProdV1)
    → from_assets c r b q ≡ ok a
    → same_bytes b.centroids d512_b2_centroids ≡ true
unfolding from_assets committed_codebook committed
from_assets-committed c r b q a e = ground (arith, e)

map_err-ok : {E F A : Type 0} (f : E → F) (r : Result E A) {a : A} → map_err f r ≡ ok a → r ≡ ok a
map_err-ok f r h = ground (arith, h)

module _ (sha256 : List ℕ → List ℕ) (mmap_file : String → Result MmapIndexError (List ℕ)) where
  -- The assets of a loaded codec were read from their files, are those that its configuration names,
  -- with the committed codebook, and have the fingerprint of the header; the configuration is valid,
  -- of the header's dimensions, and its codes fill a record.
  abbrev pub IsPaired : TurboHeader → TurboQuantProdV1 → Type 0
  IsPaired h a =
      (rotation codebook qjl : List ℕ) × (mmap_file "rotation.bin" ≡ ok rotation)
      × (mmap_file "codebook.bin" ≡ ok codebook)
      × (mmap_file "qjl.bin" ≡ ok qjl)
      × (rotation_from_bytes rotation ≡ ok a.rotation)
      × (codebook_from_bytes codebook ≡ ok a.codebook)
      × (qjl_from_bytes qjl ≡ ok a.qjl)
      × (codec_fingerprint h
          ≡ some (fingerprint sha256 a.config (asset_files rotation codebook qjl)))
      × AreNamed a.config a.rotation a.codebook a.qjl
      × (a.codebook.centroids ≡ d512_b2_centroids)
      × IsSupported a.config
      × (a.config.dim ≡ h.dim)
      × (holds_codes_of a.config ≡ true)

  -- The last steps, once the assets are read.
  assembled-IsPaired :
      (h : TurboHeader) (a : TurboQuantProdV1) (rb cb qb : List ℕ) (r : Rotation)
      (b : LloydMaxCodebook) (q : QjlMatrix)
      → mmap_file "rotation.bin" ≡ ok rb
      → mmap_file "codebook.bin" ≡ ok cb
      → mmap_file "qjl.bin" ≡ ok qb
      → rotation_from_bytes rb ≡ ok r
      → codebook_from_bytes cb ≡ ok b
      → qjl_from_bytes qb ≡ ok q
      → from_assets (config_of_assets h r b q) r b q ≡ ok a
      → holds_codes_of a.config ≡ true
      → codec_fingerprint h
        ≡ some (fingerprint sha256 (config_of_assets h r b q) (asset_files rb cb qb))
      → IsPaired h a
  assembled-IsPaired h a rb cb qb r b q mr mc mq pr pc pq made holds same =
      subst (IsPaired h) (sym parts) (
        rb,
        cb,
        qb,
        mr,
        mc,
        mq,
        pr,
        pc,
        pq,
        same,
        from_assets-AreNamed c r b q a made,
        same_bytes-eq b.centroids d512_b2_centroids (from_assets-committed c r b q a made),
        (validate-exact c).0 (check_config-ok c (from_assets-checks c r b q a made)).0,
        refl,
        subst (λ x. holds_codes_of x.config ≡ true) parts holds,
      )
    where
      c : TurboQuantConfig
      c = config_of_assets h r b q

      parts : a ≡ record { config = c; rotation = r; codebook = b; qjl = q }
      parts = from_assets-parts c r b q a made

  same_fingerprint-ok :
      (o : Option (List ℕ)) (actual : List ℕ) (a : TurboQuantProdV1) (i : IndexCodec)
      → same_fingerprint o actual a ≡ ok i
      → (o ≡ some actual) × (i ≡ prod a)
  same_fingerprint-ok none actual a i e = absurd (ground (arith, e))
  same_fingerprint-ok (some expected) actual a i e =
      ground (arith, e, same_bytes-eq expected actual)

  -- A codec that was loaded for a v4 header is paired with it.
  pub load_prod_codec-IsPaired :
      (h : TurboHeader) (i : IndexCodec)
      → load_prod_codec sha256 mmap_file h ≡ ok i
      → (a : TurboQuantProdV1) × (i ≡ prod a) × IsPaired h a
  unfolding load_prod_codec
  load_prod_codec-IsPaired h i e = >>=-eq-ok (mmap_file "rotation.bin") _ e λ rb mr e.
      >>=-eq-ok (mmap_file "codebook.bin") _ e λ cb mc e.
        >>=-eq-ok (mmap_file "qjl.bin") _ e λ qb mq e.
          >>=-eq-ok (map_err (asset "rotation.bin") (rotation_from_bytes rb)) _ e λ r pr e.
            >>=-eq-ok (map_err (asset "codebook.bin") (codebook_from_bytes cb)) _ e λ b pb e.
              >>=-eq-ok (map_err (asset "qjl.bin") (qjl_from_bytes qb)) _ e λ q pq e.
                >>=-eq-ok
                  (map_err MmapIndexError.codec (from_assets (config_of_assets h r b q) r b q)) _ e
                  λ c made e. >>=-eq-ok (guard (holds_codes_of c.config) _) _ e λ u holds e.
                    let (same, eq) =
                      same_fingerprint-ok (codec_fingerprint h)
                        (fingerprint sha256 (config_of_assets h r b q) (asset_files rb cb qb)) c i
                        e in
                    (
                      c,
                      eq,
                      assembled-IsPaired h c rb cb qb r b q mr mc mq
                          (map_err-ok (asset "rotation.bin") (rotation_from_bytes rb) pr)
                          (map_err-ok (asset "codebook.bin") (codebook_from_bytes cb) pb)
                          (map_err-ok (asset "qjl.bin") (qjl_from_bytes qb) pq)
                          (map_err-ok MmapIndexError.codec
                            (from_assets (config_of_assets h r b q) r b q) made)
                          (guard-eq-ok (holds_codes_of c.config) _ holds) same,
                    )

  -- The two codecs of an index, by the layout of its records.
  loaded_v4 :
      (h : TurboHeader) (c : IndexCodec)
      → load_codec sha256 mmap_file v4_dim_512 h ≡ ok c
      → load_prod_codec sha256 mmap_file h ≡ ok c
  unfolding load_codec
  loaded_v4 h c e = e

  -- The index of a v4 image has a codec that is paired with its header: its assets were read from
  -- their files, are those that its configuration names, with the committed codebook, and have the
  -- header's fingerprint; the configuration is valid, of the header's dimensions, and its codes fill a
  -- record.
  pub load-IsPaired :
      (is_aligned : String → Bool) (index : MmapIndex IndexCodec)
      → load sha256 mmap_file is_aligned ≡ ok index
      → index.layout ≡ v4_dim_512
      → (a : TurboQuantProdV1) × (index.codec ≡ prod a) × IsPaired index.header a
  unfolding load
  load-IsPaired is_aligned index e v4 = load_prod_codec-IsPaired index.header index.codec (
      loaded_v4 index.header index.codec (
        subst (λ l. load_codec sha256 mmap_file l index.header ≡ ok index.codec) v4
          (load_image-codec mmap_file is_aligned (load_codec sha256 mmap_file) index e)))
