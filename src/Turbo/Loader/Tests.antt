-- ===== src/Turbo/Loader/Tests.antt =====
-- An image without records loads with its codec.
use ltsearch.Common.{◌≡◌, refl}
use ltsearch.Turbo.ProdCodec.{TurboQuantProdV1}
use ltsearch.Turbo.Loader.{prod}
use ltsearch.Turbo.Loader.Paired.{IsPaired, load-IsPaired}
use ltsearch.Turbo.Loader.Sample.{no_hash, image_file, all_aligned, image, image_loaded}

load-IsPaired_example :
    (a : TurboQuantProdV1) × (image.codec ≡ prod a) × IsPaired no_hash image_file image.header a
load-IsPaired_example = load-IsPaired no_hash image_file all_aligned image image_loaded refl
