-- ===== src/Lib.antt =====
-- A verification library of LTSearch, a search service over a versioned index.
--
-- The program and its parts. The write path (src/write/) appends the events of a batch to a
-- write-ahead log and enqueues a build job. The build worker (src/build_worker.rs) takes jobs from the
-- queue, builds an index version from the log and publishes it; the publisher (src/indexing/) uploads
-- the artifacts of a version and swaps the pointer `index/_head` to it; the query path (src/query/)
-- reads the pointer and searches the version that it names.
--
-- Which file models which part:
--   Common and its children: Rust's `Result`, `Option`, `str` and integers, and lemmas on lists.
--   Errors: src/error.rs.
--   Sqlite: the tables of src/local/sqlite/schema.rs as one record, `Db`; a use of the connection is a
--     function from the tables to a result and the tables after it, `Sql`; `transaction` gives the
--     tables back when its body or its commit fails. Every statement has a Boolean that says whether
--     rusqlite fails in it.
--   Queue: src/local/sqlite/queue.rs and the append of src/local/sqlite/wal.rs. `enqueue`,
--     `append_and_enqueue`, `receive`, `ack` and `nack` are the methods of those names; `reclaim`,
--     `claim`, `release` and `upsert_dead` are their UPDATE and INSERT statements on a row. The random
--     claim tokens are a function from batches to texts, and the clock is an argument. Its children:
--     Rows and Tables (the invariants of a table), Atomicity (each operation against its effect),
--     Statements, Invariant (the step relation of all callers), Receipts, Custody, Delivery,
--     Exclusive, Round and Retry.
--   Manifest: src/models/index.rs. Head: src/storage/head.rs and src/storage/s3_paths.rs, with
--     serde_json as a parameter.
--   Storage: the trait `PublishStorage` of src/indexing/publisher.rs as a record of operations over a
--     state, the laws that the publisher relies on (`StorageLaws`) and the whole of the documented
--     contract (`StorageContract`); Storage.Calls: the calls in sequence.
--   Publisher: `publish` and `rollback` of src/indexing/publisher.rs, with what other processes do to
--     the storage before each call as an argument; Publisher.Paths: its path checks, over the disk as a
--     parameter.
--   LocalPublish: the storage of a local deployment, src/local/sqlite/head.rs over
--     src/local/fs_publish.rs; LocalPublish.Etag: the FNV-1a tag of 64 bits; Laws and
--     Contract are proofs.
--   Search: src/models/search.rs. Query.Filter, Query.Ranker, Query.Router: the files of those names in
--     src/query/; the other children of Query are proofs: Window (the loop for filtered results),
--     Chunks and Answer (what a search returns), Fusion, Sorted, Fused and Ranked (the fused list).
--   BuildWorker: src/build_worker.rs. What other processes do to the storage while a message is processed
--     is part of `run_build`, a parameter; Keys, Versions, Builds and Signals are proofs.
--   Turbo: the files of the static index in src/index/. Turbo.Codec: codec_config.rs and the codec
--     sections of release_manifest.rs; Turbo.Fingerprint: its `fingerprint`; Turbo.Header: header.rs;
--     Turbo.Record: record.rs; Turbo.Assets: the asset files of assets.rs, rotation.rs, qjl.rs and
--     codebook.rs; Turbo.ProdCodec: `from_assets` of turbo_prod.rs; Turbo.MmapIndex: `load` of
--     mmap_index.rs for any codec (`load_image`); Turbo.Loader: its codecs, and `load`;
--     Turbo.Accessors: the accessors with meta.rs and meta_ext.rs, where an access that panics or leaves
--     the mapped bytes is `none`. Rules, Order, Fields, RoundTrip, Checks, Bounds, Utf8 and Paired are
--     proofs.
--   Write: src/write/ and src/models/write.rs, with `Document` of src/models/index.rs. Write.Wal: the
--     keys of segments and the civil date; Write.Api: `ingest`, `delete` and the default
--     `append_and_enqueue` of api.rs, over any state of the log and the queue; Write.Log: `read` and
--     `append` of wal.rs, over the read of src/local/sqlite/wal.rs. Calendar, Accepted and Log.RoundTrip
--     are proofs.
--   Query.Context: src/query/context_builder.rs. The loop of the budget runs on fuel for the number of
--     chunks, since each round drops one. Estimate, Loop and Budget are proofs.
--   Query.Retrieval: src/query/retrieval_common.rs; `canonicalize` gives the components of a path. Best
--     has the proofs.
--   Turbo.Release: src/index/release_manifest.rs. Framing, Identity and Rows are proofs. Common.Utf8 has
--     the bytes of texts.
--   Stores: src/storage/manifest_store.rs, static_head.rs and static_release_store.rs with manifest.rs and
--     static_release.rs of src/local/sqlite/, the readers of the pointers. Stores.Active has the proofs.
--   Disk: the calls of std::fs that move directories, and which of them fail.
--   Staged: src/storage/staged_publish.rs; `Staged.Replace` and `Staged.Moves` are proofs.
--   Activation: src/indexing/static_publisher.rs and src/bin/static_activate.rs. Verify is
--     `verify_release_dir`, Install `install_into_managed_store`, Pointer `activate_static_pointer`, Upload
--     `upload_release` and Run `run`, which joins them; their children are proofs.
--
-- Bounds and fuel. Times, attempts and lengths are numbers without a bound, but where the source
-- narrows or wraps them (`as u32`, `sum()`, the next version), which is written out. A filtered search
-- has fuel for eight rounds, since its window at least doubles up to 100. The walk over a directory tree has
-- fuel, since a disk may have no end; without it the walk is an error of its own.
--
-- What is not modelled: the arithmetic of the vector codecs of src/index/ (on floats) and the builder of
-- static releases, the searches of Tantivy and LanceDB, the adapters of S3, SQS and Lambda, the HTTP
-- routers, the embedding service and the binaries but for src/bin/static_activate.rs, of which the
-- arguments and the environment are left out. Error messages keep their fixed text only.
mod Common
pub mod Errors
pub mod Sqlite
pub mod Queue
pub mod Manifest
pub mod Head
pub mod Stores
pub mod Disk
pub mod Staged
pub mod Activation
pub mod Storage
pub mod Publisher
pub mod LocalPublish
pub mod Search
pub mod Query
pub mod BuildWorker
pub mod Turbo
pub mod Write
