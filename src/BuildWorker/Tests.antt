-- ===== src/BuildWorker/Tests.antt =====
-- Runs of the build worker.
use ltsearch.Common.{ℕ, zero, suc, String, List, [], ◌∷◌, ok, err, Result, ◌≡◌, ◌↔◌, ◌⊎◌, In}
use ltsearch.Queue.{BuildJob}
use ltsearch.BuildWorker.{snapshot_wal_keys}
use ltsearch.BuildWorker.Keys.{Ascending, snapshot_wal_keys-exact}
use ltsearch.BuildWorker.Signals.{Signal}

snapshot_wal_keys-exact_example :
    Ascending (snapshot_wal_keys ("wal/2" ∷ "wal/1" ∷ []) "wal/2")
    × ((x : String)
        → In x (snapshot_wal_keys ("wal/2" ∷ "wal/1" ∷ []) "wal/2")
          ↔ ((x ≡ "wal/2") ⊎ In x ("wal/2" ∷ "wal/1" ∷ [])))
snapshot_wal_keys-exact_example = snapshot_wal_keys-exact ("wal/2" ∷ "wal/1" ∷ []) "wal/2"

abbrev job : String → BuildJob
job id = record { receipt = id; body = id }

-- The first job fails, the second one is built.
abbrev process : String → ℕ → Result String ℕ × ℕ
process body n = elim n [ zero ↦ (err "boom", 1) | suc k ↦ (ok 7, 2) ]

abbrev answer : Signal → Result String (Unit {0})
answer signal = ok tt

abbrev jobs : List BuildJob
jobs = job "a" ∷ job "b" ∷ []
