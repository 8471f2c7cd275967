-- ===== src/Disk.antt =====
-- The calls of `std::fs` that move directories: a disk is what stands at each path, a file or a
-- directory with all that is in it. A path inside an entry is an entry of its own only where the code
-- moves it by its name.
use ltsearch.Common.{String, Bool, true, false, Option, none, some, str_eq, ◌||◌, if◌then◌else◌}

abbrev pub Disk : Type 0 → Type 0
Disk N = String → Option N

pub data FsCall : Type 0 where
  create_dir_all : String → FsCall
  rename : String → String → FsCall
  remove : String → FsCall
  copy : String → String → FsCall

-- The calls that fail, what a removal or a copy that fails leaves of an entry, and which path lies
-- inside which (the outer one first).
pub record Faults (N : Type 0) : Type 0 where
  pub fails : FsCall → Bool
  pub left : N → Option N
  pub within : String → String → Bool

module _ {N : Type 0} where
  abbrev pub put : String → Option N → Disk N → Disk N
  put path node d q = if str_eq q path then node else d q

  abbrev pub exists : String → Disk N → Bool
  exists path d = elim (d path) [ none ↦ false | some n ↦ true ]

  abbrev spoiled : (N → Option N) → Option N → Option N
  spoiled left none = none
  spoiled left (some n) = left n

  abbrev moved : String → String → Option N → Disk N → Bool × Disk N
  moved source destination none d = (false, d)
  moved source destination (some n) d = (true, put destination (some n) (put source none d))

  -- `fs::rename`, which moves an entry whole or leaves the disk as it is.
  unfoldable pub rename_entry : Faults N → String → String → Disk N → Bool × Disk N
  rename_entry f source destination d =
      if f.fails (rename source destination)
      then (false, d)
      else moved source destination (d source) d

  -- `fs::remove_dir_all` and `fs::remove_file`, with everything inside.
  unfoldable pub remove_entry : Faults N → String → Disk N → Bool × Disk N
  remove_entry f path d =
      if f.fails (remove path)
      then (false, λ q. if str_eq q path || f.within path q then spoiled f.left (d q) else d q)
      else (true, λ q. if str_eq q path || f.within path q then none else d q)

  abbrev copied : Faults N → String → Option N → Disk N → Bool × Disk N
  copied f destination none d = (false, d)
  copied f destination (some n) d = (true, put destination (some n) d)

  -- The copy of a directory into a fresh one; a copy that fails leaves a part of it.
  unfoldable pub copy_entry : Faults N → String → String → Disk N → Bool × Disk N
  copy_entry f source destination d =
      if f.fails (copy source destination)
      then (false, put destination (spoiled f.left (d source)) d)
      else copied f destination (d source) d
