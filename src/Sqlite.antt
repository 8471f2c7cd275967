-- ===== src/Sqlite.antt =====
-- src/local/sqlite/schema.rs and the transactions of src/local/sqlite: the tables that the roles of
-- the local profile share, and what SQLite does with a statement that fails. A transaction that does
-- not commit is rolled back; every statement, the opening and the commit may fail.
use ltsearch.Common.{
  ℕ, String, Bool, true, false, Option, none, List, [], Result, ok, err, is_err, ◌≡◌, ◌⊎◌,
}

pub data JobState : Type 0 where
  ready claimed : JobState

-- A row of `build_jobs`; its primary key is `batch_id`.
pub record Job : Type 0 where
  pub batch_id : String
  pub body : String
  pub state : JobState
  pub attempts : ℕ
  pub available_at : ℕ
  pub claimed_at : Option ℕ
  pub claim_token : Option String

-- A row of `dead_jobs`; its primary key is `batch_id`.
pub record DeadJob : Type 0 where
  pub batch_id : String
  pub body : String
  pub attempts : ℕ
  pub last_error : String
  pub died_at : ℕ

-- Bytes are numbers below 256.
abbrev pub Bytes : Type 0
Bytes = List ℕ

pub record Db : Type 0 where
  pub wal_segments : List (String × Bytes)
  pub build_jobs : List Job
  pub dead_jobs : List DeadJob
  pub active_head : Option Bytes
  pub static_release_head : Option Bytes

abbrev pub empty_db : Db
empty_db = record {
  wal_segments = [];
  build_jobs = [];
  dead_jobs = [];
  active_head = none;
  static_release_head = none;
}

-- One use of a connection: what it returns, and the tables that it leaves.
abbrev pub Sql : Type 0 → Type 0 → Type 0
Sql E A = Db → Result E A × Db

module _ {E A : Type 0} where
  -- A statement that fails leaves the tables as they are.
  abbrev pub statement : Bool → E → (Db → A × Db) → Sql E A
  statement true e run db = (err e, db)
  statement false e run db = let (a, after) = run db in (ok a, after)

  -- The commit at the end: an error, also of the commit, gives the tables back that stood before.
  abbrev pub settle : Bool → (A → E) → Db → Result E A × Db → Result E A × Db
  settle commit_fails commit_error before (err e, after) = (err e, before)
  settle true commit_error before (ok a, after) = (err (commit_error a), before)
  settle false commit_error before (ok a, after) = (ok a, after)

  -- `transaction_with_behavior(Immediate)`, the body with its early returns, `commit`.
  abbrev pub transaction : Bool → E → Bool → (A → E) → Sql E A → Sql E A
  transaction true open_error commit_fails commit_error body db = (err open_error, db)
  transaction false open_error commit_fails commit_error body db =
      settle commit_fails commit_error db (body db)

module _ {E A B : Type 0} where
  abbrev pub continue : Result E A → (A → Sql E B) → Sql E B
  continue (ok a) f db = f a db
  continue (err e) f db = (err e, db)

  infixl 5 ◌>>=◌ ◌>>◌
  abbrev pub ◌>>=◌ : Sql E A → (A → Sql E B) → Sql E B
  ◌>>=◌ m f db = let (r, after) = m db in continue r f after

  abbrev pub ◌>>◌ : Sql E A → Sql E B → Sql E B
  m >> n = m >>= λ _. n

-- All or nothing: the operation succeeds and leaves the tables of `after`, or fails and changes none.
abbrev pub Atomic : {E A : Type 0} → Db → A × Db → Result E A × Db → Type 0
Atomic before (a, after) (r, db) = ((r ≡ ok a) × (db ≡ after)) ⊎ ((is_err r ≡ true) × (db ≡ before))
