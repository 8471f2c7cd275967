-- ===== src/Errors.antt =====
-- src/error.rs: the error types. The texts of `Operation` and `Execution` keep the fixed part of the
-- source's message; what the source interpolates into it is left out.
use ltsearch.Common.{ℕ, String}

pub data ValidationError : Type 0 where
  required : String → ValidationError
  length_out_of_range : String → ℕ → ℕ → ValidationError
  range_out_of_range : String → ℕ → ℕ → ValidationError
  must_be_positive : String → ValidationError
  invalid_value : String → ValidationError
  mismatch : String → String → ValidationError
  too_large : String → ℕ → ValidationError

pub data SearchError : Type 0 where
  validation : ValidationError → SearchError
  execution : String → SearchError

pub data IndexError : Type 0 where
  validation : ValidationError → IndexError
  operation : String → IndexError

pub data PublishError : Type 0 where
  validation : ValidationError → PublishError
  operation : String → PublishError

pub data IngestError : Type 0 where
  validation : ValidationError → IngestError
  operation : String → IngestError
