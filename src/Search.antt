-- ===== src/Search.antt =====
-- src/models/search.rs: search requests, results and responses, and their validation. `f32`, `f64` and
-- serde_json's `Value` are types of the model's own, with the tests that the code makes on them.
use Prim.Native.String.{String, [], ◌∷◌}
use Prim.Native.Char.{code}
use ltsearch.Common.{
  ℕ, suc, Bool, true, not, Option, none, some, List, length, ok, err, Result, leb, ◌==◌, ◌&&◌, ◌||◌,
}
use ltsearch.Common.Outcome.{guard, each, ◌>>◌}
use ltsearch.Common.Text.{is_empty}
use ltsearch.Errors.{
  ValidationError, required, invalid_value, length_out_of_range, range_out_of_range, mismatch,
}

-- `f32` scores, `f64` numbers and JSON values.
pub record Values (F G V : Type 0) : Type 0 where
  pub is_finite : F → Bool
  -- `(0.0..=1.0).contains(&x)`
  pub in_unit_interval : F → Bool
  pub is_finite_number : G → Bool
  pub same_number : G → G → Bool
  pub as_str : V → Option String
  pub as_bool : V → Option Bool
  pub as_f64 : V → Option G

pub data FilterValue (G : Type 0) : Type 0 where
  string_equals : String → FilterValue G
  bool_equals : Bool → FilterValue G
  number_equals : G → FilterValue G

pub data ChunkSource : Type 0 where
  static_chunk dynamic_chunk : ChunkSource

pub data CorpusType : Type 0 where
  legal contract rfc : CorpusType
  other : ℕ → CorpusType

pub data SearchSource : Type 0 where
  vector keyword hybrid static_source : SearchSource

pub record Citation : Type 0 where
  pub resource_id : String
  pub source_type : String
  pub source_ref : String
  pub title : Option String
  pub url : Option String

pub record CorpusWeights (F : Type 0) : Type 0 where
  pub static_bias : F
  pub dynamic_bias : F

pub record SearchRequest (F G : Type 0) : Type 0 where
  pub query : String
  pub top_k : ℕ
  pub filters : Option (List (String × FilterValue G))
  pub include_metadata : Bool
  pub corpus_weights : Option (CorpusWeights F)

pub record SearchResult (F V : Type 0) : Type 0 where
  pub doc_id : String
  pub score : F
  pub text : String
  pub metadata : Option (List (String × V))
  pub source : SearchSource
  pub chunk_source : ChunkSource
  pub corpus_type : Option CorpusType
  pub citation : Option Citation

pub record SearchResponse (F V : Type 0) : Type 0 where
  pub static_chunks : List (SearchResult F V)
  pub static_count : ℕ
  pub dynamic_chunks : List (SearchResult F V)
  pub dynamic_count : ℕ
  pub latency_ms : ℕ
  pub index_version : ℕ
  pub static_release_id : Option String

abbrev pub query_max_chars : ℕ
query_max_chars = 1_000

abbrev pub top_k_max : ℕ
top_k_max = 100

-- `chars().count()`
pub char_count : String → ℕ
char_count [] = 0
char_count (c ∷ s) = suc (char_count s)

-- `is_ascii_alphabetic() || == '_'`
abbrev is_name_start : ℕ → Bool
is_name_start c = leb 65 c && leb c 90 || leb 97 c && leb c 122 || c == 95

-- `is_ascii_alphanumeric() || == '_'`
abbrev is_name_part : ℕ → Bool
is_name_part c = is_name_start c || leb 48 c && leb c 57

all_name_parts : String → Bool
all_name_parts [] = true
all_name_parts (c ∷ s) = is_name_part (code c) && all_name_parts s

unfoldable pub validate_filter_field_name : String → Result ValidationError (Unit {0})
unfolding all_name_parts
validate_filter_field_name [] = err (required "filters.field")
validate_filter_field_name (c ∷ s) = do
  guard (is_name_start (code c)) (invalid_value "filters.field")
  guard (all_name_parts s) (invalid_value "filters.field")

module _ {F G V : Type 0} (values : Values F G V) where
  unfoldable pub validate_filter_value : FilterValue G → Result ValidationError (Unit {0})
  validate_filter_value (string_equals s) = guard (not (is_empty s)) (required "filters.value")
  validate_filter_value (bool_equals b) = ok tt
  validate_filter_value (number_equals x) =
      guard (values.is_finite_number x) (invalid_value "filters.value")

  validate_filter : String × FilterValue G → Result ValidationError (Unit {0})
  unfolding validate_filter_field_name validate_filter_value
  validate_filter (field, value) = do validate_filter_field_name field; validate_filter_value value

  unfoldable pub validate_weights : CorpusWeights F → Result ValidationError (Unit {0})
  validate_weights w = do
    guard (values.in_unit_interval w.static_bias) (invalid_value "static_bias")
    guard (values.in_unit_interval w.dynamic_bias) (invalid_value "dynamic_bias")

  -- A check of what may be absent.
  abbrev where_present :
      {A : Type 0}
      → (A → Result ValidationError (Unit {0}))
      → Option A
      → Result ValidationError (Unit {0})
  where_present check none = ok tt
  where_present check (some a) = check a

  unfoldable pub validate_request : SearchRequest F G → Result ValidationError (Unit {0})
  unfolding validate_filter validate_weights char_count each
  validate_request r = do
    guard (not (char_count r.query == 0)) (required "query")
    guard (leb (char_count r.query) query_max_chars) (length_out_of_range "query" 1 query_max_chars)
    guard (not (r.top_k == 0) && leb r.top_k top_k_max) (range_out_of_range "top_k" 1 top_k_max)
    where_present (each validate_filter) r.filters
    where_present validate_weights r.corpus_weights

  unfoldable pub validate_result : SearchResult F V → Result ValidationError (Unit {0})
  validate_result r = do
    guard (not (is_empty r.doc_id)) (required "doc_id")
    guard (values.is_finite r.score) (invalid_value "score")

  unfoldable pub validate_response : SearchResponse F V → ℕ → Result ValidationError (Unit {0})
  unfolding validate_result each
  validate_response r max_chunks_per_path = do
    guard (leb (length r.static_chunks) r.static_count)
        (mismatch "static_chunks" "static_chunks.len() <= static_count")
    guard (leb (length r.dynamic_chunks) r.dynamic_count)
        (mismatch "dynamic_chunks" "dynamic_chunks.len() <= dynamic_count")
    guard (leb (length r.static_chunks) max_chunks_per_path)
        (mismatch "static_chunks" "static_chunks.len() <= max_chunks_per_path")
    guard (leb (length r.dynamic_chunks) max_chunks_per_path)
        (mismatch "dynamic_chunks" "dynamic_chunks.len() <= max_chunks_per_path")
    each validate_result r.static_chunks
    each validate_result r.dynamic_chunks
