-- ===== src/Query/Filter.antt =====
-- src/query/filter.rs: filters on the metadata of results.
use ltsearch.Common.{
  String, Bool, true, false, not, Option, none, some, List, [], ◌∷◌, map, keep, str_eq, ◌&&◌,
  if◌then◌else◌,
}
use ltsearch.Search.{Values, FilterValue, string_equals, bool_equals, number_equals, SearchResult}

-- `HashMap::get`
pub get : {A : Type 0} → String → List (String × A) → Option A
get key [] = none
get key ((k, a) ∷ rest) = let later = get key rest in if str_eq k key then some a else later

-- `x == Some(b)`, for the equality given
abbrev pub is_some_of : {A B : Type 0} → (A → B → Bool) → Option A → B → Bool
is_some_of same none b = false
is_some_of same (some a) b = same a b

abbrev same_bool : Bool → Bool → Bool
same_bool true b = b
same_bool false b = not b

module _ {F G V : Type 0} (values : Values F G V) where
  pub matches_filter_value : V → FilterValue G → Bool
  matches_filter_value actual (string_equals s) = is_some_of str_eq (values.as_str actual) s
  matches_filter_value actual (bool_equals b) = is_some_of same_bool (values.as_bool actual) b
  matches_filter_value actual (number_equals x) =
      is_some_of values.same_number (values.as_f64 actual) x

  unfoldable pub matches_all : List (String × V) → List (String × FilterValue G) → Bool
  unfolding get matches_filter_value
  matches_all metadata [] = true
  matches_all metadata ((field, expected) ∷ rest) =
      is_some_of matches_filter_value (get field metadata) expected && matches_all metadata rest

  unfoldable pub matches_metadata :
      Option (List (String × V)) → List (String × FilterValue G) → Bool
  unfolding matches_all
  matches_metadata none filters = false
  matches_metadata (some metadata) filters = matches_all metadata filters

  abbrev pub matches_filters : SearchResult F V → List (String × FilterValue G) → Bool
  matches_filters r filters = matches_metadata r.metadata filters

  unfoldable pub apply_filters :
      List (SearchResult F V) → Option (List (String × FilterValue G)) → List (SearchResult F V)
  apply_filters results none = results
  apply_filters results (some []) = results
  apply_filters results (some (f ∷ filters)) = keep (λ r. matches_filters r (f ∷ filters)) results

module _ {F V : Type 0} where
  abbrev pub without_metadata : SearchResult F V → SearchResult F V
  without_metadata r = record r { metadata = none }

  abbrev pub strip_metadata : List (SearchResult F V) → List (SearchResult F V)
  strip_metadata results = map without_metadata results
