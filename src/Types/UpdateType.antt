-- ===== src/Types/UpdateType.antt =====
-- types/delete_mode.go and types/query_engine.go: the delete formats, and which of them the target
-- query engines can read.
pub mod Available
use olake.Base.{
  ℕ, String, ◌≡◌, Bool, true, false, not, Option, none, some, List, [], ◌∷◌, ◌++◌, ◌&&◌, ◌||◌,
  if◌then◌else◌, elem, is_nil, filterb, all, ◌==◌, string_eq, map,
}
use olake.Utils.Text.{to_lower, trim_space, empty_text}
use olake.Utils.Arrays.{array_contains, get_elem?}

abbrev pub UpdateType : Type 0
UpdateType = String

abbrev pub equality : UpdateType
equality = "eq"

abbrev pub position : UpdateType
position = "pos"

abbrev pub deletion_vector : UpdateType
deletion_vector = "dv"

abbrev pub writable_update_types : List UpdateType
writable_update_types = equality ∷ position ∷ deletion_vector ∷ []

abbrev pub QueryEngine : Type 0
QueryEngine = String

pub record QueryEngineSpec : Type 0 where
  pub engine : QueryEngine
  pub supports : List UpdateType

abbrev spec : QueryEngine → List UpdateType → QueryEngineSpec
spec e s = record { engine = e; supports = s }

-- queryEngines, without the labels
abbrev pub query_engines : List QueryEngineSpec
query_engines =
    spec "spark" (equality ∷ position ∷ deletion_vector ∷ [])
    ∷ spec "flink" (equality ∷ position ∷ deletion_vector ∷ [])
    ∷ spec "trino" (equality ∷ position ∷ deletion_vector ∷ [])
    ∷ spec "presto" (equality ∷ position ∷ [])
    ∷ spec "starrocks" (equality ∷ position ∷ [])
    ∷ spec "hive" (equality ∷ position ∷ [])
    ∷ spec "duckdb" (equality ∷ position ∷ deletion_vector ∷ [])
    ∷ spec "athena" (equality ∷ position ∷ [])
    ∷ spec "snowflake" (position ∷ deletion_vector ∷ [])
    ∷ spec "bigquery" (equality ∷ position ∷ [])
    ∷ spec "databricks" (deletion_vector ∷ [])
    ∷ spec "dremio" (position ∷ [])
    ∷ spec "clickhouse" (equality ∷ position ∷ deletion_vector ∷ [])
    ∷ []

-- lookupEngine
unfoldable pub lookup_engine : QueryEngine → Option QueryEngineSpec
unfolding array_contains
lookup_engine e = elim (array_contains query_engines (λ s. s.engine == e)) [
  | none ↦ none
  | some i ↦ get_elem? query_engines i
]

pub reads : Option QueryEngineSpec → UpdateType → Bool
reads none u = false
reads (some s) u = elem u s.supports

-- readableByAll
unfoldable pub readable_by_all : List QueryEngine → UpdateType → Bool
unfolding reads
readable_by_all [] u = true
readable_by_all (e ∷ es) u = if not (reads (lookup_engine e) u) then false else readable_by_all es u

pub available_loop : List QueryEngine → List UpdateType → List UpdateType
available_loop es [] = []
available_loop es (u ∷ us) =
    let rest = available_loop es us in if readable_by_all es u then u ∷ rest else rest

-- AvailableUpdateTypes
unfoldable pub available_update_types : List QueryEngine → List UpdateType
unfolding available_loop
available_update_types es = available_loop es writable_update_types

-- PreferredUpdateType
unfoldable pub preferred_update_type : List UpdateType → UpdateType
preferred_update_type [] = ""
preferred_update_type (u ∷ us) = u

pub data ParseResult : Type 0 where
  engines : List QueryEngine → ParseResult
  unknown_engine : String → ParseResult

pub is_known : Option QueryEngineSpec → Bool
is_known none = false
is_known (some s) = true

pub parse_loop : List QueryEngine → List String → ParseResult
parse_loop es [] = engines es
parse_loop es (v ∷ vs) =
    let e = to_lower (trim_space v) in
    let go_on = λ (es' : List QueryEngine). parse_loop es' vs in
    if e == empty_text
    then go_on es
    else if not (is_known (lookup_engine e))
    then unknown_engine v
    else go_on (if elem e es then es else es ++ e ∷ [])

-- ParseQueryEngines
unfoldable pub parse_query_engines : List String → ParseResult
unfolding parse_loop is_known
parse_query_engines vs = parse_loop [] vs

pub data Verdict : Type 0 where
  valid invalid unreadable : Verdict

-- Validate
unfoldable pub validate : UpdateType → Verdict
validate m = if elem m writable_update_types then valid else invalid

-- ValidateAgainst
unfoldable pub validate_against : UpdateType → List UpdateType → Verdict
unfolding validate
validate_against m available = elim (validate m) [
  | valid ↦ if not (is_nil available) && not (elem m available) then unreadable else valid
  | other ↦ other
]

-- NeedsTableIndex
unfoldable pub needs_table_index : UpdateType → String → Bool
needs_table_index m destination =
    destination == "ICEBERG" && (m == position || m == deletion_vector)
