-- ===== src/Tests/Filters.antt =====
-- utils/typeutils/filter.go.
use olake.Base.{ℕ, String, ◌≡◌, refl, true, false, Option, some, List, [], ◌∷◌, ◌||◌, filterb}
use olake.Base.Assoc.{lookup}
use olake.Types.DataType.{DataType, int64}
use olake.Types.Configured.{FilterConfig}
use olake.Typeutils.Compare.{compare, Value, signed, pos}
use olake.Typeutils.Filter.{
  RawRecord, ParsedCondition, filter_records, filtered, is_kept_delete, parse_conditions,
}
use olake.Typeutils.Filter.Meaning.{verdict, filter_records_lem}
use olake.Tests.Syncs.{platform}

abbrev adults : FilterConfig ℕ
adults = record {
  logical_operator = "and";
  conditions = record { column = "age"; operator = ">="; value = 18 } ∷ [];
}

abbrev is_adult : ParsedCondition ℕ
is_adult = record { column = "age"; operator = ">="; value = signed (pos 18) }

abbrev person : ℕ → RawRecord ℕ
person n = record { row = ("age", signed (pos n)) ∷ []; op_type = some "r" }

abbrev people : List (RawRecord ℕ)
people = person 17 ∷ person 18 ∷ record { row = []; op_type = some "d" } ∷ []

abbrev names : String → String
names c = c

abbrev types : String → Option DataType
types c = some int64

abbrev values : DataType → ℕ → Option (Value ℕ)
values t v = some (signed (pos v))

filter_records_lem_example :
    filter_records platform names types values people adults false true
    ≡ filtered
        (filterb (λ r. is_kept_delete true r || verdict platform (is_adult ∷ []) "and" r) people)
unfolding parse_conditions compare lookup
filter_records_lem_example =
    filter_records_lem platform names types values people adults true (is_adult ∷ []) refl refl refl
