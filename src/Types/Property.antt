-- ===== src/Types/Property.antt =====
-- types/type_schema.go: the Property of a column, a set of the types that were seen in it.
pub mod Resolve
pub mod Widening
use olake.Base.{
  ℕ, String, ◌≡◌, Bool, true, false, Option, none, some, List, [], ◌∷◌, if◌then◌else◌, ◌==◌,
}
use olake.Utils.Arrays.{array_contains, remove_at}
use olake.Types.DataType.{DataType, null, common_type, data_type_eq}
use olake.Types.Set.{Set, array}

pub record Property : Type 0 where
  pub type : Set DataType
  pub destination_column_name : String
  pub olake_column : Bool

abbrev pub is_null : DataType → Bool
is_null t = t == null

-- `remove null, to not mess up with tree`
unfoldable pub drop_null : List DataType → List DataType
unfolding array_contains
drop_null ts = elim (array_contains ts is_null) [ none ↦ ts | some i ↦ remove_at i ts ]

-- DataType, on the slice that Array gives
unfoldable pub resolve : List DataType → DataType
unfolding drop_null
resolve ts = elim (drop_null ts) [ [] ↦ null | t ∷ us ↦ common_type t us ]

unfoldable pub data_type : Property → DataType
data_type p = resolve (array p.type)

unfoldable pub nullable : Property → Bool
unfolding array_contains
nullable p = elim (array_contains (array p.type) is_null) [ none ↦ false | some i ↦ true ]
