-- ===== src/Types/DataType/Names.antt =====
-- types/data_types.go: the names of the types in Iceberg and their nodes in Parquet.
use olake.Base.{String, ◌≡◌, refl, if◌then◌else◌, ◌==◌, string_eq}
use olake.Types.DataType.{
  DataType, int32, int64, float32, float64, string, bool, object, array, timestamp, timestamp_milli,
  timestamp_micro, timestamp_nano,
}

-- ToIceberg
unfoldable pub to_iceberg_name : DataType → String
to_iceberg_name bool = "boolean"
to_iceberg_name int32 = "int"
to_iceberg_name int64 = "long"
to_iceberg_name float32 = "float"
to_iceberg_name float64 = "double"
to_iceberg_name timestamp = "timestamptz"
to_iceberg_name timestamp_milli = "timestamptz"
to_iceberg_name timestamp_micro = "timestamptz"
to_iceberg_name timestamp_nano = "timestamptz"
to_iceberg_name _ = "string"

-- IcebergTypeToDatatype
unfoldable pub iceberg_type_to_datatype : String → DataType
iceberg_type_to_datatype d =
    if d == "boolean"
    then bool
    else if d == "int"
    then int32
    else if d == "long"
    then int64
    else if d == "float"
    then float32
    else if d == "double"
    then float64
    else if d == "timestamptz"
    then timestamp_micro
    else string

-- The nodes of the Parquet package that ToNewParquet builds.
pub data ParquetNode : Type 0 where
  int32_leaf int64_leaf float_leaf double_leaf boolean_leaf byte_array_leaf : ParquetNode
  string_node timestamp_micros : ParquetNode
  optional : ParquetNode → ParquetNode

parquet_type : DataType → ParquetNode
parquet_type int32 = int32_leaf
parquet_type float32 = float_leaf
parquet_type int64 = int64_leaf
parquet_type float64 = double_leaf
parquet_type string = string_node
parquet_type bool = boolean_leaf
parquet_type timestamp = timestamp_micros
parquet_type timestamp_milli = timestamp_micros
parquet_type timestamp_micro = timestamp_micros
parquet_type timestamp_nano = timestamp_micros
parquet_type object = string_node
parquet_type array = string_node
parquet_type _ = byte_array_leaf

-- ToNewParquet
unfoldable pub to_new_parquet : DataType → ParquetNode
unfolding parquet_type
to_new_parquet d = optional (parquet_type d)

-- What a round trip through an Iceberg table leaves of a type: the precision of a timestamp becomes
-- microseconds, and what Iceberg stores as text becomes a string.
abbrev pub in_iceberg : DataType → DataType
in_iceberg bool = bool
in_iceberg int32 = int32
in_iceberg int64 = int64
in_iceberg float32 = float32
in_iceberg float64 = float64
in_iceberg timestamp = timestamp_micro
in_iceberg timestamp_milli = timestamp_micro
in_iceberg timestamp_micro = timestamp_micro
in_iceberg timestamp_nano = timestamp_micro
in_iceberg _ = string

-- The Iceberg name of a type is read back as the type itself where Iceberg has it, as a timestamp in
-- microseconds for each of the timestamps, and as a text for all others.
pub iceberg_round_trip :
    (d : DataType) → iceberg_type_to_datatype (to_iceberg_name d) ≡ in_iceberg d
unfolding iceberg_type_to_datatype to_iceberg_name
iceberg_round_trip bool = refl
iceberg_round_trip _ = refl
