-- ===== src/Typeutils/Filter.antt =====
-- utils/typeutils/filter.go: the filter on the records of a batch, with Compare of compare.go and its panics. `typed` and
-- `parse` stand for getFilterColumnDataType at the schema of the batch and for ParseFilterValue, with `none`
-- for the error of either and nil for the null value.
pub mod Meaning
use olake.Base.{
  ℕ, String, ◌≡◌, Bool, true, false, not, Option, none, some, List, [], ◌∷◌, ◌&&◌, ◌||◌,
  if◌then◌else◌, ◌==◌, string_eq, is_nil, all, ◌>>=◌,
}
use olake.Base.Assoc.{lookup}
use olake.Utils.Text.{to_lower, trim_space}
use olake.Typeutils.Compare.{Value, nil, is_nil_value, Platform, compare}
use olake.Types.DataType.{DataType}
use olake.Types.Configured.{FilterConfig, FilterCondition}
use Prim.Native.Nat.{Ordering}

-- types.RawRecord, with the operation among its OLake columns, where it is a text
pub record RawRecord (F : Type 0) : Type 0 where
  pub row : List (String × Value F)
  pub op_type : Option String

-- parsedCondition
pub record ParsedCondition (F : Type 0) : Type 0 where
  pub column : String
  pub operator : String
  pub value : Value F

abbrev pub is_lt : Ordering → Bool
is_lt Ordering.lt = true
is_lt _ = false

abbrev pub is_gt : Ordering → Bool
is_gt Ordering.gt = true
is_gt _ = false

abbrev pub is_same : Ordering → Bool
is_same Ordering.eq = true
is_same _ = false

pub by_order : String → Ordering → Bool
by_order op o =
    (op == "=" && is_same o)
    || (op == "!=" && not (is_same o))
    || (op == ">" && is_gt o)
    || (op == ">=" && not (is_lt o))
    || (op == "<" && is_lt o)
    || (op == "<=" && not (is_gt o))

abbrev pub value_at : {F : Type 0} → String → List (String × Value F) → Value F
value_at column m = elim (lookup column m) [ none ↦ nil | some v ↦ v ]

abbrev pub same_bool : Bool → Bool → Bool
same_bool true b = b
same_bool false b = not b

module _ {F : Type 0} (P : Platform F) where
  -- evaluate; `none` is a panic of Compare
  unfoldable pub evaluate : Value F → Value F → String → Option Bool
  unfolding by_order
  evaluate r v op =
      if is_nil_value r || is_nil_value v
      then some (
          (op == "=" && is_nil_value r && is_nil_value v)
          || (op == "!=" && not (is_nil_value r && is_nil_value v)))
      else elim (compare P r v) [ none ↦ none | some o ↦ some (by_order op o) ]

  pub matches_loop : Bool → RawRecord F → List (ParsedCondition F) → Option Bool
  matches_loop is_or r [] = some (not is_or)
  matches_loop is_or r (c ∷ cs) =
      let rest = matches_loop is_or r cs in
      elim (evaluate (value_at c.column r.row) c.value c.operator) [
        | none ↦ none
        | some b ↦ if same_bool b is_or then some is_or else rest
      ]

-- `strings.EqualFold(strings.TrimSpace(op), "OR")`
abbrev pub is_or_operator : String → Bool
is_or_operator op = to_lower (trim_space op) == "or"

-- Whether a record is a delete that passes the filter
abbrev pub op_of : Option String → String
op_of none = ""
op_of (some s) = s

abbrev pub is_kept_delete : {F : Type 0} → Bool → RawRecord F → Bool
is_kept_delete keep_deletes r = keep_deletes && op_of r.op_type == "d"

module _ {F : Type 0} (P : Platform F) where
  -- matches
  unfoldable pub matches : RawRecord F → List (ParsedCondition F) → String → Option Bool
  unfolding matches_loop
  matches r cs op = matches_loop P (is_or_operator op) r cs

  abbrev pub keep_one : Bool → List (ParsedCondition F) → String → RawRecord F → Option Bool
  keep_one keep_deletes cs op r =
      if is_kept_delete keep_deletes r then some true else matches r cs op

  -- The flags that the goroutines set, where none of them panics
  pub keep_flags :
      Bool → List (ParsedCondition F) → String → List (RawRecord F) → Option (List Bool)
  keep_flags keep_deletes cs op [] = some []
  keep_flags keep_deletes cs op (r ∷ rs) = do
    b ← keep_one keep_deletes cs op r
    bs ← keep_flags keep_deletes cs op rs
    some (b ∷ bs)

module _ {F V : Type 0} (resolve : String → String) (typed : String → Option DataType)
    (parse : DataType → V → Option (Value F)) where
  pub parse_one : FilterCondition V → Option (ParsedCondition F)
  parse_one c = elim (typed (resolve c.column)) [
    | none ↦ none
    | some t ↦ elim (parse t c.value) [
      | none ↦ none
      | some v ↦ some (record { column = resolve c.column; operator = c.operator; value = v })
    ]
  ]

  unfoldable pub parse_conditions : List (FilterCondition V) → Option (List (ParsedCondition F))
  unfolding parse_one
  parse_conditions [] = some []
  parse_conditions (c ∷ cs) = elim (parse_one c) [
    | none ↦ none
    | some p ↦ elim (parse_conditions cs) [ none ↦ none | some ps ↦ some (p ∷ ps) ]
  ]

-- The records whose flag is set
pub select : {A : Type 0} → List Bool → List A → List A
select [] rs = []
select (b ∷ bs) [] = []
select (b ∷ bs) (r ∷ rs) = let rest = select bs rs in if b then r ∷ rest else rest

-- What FilterRecords ends with: records, an error in the conditions, or a panic of Compare
pub data Filtered (F : Type 0) : Type 0 where
  filtered : List (RawRecord F) → Filtered F
  wrong_condition panics : Filtered F

module _ {F V : Type 0} (P : Platform F) (resolve : String → String)
    (typed : String → Option DataType) (parse : DataType → V → Option (Value F)) where
  -- The goroutines that set the flags give no error, so their group gives none.
  pub filter_parsed :
      Bool → Option (List (ParsedCondition F)) → String → List (RawRecord F) → Filtered F
  unfolding select keep_flags
  filter_parsed keep_deletes none op rs = wrong_condition
  filter_parsed keep_deletes (some cs) op rs = elim (keep_flags P keep_deletes cs op rs) [
    | none ↦ panics
    | some flags ↦ filtered (select flags rs)
  ]

  -- FilterRecords
  unfoldable pub filter_records : List (RawRecord F) → FilterConfig V → Bool → Bool → Filtered F
  unfolding filter_parsed parse_conditions
  filter_records rs filter is_legacy keep_deletes =
      if is_nil filter.conditions || is_legacy || all (is_kept_delete keep_deletes) rs
      then filtered rs
      else filter_parsed keep_deletes (parse_conditions resolve typed parse filter.conditions)
          filter.logical_operator rs
