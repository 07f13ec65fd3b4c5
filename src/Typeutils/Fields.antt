-- ===== src/Typeutils/Fields.antt =====
-- utils/typeutils/fields.go and resolver.go: the types that the values of a column have had. A record is given by
-- the types that TypeFromValue detects in it. A type that is asked for is kept (`settle`), and forgotten when a new
-- one is added. A dereference of a type that was forgotten is a panic, `none`.
pub mod Widening
pub mod Steps
pub mod Processing
pub mod Resolved
use olake.Base.{
  ℕ, String, Bool, true, false, not, ◌&&◌, ◌||◌, Option, none, some, List, [], ◌∷◌, ◌++◌,
  if◌then◌else◌, ◌==◌, string_eq, elem, ◌>>=◌,
}
use olake.Base.Assoc.{lookup, insert}
use olake.Types.Set.{Hashing}
use olake.Types.DataType.{DataType, null, unknown, common_type, data_type_eq}
use olake.Types.Stream.{Stream, upsert_field}

pub record Field : Type 0 where
  pub data_type : Option DataType
  pub is_null : Bool
  pub type_occurrence : List DataType

-- A record by its types
abbrev pub Record : Type 0
Record = List (String × DataType)

abbrev pub Fields : Type 0
Fields = List (String × Field)

unfoldable pub new_field : DataType → Field
new_field t = record { data_type = some t; is_null = false; type_occurrence = t ∷ [] }

pub common_of : List DataType → DataType
common_of [] = unknown
common_of (t ∷ ts) = common_type t ts

-- getType; it ends the process where nothing has occurred
unfoldable pub get_type : Field → DataType
unfolding common_of
get_type f = elim f.data_type [ none ↦ common_of f.type_occurrence | some t ↦ t ]

unfoldable pub settle : Field → Field
unfolding get_type
settle f = record f { data_type = some (get_type f) }

pub add_occurrence : DataType → Field → Field
add_occurrence t f =
    if elem t f.type_occurrence
    then f
    else record f { data_type = none; type_occurrence = f.type_occurrence ++ t ∷ [] }

pub add_occurrences : List DataType → Field → Field
unfolding add_occurrence
add_occurrences [] f = f
add_occurrences (t ∷ ts) f = add_occurrences ts (add_occurrence t f)

-- Field.Merge
unfoldable pub merge_field : Field → Field → Field
unfolding add_occurrences
merge_field f g = add_occurrences g.type_occurrence f

pub merged_or_new : Option Field → Field → Field
unfolding merge_field
merged_or_new none g = g
merged_or_new (some f) g = merge_field f g

-- Fields.Merge
unfoldable pub merge : Fields → Fields → Fields
unfolding merged_or_new
merge fs [] = fs
merge fs ((name, g) ∷ gs) = merge (insert name (merged_or_new (lookup name fs) g) fs) gs

-- The variables of Process
pub record Processed : Type 0 where
  pub fields : Fields
  pub mutations : Fields
  pub change_detected : Bool
  pub type_change_detected : Bool

pub changed_type : String → DataType → DataType → Field → Processed → Processed
unfolding get_type settle
changed_type key t before f s =
    if get_type f == before
    then record s { fields = insert key (settle f) s.fields }
    else record s {
      fields = insert key (settle f) s.fields;
      type_change_detected = true;
      mutations = insert key (new_field t) s.mutations;
    }

pub process_found : String → DataType → Field → Processed → Processed
unfolding changed_type merge_field new_field
process_found key t f s =
    if not (t == null) && not (get_type f == t)
    then changed_type key t (get_type f) (merge_field (settle f) (new_field t)) s
    else record s { fields = insert key (settle f) s.fields }

pub process_key : String → DataType → Option Field → Processed → Processed
unfolding process_found
process_key key t (some f) s = process_found key t f s
process_key key t none s = record s {
  change_detected = true;
  mutations = insert key (new_field t) s.mutations;
}

pub process_loop : Record → Processed → Processed
unfolding process_key
process_loop [] s = s
process_loop ((key, t) ∷ r) s = process_loop r (process_key key t (lookup key s.fields) s)

pub finish : Processed → Processed
finish s = record s { fields = merge s.fields s.mutations }

-- Process
unfoldable pub process : Fields → Record → Processed
unfolding process_loop finish
process fs r = finish (
    process_loop r (record {
      fields = fs;
      mutations = [];
      change_detected = false;
      type_change_detected = false;
    }))

-- isNullable
unfoldable pub is_nullable : Field → Bool
is_nullable f = f.is_null || elem null f.type_occurrence

-- The loops of Resolve
pub new_fields : Record → Fields
new_fields [] = []
new_fields ((k, t) ∷ r) = insert k (new_field t) (new_fields r)

abbrev pub is_missing : Option DataType → Bool
is_missing none = true
is_missing (some t) = false

pub set_nullables : Record → Fields → Fields
set_nullables object [] = []
set_nullables object ((name, f) ∷ fs) =
    let rest = set_nullables object fs in
    if is_missing (lookup name object)
    then (name, record f { is_null = true }) ∷ rest
    else (name, f) ∷ rest

pub all_fields : List Record → Fields → Fields
unfolding new_fields set_nullables merge
all_fields [] fs = fs
all_fields (object ∷ objects) fs =
    all_fields objects (merge (set_nullables object fs) (new_fields object))

module _ (HD : Hashing DataType) where
  pub upsert_all : Fields → Stream → Option Stream
  unfolding is_nullable
  upsert_all [] s = some s
  upsert_all ((column, f) ∷ fs) s =
      f.data_type >>= λ t. upsert_all fs (upsert_field HD s column t (is_nullable f) false)

  -- Resolve
  unfoldable pub resolve : Stream → List Record → Option Stream
  unfolding all_fields upsert_all
  resolve s objects = upsert_all (all_fields objects []) s
