-- ===== src/Types/DataType.antt =====
-- types/data_types.go and the typecast tree of types/type_schema.go.
pub mod Lattice
pub mod Order
pub mod Names
use olake.Base.{
  ℕ, String, ◌≡◌, Bool, true, false, Option, none, some, List, [], ◌∷◌, foldl, arith, if◌then◌else◌,
  ltb, ◌&&◌, ◌↔◌, refl, Comparable, coded_beq, coded_beq_iff,
}
use olake.Utils.Arrays.{get_elem?}

-- The named values of the Go string type, and any other text.
pub data DataType : Type 0 where
  null int32 int64 float32 float64 string bool object array unknown : DataType
  timestamp timestamp_milli timestamp_micro timestamp_nano : DataType
  other : String → DataType

abbrev pub named : List DataType
named =
    null ∷ int32 ∷ int64 ∷ float32 ∷ float64 ∷ string ∷ bool ∷ object ∷ array ∷ unknown ∷ timestamp
    ∷ timestamp_milli ∷ timestamp_micro ∷ timestamp_nano ∷ []

abbrev pub decode : ℕ → String → DataType
decode n s = elim (get_elem? named n) [ none ↦ other s | some t ↦ t ]

abbrev pub tag : DataType → ℕ
tag null = 0
tag int32 = 1
tag int64 = 2
tag float32 = 3
tag float64 = 4
tag string = 5
tag bool = 6
tag object = 7
tag array = 8
tag unknown = 9
tag timestamp = 10
tag timestamp_milli = 11
tag timestamp_micro = 12
tag timestamp_nano = 13
tag (other s) = 14

abbrev pub text : DataType → String
text (other s) = s
text _ = ""

decode-tag : (t : DataType) → decode (tag t) (text t) ≡ t
decode-tag (other s) = refl
decode-tag _ = refl

-- `==` on the Go type, shut but for tests
unfoldable pub data_type_beq : DataType → DataType → Bool
data_type_beq = coded_beq tag text

pub DataType-beq_iff : (a b : DataType) → (data_type_beq a b ≡ true) ↔ (a ≡ b)
unfolding data_type_beq
DataType-beq_iff = coded_beq_iff tag text decode decode-tag

instance abbrev pub data_type_eq : Comparable DataType
data_type_eq = record { same = data_type_beq; same_iff = DataType-beq_iff }

-- TypeWeights
unfoldable pub weight : DataType → Option ℕ
weight bool = some 0
weight int32 = some 1
weight int64 = some 2
weight float64 = some 3
weight float32 = some 4
weight string = some 5
weight timestamp_nano = some 9
weight timestamp_micro = some 8
weight timestamp_milli = some 7
weight timestamp = some 6
weight _ = none

pub data TypeNode : Type 0 where
  nil : TypeNode
  node : DataType → TypeNode → TypeNode → TypeNode

abbrev pub leaf : DataType → TypeNode
leaf t = node t nil nil

abbrev pub typecast_tree : TypeNode
typecast_tree =
    node string (node float64 (node int64 (node int32 (leaf bool) nil) nil) (leaf float32)) (
      node timestamp_nano (node timestamp_micro (node timestamp_milli (leaf timestamp) nil) nil)
        nil)

-- What one round of the search decides at a node.
pub data Turn : Type 0 where
  give_up here right left : Turn

turn_at : ℕ → ℕ → ℕ → Turn
turn_at root w1 w2 =
    if ltb root w1 && ltb root w2 then right else if ltb w1 root && ltb w2 root then left else here

turn : Option ℕ → Option ℕ → Option ℕ → Turn
turn none w1 w2 = give_up
turn (some root) none w2 = here
turn (some root) (some w1) none = here
turn (some root) (some w1) (some w2) = turn_at root w1 w2

unfoldable pub lowest_common_ancestor : TypeNode → DataType → DataType → DataType
unfolding turn turn_at weight
lowest_common_ancestor nil t1 t2 = unknown
lowest_common_ancestor (node t l r) t1 t2 = elim (turn (weight t) (weight t1) (weight t2)) [
  | give_up ↦ unknown
  | here ↦ t
  | right ↦ lowest_common_ancestor r t1 t2
  | left ↦ lowest_common_ancestor l t1 t2
]

unfoldable pub get_common_ancestor_type : DataType → DataType → DataType
unfolding lowest_common_ancestor
get_common_ancestor_type t1 t2 = lowest_common_ancestor typecast_tree t1 t2

-- The loops that fold a nonempty slice of types.
unfoldable pub common_type : DataType → List DataType → DataType
common_type t ts = foldl get_common_ancestor_type t ts
