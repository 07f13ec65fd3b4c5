-- ===== src/Pkg/Jdbc.antt =====
-- pkg/jdbc/jdbc.go: the conditions that select the rows of a chunk, as trees where the source prints them as SQL. A row
-- gives the value of each column, a boundary is the list of the values that a text of chunk.Min or chunk.Max has between
-- its commas, and `cmp` is the order of the database.
pub mod Lexicographic
pub mod Partition
use olake.Base.{
  ℕ, String, Bool, true, false, not, ◌&&◌, Option, none, some, List, [], ◌∷◌, ◌++◌, is_nil, all,
  any, if◌then◌else◌,
}
use olake.Typeutils.Filter.{is_lt, is_gt, is_same}
use Prim.Native.Nat.{Ordering}

-- The operators =, >, >= and <
pub data Op : Type 0 where
  equals above at_least below : Op

pub record Test (A : Type 0) : Type 0 where
  pub column : String
  pub op : Op
  pub literal : A

-- Groups of tests joined by AND, joined by OR
abbrev pub Condition : Type 0 → Type 0
Condition A = List (List (Test A))

pub record Chunk (A : Type 0) : Type 0 where
  pub lower : Option (List A)
  pub upper : Option (List A)

abbrev pub op_for : Bool → Bool → Op
op_for true is_last = if is_last then at_least else above
op_for false is_last = below

-- What the database makes of an operator
abbrev pub holds_by : Op → Ordering → Bool
holds_by equals o = is_same o
holds_by above o = is_gt o
holds_by at_least o = not (is_lt o)
holds_by below o = is_lt o

module _ {A : Type 0} where
  abbrev pub group_of : List (Test A) → Condition A → Condition A
  group_of [] rest = rest
  group_of (t ∷ ts) rest = (t ∷ ts) ∷ rest

  -- The loop of buildBound, with the tests on the columns that came before
  pub bound_groups : Bool → List (Test A) → List String → List A → Condition A
  bound_groups is_lower prefix [] values = []
  bound_groups is_lower prefix (c ∷ cs) [] = group_of prefix (bound_groups is_lower prefix cs [])
  bound_groups is_lower prefix (c ∷ cs) (v ∷ vs) =
      group_of (prefix ++ record { column = c; op = op_for is_lower (is_nil cs); literal = v } ∷ [])
        (bound_groups is_lower (prefix ++ record { column = c; op = equals; literal = v } ∷ []) cs
          vs)

  -- buildBound
  unfoldable pub build_bound : List String → List A → Bool → Condition A
  unfolding bound_groups
  build_bound columns values is_lower = bound_groups is_lower [] columns values

  -- buildLexicographicChunkCondition: the bounds that are joined by AND
  unfoldable pub build_chunk_condition : List String → Chunk A → List (Condition A)
  build_chunk_condition columns chunk = elim chunk.lower [
    | none ↦ elim chunk.upper [ none ↦ [] | some upper ↦ build_bound columns upper false ∷ [] ]
    | some lower ↦ elim chunk.upper [
      | none ↦ build_bound columns lower true ∷ []
      | some upper ↦ build_bound columns lower true ∷ build_bound columns upper false ∷ []
    ]
  ]

  -- What the database makes of the conditions
  module _ (cmp : A → A → Ordering) (row : String → A) where
    abbrev pub holds : Test A → Bool
    holds t = holds_by t.op (cmp (row t.column) t.literal)

    abbrev pub holds_any : Condition A → Bool
    holds_any c = any (λ g. all holds g) c

    unfoldable pub selects : List (Condition A) → Bool
    selects bounds = all holds_any bounds
