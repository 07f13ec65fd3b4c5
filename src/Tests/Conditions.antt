-- ===== src/Tests/Conditions.antt =====
-- pkg/jdbc/jdbc.go: the chunks of a table with a key of two columns.
use olake.Base.{
  String, Bool, ◌≡◌, refl, sym, true, false, none, [], ◌∷◌, ◌==◌, string_eq, false≢true,
}
use olake.Pkg.Jdbc.Lexicographic.{IsOrder, lex}
use olake.Pkg.Jdbc.Partition.{Ascending, chunks_from, selecting, build_chunk_condition_lem}
use Prim.Native.Nat.{Ordering}

boolean : Bool → Bool → Ordering
boolean false true = Ordering.lt
boolean true false = Ordering.gt
boolean _ _ = Ordering.eq

boolean-IsOrder : IsOrder boolean
unfolding IsOrder boolean
boolean-IsOrder false false z h k = refl
boolean-IsOrder false true true h k = refl
boolean-IsOrder false true false h k = absurd (false≢true (sym k))
boolean-IsOrder true false z h k = absurd (false≢true (sym h))
boolean-IsOrder true true false h k = refl
boolean-IsOrder true true true h k = refl

-- An archived order without an invoice
abbrev archived : String → Bool
archived c = c == "archived"

build_chunk_condition_lem_example :
    selecting boolean
      ("archived" ∷ "invoiced" ∷ [])
      archived
      (chunks_from none ((false ∷ true ∷ []) ∷ (true ∷ false ∷ []) ∷ []))
    ≡ 1
unfolding Ascending lex boolean
build_chunk_condition_lem_example =
    build_chunk_condition_lem boolean ("archived" ∷ "invoiced" ∷ []) archived refl boolean-IsOrder
      ((false ∷ true ∷ []) ∷ (true ∷ false ∷ []) ∷ []) (refl, (refl, refl))
