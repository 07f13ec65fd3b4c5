-- ===== src/Pkg/Jdbc/Partition.antt =====
-- pkg/jdbc/jdbc.go: ascending boundaries cut a table into chunks of which one selects each row.
use olake.Base.{
  ◌+◌, ℕ, String, ◌≡◌, refl, sym, ap, ◌∙◌, Bool, true, false, not, ◌&&◌, is_nil, length-map,
  Bool-cases, inl, inr, Option, none, some, List, [], ◌∷◌, map, length, if◌then◌else◌, ap₂,
}
use olake.Typeutils.Filter.{is_lt, is_gt}
use olake.Pkg.Jdbc.{Chunk, build_bound, build_chunk_condition, selects}
use olake.Pkg.Jdbc.Lexicographic.{lex, build_bound-lex, IsOrder, lex_below, and_true}
use Prim.Native.Nat.{Ordering}

-- The chunks that boundaries cut a table into, from a first one
unfoldable pub chunks_from : {A : Type 0} → Option (List A) → List (List A) → List (Chunk A)
chunks_from lower [] = record { lower = lower; upper = none } ∷ []
chunks_from lower (v ∷ vs) = record { lower = lower; upper = some v } ∷ chunks_from (some v) vs

module _ {A : Type 0} (cmp : A → A → Ordering) where
  -- Keys of n values, none after the next
  unfoldable pub Ascending : ℕ → List (List A) → Type 0
  Ascending n [] = Unit
  Ascending n (v ∷ []) = length v ≡ n
  Ascending n (v ∷ w ∷ ws) = (length v ≡ n) × ((is_gt (lex cmp v w) ≡ false) × Ascending n (w ∷ ws))

  length_first : {n : ℕ} (v : List A) (ws : List (List A)) → Ascending n (v ∷ ws) → length v ≡ n
  unfolding Ascending
  length_first v [] a = a
  length_first v (w ∷ ws) a = a.0

  -- How many chunks select a row
  unfoldable pub selecting : List String → (String → A) → List (Chunk A) → ℕ
  selecting columns row [] = 0
  selecting columns row (c ∷ cs) =
      (if selects cmp row (build_chunk_condition columns c) then 1 else 0)
      + selecting columns row cs

  module _ (columns : List String) (row : String → A) (some_column : is_nil columns ≡ false) where
    -- Is the row below a key?
    abbrev below_key : List A → Bool
    below_key v = is_lt (lex cmp (map row columns) v)

    chosen : Chunk A → Bool
    chosen c = selects cmp row (build_chunk_condition columns c)

    count : Bool → ℕ
    count b = if b then 1 else 0

    chosen_first :
        (w : List A)
        → length w ≡ length columns
        → chosen (record { lower = none; upper = some w }) ≡ below_key w
    unfolding chosen build_chunk_condition selects
    chosen_first w m =
        ap (λ b. b && true) (build_bound-lex cmp row columns w false some_column m) ∙ and_true _

    chosen_last :
        (v : List A)
        → length v ≡ length columns
        → chosen (record { lower = some v; upper = none }) ≡ not (below_key v)
    unfolding chosen build_chunk_condition selects
    chosen_last v m =
        ap (λ b. b && true) (build_bound-lex cmp row columns v true some_column m) ∙ and_true _

    chosen_inner :
        (v w : List A)
        → length v ≡ length columns
        → length w ≡ length columns
        → chosen (record { lower = some v; upper = some w }) ≡ (not (below_key v) && below_key w)
    unfolding chosen build_chunk_condition selects
    chosen_inner v w m n =
        ap₂ (λ a b. a && (b && true)) (build_bound-lex cmp row columns v true some_column m)
          (build_bound-lex cmp row columns w false some_column n)
        ∙ ap (λ b. not (below_key v) && b) (and_true _)

    below_next :
        IsOrder cmp
        → (v w : List A) → length v ≡ length columns
        → length w ≡ length columns
        → below_key v ≡ true
        → is_gt (lex cmp v w) ≡ false
        → below_key w ≡ true
    below_next o v w m n h g =
        lex_below cmp o (map row columns) v w (length-map row columns ∙ sym m) (m ∙ sym n) h g

    count-after :
        IsOrder cmp
        → (v : List A) (ws : List (List A)) → Ascending (length columns) (v ∷ ws)
        → below_key v ≡ true
        → selecting columns row (chunks_from (some v) ws) ≡ 0
    unfolding selecting chunks_from Ascending selects count build_chunk_condition chosen build_bound
    count-after o v [] m h = ap (λ b. count b + 0) (chosen_last v m ∙ ap not h)
    count-after o v (w ∷ ws) (m, (g, rest)) h =
        let n = length_first w ws rest in
        ap₂ (λ b k. count b + k) (chosen_inner v w m n ∙ ap (λ b. not b && below_key w) h)
          (count-after o w ws rest (below_next o v w m n h g))

    count-from :
        IsOrder cmp
        → (v : List A) (ws : List (List A)) → Ascending (length columns) (v ∷ ws)
        → below_key v ≡ false
        → selecting columns row (chunks_from (some v) ws) ≡ 1
    unfolding selecting chunks_from Ascending selects count build_chunk_condition chosen build_bound
    count-from o v [] m h = ap (λ b. count b + 0) (chosen_last v m ∙ ap not h)
    count-from o v (w ∷ ws) (m, (g, rest)) h =
        let n = length_first w ws rest in
        let first = chosen_inner v w m n ∙ ap (λ b. not b && below_key w) h in
        elim (Bool-cases (below_key w)) [
          | inl k ↦ ap₂ (λ b k. count b + k) (first ∙ k) (count-after o w ws rest k)
          | inr k ↦ ap₂ (λ b k. count b + k) (first ∙ k) (count-from o w ws rest k)
        ]

    -- With an order of values, some column and ascending boundaries of one value for each column, one of the chunks that the
    -- boundaries cut the table into selects a row, and no other does
    pub build_chunk_condition_lem :
        IsOrder cmp
        → (boundaries : List (List A)) → Ascending (length columns) boundaries
        → selecting columns row (chunks_from none boundaries) ≡ 1
    unfolding selecting chunks_from build_chunk_condition selects build_bound count chosen
    build_chunk_condition_lem o [] a = refl
    build_chunk_condition_lem o (v ∷ vs) a =
        let first = chosen_first v (length_first v vs a) in
        elim (Bool-cases (below_key v)) [
          | inl k ↦ ap₂ (λ b k. count b + k) (first ∙ k) (count-after o v vs a k)
          | inr k ↦ ap₂ (λ b k. count b + k) (first ∙ k) (count-from o v vs a k)
        ]
