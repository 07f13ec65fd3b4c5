-- ===== src/Typeutils/Filter/Meaning.antt =====
-- utils/typeutils/filter.go: what the filter means.
use olake.Base.{
  String, ◌≡◌, refl, sym, ap, Bool, true, false, false≢true, Option, none, some, List, [], ◌∷◌,
  ◌||◌, ◌&&◌, arith, if◌then◌else◌, string_eq, ◌==◌, is_nil, all, any, filterb, Bool-cases,
  Option-cases, inl, inr,
}
use olake.Typeutils.Compare.{Value, is_nil_value, Platform, compare}
use olake.Types.DataType.{DataType}
use olake.Types.Configured.{FilterConfig}
use olake.Typeutils.Filter.{
  RawRecord, ParsedCondition, by_order, evaluate, value_at, matches_loop, is_or_operator, matches,
  is_kept_delete, parse_conditions, select, keep_flags, filter_parsed, filter_records, filtered,
  wrong_condition,
}
use Prim.Native.Nat.{Ordering}

-- The operators that two values satisfy, by which of them is more
abbrev pub accepted_order : Ordering → List String
accepted_order Ordering.lt = "!=" ∷ "<" ∷ "<=" ∷ []
accepted_order Ordering.eq = "=" ∷ ">=" ∷ "<=" ∷ []
accepted_order Ordering.gt = "!=" ∷ ">" ∷ ">=" ∷ []

abbrev pub accepted_answer : Option Ordering → List String
accepted_answer none = []
accepted_answer (some o) = accepted_order o

abbrev pub has_answer : Option Ordering → Bool
has_answer none = false
has_answer (some o) = true

module _ {F : Type 0} (P : Platform F) where
  -- A nil value is equal to nil, differs from all others, and is neither more nor less than any.
  abbrev pub accepted : Value F → Value F → List String
  accepted r v =
      if is_nil_value r && is_nil_value v
      then "=" ∷ []
      else if is_nil_value r || is_nil_value v
      then "!=" ∷ []
      else accepted_answer (compare P r v)

  -- Whether one condition holds of a record
  abbrev pub holds : RawRecord F → ParsedCondition F → Bool
  holds r c = any (λ op. c.operator == op) (accepted (value_at c.column r.row) c.value)

  -- Some condition under OR, and all of them under any other operator
  abbrev pub verdict : List (ParsedCondition F) → String → RawRecord F → Bool
  verdict cs op r = if is_or_operator op then any (holds r) cs else all (holds r) cs

  -- Compare does not panic on the values that the conditions compare.
  abbrev pub is_comparable : List (ParsedCondition F) → RawRecord F → Bool
  is_comparable cs r = all (λ c. has_answer (compare P (value_at c.column r.row) c.value)) cs

  by_order-accepted :
      (op : String) (o : Ordering) → by_order op o ≡ any (λ x. op == x) (accepted_order o)
  unfolding by_order
  by_order-accepted op Ordering.lt = ground arith
  by_order-accepted op Ordering.eq = ground arith
  by_order-accepted op Ordering.gt = ground arith

  evaluate-accepted :
      (r v : Value F) (op : String)
      → has_answer (compare P r v) ≡ true
      → evaluate P r v op ≡ some (any (λ x. op == x) (accepted r v))
  unfolding evaluate
  evaluate-accepted r v op h = elim (Option-cases (compare P r v)) [
    | inl miss ↦ absurd (false≢true (rw miss at h))
    | inr (o, e) ↦ rw e (ground (arith, by_order-accepted op o))
  ]

  matches_loop_lem :
      (is_or : Bool) (r : RawRecord F) (cs : List (ParsedCondition F))
      → is_comparable cs r ≡ true
      → matches_loop P is_or r cs ≡ some (if is_or then any (holds r) cs else all (holds r) cs)
  unfolding matches_loop
  matches_loop_lem true r [] h = refl
  matches_loop_lem false r [] h = refl
  matches_loop_lem true r (c ∷ cs) h =
      rw
        (
          matches_loop,
          evaluate-accepted (value_at c.column r.row) c.value c.operator (ground arith),
        )
        (ground (arith, matches_loop_lem true r cs))
  matches_loop_lem false r (c ∷ cs) h =
      rw
        (
          matches_loop,
          evaluate-accepted (value_at c.column r.row) c.value c.operator (ground arith),
        )
        (ground (arith, matches_loop_lem false r cs))

  -- The loop that stops at the first decisive condition gives the verdict of all of them: some
  -- condition holds, under OR, and each of them, under any other operator.
  pub matches_lem :
      (r : RawRecord F) (cs : List (ParsedCondition F)) (op : String)
      → is_comparable cs r ≡ true
      → matches P r cs op ≡ some (verdict cs op r)
  unfolding matches
  matches_lem r cs op h = matches_loop_lem (is_or_operator op) r cs h

  -- Of the records that the filter looks at
  abbrev pub all_comparable : Bool → List (ParsedCondition F) → List (RawRecord F) → Bool
  all_comparable keep_deletes cs rs =
      all (λ r. is_kept_delete keep_deletes r || is_comparable cs r) rs

  keep_flags-select :
      (keep_deletes : Bool) (cs : List (ParsedCondition F)) (op : String) (rs : List (RawRecord F))
      → all_comparable keep_deletes cs rs ≡ true
      → (flags : List Bool) × (keep_flags P keep_deletes cs op rs ≡ some flags)
        × (select flags rs ≡ filterb (λ r. is_kept_delete keep_deletes r || verdict cs op r) rs)
  unfolding keep_flags select
  keep_flags-select keep_deletes cs op [] h = ([], refl, refl)
  keep_flags-select keep_deletes cs op (r ∷ rs) h =
      let (flags, e, s) = keep_flags-select keep_deletes cs op rs (ground arith) in
      elim (Bool-cases (is_kept_delete keep_deletes r)) [
        | inl kept ↦ (true ∷ flags, rw (kept, e) refl, rw kept (ap (λ l. r ∷ l) s))
        | inr looked_at ↦
            let m : matches P r cs op ≡ some (verdict cs op r) =
              matches_lem r cs op (ground arith) in
            (
              verdict cs op r ∷ flags,
              rw (looked_at, m, e) refl,
              rw looked_at (ap (λ l. if verdict cs op r then r ∷ l else l) s),
            )
      ]

filterb-all :
    {A : Type 0} (p q : A → Bool) (rs : List A)
    → all p rs ≡ true
    → filterb (λ r. p r || q r) rs ≡ rs
filterb-all p q [] h = refl
filterb-all p q (r ∷ rs) h = ground (arith, filterb-all p q rs)

module _ {F V : Type 0} (P : Platform F) (resolve : String → String)
    (typed : String → Option DataType) (parse : DataType → V → Option (Value F)) where
  -- Where a structured filter has conditions, they parse, and Compare does not panic on a value of a record that is looked at
  -- and that of a condition on its column, FilterRecords gives in their order the records that are deletes to keep or meet
  -- the filter: some condition under OR, and all of them under any other operator. A condition holds of a value for the
  -- operators in the list of what the two values satisfy: of two nil values `=`, of one `!=`, and else those
  -- of less, equal or more by Compare.
  pub filter_records_lem :
      (rs : List (RawRecord F)) (f : FilterConfig V) (keep_deletes : Bool)
      (cs : List (ParsedCondition F))
      → is_nil f.conditions ≡ false
      → parse_conditions resolve typed parse f.conditions ≡ some cs
      → all_comparable P keep_deletes cs rs ≡ true
      → filter_records P resolve typed parse rs f false keep_deletes
        ≡ filtered
            (filterb (λ r. is_kept_delete keep_deletes r || verdict P cs f.logical_operator r) rs)
  unfolding filter_records filter_parsed
  filter_records_lem rs f keep_deletes cs h parsed able =
      elim (Bool-cases (all (is_kept_delete keep_deletes) rs)) [
        | inl whole ↦
            rw (filter_records, h, whole)
              (ap filtered (
                sym (
                  filterb-all (is_kept_delete keep_deletes) (verdict P cs f.logical_operator) rs
                    whole)))
        | inr part ↦
            let (flags, e, s) = keep_flags-select P keep_deletes cs f.logical_operator rs able in
            rw (filter_records, h, part, parsed, filter_parsed, e) (ap filtered s)
      ]

  -- Where the conditions of a structured filter do not parse, FilterRecords gives an error, unless
  -- there are no records but deletes to keep, which it gives back without a look at the conditions.
  pub filter_records-error :
      (rs : List (RawRecord F)) (f : FilterConfig V) (keep_deletes : Bool)
      → is_nil f.conditions ≡ false
      → parse_conditions resolve typed parse f.conditions ≡ none
      → filter_records P resolve typed parse rs f false keep_deletes
        ≡ (if all (is_kept_delete keep_deletes) rs then filtered rs else wrong_condition)
  unfolding filter_records filter_parsed
  filter_records-error rs f keep_deletes h parsed = rw (filter_records, h, parsed) (ground arith)
