-- ===== src/Pkg/Jdbc/Lexicographic.antt =====
-- pkg/jdbc/jdbc.go: the bounds are those of the lexicographic order.
use olake.Base.{
  String, ◌≡◌, refl, sym, ap, ◌∙◌, Bool, true, false, not, ◌&&◌, ◌||◌, List, [], ◌∷◌, ◌++◌, is_nil,
  all, map, length, arith, nat_eq, false≢true,
}
use olake.Typeutils.Filter.{is_lt, is_gt}
use olake.Pkg.Jdbc.{
  Test, Condition, equals, group_of, op_for, bound_groups, build_bound, holds_by, holds, holds_any,
}
use Prim.Native.Nat.{Ordering}

abbrev pub first_of : Ordering → Ordering → Ordering
first_of Ordering.eq o = o
first_of Ordering.lt o = Ordering.lt
first_of Ordering.gt o = Ordering.gt

-- What a bound asks of the comparison of two keys
abbrev pub in_order : Bool → Ordering → Bool
in_order true o = not (is_lt o)
in_order false o = is_lt o

first_of-in_order :
    (is_lower ahead : Bool) (o r : Ordering)
    → ((ahead && holds_by (op_for is_lower false) o)
        || ((ahead && holds_by equals o) && in_order is_lower r))
      ≡ (ahead && in_order is_lower (first_of o r))
first_of-in_order is_lower false o r = refl
first_of-in_order true true Ordering.lt r = refl
first_of-in_order true true Ordering.eq r = refl
first_of-in_order true true Ordering.gt r = refl
first_of-in_order false true Ordering.lt r = refl
first_of-in_order false true Ordering.eq r = refl
first_of-in_order false true Ordering.gt r = refl

op_for-in_order :
    (is_lower ahead : Bool) (o : Ordering)
    → ((ahead && holds_by (op_for is_lower true) o) || false)
      ≡ (ahead && in_order is_lower (first_of o Ordering.eq))
op_for-in_order is_lower false o = refl
op_for-in_order true true Ordering.lt = refl
op_for-in_order true true Ordering.eq = refl
op_for-in_order true true Ordering.gt = refl
op_for-in_order false true Ordering.lt = refl
op_for-in_order false true Ordering.eq = refl
op_for-in_order false true Ordering.gt = refl

pub and_true : (b : Bool) → (b && true) ≡ b
and_true true = refl
and_true false = refl

and_assoc : (a b c : Bool) → (a && (b && c)) ≡ ((a && b) && c)
and_assoc true b c = refl
and_assoc false b c = refl

module _ {A : Type 0} (cmp : A → A → Ordering) where
  -- The lexicographic order on keys
  unfoldable pub lex : List A → List A → Ordering
  lex [] ys = Ordering.eq
  lex (x ∷ xs) [] = Ordering.eq
  lex (x ∷ xs) (y ∷ ys) = first_of (cmp x y) (lex xs ys)

  module _ (row : String → A) where
    all-snoc :
        (prefix : List (Test A)) (t : Test A)
        → all (holds cmp row) (prefix ++ t ∷ []) ≡ (all (holds cmp row) prefix && holds cmp row t)
    all-snoc [] t = and_true (holds cmp row t)
    all-snoc (p ∷ ps) t =
        ap (λ b. holds cmp row p && b) (all-snoc ps t) ∙ and_assoc (holds cmp row p) _ _

    holds_any-group_of :
        (prefix : List (Test A)) (t : Test A) (rest : Condition A)
        → holds_any cmp row (group_of (prefix ++ t ∷ []) rest)
          ≡ ((all (holds cmp row) prefix && holds cmp row t) || holds_any cmp row rest)
    holds_any-group_of [] t rest =
        ap (λ b. b || holds_any cmp row rest) (and_true (holds cmp row t))
    holds_any-group_of (p ∷ ps) t rest = ap (λ b. b || holds_any cmp row rest) (all-snoc (p ∷ ps) t)

    bound_groups-lex :
        (is_lower : Bool) (prefix : List (Test A)) (c : String) (cs : List String) (v : A)
        (vs : List A)
        → length cs ≡ length vs
        → holds_any cmp row (bound_groups is_lower prefix (c ∷ cs) (v ∷ vs))
          ≡ (all (holds cmp row) prefix && in_order is_lower (lex (map row (c ∷ cs)) (v ∷ vs)))
    unfolding bound_groups lex
    bound_groups-lex is_lower prefix c [] v [] n =
        holds_any-group_of prefix _ []
        ∙ op_for-in_order is_lower (all (holds cmp row) prefix) (cmp (row c) v)
    bound_groups-lex is_lower prefix c [] v (w ∷ vs) n = absurd (omega arith)
    bound_groups-lex is_lower prefix c (d ∷ cs) v [] n = absurd (omega arith)
    bound_groups-lex is_lower prefix c (d ∷ cs) v (w ∷ vs) n =
        holds_any-group_of prefix _ _
        ∙ ap
            (λ b.
              (all (holds cmp row) prefix && holds_by (op_for is_lower false) (cmp (row c) v)) || b)
            (bound_groups-lex is_lower
                (prefix ++ record { column = c; op = equals; literal = v } ∷ []) d cs w vs
                (omega arith)
              ∙ ap (λ b. b && in_order is_lower (lex (map row (d ∷ cs)) (w ∷ vs)))
                  (all-snoc prefix _))
        ∙ first_of-in_order is_lower (all (holds cmp row) prefix) (cmp (row c) v)
            (lex (map row (d ∷ cs)) (w ∷ vs))

    pub build_bound-lex :
        (columns : List String) (values : List A) (is_lower : Bool)
        → is_nil columns ≡ false
        → length values ≡ length columns
        → holds_any cmp row (build_bound columns values is_lower)
          ≡ in_order is_lower (lex (map row columns) values)
    unfolding build_bound
    build_bound-lex [] values is_lower h n = absurd (false≢true (sym h))
    build_bound-lex (c ∷ cs) [] is_lower h n = absurd (omega arith)
    build_bound-lex (c ∷ cs) (v ∷ vs) is_lower h n =
        bound_groups-lex is_lower [] c cs v vs (omega arith)

  -- The law of an order that the database's comparison of values obeys
  unfoldable pub IsOrder : Type 0
  IsOrder =
      (x y z : A)
      → is_gt (cmp x y) ≡ false
      → is_gt (cmp y z) ≡ false
      → cmp x z ≡ first_of (cmp x y) (cmp y z)

  is_gt-first_of : (o r : Ordering) → is_gt (first_of o r) ≡ false → is_gt o ≡ false
  is_gt-first_of Ordering.lt r h = refl
  is_gt-first_of Ordering.eq r h = refl
  is_gt-first_of Ordering.gt r h = h

  first_of_trans :
      (o p q r s t : Ordering)
      → q ≡ first_of o p
      → is_gt (first_of o r) ≡ false
      → is_gt (first_of p s) ≡ false
      → (is_gt r ≡ false → is_gt s ≡ false → t ≡ first_of r s)
      → first_of q t ≡ first_of (first_of o r) (first_of p s)
  first_of_trans Ordering.lt p q r s t e h k next = ap (λ x. first_of x t) e
  first_of_trans Ordering.eq Ordering.lt q Ordering.lt s t e h k next = ap (λ x. first_of x t) e
  first_of_trans Ordering.eq Ordering.lt q Ordering.eq s t e h k next = ap (λ x. first_of x t) e
  first_of_trans Ordering.eq Ordering.lt q Ordering.gt s t e h k next = absurd (false≢true (sym h))
  first_of_trans Ordering.eq Ordering.eq q r s t e h k next = ap (λ x. first_of x t) e ∙ next h k
  first_of_trans Ordering.eq Ordering.gt q r s t e h k next = absurd (false≢true (sym k))
  first_of_trans Ordering.gt p q r s t e h k next = absurd (false≢true (sym h))

  lex_trans :
      IsOrder
      → (xs ys zs : List A) → length xs ≡ length ys
      → length ys ≡ length zs
      → is_gt (lex xs ys) ≡ false
      → is_gt (lex ys zs) ≡ false
      → lex xs zs ≡ first_of (lex xs ys) (lex ys zs)
  unfolding lex IsOrder
  lex_trans o [] [] zs m n h k = refl
  lex_trans o [] (y ∷ ys) zs m n h k = absurd (omega arith)
  lex_trans o (x ∷ xs) [] zs m n h k = absurd (omega arith)
  lex_trans o (x ∷ xs) (y ∷ ys) [] m n h k = absurd (omega arith)
  lex_trans o (x ∷ xs) (y ∷ ys) (z ∷ zs) m n h k =
      first_of_trans (cmp x y) (cmp y z) (cmp x z) (lex xs ys) (lex ys zs) (lex xs zs)
        (o x y z (is_gt-first_of (cmp x y) _ h) (is_gt-first_of (cmp y z) _ k)) h k
        (lex_trans o xs ys zs (omega arith) (omega arith))

  pub lex_below :
      IsOrder
      → (xs ys zs : List A) → length xs ≡ length ys
      → length ys ≡ length zs
      → is_lt (lex xs ys) ≡ true
      → is_gt (lex ys zs) ≡ false
      → is_lt (lex xs zs) ≡ true
  lex_below o xs ys zs m n h k =
      ap is_lt (lex_trans o xs ys zs m n (not_gt (lex xs ys) h) k) ∙ lt_ahead (lex xs ys) _ h
    where
      not_gt : (o : Ordering) → is_lt o ≡ true → is_gt o ≡ false
      not_gt Ordering.lt h = refl
      not_gt Ordering.eq h = refl
      not_gt Ordering.gt h = absurd (false≢true h)

      lt_ahead : (o r : Ordering) → is_lt o ≡ true → is_lt (first_of o r) ≡ true
      lt_ahead Ordering.lt r h = refl
      lt_ahead Ordering.eq r h = absurd (false≢true h)
      lt_ahead Ordering.gt r h = absurd (false≢true h)
