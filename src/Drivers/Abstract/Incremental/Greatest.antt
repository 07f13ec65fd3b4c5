-- ===== src/Drivers/Abstract/Incremental/Greatest.antt =====
-- drivers/abstract/incremental.go: the cursors after the last record.
use olake.Base.{
  String, ◌≡◌, refl, sym, ap, subst, ◌∙◌, true, false, Option, none, some, List, [], ◌∷◌, All, ◌⊎◌,
  inl, inr, arith, ◌>>=◌, ◌==◌, string_eq, Bool-cases, Option-cases, false≢true,
}
use olake.Utils.Text.{empty_text}
use olake.Typeutils.Compare.{Value, Platform, compare}
use olake.Typeutils.Compare.Order.{IsOrder, is_at_most}
use olake.Typeutils.Compare.Kinds.{Kind, Typed, value_of, compare_ordered, IsLawful}
use olake.Typeutils.Filter.{is_gt}
use olake.Drivers.Abstract.Incremental.{greater, column, max_increment_cursor, read_changes}
use mathlib.Core.Option.{some-injective}
use Prim.Native.Nat.{Ordering}

module _ {F : Type 0} (P : Platform F) where
  unfoldable pub OfKind : Kind → Value F → Type 0
  OfKind k u = (v : Option (Typed F k)) × (u ≡ value_of k v)

  -- Compare has an answer, which is not 1.
  pub AtMost : Value F → Value F → Type 0
  AtMost u v = (o : Ordering) × (compare P u v ≡ some o) × (is_at_most o ≡ true)

  pub Reached : String → List (List (String × Value F)) → Value F → Value F → Type 0
  Reached key [] first m = m ≡ first
  Reached key (r ∷ rs) first m = (column key r ≡ m) ⊎ Reached key rs first m

  -- The value is the first or that of a record, and neither the first nor that of a record is more.
  pub record IsGreatest (key : String) (rs : List (List (String × Value F))) (first m : Value F)
      : Type 0 where
    pub above_first : AtMost first m
    pub above : All (λ r. AtMost (column key r) m) rs
    pub reached : Reached key rs first m

  -- One column over the records
  read_column : String → Value F → List (List (String × Value F)) → Option (Value F)
  unfolding greater
  read_column key first [] = some first
  read_column key first (r ∷ rs) =
      greater P (column key r) first >>= λ first'. read_column key first' rs

  module _ (laws : IsLawful P) (k : Kind) where
    comparison_of :
        (cmp : Option (Typed F k) → Option (Typed F k) → Ordering) × ((a b : Option (Typed F k))
          → compare P (value_of k a) (value_of k b) ≡ some (cmp a b))
        × IsOrder cmp
    comparison_of =
        let (cmp, answers, _, _, _, order) = compare_ordered P laws k in (cmp, answers, order)

    greater-value_of :
        (v w : Option (Typed F k))
        → (m : Option (Typed F k)) × (greater P (value_of k v) (value_of k w) ≡ some (value_of k m))
          × AtMost (value_of k v) (value_of k m)
          × AtMost (value_of k w) (value_of k m)
          × ((m ≡ w) ⊎ (m ≡ v))
    unfolding greater AtMost is_at_most
    greater-value_of v w =
        let (cmp, answers, order) = comparison_of in
        elim (Bool-cases (is_gt (cmp v w))) [
          | inl more ↦ (
            v,
            rw (answers v w, more, greater) refl,
            (cmp v v, answers v v, order.itself v),
            (cmp w v, answers w v, order.total v w (ground arith)),
            inr refl,
          )
          | inr less ↦ (
            w,
            rw (answers v w, less, greater) refl,
            (cmp v w, answers v w, ground arith),
            (cmp w w, answers w w, order.itself w),
            inl refl,
          )
        ]

    at_most_trans :
        (x y z : Option (Typed F k))
        → AtMost (value_of k x) (value_of k y)
        → AtMost (value_of k y) (value_of k z)
        → AtMost (value_of k x) (value_of k z)
    unfolding AtMost
    at_most_trans x y z (o, e, h) (o', e', h') =
        let (cmp, answers, order) = comparison_of in
        (
          cmp x z,
          answers x z,
          order.trans x y z (ap is_at_most (some-injective _ _ (sym (answers x y) ∙ e)) ∙ h)
              (ap is_at_most (some-injective _ _ (sym (answers y z) ∙ e')) ∙ h'),
        )

    passes_on :
        (key : String) (r : List (String × Value F)) (rs : List (List (String × Value F)))
        (first next m : Value F)
        → (next ≡ first) ⊎ (next ≡ column key r)
        → Reached key rs next m
        → Reached key (r ∷ rs) first m
    unfolding Reached
    passes_on key r [] first next m (inl e) h = inr (h ∙ e)
    passes_on key r [] first next m (inr e) h = inl (sym (h ∙ e))
    passes_on key r (q ∷ qs) first next m e (inl h) = inr (inl h)
    passes_on key r (q ∷ qs) first next m e (inr h) = elim (passes_on key r qs first next m e h) [
      | inl p ↦ inl p
      | inr p ↦ inr (inr p)
    ]

    read_column-IsGreatest :
        (key : String) (rs : List (List (String × Value F))) (first : Option (Typed F k))
        → All (λ r. OfKind k (column key r)) rs
        → (m : Option (Typed F k)) × (read_column key (value_of k first) rs ≡ some (value_of k m))
          × IsGreatest key rs (value_of k first) (value_of k m)
    unfolding read_column OfKind AtMost Reached
    read_column-IsGreatest key [] first typed =
        let (cmp, answers, order) = comparison_of in
        (
          first,
          refl,
          record {
            above_first = (cmp first first, answers first first, order.itself first);
            above = tt;
            reached = refl;
          },
        )
    read_column-IsGreatest key (r ∷ rs) first ((v, e), typed) =
        let (next, g, above_r, above_first, one) = greater-value_of v first in
        let (m, reads, rest) = read_column-IsGreatest key rs next typed in
        (
          m,
          rw (e, g) reads,
          record {
            above_first = at_most_trans first next m above_first rest.above_first;
            above = (
              subst (λ u. AtMost u (value_of k m)) (sym e)
                  (at_most_trans v next m above_r rest.above_first),
              rest.above,
            );
            reached =
                passes_on key r rs (value_of k first) (value_of k next) (value_of k m)
                  (elim one [
                    | inl p ↦ inl (ap (value_of k) p)
                    | inr p ↦ inr (ap (value_of k) p ∙ sym e)
                  ])
                  rest.reached;
          },
        )

  no_some : {A : Type 0} {a : A} → none ≡ some a → false ≡ true
  no_some h = ground arith

  both_columns :
      (primary secondary : String) (rs : List (List (String × Value F))) (a b p s : Value F)
      → (secondary == empty_text) ≡ false
      → read_column primary a rs ≡ some p
      → read_column secondary b rs ≡ some s
      → read_changes P primary secondary (a, b) rs ≡ some (p, s)
  unfolding read_changes max_increment_cursor read_column
  both_columns primary secondary [] a b p s h e f = ground arith
  both_columns primary secondary (r ∷ rs) a b p s h e f =
      elim (Option-cases (greater P (column primary r) a)) [
        | inl miss ↦ absurd (false≢true (no_some (rw miss at e)))
        | inr (a', ga) ↦ elim (Option-cases (greater P (column secondary r) b)) [
          | inl miss ↦ absurd (false≢true (no_some (rw miss at f)))
          | inr (b', gb) ↦
              rw (ga, h, gb)
                (both_columns primary secondary rs a' b' p s h (rw ga at e) (rw gb at f))
        ]
      ]

  -- Where no float is NaN, both cursors have names, and the first values and those of the records are nil or of one kind in
  -- either of the two columns: no comparison panics, and each cursor after the last record is the first one or that
  -- of a record, with none of these more than it.
  pub read_changes_lem :
      IsLawful P
      → (k l : Kind) (primary secondary : String) (rs : List (List (String × Value F)))
        (a : Option (Typed F k)) (b : Option (Typed F l))
      → (secondary == empty_text) ≡ false
      → All (λ r. OfKind k (column primary r)) rs
      → All (λ r. OfKind l (column secondary r)) rs
      → (p s : Value F) × (read_changes P primary secondary (value_of k a, value_of l b) rs
          ≡ some (p, s))
        × IsGreatest primary rs (value_of k a) p
        × IsGreatest secondary rs (value_of l b) s
  read_changes_lem laws k l primary secondary rs a b named firsts seconds =
      let (m, reads, great) = read_column-IsGreatest laws k primary rs a firsts in
      let (n, reads', great') = read_column-IsGreatest laws l secondary rs b seconds in
      (
        value_of k m,
        value_of l n,
        both_columns primary secondary rs (value_of k a) (value_of l b) (value_of k m)
            (value_of l n) named reads reads',
        great,
        great',
      )
