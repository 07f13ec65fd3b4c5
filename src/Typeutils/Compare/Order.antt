-- ===== src/Typeutils/Compare/Order.antt =====
-- utils/typeutils/compare.go: Compare on values of one kind.
use olake.Base.{ℕ, String, ◌≡◌, refl, sym, ap, ◌∙◌, Bool, true, false, false≢true, arith}
use olake.Typeutils.Compare.{ℤ, pos, negsuc, compare_int, compare_bool}
use Prim.Native.Nat.{Ordering, compare as compare_nat}
use Prim.Native.String.compare as compare_text
use Prim.Native.String.{[], ◌∷◌, then as first, compare as compare_text}
use Prim.Native.Char.{code}
use text.Mathlib.TextPositions.{compare_refl}

unfoldable pub is_at_most : Ordering → Bool
is_at_most Ordering.gt = false
is_at_most _ = true

-- What a maximum needs of a comparison
pub record IsOrder {A : Type 0} (cmp : A → A → Ordering) : Type 0 where
  pub itself : (a : A) → is_at_most (cmp a a) ≡ true
  pub total : (a b : A) → is_at_most (cmp a b) ≡ false → is_at_most (cmp b a) ≡ true
  pub trans :
      (a b c : A)
      → is_at_most (cmp a b) ≡ true
      → is_at_most (cmp b c) ≡ true
      → is_at_most (cmp a c) ≡ true

pub nat-IsOrder : IsOrder compare_nat
unfolding is_at_most
nat-IsOrder = record {
  itself = λ a. ground arith;
  total = λ a b h. ground arith;
  trans = λ a b c h k. ground arith;
}

pub bool-IsOrder : IsOrder compare_bool
unfolding compare_bool is_at_most
bool-IsOrder = record { itself = itself; total = total; trans = trans }
  where
    itself : (a : Bool) → is_at_most (compare_bool a a) ≡ true
    itself true = refl
    itself false = refl

    total :
        (a b : Bool) → is_at_most (compare_bool a b) ≡ false → is_at_most (compare_bool b a) ≡ true
    total true true h = refl
    total true false h = refl
    total false b h = ground arith

    trans :
        (a b c : Bool)
        → is_at_most (compare_bool a b) ≡ true
        → is_at_most (compare_bool b c) ≡ true
        → is_at_most (compare_bool a c) ≡ true
    trans a b c h k = ground arith

pub int-IsOrder : IsOrder compare_int
unfolding compare_int is_at_most
int-IsOrder = record { itself = itself; total = total; trans = trans }
  where
    itself : (a : ℤ) → is_at_most (compare_int a a) ≡ true
    itself (pos n) = ground arith
    itself (negsuc n) = ground arith

    total : (a b : ℤ) → is_at_most (compare_int a b) ≡ false → is_at_most (compare_int b a) ≡ true
    total (pos m) (pos n) h = ground arith
    total (pos m) (negsuc n) h = ground arith
    total (negsuc m) (pos n) h = ground arith
    total (negsuc m) (negsuc n) h = ground arith

    trans :
        (a b c : ℤ)
        → is_at_most (compare_int a b) ≡ true
        → is_at_most (compare_int b c) ≡ true
        → is_at_most (compare_int a c) ≡ true
    trans (pos m) (pos n) (pos o) h k = ground arith
    trans (pos m) (pos n) (negsuc o) h k = ground arith
    trans (pos m) (negsuc n) c h k = ground arith
    trans (negsuc m) b (pos o) h k = ground arith
    trans (negsuc m) (pos n) (negsuc o) h k = ground arith
    trans (negsuc m) (negsuc n) (negsuc o) h k = ground arith

lex_total :
    (m n : ℕ) (x y : Ordering)
    → (is_at_most x ≡ false → is_at_most y ≡ true)
    → is_at_most (first (compare_nat m n) x) ≡ false
    → is_at_most (first (compare_nat n m) y) ≡ true
unfolding is_at_most
lex_total m n x y f h = ground arith

lex_trans :
    (m n o : ℕ) (x y z : Ordering)
    → (is_at_most x ≡ true → is_at_most y ≡ true → is_at_most z ≡ true)
    → is_at_most (first (compare_nat m n) x) ≡ true
    → is_at_most (first (compare_nat n o) y) ≡ true
    → is_at_most (first (compare_nat m o) z) ≡ true
unfolding is_at_most
lex_trans m n o x y z f h k = ground arith

text_total :
    (a b : String) → is_at_most (compare_text a b) ≡ false → is_at_most (compare_text b a) ≡ true
unfolding is_at_most
text_total [] [] h = ap is_at_most compare_text.nil-nil
text_total [] (d ∷ t) h = absurd (false≢true (sym h ∙ ap is_at_most (compare_text.nil-cons d t)))
text_total (c ∷ s) [] h = ap is_at_most (compare_text.nil-cons c s)
text_total (c ∷ s) (d ∷ t) h =
    ap is_at_most (compare_text.cons-cons d c t s)
    ∙ lex_total (code c) (code d) (compare_text s t) (compare_text t s) (text_total s t)
        (sym (ap is_at_most (compare_text.cons-cons c d s t)) ∙ h)

text_trans :
    (a b c : String)
    → is_at_most (compare_text a b) ≡ true
    → is_at_most (compare_text b c) ≡ true
    → is_at_most (compare_text a c) ≡ true
unfolding is_at_most
text_trans [] b [] h k = ap is_at_most compare_text.nil-nil
text_trans [] b (d ∷ t) h k = ap is_at_most (compare_text.nil-cons d t)
text_trans (c ∷ s) [] u h k =
    absurd (false≢true (sym (ap is_at_most (compare_text.cons-nil c s)) ∙ h))
text_trans (c ∷ s) (d ∷ t) [] h k =
    absurd (false≢true (sym (ap is_at_most (compare_text.cons-nil d t)) ∙ k))
text_trans (c ∷ s) (d ∷ t) (e ∷ u) h k =
    ap is_at_most (compare_text.cons-cons c e s u)
    ∙ lex_trans (code c) (code d) (code e) (compare_text s t) (compare_text t u) (compare_text s u)
        (text_trans s t u) (sym (ap is_at_most (compare_text.cons-cons c d s t)) ∙ h)
        (sym (ap is_at_most (compare_text.cons-cons d e t u)) ∙ k)

pub text-IsOrder : IsOrder compare_text
unfolding is_at_most
text-IsOrder = record {
  itself = λ a. ap is_at_most (compare_refl a);
  total = text_total;
  trans = text_trans;
}
