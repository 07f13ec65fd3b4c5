-- ===== src/Drivers/Abstract/Prerequisites.antt =====
-- drivers/abstract/prerequisites.go: the checks before change data capture. What a Check finds in its time is a field of it, with
-- `none` for no error. The sort of slices, which is stable, is an insertion sort. Of an error, its kind is modelled.
use olake.Base.{
  ℕ, String, ◌≡◌, refl, ap, ap₂, append_nil, ◌∙◌, Bool, true, false, not, ◌&&◌, Option, none, some,
  List, [], ◌∷◌, ◌++◌, map, any, filterb, if◌then◌else◌, ◌==◌, nat_eq, leb, is_nil, arith,
  Bool-cases, inl, inr, ◌⊎◌,
}

pub record Finding : Type 0 where
  pub current : String
  pub ok : Bool
  pub err : Option String

pub record Prerequisite : Type 0 where
  pub name : String
  pub required : Bool
  pub recommended : String
  pub check : Finding

-- types.PrerequisiteResult
pub record PrerequisiteResult : Type 0 where
  pub name : String
  pub required : Bool
  pub passed : Bool
  pub current_value : String
  pub recommended_value : String
  pub err : Option String

abbrev has_error : Option String → Bool
has_error none = false
has_error (some e) = true

-- The body of the loop of RunPrerequisites
unfoldable pub evaluate_check : Prerequisite → PrerequisiteResult
evaluate_check c = record {
  name = c.name;
  required = c.required;
  passed = not (has_error c.check.err) && c.check.ok;
  current_value = if has_error c.check.err then "unavailable" else c.check.current;
  recommended_value = c.recommended;
  err = c.check.err;
}

unfoldable pub rank : PrerequisiteResult → ℕ
rank c = if c.passed then 2 else if c.required then 0 else 1

insert_result : PrerequisiteResult → List PrerequisiteResult → List PrerequisiteResult
unfolding rank
insert_result r [] = r ∷ []
insert_result r (x ∷ xs) =
    let later = insert_result r xs in if leb (rank r) (rank x) then r ∷ x ∷ xs else x ∷ later

sort_results : List PrerequisiteResult → List PrerequisiteResult
unfolding insert_result
sort_results [] = []
sort_results (r ∷ rs) = insert_result r (sort_results rs)

-- RunPrerequisites
unfoldable pub run_prerequisites : List Prerequisite → List PrerequisiteResult
unfolding sort_results evaluate_check
run_prerequisites checks = sort_results (map evaluate_check checks)

pub data CdcError : Type 0 where
  no_error cdc_precondition_failed causes_kept : CdcError

abbrev is_unmet : PrerequisiteResult → Bool
is_unmet c = c.required && not c.passed

abbrev is_misconfigured : PrerequisiteResult → Bool
is_misconfigured c = is_unmet c && not (has_error c.err)

-- RequireCDCPrerequisites
unfoldable pub require_cdc_prerequisites : List PrerequisiteResult → CdcError
require_cdc_prerequisites rs =
    if is_nil (filterb is_unmet rs)
    then no_error
    else if any is_misconfigured rs
    then cdc_precondition_failed
    else causes_kept

of_rank : ℕ → List PrerequisiteResult → List PrerequisiteResult
of_rank n rs = filterb (λ r. rank r == n) rs

-- The results of a rank, and one of another rank in front of them
insert_past :
    (n : ℕ) (r : PrerequisiteResult) (rs ys : List PrerequisiteResult)
    → leb (rank r) n ≡ false
    → insert_result r (of_rank n rs ++ ys) ≡ of_rank n rs ++ insert_result r ys
unfolding of_rank insert_result
insert_past n r [] ys h = refl
insert_past n r (x ∷ xs) ys h = elim (Bool-cases (rank x == n)) [
  | inl hit ↦
      let less : leb (rank r) (rank x) ≡ false = ground arith in
      rw (hit, less) (ap (◌∷◌ x) (insert_past n r xs ys h))
  | inr miss ↦ rw miss (insert_past n r xs ys h)
]

insert_before :
    (n : ℕ) (r : PrerequisiteResult) (rs ys : List PrerequisiteResult)
    → leb (rank r) n ≡ true
    → insert_result r ys ≡ r ∷ ys
    → insert_result r (of_rank n rs ++ ys) ≡ r ∷ (of_rank n rs ++ ys)
unfolding of_rank insert_result
insert_before n r [] ys h e = e
insert_before n r (x ∷ xs) ys h e = elim (Bool-cases (rank x == n)) [
  | inl hit ↦ let less : leb (rank r) (rank x) ≡ true = ground arith in rw (hit, less) refl
  | inr miss ↦ rw miss (insert_before n r xs ys h e)
]

sorted : List PrerequisiteResult → List PrerequisiteResult
sorted rs = of_rank 0 rs ++ (of_rank 1 rs ++ (of_rank 2 rs ++ []))

rank-cases : (r : PrerequisiteResult) → (rank r ≡ 0) ⊎ ((rank r ≡ 1) ⊎ (rank r ≡ 2))
unfolding rank
rank-cases r = ground arith

insert_alone : (r : PrerequisiteResult) → insert_result r [] ≡ r ∷ []
unfolding insert_result
insert_alone r = refl

insert_sorted :
    (r : PrerequisiteResult) (rs : List PrerequisiteResult)
    → insert_result r (sorted rs) ≡ sorted (r ∷ rs)
unfolding sorted of_rank
insert_sorted r rs = elim (rank-cases r) [
  | inl zero ↦ rw zero (
      insert_before 0 r rs _ (ground arith) (
        insert_before 1 r rs _ (ground arith)
          (insert_before 2 r rs [] (ground arith) (insert_alone r))))
  | inr (inl one) ↦ rw one (
      insert_past 0 r rs _ (ground arith)
      ∙ ap (λ l. of_rank 0 rs ++ l)
          (insert_before 1 r rs _ (ground arith)
            (insert_before 2 r rs [] (ground arith) (insert_alone r))))
  | inr (inr two) ↦ rw two (
      insert_past 0 r rs _ (ground arith)
      ∙ ap (λ l. of_rank 0 rs ++ l)
          (insert_past 1 r rs _ (ground arith)
            ∙ ap (λ l. of_rank 1 rs ++ l)
                (insert_before 2 r rs [] (ground arith) (insert_alone r))))
]

sort_results-sorted : (rs : List PrerequisiteResult) → sort_results rs ≡ sorted rs
unfolding sort_results sorted of_rank
sort_results-sorted [] = refl
sort_results-sorted (r ∷ rs) = ap (insert_result r) (sort_results-sorted rs) ∙ insert_sorted r rs

filterb_same :
    (p q : PrerequisiteResult → Bool)
    → ((r : PrerequisiteResult) → p r ≡ q r)
    → (rs : List PrerequisiteResult) → filterb p rs ≡ filterb q rs
filterb_same p q h rs = λ i. filterb (λ r. h r i) rs

rank_zero : (r : PrerequisiteResult) → (rank r == 0) ≡ (r.required && not r.passed)
unfolding rank
rank_zero r = ground arith

rank_one : (r : PrerequisiteResult) → (rank r == 1) ≡ (not r.required && not r.passed)
unfolding rank
rank_one r = ground arith

rank_two : (r : PrerequisiteResult) → (rank r == 2) ≡ r.passed
unfolding rank
rank_two r = ground arith

-- Every check is evaluated. The results are those of required checks that did not pass, then those of others that did not, then
-- those that passed, each in the order of the checks.
pub run_prerequisites_lem :
    (checks : List Prerequisite)
    → run_prerequisites checks
      ≡ filterb (λ r. r.required && not r.passed) (map evaluate_check checks)
        ++ (filterb (λ r. not r.required && not r.passed) (map evaluate_check checks)
            ++ (filterb (λ r. r.passed) (map evaluate_check checks)))
unfolding run_prerequisites sorted of_rank
run_prerequisites_lem checks =
    let rs = map evaluate_check checks in
    sort_results-sorted rs
    ∙ ap₂ ◌++◌ (filterb_same _ _ rank_zero rs) (
        ap₂ ◌++◌ (filterb_same _ _ rank_one rs)
          (append_nil (of_rank 2 rs) ∙ filterb_same _ _ rank_two rs))
