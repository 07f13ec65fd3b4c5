-- ===== src/Drivers/Abstract/Discovery.antt =====
-- drivers/abstract/abstract.go: produceSampledSchemas, stopAfterFirstBucket and unsampledStreams, and the sync mode that Discover
-- chooses. What the samples of a bucket store and how its group and the context end is up to the environment.
use olake.Base.{
  String, ◌≡◌, refl, sym, ap, ◌∙◌, Bool, true, false, not, ◌&&◌, ◌||◌, Option, none, some, List, [],
  ◌∷◌, filterb, is_nil, arith, if◌then◌else◌, string_eq, Bool-cases, false≢true, elem, subst, inl,
  inr,
}
use olake.Base.Assoc.{lookup, insert, lookup-insert}
use olake.Base.Search.{elem-filterb}
use mathlib.Core.Option.{some-injective, none-ne-some}

-- The Err of a context
pub data Context : Type 0 where
  alive deadline_exceeded canceled : Context

abbrev pub is_over : Context → Bool
is_over alive = false
is_over _ = true

-- One bucket: the context before it, the schemas stored in it, whether Block returns an error, and the context after that
pub record Bucket (Schema : Type 0) : Type 0 where
  pub before : Context
  pub stored : List (String × Schema)
  pub fails : Bool
  pub after : Context

module _ {Schema : Type 0} where
  unfoldable pub store_all :
      List (String × Schema) → List (String × Schema) → List (String × Schema)
  store_all [] m = m
  store_all ((id, schema) ∷ rest) m = store_all rest (insert id schema m)

  unfoldable pub is_found : List (String × Schema) → String → Bool
  is_found m id = elim (lookup id m) [ none ↦ false | some s ↦ true ]

  -- unsampledStreams
  pub unsampled_streams : List String → List (String × Schema) → List String
  unfolding is_found
  unsampled_streams streams m = filterb (λ id. not (is_found m id)) streams

  -- stopAfterFirstBucket, with `none` for its error
  unfoldable pub stop_after_first_bucket :
      Context → List (String × Schema) → Option (List (String × Schema))
  stop_after_first_bucket deadline_exceeded m = some m
  stop_after_first_bucket _ m = none

  -- The buckets after the first
  unfoldable pub later_buckets :
      List (Bucket Schema) → List (String × Schema) → Option (List (String × Schema))
  unfolding store_all stop_after_first_bucket
  later_buckets [] m = some m
  later_buckets (b ∷ bs) m =
      let m' = store_all b.stored m in
      let rest = later_buckets bs m' in
      if is_over b.before
      then stop_after_first_bucket b.before m
      else if b.fails || is_over b.after
      then stop_after_first_bucket b.after m'
      else rest

  -- produceSampledSchemas, with `none` for its error
  unfoldable pub produce_sampled_schemas :
      List String → List (Bucket Schema) → Option (List (String × Schema))
  unfolding later_buckets unsampled_streams
  produce_sampled_schemas streams [] = some []
  produce_sampled_schemas streams (b ∷ bs) =
      let m = store_all b.stored [] in
      if b.fails || (is_over b.after && not (is_nil (unsampled_streams streams m)))
      then none
      else later_buckets bs m

module _ {Schema : Type 0} where
  -- What a group promises: where Block returns nil and the context is not over, each stream has been sampled.
  abbrev pub IsSound : List String → Bucket Schema → Type 0
  IsSound streams b =
      (b.fails || is_over b.after) ≡ false
      → (id : String) → elem id streams ≡ true
      → is_found (store_all b.stored []) id ≡ true

  is_found-store_all :
      (id : String) (new m : List (String × Schema))
      → is_found m id ≡ true
      → is_found (store_all new m) id ≡ true
  unfolding store_all is_found
  is_found-store_all id [] m h = h
  is_found-store_all id ((i, s) ∷ new) m h =
      is_found-store_all id new (insert i s m) (ground (arith, lookup-insert i id s m))

  stop-keeps :
      (c : Context) (m m' : List (String × Schema)) → stop_after_first_bucket c m ≡ some m' → m ≡ m'
  unfolding stop_after_first_bucket
  stop-keeps alive m m' h = absurd (none-ne-some _ h)
  stop-keeps deadline_exceeded m m' h = some-injective _ _ h
  stop-keeps canceled m m' h = absurd (none-ne-some _ h)

  later-keeps :
      (id : String) (bs : List (Bucket Schema)) (m m' : List (String × Schema))
      → later_buckets bs m ≡ some m'
      → is_found m id ≡ true
      → is_found m' id ≡ true
  unfolding later_buckets
  later-keeps id [] m m' h f = subst (λ x. is_found x id ≡ true) (some-injective _ _ h) f
  later-keeps id (b ∷ bs) m m' h f =
      let f' = is_found-store_all id b.stored m f in
      elim (Bool-cases (is_over b.before)) [
        | inl over ↦ subst (λ x. is_found x id ≡ true) (stop-keeps b.before m m' (rw over at h)) f
        | inr on ↦ elim (Bool-cases (b.fails || is_over b.after)) [
          | inl ends ↦
              subst (λ x. is_found x id ≡ true)
                (stop-keeps b.after (store_all b.stored m) m' (rw (on, ends) at h)) f'
          | inr goes_on ↦ later-keeps id bs (store_all b.stored m) m' (rw (on, goes_on) at h) f'
        ]
      ]

  none_unsampled :
      (streams : List String) (m : List (String × Schema)) (id : String)
      → is_nil (unsampled_streams streams m) ≡ true
      → elem id streams ≡ true
      → is_found m id ≡ true
  unfolding unsampled_streams
  none_unsampled streams m id h there = elim (Bool-cases (is_found m id)) [
    | inl found ↦ found
    | inr missing ↦ absurd (
        false≢true (
          ap (elem id) (sym (nil_of (filterb (λ i. not (is_found m i)) streams) h))
          ∙ elem-filterb (λ i. not (is_found m i)) id streams
          ∙ ground arith))
  ]
    where
      nil_of : (xs : List String) → is_nil xs ≡ true → xs ≡ []
      nil_of [] e = refl
      nil_of (x ∷ xs) e = absurd (false≢true e)

  -- Where the group of the first bucket samples each stream if it returns nil and its context is not over: if produceSampledSchemas
  -- returns without an error, whatever ends the later buckets, every stream has a schema.
  pub produce_sampled_schemas_lem :
      (streams : List String) (b : Bucket Schema) (bs : List (Bucket Schema))
      (m : List (String × Schema)) (id : String)
      → IsSound streams b
      → produce_sampled_schemas streams (b ∷ bs) ≡ some m
      → elem id streams ≡ true
      → is_found m id ≡ true
  unfolding produce_sampled_schemas unsampled_streams
  produce_sampled_schemas_lem streams b bs m id sound h there =
      let first = store_all b.stored [] in
      elim (Bool-cases
        (b.fails || (is_over b.after && not (is_nil (unsampled_streams streams first))))) [
          | inl stops ↦ absurd (none-ne-some _ (rw stops at h))
          | inr goes_on ↦
              later-keeps id bs first m (rw goes_on at h) (elim (Bool-cases (is_over b.after)) [
                | inl over ↦ none_unsampled streams first id (ground arith) there
                | inr alive_still ↦ sound (ground arith) id there
              ])
        ]
