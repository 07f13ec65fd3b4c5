-- ===== src/Types/Set/Plain.antt =====
-- types/set.go: sets of texts without a hash function of their own, where the hash tells texts apart.
use olake.Base.{
  string_eq, String, ◌≡◌, refl, sym, ap, ◌∙◌, subst, false, ◌||◌, none, List, [], ◌∷◌, map, arith,
  elem, ◌==◌, eq_iff,
}
use olake.Types.Set.{Set, Hashing, empty, new_set, exists, insert_one, hash_of, hash_with, array}
use olake.Types.Set.Invariant.{
  IsWf, empty-IsWf, new_set-IsWf, insert_one-IsWf, hash-insert_one, exists-insert_all,
  func_hash-insert_one, func_hash-insert_all,
}
use olake.Types.Set.Elements.{elem-array}

module _ (HS : Hashing String) where
  -- A set without a hash function of its own
  pub record IsPlain (st : Set String) : Type 0 where
    pub wf : IsWf HS st
    pub own : st.func_hash ≡ none

module _ (HS : Hashing String) where
  pub empty-IsPlain : IsPlain HS empty
  unfolding empty
  empty-IsPlain = record { wf = empty-IsWf HS; own = refl }

  pub insert_one-IsPlain :
      (st : Set String) (a : String) → IsPlain HS st → IsPlain HS (insert_one HS st a)
  insert_one-IsPlain st a p = record {
    wf = insert_one-IsWf HS st a p.wf;
    own = func_hash-insert_one HS st a ∙ p.own;
  }

  pub new_set-IsPlain : (xs : List String) → IsPlain HS (new_set HS xs)
  unfolding new_set
  new_set-IsPlain xs = record {
    wf = new_set-IsWf HS xs;
    own = func_hash-insert_all HS empty xs ∙ empty-IsPlain.own;
  }

module _ (HS : Hashing String)
    (inj : (a b : String) → hash_with HS none a ≡ hash_with HS none b → a ≡ b) where
  same_hash :
      (st : Set String) (a b : String)
      → IsPlain HS st
      → (hash_of HS st a == hash_of HS st b) ≡ (a == b)
  same_hash st a b p =
      subst (λ f. (hash_with HS f a == hash_with HS f b) ≡ (a == b)) (sym p.own)
        (ground (
          arith,
          inj a b,
          ap (hash_with HS none),
          eq_iff a b,
          eq_iff (hash_with HS none a) (hash_with HS none b),
        ))

  pub exists-insert_one :
      (st : Set String) (a b : String)
      → IsPlain HS st
      → exists HS (insert_one HS st a) b ≡ (a == b || exists HS st b)
  unfolding exists
  exists-insert_one st a b p = rw (func_hash-insert_one, hash-insert_one, same_hash st a b p) refl

  same_none : (a b : String) → (hash_with HS none a == hash_with HS none b) ≡ (a == b)
  same_none a b = ground (
    arith,
    inj a b,
    ap (hash_with HS none),
    eq_iff a b,
    eq_iff (hash_with HS none a) (hash_with HS none b),
  )

  pub exists-empty : (c : String) → exists HS empty c ≡ false
  unfolding empty exists
  exists-empty c = refl

  elem-map_hash :
      (b : String) (xs : List String)
      → elem (hash_with HS none b) (map (hash_with HS none) xs) ≡ elem b xs
  elem-map_hash b [] = refl
  elem-map_hash b (x ∷ xs) = ground (arith, same_none x b, elem-map_hash b xs)

  pub exists-new_set : (xs : List String) (b : String) → exists HS (new_set HS xs) b ≡ elem b xs
  unfolding new_set empty exists
  exists-new_set xs b = exists-insert_all HS empty xs b ∙ rw (elem-map_hash b xs) refl

  pub elem-array_plain :
      (st : Set String) (a : String) → IsPlain HS st → elem a (array st) ≡ exists HS st a
  elem-array_plain st a p = elem-array HS st a p.wf (
      subst (λ f. (b : String) → hash_with HS f b ≡ hash_with HS f a → b ≡ a) (sym p.own)
        (λ b. inj b a))
