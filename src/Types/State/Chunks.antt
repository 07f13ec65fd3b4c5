-- ===== src/Types/State/Chunks.antt =====
-- types/state.go: the chunks of a backfill, removed one by one as they are done, and the end of it.
use olake.Base.{
  ℕ, zero, suc, ◌+◌, ◌-◌, String, ◌≡◌, refl, sym, ap, ◌∙◌, subst, Bool, true, false, not, ◌&&◌,
  Option, none, some, List, [], ◌∷◌, map, arith, if◌then◌else◌, length, elem, all, Distinct, ◌==◌,
  string_eq, nat_eq, eq_iff, Option-cases, inl, inr, ==-refl, ◌⊎◌, false≢true, Bool-cases,
  Comparable,
}
use olake.Base.Assoc.{delete, lookup-insert, lookup-delete}
use olake.Utils.Arrays.{array_contains, modify}
use olake.Types.Set.{Set, Hashing, hash_of, hash_with, exists, remove, len, new_set, empty}
use olake.Types.Set.Invariant.{IsWf, remove-IsWf, len-remove, exists-remove, exists-insert_all}
use olake.Types.Configured.{ConfiguredStream, stream_id}
use olake.Types.State.{
  State, chunks, removed, panics, chunks_key, remove_chunk, replace_chunks, load, is_for,
  get_chunks, has_completed_backfill, set_global, global_type, as_set, in_global, in_streams,
  merged_global, merged_streams, GlobalState,
}
use olake.Types.State.Reads.{is_same, load-modify, load_missing}

abbrev is_some : {A : Type 0} → Option A → Bool
is_some none = false
is_some (some a) = true

module _ {C V F : Type 0} (HC : Hashing C) where
  -- What one RemoveChunk does where a set of chunks is stored.
  pub record Removes (s : State C V) (a : ConfiguredStream F) (c : Set C) (s' : State C V)
      : Type 0 where
    pub type_same : s'.type ≡ s.type
    pub global_same : s'.global ≡ s.global
    pub reads :
        (b : ConfiguredStream F) (j : String)
        → load s' b j ≡ (if is_same a b && chunks_key == j then some (chunks c) else load s b j)

  pub remove_chunk-Removes :
      (s : State C V) (a : ConfiguredStream F) (c : Set C) (x : C)
      → load s a chunks_key ≡ some (chunks c)
      → (s' : State C V) × (remove_chunk HC s a x ≡ removed s' (some (len (remove HC c x))))
        × Removes s a (remove HC c x) s'
  unfolding remove_chunk replace_chunks
  remove_chunk-Removes s a c x h = elim (Option-cases (array_contains s.streams (is_for a))) [
    | inl miss ↦
        let e : load s a chunks_key ≡ none =
          load_missing s a a chunks_key miss
            (ground (arith, ==-refl a.stream.namespace, ==-refl a.stream.name)) in
        absurd (false≢true (sym (ap is_some e) ∙ ap is_some h))
    | inr (i, hit) ↦ (
      record s { streams = modify i (replace_chunks (remove HC c x)) s.streams },
      rw (hit, remove_chunk, h) refl,
      record {
        type_same = refl;
        global_same = refl;
        reads = λ b j.
            load-modify s a b j (replace_chunks (remove HC c x)) (λ b' e. refl)
              (λ o. if chunks_key == j then some (chunks (remove HC c x)) else o)
              (λ e.
                lookup-insert chunks_key j (chunks (remove HC c x)) (delete chunks_key e.state)
                ∙ ground (arith, lookup-delete chunks_key j e.state))
              i hit
            ∙ ground arith;
      },
    )
  ]

  -- The workers of a backfill remove their chunks in one order or another; each call is one step.
  unfoldable pub remove_each :
      State C V → ConfiguredStream F → List C → Option (State C V × List (Option ℕ))
  remove_each s a [] = some (s, [])
  remove_each s a (x ∷ xs) = elim (remove_chunk HC s a x) [
    | panics ↦ none
    | removed s' n ↦ elim (remove_each s' a xs) [ none ↦ none | some r ↦ some (r.0, n ∷ r.1) ]
  ]

pub countdown : ℕ → ℕ → List (Option ℕ)
countdown n zero = []
countdown n (suc k) = some (n - 1) ∷ countdown (n - 1) k

module _ {C : Type 0} (HC : Hashing C) where
  func_hash-remove : (c : Set C) (x : C) → (remove HC c x).func_hash ≡ c.func_hash
  unfolding remove
  func_hash-remove c x = refl

  hashes_left :
      (c : Set C) (x : C) (ys : List C)
      → elem (hash_of HC c x) (map (hash_of HC c) ys) ≡ false
      → all (exists HC c) ys ≡ true
      → all (exists HC (remove HC c x)) ys ≡ true
  hashes_left c x [] d h = refl
  hashes_left c x (y ∷ ys) d h = ground (
    arith,
    exists-remove HC c x y,
    eq_iff (hash_of HC c x) (hash_of HC c y),
    eq_iff (hash_of HC c y) (hash_of HC c x),
    hashes_left c x ys,
  )

  kept_cons :
      (c : Set C) (x y : C) (xs : List C)
      → (exists HC (remove HC c x) y
          && not (elem (hash_of HC (remove HC c x) y) (map (hash_of HC (remove HC c x)) xs)))
        ≡ (exists HC c y && not (elem (hash_of HC c y) (map (hash_of HC c) (x ∷ xs))))
  unfolding remove
  kept_cons c x y xs = ground (arith, exists-remove HC c x y)

module _ {C V F : Type 0} (HC : Hashing C) where
  pub remove_each-cons :
      (s s' t : State C V) (a : ConfiguredStream F) (x : C) (xs : List C) (n : Option ℕ)
      (ns : List (Option ℕ))
      → remove_chunk HC s a x ≡ removed s' n
      → remove_each HC s' a xs ≡ some (t, ns)
      → remove_each HC s a (x ∷ xs) ≡ some (t, n ∷ ns)
  unfolding remove_each
  remove_each-cons s s' t a x xs n ns p q = rw (p, remove_each, q) refl

  -- Chunks of one stored set that are removed each once, in any order: no call panics, the calls
  -- return the numbers of chunks left, down by one each time, the set that is stored afterwards has
  -- exactly the chunks of the old one that are not among the removed, and no other stream and no other key is touched.
  pub remove_each-countdown :
      (s : State C V) (a : ConfiguredStream F) (c : Set C) (xs : List C)
      → load s a chunks_key ≡ some (chunks c)
      → IsWf HC c
      → Distinct (map (hash_of HC c) xs)
      → all (exists HC c) xs ≡ true
      → (t : State C V) × (d : Set C) × (remove_each HC s a xs
          ≡ some (t, countdown (len c) (length xs)))
        × (load t a chunks_key ≡ some (chunks d))
        × (len d + length xs ≡ len c)
        × ((y : C)
            → exists HC d y
              ≡ (exists HC c y && not (elem (hash_of HC c y) (map (hash_of HC c) xs))))
        × (t.type ≡ s.type)
        × (t.global ≡ s.global)
        × ((b : ConfiguredStream F) (j : String)
            → (is_same a b && chunks_key == j) ≡ false
            → load t b j ≡ load s b j)
  unfolding remove_each countdown
  remove_each-countdown s a c [] h w d e =
      (s, c, refl, h, ground arith, λ y. ground arith, refl, refl, λ b j other. refl)
  remove_each-countdown s a c (x ∷ xs) h w d e =
      let (s', step, r) = remove_chunk-Removes HC s a c x h in
      let there : exists HC c x ≡ true = ground arith in
      let n : len (remove HC c x) ≡ len c - 1 = ground (arith, len-remove HC c x w) in
      let h' : load s' a chunks_key ≡ some (chunks (remove HC c x)) =
        r.reads a chunks_key ∙ ground (arith, ==-refl a.stream.namespace, ==-refl a.stream.name) in
      let (t, d', run, at, count, kept, ty, gl, frame) =
        remove_each-countdown s' a (remove HC c x) xs h' (remove-IsWf HC c x w)
          (subst (λ f. Distinct (map (hash_with HC f) xs)) (sym (func_hash-remove HC c x)) d.1)
          (hashes_left HC c x xs d.0 (ground arith)) in
      (
        t,
        d',
        remove_each-cons s s' t a x xs _ _ step run
            ∙ ap (λ k. some (t, some k ∷ countdown k (length xs))) n,
        at,
        ground (arith, len-remove HC c x w),
        λ y. kept y ∙ kept_cons HC c x y xs,
        ty ∙ r.type_same,
        gl ∙ r.global_same,
        λ b j other. frame b j other ∙ r.reads b j ∙ ground arith,
      )

  -- In a state of another type than GLOBAL, chunks of a stream's stored set are removed each once,
  -- in any order. No call panics, the calls return the numbers of chunks left, down by one each
  -- time, and HasCompletedBackfill holds afterwards exactly when all chunks of the set are removed.
  pub backfill_completes :
      (HS : Hashing String) (s : State C V) (a : ConfiguredStream F) (c : Set C) (xs : List C)
      → (s.type == global_type) ≡ false
      → load s a chunks_key ≡ some (chunks c)
      → IsWf HC c
      → Distinct (map (hash_of HC c) xs)
      → all (exists HC c) xs ≡ true
      → (t : State C V) × (remove_each HC s a xs ≡ some (t, countdown (len c) (length xs)))
        × (has_completed_backfill HS t a ≡ (len c == length xs))
  unfolding has_completed_backfill get_chunks as_set
  backfill_completes HS s a c xs ty h w d e =
      let (t, left, run, at, count, kept, same, gl, frame) =
        remove_each-countdown s a c xs h w d e in
      (t, run, rw (same, has_completed_backfill, ty, at) (ground arith))

elem-map :
    {A : Type 0} ⦃e : Comparable A⦄ (f : A → String) (a : A) (xs : List A)
    → elem a xs ≡ true
    → elem (f a) (map f xs) ≡ true
elem-map ⦃e⦄ f a [] h = absurd (false≢true h)
elem-map ⦃e⦄ f a (x ∷ xs) h = elim (Bool-cases (x == a)) [
  | inl hit ↦ ground (arith, ap f ((e.same_iff x a).0 hit), eq_iff (f x) (f a))
  | inr miss ↦ ground (arith, elem-map f a xs (rw miss at h))
]

in_streams-merged :
    (HS : Hashing String) (o : Option (Set String)) (ids : List String) (id : String)
    → (in_streams HS id o ≡ true) ⊎ (elem id ids ≡ true)
    → in_streams HS id (merged_streams HS o ids) ≡ true
unfolding in_streams merged_streams new_set
in_streams-merged HS none ids id h =
    exists-insert_all HS empty ids id ∙ ground (arith, elem-map (hash_of HS empty) id ids)
in_streams-merged HS (some ss) ids id h =
    exists-insert_all HS ss ids id ∙ ground (arith, elem-map (hash_of HS ss) id ids)

in_global-merged :
    {V : Type 0} (HS : Hashing String) (g : Option (GlobalState V)) (nil : V) (v : Option V)
    (ids : List String) (id : String)
    → (in_global HS id g ≡ true) ⊎ (elem id ids ≡ true)
    → in_streams HS id (merged_global HS g nil v ids).streams ≡ true
unfolding in_global in_streams merged_global merged_streams
in_global-merged HS none nil v ids id h = in_streams-merged HS none ids id h
in_global-merged HS (some g) nil v [] id (inl h) = h
in_global-merged HS (some g) nil v [] id (inr h) = absurd (false≢true h)
in_global-merged HS (some g) nil v (i ∷ ids) id h = in_streams-merged HS g.streams (i ∷ ids) id h

module _ {C V F : Type 0} where
  completed_global :
      (HS : Hashing String) (s : State C V) (b : ConfiguredStream F)
      → s.type ≡ global_type
      → has_completed_backfill HS s b ≡ in_global HS (stream_id b) s.global
  unfolding has_completed_backfill
  completed_global HS s b ty = ground (arith, eq_iff s.type global_type)

  -- In a state of type GLOBAL, the streams named in SetGlobal have completed their backfill, and so has each that had before.
  pub has_completed-set_global :
      (HS : Hashing String) (s : State C V) (nil : V) (v : Option V) (ids : List String)
      (b : ConfiguredStream F)
      → s.type ≡ global_type
      → (has_completed_backfill HS s b ≡ true) ⊎ (elem (stream_id b) ids ≡ true)
      → has_completed_backfill HS (set_global HS s nil v ids) b ≡ true
  unfolding set_global in_global
  has_completed-set_global HS s nil v ids b ty before =
      completed_global HS (set_global HS s nil v ids) b ty
      ∙ in_global-merged HS s.global nil v ids (stream_id b)
          (elim before [ inl h ↦ inl (sym (completed_global HS s b ty) ∙ h) | inr h ↦ inr h ])
