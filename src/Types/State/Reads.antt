-- ===== src/Types/State/Reads.antt =====
-- types/state.go: what a load gives after each write, for the stream written and for all others.
use olake.Base.{
  false≢true, ℕ, zero, suc, String, ◌≡◌, refl, sym, ap, ◌∙◌, Bool, true, false, ◌||◌, ◌&&◌, Option,
  none, some, List, [], ◌∷◌, ◌++◌, arith, if◌then◌else◌, ◌==◌, string_eq, eq_iff, ==-refl,
  Option-cases, inl, inr, find,
}
use olake.Base.Assoc.{lookup_absent, lookup, delete, lookup-insert, lookup-delete}
use olake.Utils.Arrays.{
  array_contains-get, array_contains, get_elem?, modify, get-array_contains, find-none,
}
use olake.Types.Configured.{ConfiguredStream, cursor}
use olake.Types.State.{
  State, StreamState, StateValue, is_for, store, load, init_stream_state, store_entry, store_at,
  delete_at, reset_cursor,
}

-- Two streams are one to the state when their namespaces and their names agree.
abbrev pub is_same : {F : Type 0} → ConfiguredStream F → ConfiguredStream F → Bool
is_same a b = a.stream.namespace == b.stream.namespace && a.stream.name == b.stream.name

module _ {C V : Type 0} where
  unfoldable pub under : String → Option (StreamState C V) → Option (StateValue C V)
  under key none = none
  under key (some e) = lookup key e.state

  changed :
      (f : StreamState C V → StreamState C V) (k : String)
      (read : Option (StateValue C V) → Option (StateValue C V))
      → ((e : StreamState C V) → lookup k (f e).state ≡ read (lookup k e.state))
      → (o : Option (StreamState C V)) → (o ≡ none → false ≡ true)
      → (elim o [ none ↦ none | some e ↦ lookup k (f e).state ]) ≡ read (under k o)
  unfolding under
  changed f k read step none there = absurd (false≢true (there refl))
  changed f k read step (some e) there = step e

module _ {C V F : Type 0} where
  -- A load reads the first state of the stream.
  pub load-find :
      (s : State C V) (a : ConfiguredStream F) (k : String)
      → load s a k ≡ under k (find (is_for a) s.streams)
  unfolding load under
  load-find s a k = elim (Option-cases (array_contains s.streams (is_for a))) [
    | inl miss ↦ rw (miss, load) (ap (under k) (sym (find-none s.streams (is_for a) miss)))
    | inr (i, hit) ↦ rw (hit, load) (ap (under k) (get-array_contains s.streams (is_for a) i hit))
  ]

  is_for_same :
      (a b : ConfiguredStream F) (e : StreamState C V)
      → is_for a e ≡ true
      → is_for b e ≡ is_same a b
  is_for_same a b e h = ground (
    arith,
    eq_iff e.namespace a.stream.namespace,
    eq_iff e.stream a.stream.name,
    eq_iff e.namespace b.stream.namespace,
    eq_iff e.stream b.stream.name,
    eq_iff a.stream.namespace b.stream.namespace,
    eq_iff a.stream.name b.stream.name,
  )

  is_for_agree :
      (a b : ConfiguredStream F) (e : StreamState C V)
      → is_same a b ≡ true
      → is_for b e ≡ is_for a e
  is_for_agree a b e h = ground (
    arith,
    eq_iff e.namespace a.stream.namespace,
    eq_iff e.stream a.stream.name,
    eq_iff e.namespace b.stream.namespace,
    eq_iff e.stream b.stream.name,
    eq_iff a.stream.namespace b.stream.namespace,
    eq_iff a.stream.name b.stream.name,
  )

  -- A change in place of the first state of a stream, seen from any stream.
  under-modify :
      (a b : ConfiguredStream F) (k : String) (f : StreamState C V → StreamState C V)
      → ((c : ConfiguredStream F) (e : StreamState C V) → is_for c (f e) ≡ is_for c e)
      → (es : List (StreamState C V)) (i : ℕ) → array_contains es (is_for a) ≡ some i
      → under k (find (is_for b) (modify i f es)) ≡ (
          if is_same a b
          then elim (get_elem? es i) [ none ↦ none | some e ↦ lookup k (f e).state ]
          else under k (find (is_for b) es))
  unfolding array_contains under
  under-modify a b k f same [] i h = cc
  under-modify a b k f same (e ∷ es) zero h = ground (arith, same b e, is_for_same a b e)
  under-modify a b k f same (e ∷ es) (suc i) h =
      ground (arith, is_for_agree a b e, under-modify a b k f same es i)

  under-append :
      (a b : ConfiguredStream F) (k : String) (y : StreamState C V)
      → is_for a y ≡ true
      → (es : List (StreamState C V)) → array_contains es (is_for a) ≡ none
      → under k (find (is_for b) (es ++ y ∷ []))
        ≡ (if is_same a b then lookup k y.state else under k (find (is_for b) es))
  unfolding array_contains under
  under-append a b k y own [] h = ground (arith, is_for_same a b y)
  under-append a b k y own (e ∷ es) h =
      ground (arith, is_for_agree a b e, under-append a b k y own es)

  find_same :
      (a b : ConfiguredStream F) (es : List (StreamState C V))
      → is_same a b ≡ true
      → find (is_for b) es ≡ find (is_for a) es
  find_same a b [] h = refl
  find_same a b (e ∷ es) h = ground (arith, is_for_agree a b e h, find_same a b es h)

  load_same :
      (s : State C V) (a b : ConfiguredStream F) (k : String)
      → is_same a b ≡ true
      → load s b k ≡ load s a k
  load_same s a b k h =
      load-find s b k ∙ ap (under k) (find_same a b s.streams h) ∙ sym (load-find s a k)

  pub load_missing :
      (s : State C V) (a b : ConfiguredStream F) (k : String)
      → array_contains s.streams (is_for a) ≡ none
      → is_same a b ≡ true
      → load s b k ≡ none
  unfolding under
  load_missing s a b k miss h =
      load_same s a b k h ∙ load-find s a k ∙ ap (under k) (find-none s.streams (is_for a) miss)

  -- A change in place, seen through a load: `read` says what the change does to one state.
  pub load-modify :
      (s : State C V) (a b : ConfiguredStream F) (k : String)
      (f : StreamState C V → StreamState C V)
      → ((c : ConfiguredStream F) (e : StreamState C V) → is_for c (f e) ≡ is_for c e)
      → (read : Option (StateValue C V) → Option (StateValue C V))
      → ((e : StreamState C V) → lookup k (f e).state ≡ read (lookup k e.state))
      → (i : ℕ) → array_contains s.streams (is_for a) ≡ some i
      → load (record s { streams = modify i f s.streams }) b k
        ≡ (if is_same a b then read (load s b k) else load s b k)
  load-modify s a b k f same read step i h =
      load-find (record s { streams = modify i f s.streams }) b k
      ∙ under-modify a b k f same s.streams i h
      ∙ ground (
        arith,
        λ (q : is_same a b ≡ true).
            changed f k read step (get_elem? s.streams i)
              (array_contains-get s.streams (is_for a) i h)
            ∙ ap (λ o. read (under k o)) (get-array_contains s.streams (is_for a) i h)
            ∙ ap read (sym (load-find s a k) ∙ sym (load_same s a b k q)),
        load-find s b k,
      )

  -- After a store, as SetCursor and SetChunks make it, the key of the stream has the new value, and
  -- every other key and every other stream has what it had.
  pub load-store :
      (s : State C V) (a b : ConfiguredStream F) (k j : String) (v : StateValue C V)
      → load (store s a k v) b j ≡ (if is_same a b && k == j then some v else load s b j)
  unfolding store store_entry store_at init_stream_state
  load-store s a b k j v = elim (Option-cases (array_contains s.streams (is_for a))) [
    | inl miss ↦
        rw (miss, store)
          (load-find (record s { streams = s.streams ++ store_at k v (init_stream_state a) ∷ [] }) b
              j
            ∙ under-append a b j (store_at k v (init_stream_state a))
                (ground (arith, ==-refl a.stream.namespace, ==-refl a.stream.name)) s.streams miss
            ∙ ground (
              arith,
              lookup-insert k j v [],
              lookup_absent {V = StateValue C V} j [] refl,
              load_missing s a b j miss,
              load-find s b j,
            ))
    | inr (i, hit) ↦
        rw (hit, store)
          (load-modify s a b j (store_at k v) (λ c e. refl) (λ o. if k == j then some v else o)
              (λ e. lookup-insert k j v e.state) i hit
            ∙ ground arith)
  ]

  -- ResetCursor takes out the two cursors of its stream and leaves all else as it was.
  pub load-reset_cursor :
      (s : State C V) (a b : ConfiguredStream F) (j : String)
      → load (reset_cursor s a) b j
        ≡ (if is_same a b && ((cursor a).0 == j || (cursor a).1 == j) then none else load s b j)
  unfolding reset_cursor delete_at
  load-reset_cursor s a b j = elim (Option-cases (array_contains s.streams (is_for a))) [
    | inl miss ↦ rw (miss, reset_cursor) (ground (arith, load_missing s a b j miss))
    | inr (i, hit) ↦
        rw (hit, reset_cursor)
          (load-modify s a b j (λ e. delete_at (cursor a).1 (delete_at (cursor a).0 e))
              (λ c e. refl) (λ o. if (cursor a).0 == j || (cursor a).1 == j then none else o)
              (λ e.
                lookup-delete (cursor a).1 j (delete (cursor a).0 e.state)
                ∙ ground (arith, lookup-delete (cursor a).0 j e.state))
              i hit
            ∙ ground arith)
  ]
