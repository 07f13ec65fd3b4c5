-- ===== src/Types/Catalog/Delta/Same.antt =====
-- types/catalog.go: GetStreamsDelta of a catalog against itself.
use olake.Base.{
  String, ◌≡◌, refl, sym, ap, ◌∙◌, subst, Bool, true, false, Option, some, List, [], ◌∷◌, ◌++◌,
  arith, ◌==◌, string_eq, elem, eq_iff, Distinct, All, All-left, All-right, Option-cases, inl, inr,
  ==-refl,
}
use olake.Base.Assoc.{lookup, insert, keys, lookup-insert}
use olake.Utils.Text.{dotted}
use olake.Types.UpdateType.{position, deletion_vector}
use olake.Types.Stream.{Stream}
use olake.Types.Configured.{ConfiguredStream, StreamMetadata, FilterConfig}
use olake.Types.Catalog.{Catalog, create_stream_map}
use olake.Types.Catalog.Delta.{
  DeepEqual, Delta, delta, is_different, dv_delta, bool_beq, or_equality, selected_under,
  selected_map, all_selected, delta_one, delta_list, delta_loop, compare_one, get_streams_delta,
}

module _ {V : Type 0} where
  -- The selected streams under the texts by which GetStreamsDelta keeps them
  abbrev pub by_id : String → List (StreamMetadata V) → List (String × StreamMetadata V)
  by_id ns [] = []
  by_id ns (m ∷ ms) = (dotted ns m.stream_name, m) ∷ by_id ns ms

  abbrev pub flatten : List (String × List (StreamMetadata V)) → List (String × StreamMetadata V)
  flatten [] = []
  flatten ((ns, ms) ∷ rest) = by_id ns ms ++ flatten rest

module _ {A : Type 0} where
  insert_pairs : List (String × A) → List (String × A) → List (String × A)
  insert_pairs [] m = m
  insert_pairs ((k, v) ∷ ps) m = insert_pairs ps (insert k v m)

  insert_pairs-append :
      (ps qs m : List (String × A))
      → insert_pairs (ps ++ qs) m ≡ insert_pairs qs (insert_pairs ps m)
  unfolding insert_pairs
  insert_pairs-append [] qs m = refl
  insert_pairs-append ((k, v) ∷ ps) qs m = insert_pairs-append ps qs (insert k v m)

  lookup-insert_pairs :
      (ps m : List (String × A)) (k : String)
      → elem k (keys ps) ≡ false
      → lookup k (insert_pairs ps m) ≡ lookup k m
  unfolding insert_pairs
  lookup-insert_pairs [] m k h = refl
  lookup-insert_pairs ((j, v) ∷ ps) m k h =
      lookup-insert_pairs ps (insert j v m) k (ground arith) ∙ ground (arith, lookup-insert j k v m)

  insert_pairs-All :
      (ps m : List (String × A))
      → Distinct (keys ps)
      → All (λ e. lookup e.0 (insert_pairs ps m) ≡ some e.1) ps
  unfolding insert_pairs
  insert_pairs-All [] m d = tt
  insert_pairs-All ((k, v) ∷ ps) m d = (
    lookup-insert_pairs ps (insert k v m) k d.0 ∙ ground (arith, lookup-insert k k v m, ==-refl k),
    insert_pairs-All ps (insert k v m) d.1,
  )

apart : (x : String) → x ≡ position → x ≡ deletion_vector → false ≡ true
apart x p q = ap (λ y. y == deletion_vector) (sym p ∙ q)

dv_delta-same : (u : String) → dv_delta u u ≡ false
unfolding dv_delta
dv_delta-same u = ground (
  arith,
  apart (or_equality u),
  eq_iff (or_equality u) position,
  eq_iff (or_equality u) deletion_vector,
)

module _ {V : Type 0} where
  selected_under-pairs :
      (ns : String) (ms : List (StreamMetadata V)) (m : List (String × StreamMetadata V))
      → selected_under ns ms m ≡ insert_pairs (by_id ns ms) m
  unfolding selected_under insert_pairs
  selected_under-pairs ns [] m = refl
  selected_under-pairs ns (x ∷ xs) m = selected_under-pairs ns xs _

  selected_map-pairs :
      (sel : List (String × List (StreamMetadata V))) (m : List (String × StreamMetadata V))
      → selected_map sel m ≡ insert_pairs (flatten sel) m
  unfolding selected_map insert_pairs
  selected_map-pairs [] m = refl
  selected_map-pairs ((ns, ms) ∷ rest) m =
      selected_map-pairs rest _
      ∙ ap (insert_pairs (flatten rest)) (selected_under-pairs ns ms m)
      ∙ sym (insert_pairs-append (by_id ns ms) (flatten rest) m)

  module _ (E : DeepEqual V) (filters : (f : Option (FilterConfig V)) → E.same_filter f f ≡ true)
      (same : (ks : List String) → E.same_keys ks ks ≡ true) where
    bool_beq_refl : (b : Bool) → bool_beq b b ≡ true
    bool_beq_refl true = refl
    bool_beq_refl false = refl

    is_different-same : (m : StreamMetadata V) (s : Stream) → is_different E m m s s ≡ false
    unfolding is_different
    is_different-same m s = ground (
      arith,
      dv_delta-same m.update_type,
      bool_beq_refl m.normalization,
      bool_beq_refl m.use_source_column_names,
      bool_beq_refl m.append_mode,
      filters m.filter_config,
      same m.dedup_keys,
      eq_iff m.partition_regex m.partition_regex,
      eq_iff m.filter m.filter,
      eq_iff s.sync_mode s.sync_mode,
      eq_iff s.destination_database s.destination_database,
      eq_iff s.destination_table s.destination_table,
      eq_iff s.cursor_field s.cursor_field,
    )

    compare_one-same :
        (ns : String) (m : StreamMetadata V) (s : ConfiguredStream V) (acc : Delta V)
        → compare_one E ns m s (some m) (some s) acc ≡ acc
    unfolding compare_one
    compare_one-same ns m s acc = rw is_different-same refl

    module _ (streams : List (String × ConfiguredStream V))
        (selected : List (String × StreamMetadata V)) where
      delta_one-same :
          (ns : String) (m : StreamMetadata V) (acc : Delta V)
          → lookup (dotted ns m.stream_name) selected ≡ some m
          → delta_one E streams streams selected ns m acc ≡ acc
      unfolding delta_one
      delta_one-same ns m acc h = elim (Option-cases (lookup (dotted ns m.stream_name) streams)) [
        | inl missing ↦ rw (missing, delta_one) refl
        | inr (s, found) ↦
            rw (delta_one, found, h)
              (ap (λ o. compare_one E ns m s (some m) o acc) found ∙ compare_one-same ns m s acc)
      ]

      delta_list-same :
          (ns : String) (ms : List (StreamMetadata V)) (acc : Delta V)
          → All (λ e. lookup e.0 selected ≡ some e.1) (by_id ns ms)
          → delta_list E streams streams selected ns ms acc ≡ acc
      unfolding delta_list
      delta_list-same ns [] acc a = refl
      delta_list-same ns (m ∷ ms) acc a = delta_list-same ns ms _ a.1 ∙ delta_one-same ns m acc a.0

      delta_loop-same :
          (sel : List (String × List (StreamMetadata V))) (acc : Delta V)
          → All (λ e. lookup e.0 selected ≡ some e.1) (flatten sel)
          → delta_loop E streams streams selected sel acc ≡ acc
      unfolding delta_loop
      delta_loop-same [] acc a = refl
      delta_loop-same ((ns, ms) ∷ rest) acc a =
          delta_loop-same rest _
            (All-right (λ e. lookup e.0 selected ≡ some e.1) (by_id ns ms) (flatten rest) a)
          ∙ delta_list-same ns ms acc
              (All-left (λ e. lookup e.0 selected ≡ some e.1) (by_id ns ms) (flatten rest) a)

    -- Where DeepEqual holds of a value and itself and no two selected streams share an identifier,
    -- the difference of a catalog to itself is empty.
    pub get_streams_delta-same :
        (c : Catalog V)
        → Distinct (keys (flatten (all_selected c)))
        → get_streams_delta E c c ≡ delta [] []
    unfolding get_streams_delta
    get_streams_delta-same c d =
        delta_loop-same (create_stream_map c.streams) (selected_map (all_selected c) [])
          (all_selected c) (delta [] [])
          (subst (λ m. All (λ e. lookup e.0 m ≡ some e.1) (flatten (all_selected c)))
            (sym (selected_map-pairs (all_selected c) []))
            (insert_pairs-All (flatten (all_selected c)) [] d))
