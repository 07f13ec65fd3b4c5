-- ===== src/Types/Catalog/Merge/Kept.antt =====
-- types/catalog.go: which streams a merge of catalogs keeps, and when it gives a result.
use olake.Base.{
  String, ◌≡◌, refl, sym, ap₂, subst, Bool, true, false, some, List, [], ◌∷◌, ◌++◌, arith, map,
  string_eq, All, All-append, Option-cases, inl, inr,
}
use olake.Base.Assoc.{lookup, insert-All, lookup-All}
use olake.Utils.Text.{dotted}
use olake.Types.Set.{Hashing}
use olake.Types.UpdateType.{QueryEngine}
use olake.Types.Stream.{Stream, id_of}
use olake.Types.Configured.{ConfiguredStream, StreamMetadata, stream_id}
use olake.Types.Catalog.{
  Catalog, append_to, merge_update_type, merge_selected_columns, create_stream_map,
}
use olake.Types.Catalog.Merge.{
  merge_catalogs, merge_selected, merge_list, merged_with, merge_stream, place_new,
  get_dest_db_prefix, first_database,
}

-- `m[k] = append(m[k], v)` keeps a property of all values.
append_to-All :
    {A : Type 0} (P : String → A → Type 0) (k : String) (v : A) (m : List (String × List A))
    → P k v
    → All (λ e. All (P e.0) e.1) m
    → All (λ e. All (P e.0) e.1) (append_to k v m)
unfolding append_to
append_to-All P k v m p a = elim (Option-cases (lookup k m)) [
  | inl fresh ↦ rw fresh (insert-All (λ e. All (P e.0) e.1) k (v ∷ []) m (p, tt) a)
  | inr (vs, old) ↦ rw old (
      insert-All (λ e. All (P e.0) e.1) k (vs ++ v ∷ []) m
        (All-append (P k) vs (v ∷ []) (lookup-All (λ j ws. All (P j) ws) k vs m a old) (p, tt)) a)
]

module _ {V : Type 0} (HS : Hashing String) where
  stream_name_kept :
      (m : StreamMetadata V) (old new : Stream) (engines : List QueryEngine)
      → (merge_update_type (merge_selected_columns HS m old new) engines).stream_name
        ≡ m.stream_name
  unfolding merge_update_type merge_selected_columns
  stream_name_kept m old new engines = ground arith

  -- A selected stream with its namespace, found in a map of streams
  abbrev pub IsIn : List (String × ConfiguredStream V) → String → StreamMetadata V → Type 0
  IsIn ss ns m = (s : ConfiguredStream V) × (lookup (dotted ns m.stream_name) ss ≡ some s)

  abbrev pub AllIn :
      List (String × ConfiguredStream V) → List (String × List (StreamMetadata V)) → Type 0
  AllIn ss sel = All (λ e. All (IsIn ss e.0) e.1) sel

  module _ (olds news : List (String × ConfiguredStream V)) (engines : List QueryEngine) where
    merge_list-AllIn :
        (ns : String) (ms : List (StreamMetadata V)) (acc : List (String × List (StreamMetadata V)))
        → All (IsIn olds ns) ms
        → AllIn news acc
        → (out : List (String × List (StreamMetadata V))) × (merge_list HS olds news engines ns ms
              acc
            ≡ some out)
          × AllIn news out
    unfolding merge_list
    merge_list-AllIn ns [] acc o a = (acc, refl, a)
    merge_list-AllIn ns (m ∷ ms) acc o a =
        elim (Option-cases (lookup (dotted ns m.stream_name) news)) [
          | inl gone ↦ rw (merge_list, gone) (merge_list-AllIn ns ms acc o.1 a)
          | inr (new, there) ↦
              let (old, known) = o.0 in
              rw (merge_list, there, known)
                (merge_list-AllIn ns ms
                  (append_to ns
                    (merge_update_type (merge_selected_columns HS m old.stream new.stream) engines)
                    acc)
                  o.1
                  (append_to-All (IsIn news) ns
                    (merge_update_type (merge_selected_columns HS m old.stream new.stream) engines)
                    acc
                    (
                      new,
                      subst (λ n. lookup (dotted ns n) news ≡ some new)
                          (sym (stream_name_kept m old.stream new.stream engines)) there,
                    )
                    a))
        ]

    merge_selected-AllIn :
        (sel acc : List (String × List (StreamMetadata V)))
        → AllIn olds sel
        → AllIn news acc
        → (out : List (String × List (StreamMetadata V))) × (merge_selected HS olds news engines sel
              acc
            ≡ some out)
          × AllIn news out
    unfolding merge_selected
    merge_selected-AllIn [] acc o a = (acc, refl, a)
    merge_selected-AllIn ((ns, ms) ∷ rest) acc o a =
        let (mid, run, b) = merge_list-AllIn ns ms acc o.0 a in
        rw (merge_selected, run) (merge_selected-AllIn rest mid o.1 b)

place_new-id :
    (prefix : Bool × String) (db : String) (s : Stream) → id_of (place_new prefix db s) ≡ id_of s
unfolding place_new
place_new-id (true, prefix) db s = refl
place_new-id (false, prefix) db s = ground arith

module _ {V : Type 0} where
  merge_stream-id :
      (olds : List (String × ConfiguredStream V)) (prefix : Bool × String) (db : String)
      (s : ConfiguredStream V)
      → stream_id (merge_stream olds prefix db s) ≡ stream_id s
  unfolding merge_stream
  merge_stream-id olds prefix db s = elim (Option-cases (lookup (stream_id s) olds)) [
    | inl fresh ↦ rw (merge_stream, fresh) (place_new-id prefix db s.stream)
    | inr (old, listed) ↦ rw (merge_stream, listed) refl
  ]

  map-ids :
      (f : ConfiguredStream V → ConfiguredStream V)
      → ((s : ConfiguredStream V) → stream_id (f s) ≡ stream_id s)
      → (ss : List (ConfiguredStream V)) → map stream_id (map f ss) ≡ map stream_id ss
  map-ids f e [] = refl
  map-ids f e (s ∷ ss) = ap₂ (◌∷◌) (e s) (map-ids f e ss)

module _ {V : Type 0} (HS : Hashing String) where
  -- Where the old catalog lists each stream that it selects, the merge does not panic. It has the
  -- streams of the new catalog, in order, and selects only streams that are among them.
  pub merge_catalogs-Kept :
      (old new : Catalog V) (engines : List QueryEngine)
      (sel : List (String × List (StreamMetadata V)))
      → old.selected_streams ≡ some sel
      → AllIn HS (create_stream_map old.streams) sel
      → (c : Catalog V) × (merge_catalogs HS (some old) new engines ≡ some c)
        × (map stream_id c.streams ≡ map stream_id new.streams)
        × (out : List (String × List (StreamMetadata V))) × (c.selected_streams ≡ some out)
        × AllIn HS (create_stream_map new.streams) out
  unfolding merge_catalogs merged_with
  merge_catalogs-Kept old new engines sel h o =
      let (out, run, kept) =
        merge_selected-AllIn HS (create_stream_map old.streams) (create_stream_map new.streams)
          engines sel [] o tt in
      (
        merged_with old.streams new.streams (some out),
        rw (merge_catalogs, h, run) refl,
        map-ids _
            (merge_stream-id (create_stream_map old.streams) (get_dest_db_prefix old.streams)
              (first_database old.streams))
            new.streams,
        out,
        refl,
        kept,
      )
