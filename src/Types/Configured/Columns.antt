-- ===== src/Types/Configured/Columns.antt =====
-- types/stream_configured.go: the records that RetainSelectedColumns leaves and the columns that
-- IsSelectedColumn names. `inj` says that the hash of column names tells them apart.
use olake.Base.{
  string_eq, String, ◌≡◌, refl, ap, ◌∙◌, Bool, true, false, not, ◌||◌, ◌&&◌, Option, none, some,
  List, [], ◌∷◌, arith, if◌then◌else◌, elem, is_nil, ◌==◌, eq_iff, if-elim,
}
use olake.Base.Assoc.{lookup, delete, keys, lookup-delete, lookup_absent}
use olake.Types.Set.{Set, Hashing, empty, new_set, exists, insert_one, hash_with, array}
use olake.Types.Set.Plain.{
  IsPlain, empty-IsPlain, insert_one-IsPlain, new_set-IsPlain, exists-insert_one, exists-empty,
  exists-new_set, elem-array_plain,
}
use olake.Types.TypeSchema.{column_names}
use olake.Types.Configured.{
  ConfiguredStream, SelectedColumns, unselected_loop, reformat_loop, keep_selected, delete_all,
  get_unselected_columns_set, reformat_columns, is_selected_column, is_selected_by, retain_by,
  retain_selected_columns, resolve_column_name,
}

module _ (HS : Hashing String) where
  unselected_loop-IsPlain :
      (selected : Set String) (cs : List String) (acc : Set String)
      → IsPlain HS acc
      → IsPlain HS (unselected_loop HS selected cs acc)
  unfolding unselected_loop
  unselected_loop-IsPlain selected [] acc p = p
  unselected_loop-IsPlain selected (c ∷ cs) acc p = unselected_loop-IsPlain selected cs _ (
      if-elim (IsPlain HS) (exists HS selected c) acc (insert_one HS acc c) (λ h. p)
        (λ h. insert_one-IsPlain HS acc c p))

module _ (HS : Hashing String)
    (inj : (a b : String) → hash_with HS none a ≡ hash_with HS none b → a ≡ b) where
  exists-unselected_loop :
      (selected : Set String) (cs : List String) (acc : Set String) (c : String)
      → IsPlain HS acc
      → exists HS (unselected_loop HS selected cs acc) c
        ≡ (exists HS acc c || (elem c cs && not (exists HS selected c)))
  unfolding unselected_loop
  exists-unselected_loop selected [] acc c p = ground arith
  exists-unselected_loop selected (d ∷ cs) acc c p =
      if-elim
        (λ acc'.
          exists HS (unselected_loop HS selected cs acc') c
          ≡ (exists HS acc c || ((d == c || elem c cs) && not (exists HS selected c))))
        (exists HS selected d) acc (insert_one HS acc d)
        (λ h.
          exists-unselected_loop selected cs acc c p
          ∙ ground (arith, eq_iff d c, λ (q : d ≡ c). ap (exists HS selected) q))
        (λ h.
          exists-unselected_loop selected cs (insert_one HS acc d) c (insert_one-IsPlain HS acc d p)
          ∙ ground (
            arith,
            eq_iff d c,
            exists-insert_one HS inj acc d c p,
            λ (q : d ≡ c). ap (exists HS selected) q,
          ))

  exists-reformat_loop :
      (f : String → String) (cs : List String) (acc : Set String) (c : String)
      → ((k : String) → f k ≡ k)
      → IsPlain HS acc
      → exists HS (reformat_loop HS f cs acc) c ≡ (exists HS acc c || elem c cs)
  unfolding reformat_loop
  exists-reformat_loop f [] acc c same p = ground arith
  exists-reformat_loop f (d ∷ cs) acc c same p =
      exists-reformat_loop f cs (insert_one HS acc (f d)) c same (insert_one-IsPlain HS acc (f d) p)
      ∙ rw (same d, exists-insert_one HS inj acc d c p) (ground arith)

  lookup-delete_all :
      {D : Type 0} (cs : List String) (m : List (String × D)) (c : String)
      → lookup c (delete_all cs m) ≡ (if elem c cs then none else lookup c m)
  unfolding delete_all
  lookup-delete_all [] m c = refl
  lookup-delete_all (d ∷ cs) m c =
      lookup-delete_all cs (delete d m) c ∙ ground (arith, lookup-delete d c m)

  lookup-keep_selected :
      {D : Type 0} (selected : Set String) (cs : List String) (m : List (String × D)) (c : String)
      → lookup c (keep_selected HS selected cs m)
        ≡ (if elem c cs && not (exists HS selected c) then none else lookup c m)
  unfolding keep_selected
  lookup-keep_selected selected [] m c = refl
  lookup-keep_selected selected (d ∷ cs) m c =
      if-elim
        (λ m'.
          lookup c (keep_selected HS selected cs m')
          ≡ (if (d == c || elem c cs) && not (exists HS selected c) then none else lookup c m))
        (not (exists HS selected d)) (delete d m) m
        (λ h.
          lookup-keep_selected selected cs (delete d m) c
          ∙ ground
              (arith, lookup-delete d c m, eq_iff d c, λ (q : d ≡ c). ap (exists HS selected) q))
        (λ h.
          lookup-keep_selected selected cs m c
          ∙ ground (arith, eq_iff d c, λ (q : d ≡ c). ap (exists HS selected) q))

  reads-if :
      {D : Type 0} (b : Bool) (c : String) (m : List (String × D))
      → (if b then lookup c m else none) ≡ (if not b then none else lookup c m)
  reads-if b c m = ground arith

module _ {V : Type 0} (HS : Hashing String)
    (inj : (a b : String) → hash_with HS none a ≡ hash_with HS none b → a ≡ b) where
  -- Which columns of the schema GetUnSelectedColumnsSet gives
  pub exists-get_unselected_columns_set :
      (s : ConfiguredStream V) (columns : List String) (c : String)
      → is_nil columns ≡ false
      → exists HS (get_unselected_columns_set HS s columns) c
        ≡ (elem c (column_names s.stream.schema) && not (elem c columns))
  unfolding get_unselected_columns_set
  exists-get_unselected_columns_set s columns c h =
      rw (h, get_unselected_columns_set)
        (exists-unselected_loop HS inj (new_set HS columns) (column_names s.stream.schema) empty c
            (empty-IsPlain HS)
          ∙ ground (arith, exists-new_set HS inj columns c, exists-empty HS inj c))

  unselected-IsPlain :
      (s : ConfiguredStream V) (columns : List String)
      → IsPlain HS (get_unselected_columns_set HS s columns)
  unfolding get_unselected_columns_set
  unselected-IsPlain s columns =
      if-elim (IsPlain HS) (is_nil columns) empty _ (λ h. empty-IsPlain HS)
        (λ h.
          unselected_loop-IsPlain HS (new_set HS columns) (column_names s.stream.schema) empty
            (empty-IsPlain HS))

  exists-reformat_columns :
      (s : ConfiguredStream V) (st : Set String) (c : String)
      → s.stream_metadata.use_source_column_names ≡ true
      → IsPlain HS st
      → exists HS (reformat_columns HS s st) c ≡ exists HS st c
  unfolding reformat_columns resolve_column_name
  exists-reformat_columns s st c names p =
      exists-reformat_loop HS inj (resolve_column_name s) (array st) empty c
        (λ k. rw (names, resolve_column_name) refl) (empty-IsPlain HS)
      ∙ ground (arith, exists-empty HS inj c, elem-array_plain HS inj st c p)

module _ {V D : Type 0} (HS : Hashing String)
    (inj : (a b : String) → hash_with HS none a ≡ hash_with HS none b → a ≡ b) where
  retain_by-is_selected_by :
      (s : ConfiguredStream V) (o : Option SelectedColumns) (row : List (String × D)) (c : String)
      → s.stream_metadata.use_source_column_names ≡ true
      → lookup c (retain_by HS s o row) ≡ (if is_selected_by HS s o c then lookup c row else none)
  unfolding retain_by is_selected_by
  retain_by-is_selected_by s none row c names = refl
  retain_by-is_selected_by s (some cfg) row c names =
      let U = get_unselected_columns_set HS s cfg.columns in
      let N = new_set HS cfg.columns in
      ground (
        arith,
        lookup-delete_all HS inj (array U) row c,
        elem-array_plain HS inj U c (unselected-IsPlain HS inj s cfg.columns),
        exists-reformat_columns HS inj s U c names (unselected-IsPlain HS inj s cfg.columns),
        lookup-keep_selected HS inj N (keys row) row c,
        exists-reformat_columns HS inj s N c names (new_set-IsPlain HS cfg.columns),
        lookup_absent c row,
      )

  -- Where the hash of names is injective and output names are source names, a record keeps a
  -- column exactly when IsSelectedColumn names it, with the value that it had.
  pub retain-is_selected :
      (s : ConfiguredStream V) (row : List (String × D)) (c : String)
      → s.stream_metadata.use_source_column_names ≡ true
      → lookup c (retain_selected_columns HS s row)
        ≡ (if is_selected_column HS s c then lookup c row else none)
  unfolding retain_selected_columns is_selected_column
  retain-is_selected s row c names =
      retain_by-is_selected_by s s.stream_metadata.selected_columns row c names
