-- ===== src/Types/TypeSchema/Columns.antt =====
-- types/type_schema.go: what AddTypes does to the columns, and how HasDestinationColumnName reads them.
use mathlib.Core.List.Perm
use olake.Base.{
  String, ◌≡◌, ◌≢◌, refl, ap, ◌∙◌, Bool, true, false, not, some, List, [], ◌∷◌, ◌++◌, if◌then◌else◌,
  ◌==◌, string_eq, arith, Perm, eq_iff,
}
use olake.Base.Assoc.{lookup, lookup-insert}
use olake.Utils.Text.{empty_text}
use olake.Types.Set.{Hashing, insert_all, array}
use olake.Types.Set.Invariant.{IsWf, insert_all-IsWf}
use olake.Types.Set.Elements.{elem-insert_all}
use olake.Types.DataType.{DataType, data_type_eq}
use olake.Types.DataType.Lattice.{Widens, HasWeight}
use olake.Types.Property.{Property, data_type}
use olake.Types.Property.Widening.{Seen, data_type-join}
use olake.Types.TypeSchema.{
  TypeSchema, get_property, add_types, add_to, last_named, has_destination_column_name,
}

module _ (H : Hashing DataType) where
  pub get_property-add_types :
      (t : TypeSchema) (column : String) (o : Bool) (types : List DataType) (c : String)
      → get_property (add_types H t column o types) c ≡ (
          if column == c
          then some (add_to H (get_property t column) column o types)
          else get_property t c)
  unfolding get_property add_types
  get_property-add_types t column o types c =
      lookup-insert column c (add_to H (lookup column t.properties) column o types) t.properties

  -- Where the types of a column, the new ones included, lie in the typecast tree but for null, and
  -- one was there before, AddTypes only widens the column, and keeps its name and its mark.
  pub add_types-Widens :
      (t : TypeSchema) (column : String) (o : Bool) (types : List DataType) (p : Property)
      (s : DataType)
      → get_property t column ≡ some p
      → IsWf H p.type
      → Seen (array p.type) s
      → ((u : DataType) → Seen (array (insert_all H p.type types)) u → HasWeight u)
      → (q : Property) × (get_property (add_types H t column o types) column ≡ some q)
        × Widens (data_type p) (data_type q)
        × (q.destination_column_name ≡ p.destination_column_name)
        × (q.olake_column ≡ p.olake_column)
  unfolding add_to
  add_types-Widens t column o types p s found w seen weighted = (q, at_column, wider, refl, refl)
    where
      q : Property
      q = record p { type = insert_all H p.type types }

      at_column : get_property (add_types H t column o types) column ≡ some q
      at_column =
          get_property-add_types t column o types column
          ∙ ground (arith, eq_iff column column, ap (λ r. add_to H r column o types) found)

      grows : (u : DataType) → Seen (array p.type) u → Seen (array q.type) u
      grows u (h, n) = (elem-insert_all H p.type types u w h, n)

      wider : Widens (data_type p) (data_type q)
      wider = (data_type-join H p s w seen (λ u h. weighted u (grows u h))).1 (data_type q) (λ u h.
          (data_type-join H q s (insert_all-IsWf H p.type types w) (grows s seen) weighted).0 u
            (grows u h))

last_named-append :
    (b : Bool) (ps : List (String × Property)) (c : String × Property) (k : String) (p : Property)
    → last_named b (ps ++ c ∷ (k, p) ∷ []) ≡ not (p.destination_column_name == empty_text)
unfolding last_named
last_named-append b [] (j, r) k p = refl
last_named-append b ((j, r) ∷ ps) c k p =
    last_named-append (not (r.destination_column_name == empty_text)) ps c k p

abbrev pub with_columns : List (String × Property) → TypeSchema
with_columns ps = record { properties = ps }

-- Of two columns, one with a destination name and one without, HasDestinationColumnName answers by
-- whichever Go happens to visit last: two orders of one and the same map give the two answers.
pub has_destination_column_name_unsettled :
    (ps : List (String × Property)) (j k : String) (p q : Property)
    → p.destination_column_name ≢ empty_text
    → q.destination_column_name ≡ empty_text
    → Perm (ps ++ (j, p) ∷ (k, q) ∷ []) (ps ++ (k, q) ∷ (j, p) ∷ [])
      × (has_destination_column_name (with_columns (ps ++ (j, p) ∷ (k, q) ∷ [])) ≡ false)
      × (has_destination_column_name (with_columns (ps ++ (k, q) ∷ (j, p) ∷ [])) ≡ true)
unfolding has_destination_column_name
has_destination_column_name_unsettled ps j k p q named blank = (
  Perm.append_left ps (Perm.swap (k, q) (j, p) []),
  last_named-append false ps (j, p) k q
      ∙ ground (arith, eq_iff q.destination_column_name empty_text),
  last_named-append false ps (k, q) j p
      ∙ ground (arith, eq_iff p.destination_column_name empty_text),
)
