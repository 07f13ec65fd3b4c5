-- ===== src/Types/Catalog/UpdateTypes.antt =====
-- types/catalog.go: the delete format of a stream across discoveries.
use olake.Base.{
  String, ◌≡◌, refl, ◌∙◌, Bool, true, false, List, ◌&&◌, arith, if◌then◌else◌, string_eq, is_nil,
  elem, eq_iff, Bool-cases, inl, inr,
}
use olake.Utils.Text.{empty_text}
use olake.Types.UpdateType.{
  UpdateType, equality, readable_by_all, writable_update_types, QueryEngine,
}
use olake.Types.UpdateType.Available.{elem-available}
use olake.Types.Configured.{StreamMetadata}
use olake.Types.Catalog.{merge_update_type}
use olake.Types.Catalog.Delta.{or_equality}

abbrev pub is_usable : List QueryEngine → UpdateType → Bool
is_usable es u = elem u writable_update_types && readable_by_all es u

or_equality_idem : (u : String) → or_equality (or_equality u) ≡ or_equality u
or_equality_idem u = ground (arith, eq_iff u empty_text)

again :
    (u x : String) (usable : String → Bool)
    → usable equality ≡ true
    → x ≡ (if usable (or_equality u) then or_equality u else "")
    → (if usable (or_equality x) then or_equality x else "")
      ≡ (if usable (or_equality u) then or_equality u else equality)
again u x usable r e = elim (Bool-cases (usable (or_equality u))) [
  | inl keep ↦
      let e' : x ≡ or_equality u = rw keep at e in rw (keep, e', or_equality_idem u, keep) refl
  | inr clear ↦ let e' : x ≡ "" = rw clear at e in rw (clear, e', r) refl
]

module _ {V : Type 0} where
  -- With target engines, a merge keeps the format of a stream, where blank counts as equality,
  -- exactly when OLake writes it and every engine reads it, and clears it otherwise.
  pub merge_update_type_lem :
      (m : StreamMetadata V) (es : List QueryEngine)
      → is_nil es ≡ false
      → (merge_update_type m es).update_type
        ≡ (if is_usable es (or_equality m.update_type) then or_equality m.update_type else "")
  unfolding merge_update_type
  merge_update_type_lem m es h = ground (arith, elem-available es (or_equality m.update_type))

  -- Two discoveries in a row with the same target engines, all of which read equality deletes: a
  -- format that the first clears is equality after the second.
  pub merge_update_type-again :
      (m : StreamMetadata V) (es : List QueryEngine)
      → is_nil es ≡ false
      → readable_by_all es equality ≡ true
      → (merge_update_type (merge_update_type m es) es).update_type
        ≡ (if is_usable es (or_equality m.update_type) then or_equality m.update_type else equality)
  merge_update_type-again m es h r =
      merge_update_type_lem (merge_update_type m es) es h
      ∙ again m.update_type (merge_update_type m es).update_type (is_usable es) r
          (merge_update_type_lem m es h)
