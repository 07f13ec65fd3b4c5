-- ===== src/Types/UpdateType/Available.antt =====
-- types/query_engine.go and types/delete_mode.go: what is offered is what every engine reads.
use olake.Base.{
  String, ◌≡◌, ◌↔◌, refl, sym, true, false, not, false≢true, List, [], ◌∷◌, ◌++◌, ◌&&◌,
  if◌then◌else◌, Bool, ◌||◌, any, Bool-cases, inl, inr, elem-append, ap, ◌∙◌, elem, arith, is_nil,
  ◌==◌, string_eq, eq_iff, Distinct, All, All-append, snoc-Distinct, if-elim, not-false,
}
use olake.Utils.Text.{to_lower, trim_space, empty_text}
use olake.Types.UpdateType.{
  UpdateType, QueryEngine, writable_update_types, lookup_engine, readable_by_all, available_loop,
  available_update_types, preferred_update_type, validate_against, valid, ParseResult, engines,
  unknown_engine, parse_loop, parse_query_engines, is_known,
}

elem-available_loop :
    (es : List QueryEngine) (us : List UpdateType) (u : UpdateType)
    → elem u (available_loop es us) ≡ (elem u us && readable_by_all es u)
unfolding available_loop
elem-available_loop es [] u = refl
elem-available_loop es (w ∷ us) u = ground (arith, elem-available_loop es us u, eq_iff w u)

-- A delete format is offered exactly when OLake writes it and every target engine reads it.
pub elem-available :
    (es : List QueryEngine) (u : UpdateType)
    → elem u (available_update_types es) ≡ (elem u writable_update_types && readable_by_all es u)
unfolding available_update_types
elem-available es u = elem-available_loop es writable_update_types u

readable-append :
    (es fs : List QueryEngine) (u : UpdateType)
    → readable_by_all (es ++ fs) u ≡ (readable_by_all es u && readable_by_all fs u)
unfolding readable_by_all
readable-append [] fs u = refl
readable-append (e ∷ es) fs u = ground (arith, readable-append es fs u)

-- More target engines never widen the choice: the formats offered to two groups of engines together
-- are those that each group is offered.
pub available-append :
    (es fs : List QueryEngine) (u : UpdateType)
    → elem u (available_update_types (es ++ fs))
      ≡ (elem u (available_update_types es) && elem u (available_update_types fs))
available-append es fs u = ground (
  arith,
  elem-available (es ++ fs) u,
  elem-available es u,
  elem-available fs u,
  readable-append es fs u,
)

preferred-elem :
    (us : List UpdateType) → is_nil us ≡ false → elem (preferred_update_type us) us ≡ true
unfolding preferred_update_type
preferred-elem [] h = absurd (false≢true (sym h))
preferred-elem (u ∷ us) h = ground (arith, eq_iff u u)

-- Where some format is offered to the engines, ValidateAgainst accepts exactly those that are offered.
pub validate_against-available :
    (es : List QueryEngine) (u : UpdateType)
    → is_nil (available_update_types es) ≡ false
    → (validate_against u (available_update_types es) ≡ valid)
      ↔ (elem u (available_update_types es) ≡ true)
unfolding validate_against
validate_against-available es u h = ground (arith, elem-available es u)

-- The default that discovery proposes passes ValidateAgainst, whenever some format is offered.
pub preferred-valid :
    (es : List QueryEngine)
    → is_nil (available_update_types es) ≡ false
    → validate_against
        (preferred_update_type (available_update_types es))
        (available_update_types es)
      ≡ valid
preferred-valid es h =
    (validate_against-available es (preferred_update_type (available_update_types es)) h).1
      (preferred-elem (available_update_types es) h)

-- An engine that the matrix knows.
abbrev pub IsKnown : QueryEngine → Type 0
IsKnown e = is_known (lookup_engine e) ≡ true

abbrev pub cleaned : String → QueryEngine
cleaned v = to_lower (trim_space v)

-- A value that is not blank and names no engine, and one that names a given engine
abbrev pub is_stray : String → Bool
is_stray v = not (cleaned v == empty_text) && not (is_known (lookup_engine (cleaned v)))

abbrev pub names : QueryEngine → String → Bool
names e v = not (cleaned v == empty_text) && cleaned v == e

-- The engines that values name, after those that are there, or the first value that is wrong
abbrev pub Parsed : List QueryEngine → List String → ParseResult → Type 0
Parsed before vs (engines es) =
    (any is_stray vs ≡ false)
    × All IsKnown es
    × Distinct es
    × ((e : QueryEngine) → elem e es ≡ (elem e before || any (names e) vs))
Parsed before vs (unknown_engine v) =
    (ahead : List String) × (rest : List String) × (vs ≡ ahead ++ v ∷ rest)
    × (any is_stray ahead ≡ false)
    × (is_stray v ≡ true)

skip-Parsed :
    (before next : List QueryEngine) (v : String) (vs : List String) (r : ParseResult)
    → is_stray v ≡ false
    → ((e : QueryEngine) → elem e next ≡ (elem e before || names e v))
    → Parsed next vs r
    → Parsed before (v ∷ vs) r
skip-Parsed before next v vs (engines es) ok same (none_stray, known, d, all_named) =
    (ground arith, known, d, λ e. all_named e ∙ ground (arith, same e))
skip-Parsed before next v vs (unknown_engine w) ok same (ahead, rest, split, fine, stray) =
    (v ∷ ahead, rest, ap (λ l. v ∷ l) split, ground arith, stray)

add-same :
    (es : List QueryEngine) (v : String) (e : QueryEngine)
    → (cleaned v == empty_text) ≡ false
    → elem e (if elem (cleaned v) es then es else es ++ cleaned v ∷ []) ≡ (elem e es || names e v)
add-same es v e n = elim (Bool-cases (elem (cleaned v) es)) [
  | inl old ↦ elim (Bool-cases (cleaned v == e)) [
    | inl hit ↦
        let here : elem e es ≡ true =
          ap (λ x. elem x es) (sym ((eq_iff (cleaned v) e).0 hit)) ∙ old in
        rw (old, here) refl
    | inr miss ↦ rw (old, n, miss) (ground arith)
  ]
  | inr new ↦
      rw (new, n)
        (elem-append e es (cleaned v ∷ [])
          ∙ ground (arith, eq_iff (cleaned v) e, eq_iff e (cleaned v)))
]

parse_loop-Parsed :
    (es : List QueryEngine) (vs : List String)
    → All IsKnown es
    → Distinct es
    → Parsed es vs (parse_loop es vs)
unfolding parse_loop
parse_loop-Parsed es [] known d = (refl, known, d, λ e. ground arith)
parse_loop-Parsed es (v ∷ vs) known d =
    let e = cleaned v in
    if-elim (Parsed es (v ∷ vs)) (e == empty_text) _ _
      (λ blank.
        skip-Parsed es es v vs _ (ground arith) (λ f. ground arith)
          (parse_loop-Parsed es vs known d))
      (λ n.
        if-elim (Parsed es (v ∷ vs)) (not (is_known (lookup_engine e))) _ _
          (λ h. ([], vs, refl, refl, ground arith))
          (λ h.
            skip-Parsed es _ v vs _ (ground arith) (λ f. add-same es v f n)
              (parse_loop-Parsed (if elem e es then es else es ++ e ∷ []) vs
                (if-elim (All IsKnown) (elem e es) es (es ++ e ∷ []) (λ _. known)
                  (λ _. All-append IsKnown es (e ∷ []) known (not-false _ h, tt)))
                (if-elim Distinct (elem e es) es (es ++ e ∷ []) (λ _. d)
                  (λ n. snoc-Distinct e es d n)))))

-- ParseQueryEngines fails exactly on a value that is not blank and, trimmed and in lower case, is no engine, and its
-- error names the first such value. Else it returns the engines that the values name, each of them known, each once,
-- and no others.
pub parse_query_engines-Parsed : (vs : List String) → Parsed [] vs (parse_query_engines vs)
unfolding parse_query_engines
parse_query_engines-Parsed vs = parse_loop-Parsed [] vs tt tt
