-- ===== src/Utils/Path.antt =====
-- The functions of Go's `strings` and `path` that build and take apart the keys of objects: prefixes,
-- cuts at a slash, and `path.Join` with its cleaning.
use Prim.Native.Char.{Char, code}
use Prim.Native.String.{◌++◌ as append, compare}
use text.Mathlib.Text.{is_le}
use text.Mathlib.TextLemmas.{cons-append}
use olake.Base.{
  String, Bool, true, false, ◌&&◌, ◌||◌, ◌≡◌, refl, ap, ◌∙◌, arith, eq_iff, Distinct, Bool-cases,
  inl, inr, Option, none, some, List, [], ◌∷◌, nat_beq, if◌then◌else◌, ◌==◌, string_eq, reverse,
  is_nil, elem,
}
use olake.Utils.Text.{empty_text, split}

-- strings.HasPrefix
unfoldable pub has_prefix : String → String → Bool
has_prefix s String.[] = true
has_prefix String.[] (String.◌∷◌ d p) = false
has_prefix (String.◌∷◌ c s) (String.◌∷◌ d p) = nat_beq (code c) (code d) && has_prefix s p

drop_prefix : String → String → String
drop_prefix s String.[] = s
drop_prefix String.[] (String.◌∷◌ d p) = String.[]
drop_prefix (String.◌∷◌ c s) (String.◌∷◌ d p) = drop_prefix s p

-- strings.TrimPrefix
unfoldable pub trim_prefix : String → String → String
unfolding drop_prefix has_prefix
trim_prefix s p = if has_prefix s p then drop_prefix s p else s

abbrev is_slash : Char → Bool
is_slash c = nat_beq (code c) b'/'

-- strings.TrimLeft(s, "/")
unfoldable pub trim_left_slashes : String → String
trim_left_slashes String.[] = String.[]
trim_left_slashes (String.◌∷◌ c s) =
    let rest = trim_left_slashes s in if is_slash c then rest else String.◌∷◌ c s

trim_right_slashes : String → String
trim_right_slashes String.[] = String.[]
trim_right_slashes (String.◌∷◌ c s) =
    let rest = trim_right_slashes s in
    if is_slash c && rest == empty_text then empty_text else String.◌∷◌ c rest

-- strings.Trim(s, "/")
unfoldable pub trim_slashes : String → String
unfolding trim_left_slashes trim_right_slashes
trim_slashes s = trim_right_slashes (trim_left_slashes s)

before_cut : Char → Option (String × String) → Option (String × String)
before_cut c none = none
before_cut c (some (a, b)) = some (String.◌∷◌ c a, b)

-- strings.SplitN(s, "/", 2), where it gives two parts
unfoldable pub cut_slash : String → Option (String × String)
unfolding before_cut
cut_slash String.[] = none
cut_slash (String.◌∷◌ c s) =
    let rest = before_cut c (cut_slash s) in if is_slash c then some (empty_text, s) else rest

-- strings.Join with a slash
unfoldable pub join_slash : List String → String
join_slash [] = empty_text
join_slash (p ∷ ps) =
    let rest = join_slash ps in if is_nil ps then p else append p (append "/" rest)

-- A `..` takes the last part away, unless there is none or it is a `..` itself.
pop_part : Bool → List String → List String
pop_part rooted [] = if rooted then [] else ".." ∷ []
pop_part rooted (q ∷ done) = if q == ".." then ".." ∷ q ∷ done else done

clean_parts : Bool → List String → List String → List String
unfolding pop_part
clean_parts rooted done [] = reverse done
clean_parts rooted done (p ∷ ps) =
    clean_parts rooted
      (if elem p ("" ∷ "." ∷ [])
        then done
        else if p == ".."
        then pop_part rooted done
        else p ∷ done)
      ps

-- path.Clean
unfoldable pub clean : String → String
unfolding clean_parts join_slash split has_prefix
clean s =
    let rooted = has_prefix s "/" in
    let body = join_slash (clean_parts rooted [] (split "/" s)) in
    if rooted then append "/" body else if body == empty_text then "." else body

-- path.Join of two elements
unfoldable pub join : String → String → String
unfolding clean
join a b =
    if a == empty_text
    then (if b == empty_text then empty_text else clean b)
    else if b == empty_text
    then clean a
    else clean (append a (append "/" b))

join_test : join "db/./t" "../u//x" ≡ "db/u/x"
unfolding join
join_test = refl

-- sort.Strings: the order of code points is that of the bytes of UTF-8.
insert_sorted : String → List String → List String
insert_sorted s [] = s ∷ []
insert_sorted s (t ∷ ts) =
    let later = insert_sorted s ts in if is_le (compare s t) then s ∷ t ∷ ts else t ∷ later

unfoldable pub sort_strings : List String → List String
unfolding insert_sorted
sort_strings [] = []
sort_strings (s ∷ ss) = insert_sorted s (sort_strings ss)

sort_strings_test : sort_strings ("b/x" ∷ "a" ∷ "b" ∷ []) ≡ "a" ∷ "b" ∷ "b/x" ∷ []
unfolding sort_strings
sort_strings_test = refl

elem-insert_sorted :
    (a s : String) (ss : List String) → elem a (insert_sorted s ss) ≡ (s == a || elem a ss)
unfolding insert_sorted
elem-insert_sorted a s [] = refl
elem-insert_sorted a s (t ∷ ts) = elim (Bool-cases (is_le (compare s t))) [
  | inl h ↦ rw h refl
  | inr h ↦ rw h (ground (arith, elem-insert_sorted a s ts))
]

-- Sorting keeps the elements.
pub elem-sort_strings : (a : String) (ss : List String) → elem a (sort_strings ss) ≡ elem a ss
unfolding sort_strings
elem-sort_strings a [] = refl
elem-sort_strings a (s ∷ ss) =
    elem-insert_sorted a s (sort_strings ss) ∙ ap (λ b. s == a || b) (elem-sort_strings a ss)

insert_sorted-Distinct :
    (s : String) (ss : List String)
    → Distinct ss
    → elem s ss ≡ false
    → Distinct (insert_sorted s ss)
unfolding insert_sorted
insert_sorted-Distinct s [] d h = (refl, tt)
insert_sorted-Distinct s (t ∷ ts) d h = elim (Bool-cases (is_le (compare s t))) [
  | inl le ↦ rw le (h, d)
  | inr gt ↦ rw gt (
    ground (arith, elem-insert_sorted t s ts, eq_iff s t, eq_iff t s),
    insert_sorted-Distinct s ts d.1 (ground arith),
  )
]

pub sort_strings-Distinct : (ss : List String) → Distinct ss → Distinct (sort_strings ss)
unfolding sort_strings
sort_strings-Distinct [] d = tt
sort_strings-Distinct (s ∷ ss) d =
    insert_sorted-Distinct s (sort_strings ss) (sort_strings-Distinct ss d.1)
      (elem-sort_strings s ss ∙ d.0)

-- A text begins with what it is put together from.
pub has_prefix-append : (s t : String) → has_prefix (append s t) s ≡ true
unfolding has_prefix
has_prefix-append String.[] t = prefix_nil (append String.[] t)
  where
    prefix_nil : (s : String) → has_prefix s String.[] ≡ true
    prefix_nil String.[] = refl
    prefix_nil (String.◌∷◌ c s) = refl
has_prefix-append (String.◌∷◌ c s) t =
    rw (cons-append c s t) (ground (arith, has_prefix-append s t))
