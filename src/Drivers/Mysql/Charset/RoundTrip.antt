-- ===== src/Drivers/Mysql/Charset/RoundTrip.antt =====
-- drivers/mysql/internal/backfill.go: the texts over the charset and the numbers, one for one.
use olake.Base.{
  ℕ, zero, suc, ◌+◌, ◌-◌, ◌*◌, ◌%◌, ◌≤◌, ◌<◌, ◌≡◌, refl, sym, ap, ◌∙◌, subst, Bool, true, false,
  Option, none, some, List, [], ◌∷◌, ◌++◌, arith, ◌==◌, nat_eq, reverse, append_assoc, append_nil,
  reverse-snoc, reverse-reverse, every_below, every_below_sound, nat_beq_iff, Bool-cases,
  Option-cases, inl, inr, ap₂,
}
use mathlib.Core.Option.{some-injective, some-ne-none}
use olake.Utils.Arrays.{array_contains, array_contains-passes}
use olake.Drivers.Mysql.Charset.{
  Rune, charset, charset_base, char_to_index, index_to_char, rune_or_zero, encode_from,
  encode_charset_string, last_digit, other_digits, decode_loop, decode_charset_string,
}

is_index : ℕ → Option ℕ → Bool
is_index i none = false
is_index i (some j) = i == j

is_index_sound : (i : ℕ) (o : Option ℕ) → is_index i o ≡ true → o ≡ some i
unfolding is_index
is_index_sound i none h = ground arith
is_index_sound i (some j) h = ap some (sym ((nat_beq_iff i j).0 h))

-- Each index from 1 to 95 has a rune of its own.
index-index_to_char :
    (i : ℕ) → i < charset_base → char_to_index (index_to_char (suc i)) ≡ some (suc i)
unfolding char_to_index index_to_char rune_or_zero array_contains is_index every_below
index-index_to_char i lt = is_index_sound (suc i) _ (
    every_below_sound charset_base (λ j. is_index (suc j) (char_to_index (index_to_char (suc j)))) i
      lt refl)

last_digit-pos : (x : ℕ) → (d : ℕ) × (last_digit x ≡ suc d) × (d < charset_base)
last_digit-pos x = elim (Bool-cases (x % charset_base == 0)) [
  | inl whole ↦ (94, rw whole refl, omega arith)
  | inr part ↦ (x % charset_base - 1, ground arith, ground arith)
]

digits_lem : (x : ℕ) → 0 < x → other_digits x * charset_base + last_digit x ≡ x
digits_lem x pos = ground arith

other_digits-lt : (x : ℕ) → 0 < x → other_digits x < x
other_digits-lt x pos = ground arith

-- The digits of a number that one rune was added to
last_digit-add : (v d : ℕ) → d < charset_base → last_digit (v * charset_base + suc d) ≡ suc d
last_digit-add v d lt = ground arith

other_digits-add : (v d : ℕ) → d < charset_base → other_digits (v * charset_base + suc d) ≡ v
other_digits-add v d lt = ground arith

-- A round with a number that is not zero
decode_loop-step :
    (fuel x : ℕ) (runes : List Rune)
    → 0 < x
    → decode_loop (suc fuel) x runes
      ≡ decode_loop fuel (other_digits x) (runes ++ index_to_char (last_digit x) ∷ [])
unfolding decode_loop
decode_loop-step fuel x runes pos = ground arith

decode_loop-zero : (fuel : ℕ) (runes : List Rune) → decode_loop fuel 0 runes ≡ runes
unfolding decode_loop
decode_loop-zero zero runes = refl
decode_loop-zero (suc fuel) runes = refl

encode_from-index :
    (v d : ℕ) (s : List Rune)
    → d < charset_base
    → encode_from v (index_to_char (suc d) ∷ s) ≡ encode_from (v * charset_base + suc d) s
unfolding encode_from
encode_from-index v d s lt = rw (encode_from, index-index_to_char d lt) refl

-- Encoding what the loop gives, in reverse, goes on from the number with the runes it began with.
encode-decode_loop :
    (fuel x : ℕ) (runes : List Rune)
    → x ≤ fuel
    → encode_from 0 (reverse (decode_loop fuel x runes)) ≡ encode_from x (reverse runes)
unfolding decode_loop
encode-decode_loop zero x runes le = ap (λ v. encode_from v (reverse runes)) (omega arith)
encode-decode_loop (suc fuel) x runes le = elim (Bool-cases (x == 0)) [
  | inl done ↦
      let e : x ≡ 0 = (nat_beq_iff x 0).0 done in
      rw e (ap (λ rs. encode_from 0 (reverse rs)) (decode_loop-zero (suc fuel) runes))
  | inr more ↦
      let pos : 0 < x = ground arith in
      let (d, digit, lt) = last_digit-pos x in
      ap (λ rs. encode_from 0 (reverse rs)) (decode_loop-step fuel x runes pos)
      ∙ encode-decode_loop fuel (other_digits x) (runes ++ index_to_char (last_digit x) ∷ [])
          (omega (arith, other_digits-lt x pos))
      ∙ ap (encode_from (other_digits x)) (reverse-snoc runes (index_to_char (last_digit x)))
      ∙ ap (λ i. encode_from (other_digits x) (index_to_char i ∷ reverse runes)) digit
      ∙ encode_from-index (other_digits x) d (reverse runes) lt
      ∙ ap (λ v. encode_from v (reverse runes))
          (ap (λ i. other_digits x * charset_base + i) (sym digit) ∙ digits_lem x pos)
]

-- Every number is the encoding of the text that it decodes to: the text is over the charset.
pub encode-decode_charset_string :
    (n : ℕ) → encode_charset_string (decode_charset_string n) ≡ some n
unfolding encode_charset_string decode_charset_string encode_from
encode-decode_charset_string n = elim (Bool-cases (n == 0)) [
  | inl done ↦ let e : n ≡ 0 = (nat_beq_iff n 0).0 done in rw e refl
  | inr more ↦ rw more (encode-decode_loop n n [] (omega arith))
]

-- More fuel than the number changes nothing.
decode_loop-fuel :
    (f g x : ℕ) (runes : List Rune) → x ≤ f → x ≤ g → decode_loop f x runes ≡ decode_loop g x runes
unfolding decode_loop
decode_loop-fuel zero zero x runes lf lg = refl
decode_loop-fuel zero (suc g) x runes lf lg = let e : x ≡ 0 = omega arith in rw e refl
decode_loop-fuel (suc f) zero x runes lf lg = let e : x ≡ 0 = omega arith in rw e refl
decode_loop-fuel (suc f) (suc g) x runes lf lg = elim (Bool-cases (x == 0)) [
  | inl done ↦ rw done refl
  | inr more ↦
      let pos : 0 < x = ground arith in
      decode_loop-step f x runes pos
      ∙ decode_loop-fuel f g (other_digits x) _ (omega (arith, other_digits-lt x pos))
          (omega (arith, other_digits-lt x pos))
      ∙ sym (decode_loop-step g x runes pos)
]

-- A rune that has an index is the rune of that index.
index_to_char-index :
    (c : Rune) (i : ℕ)
    → char_to_index c ≡ some i
    → (d : ℕ) × (i ≡ suc d) × (d < charset_base) × (index_to_char (suc d) ≡ c)
unfolding char_to_index index_to_char rune_or_zero
index_to_char-index c i h = elim (Option-cases (array_contains charset (λ r. r == c))) [
  | inl out ↦ absurd (some-ne-none i (sym h ∙ rw (char_to_index, out) refl))
  | inr (d, found) ↦
      let (r, at, hit, lt) = array_contains-passes charset (λ r. r == c) d found in
      (
        d,
        some-injective i (suc d) (sym h ∙ rw (char_to_index, found) refl),
        lt,
        ap rune_or_zero at ∙ (nat_beq_iff r c).0 hit,
      )
]

decode_loop-index :
    (v d : ℕ) (runes : List Rune)
    → d < charset_base
    → decode_loop (v * charset_base + suc d) (v * charset_base + suc d) runes
      ≡ decode_loop v v (runes ++ index_to_char (suc d) ∷ [])
decode_loop-index v d runes lt =
    decode_loop-fuel (v * charset_base + suc d) (suc (v * charset_base + d))
      (v * charset_base + suc d) runes (omega arith) (omega arith)
    ∙ decode_loop-step (v * charset_base + d) (v * charset_base + suc d) runes (omega arith)
    ∙ ap₂ (λ x i. decode_loop (v * charset_base + d) x (runes ++ index_to_char i ∷ []))
        (other_digits-add v d lt) (last_digit-add v d lt)
    ∙ decode_loop-fuel (v * charset_base + d) v v _ (omega arith) (omega arith)

decode_loop-encode :
    (s : List Rune) (v n : ℕ) (runes : List Rune)
    → encode_from v s ≡ some n
    → decode_loop n n runes ≡ decode_loop v v (runes ++ reverse s)
unfolding encode_from
decode_loop-encode [] v n runes h =
    let e : v ≡ n = some-injective v n h in
    subst (λ k. decode_loop k k runes ≡ decode_loop v v (runes ++ [])) e
      (ap (decode_loop v v) (sym (append_nil runes)))
decode_loop-encode (c ∷ s) v n runes h = elim (Option-cases (char_to_index c)) [
  | inl out ↦ absurd (some-ne-none n (sym h ∙ rw (encode_from, out) refl))
  | inr (i, has) ↦
      let (d, e, lt, own) = index_to_char-index c i has in
      decode_loop-encode s (v * charset_base + suc d) n runes (
        ap (λ j. encode_from (v * charset_base + j) s) (sym e)
        ∙ sym (rw (encode_from, has) refl)
        ∙ h)
      ∙ decode_loop-index v d (runes ++ reverse s) lt
      ∙ ap (decode_loop v v)
          (ap (λ r. (runes ++ reverse s) ++ r ∷ []) own ∙ append_assoc runes (reverse s) (c ∷ []))
]

decode-loop : (n : ℕ) → decode_charset_string n ≡ reverse (decode_loop n n [])
unfolding decode_charset_string decode_loop
decode-loop zero = refl
decode-loop (suc n) = let e : (suc n == 0) ≡ false = ground arith in rw e refl

-- A text that has an encoding is what its encoding decodes to.
pub decode-encode_charset_string :
    (s : List Rune) (n : ℕ) → encode_charset_string s ≡ some n → decode_charset_string n ≡ s
unfolding encode_charset_string
decode-encode_charset_string s n h =
    decode-loop n
    ∙ ap reverse (decode_loop-encode s 0 n [] h ∙ decode_loop-zero 0 (reverse s))
    ∙ reverse-reverse s
