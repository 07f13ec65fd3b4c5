-- ===== src/Destination/Parquet/ObjectStore/Rules.antt =====
-- destination/parquet/parquet_2pc.go: what holds after a chain of S3 calls, whatever their fates.
use olake.Base.{
  String, ◌≡◌, refl, true, false, Option, none, some, List, [], ◌∷◌, arith, is_nil, filterb,
  string_eq, All, subst, sym,
}
use olake.Utils.Path.{has_prefix, sort_strings}
use olake.Base.Assoc.{lookup, insert, delete, keys}
use olake.Destination.Parquet.ObjectStore.{
  Fate, done, lost, refused, World, M, pure, continue, ◌>>=◌, answer, call_with, call, list_s3_keys,
  copy_s3_object, delete_s3_object, write_s3_object, read_s3_object, copy_from, delete_all, both,
}

-- `I` holds at every moment, so also after an error.
module _ {B : Type 0} (I : List (String × B) → Type 0) where
  abbrev pub Post :
      {A : Type 0} → (A → List (String × B) → Type 0) → List Fate → Option A × World B → Type 0
  Post Q fs (none, w) = (is_nil fs ≡ false) × I w.objects
  Post Q fs (some a, w) = (is_nil fs ≡ true → is_nil w.fates ≡ true) × Q a w.objects

  -- From `P`, `m` ends with `Q`, or an error that only a call with a bad fate can make; `I` holds after it.
  abbrev pub Ensures :
      {A : Type 0}
      → (List (String × B) → Type 0)
      → M B A
      → (A → List (String × B) → Type 0)
      → Type 0
  Ensures P m Q = (w : World B) → P w.objects → Post Q w.fates (m w)

  chain-Post :
      {A : Type 0} (Q : A → List (String × B) → Type 0) (fs gs : List Fate) (r : Option A × World B)
      → (is_nil fs ≡ true → is_nil gs ≡ true)
      → Post Q gs r
      → Post Q fs r
  chain-Post Q [] gs (none, w) e p = ground (arith, e refl)
  chain-Post Q (g ∷ fs) gs (none, w) e p = (refl, p.1)
  chain-Post Q fs gs (some a, w) e p = (λ h. p.0 (e h), p.1)

  module _ {A D : Type 0} where
    continue-Ensures :
        (Q : A → List (String × B) → Type 0) (R : D → List (String × B) → Type 0) (f : A → M B D)
        (fs : List Fate) (r : Option A × World B)
        → ((a : A) → Ensures (Q a) (f a) R)
        → Post Q fs r
        → Post R fs (continue r f)
    continue-Ensures Q R f fs (none, w) k h = h
    continue-Ensures Q R f fs (some a, w) k h = chain-Post R fs w.fates (f a w) h.0 (k a w h.1)

    pub >>=-Ensures :
        (P : List (String × B) → Type 0) (m : M B A) (Q : A → List (String × B) → Type 0)
        (f : A → M B D) (R : D → List (String × B) → Type 0)
        → Ensures P m Q
        → ((a : A) → Ensures (Q a) (f a) R)
        → Ensures P (m >>= f) R
    >>=-Ensures P m Q f R h k w p = continue-Ensures Q R f w.fates (m w) k (h w p)

  module _ {A : Type 0} where
    call_with-Post :
        (Q : A → List (String × B) → Type 0) (fs : List Fate) (s t : List (String × B)) (a : A)
        → I s
        → I t
        → Q a t
        → Post Q fs (call_with fs s (some a, t))
    unfolding call_with answer
    call_with-Post Q [] s t a i j q = (λ h. refl, q)
    call_with-Post Q (done ∷ fs) s t a i j q = (λ h. absurd (ground arith), q)
    call_with-Post Q (lost ∷ fs) s t a i j q = (refl, j)
    call_with-Post Q (refused ∷ fs) s t a i j q = (refl, i)

    -- A call that can fail by its fate alone
    pub call-Ensures :
        (P : List (String × B) → Type 0) (Q : A → List (String × B) → Type 0)
        (f : List (String × B) → Option A × List (String × B))
        → ((s : List (String × B))
            → P s
            → (a : A) × (t : List (String × B)) × (f s ≡ (some a, t)) × I s × I t × Q a t)
        → Ensures P (call f) Q
    unfolding call
    call-Ensures P Q f h w p =
        let (a, t, e, i, j, q) = h w.objects p in
        rw e (call_with-Post Q w.fates w.objects t a i j q)

  module _ {A : Type 0} (P : List (String × B) → Type 0) where
    pub pure-Ensures :
        (Q : A → List (String × B) → Type 0) (a : A)
        → ((s : List (String × B)) → P s → Q a s)
        → Ensures P (pure a) Q
    pure-Ensures Q a h w p = (λ e. e, h w.objects p)

    pub weaken-Ensures :
        (P' : List (String × B) → Type 0) (m : M B A) (Q : A → List (String × B) → Type 0)
        → ((s : List (String × B)) → P s → P' s)
        → Ensures P' m Q
        → Ensures P m Q
    weaken-Ensures P' m Q h k w p = k w (h w.objects p)

  module _ (P : List (String × B) → Type 0) (now : (s : List (String × B)) → P s → I s) where
    pub list-Ensures :
        (prefix : String)
        → Ensures P
            (list_s3_keys prefix)
            (λ ks s. P s × (ks ≡ sort_strings (filterb (λ k. has_prefix k prefix) (keys s))))
    unfolding list_s3_keys
    list-Ensures prefix =
        call-Ensures P
          (λ ks s. P s × (ks ≡ sort_strings (filterb (λ k. has_prefix k prefix) (keys s)))) _
          (λ s p. (
            sort_strings (filterb (λ k. has_prefix k prefix) (keys s)),
            s,
            refl,
            now s p,
            now s p,
            (p, refl),
          ))

    pub read-Ensures :
        (key : String) → Ensures P (read_s3_object key) (λ found s. P s × (found ≡ lookup key s))
    unfolding read_s3_object
    read-Ensures key =
        call-Ensures P (λ found s. P s × (found ≡ lookup key s)) _
          (λ s p. (lookup key s, s, refl, now s p, now s p, (p, refl)))

    pub write-Ensures :
        (key : String) (body : B) (Q : Unit {0} → List (String × B) → Type 0)
        → ((s : List (String × B)) → P s → I (insert key body s) × Q tt (insert key body s))
        → Ensures P (write_s3_object key body) Q
    unfolding write_s3_object
    write-Ensures key body Q h =
        call-Ensures P Q _ (λ s p. (tt, insert key body s, refl, now s p, (h s p).0, (h s p).1))

    pub delete-Ensures :
        (key : String) (Q : Unit {0} → List (String × B) → Type 0)
        → ((s : List (String × B)) → P s → I (delete key s) × Q tt (delete key s))
        → Ensures P (delete_s3_object key) Q
    unfolding delete_s3_object
    delete-Ensures key Q h =
        call-Ensures P Q _ (λ s p. (tt, delete key s, refl, now s p, (h s p).0, (h s p).1))

    pub copy-Ensures :
        (source destination : String) (Q : Unit {0} → List (String × B) → Type 0)
        → ((s : List (String × B))
            → P s
            → (b : B) × (lookup source s ≡ some b)
              × I (insert destination b s)
              × Q tt (insert destination b s))
        → Ensures P (copy_s3_object source destination) Q
    unfolding copy_s3_object copy_from
    copy-Ensures source destination Q h =
        call-Ensures P Q _ (λ s p.
          let (b, e, i, q) = h s p in (tt, insert destination b s, rw e refl, now s p, i, q))

module _ {B : Type 0} (I J : List (String × B) → Type 0)
    (imply : (s : List (String × B)) → I s → J s) where
  weaken-Post :
      {A : Type 0} (Q : A → List (String × B) → Type 0) (fs : List Fate) (r : Option A × World B)
      → Post I Q fs r
      → Post J Q fs r
  weaken-Post Q fs (none, w) h = (h.0, imply w.objects h.1)
  weaken-Post Q fs (some a, w) h = h

  -- An invariant that holds through a part alone gives a weaker one.
  pub local-Ensures :
      {A : Type 0} (P : List (String × B) → Type 0) (m : M B A) (Q : A → List (String × B) → Type 0)
      → Ensures I P m Q
      → Ensures J P m Q
  local-Ensures P m Q h w p = weaken-Post Q w.fates (m w) (h w p)

-- Concurrent deletions: each keeps `I`, and takes its key from what `P` says is left.
module _ {B : Type 0} (I : List (String × B) → Type 0) (C : String → Type 0)
    (P : List String → List (String × B) → Type 0)
    (now : (ks : List String) (s : List (String × B)) → P ks s → I s)
    (keep : (k : String) (s : List (String × B)) → C k → I s → I (delete k s))
    (step : (k : String) (ks : List String) (s : List (String × B))
      → C k
      → P (k ∷ ks) s
      → P ks (delete k s)) where
  delete_one :
      (k : String) (ks : List String)
      → C k
      → Ensures I (P (k ∷ ks)) (delete_s3_object k) (λ _ s. P ks s)
  delete_one k ks c =
      delete-Ensures I (P (k ∷ ks)) (now (k ∷ ks)) k (λ _ s. P ks s)
        (λ s p. (keep k s c (now (k ∷ ks) s p), step k ks s c p))

  always : (k : String) → C k → Ensures I I (delete_s3_object k) (λ _ s. I s)
  always k c = delete-Ensures I I (λ s i. i) k (λ _ s. I s) (λ s i. (keep k s c i, keep k s c i))

  holds_after :
      (fs : List Fate) (r : Option (Unit {0}) × World B) → Post I (λ _ s. I s) fs r → I r.1.objects
  holds_after fs (none, w) h = h.1
  holds_after fs (some a, w) h = h.1

  objects-both : (r : Option (Unit {0})) (q : Option (Unit {0}) × World B) → (both r q).1 ≡ q.1
  unfolding both
  objects-both none (q, w) = refl
  objects-both (some u) (q, w) = refl

  delete_all-keeps :
      (ks : List String) (w : World B) → All C ks → I w.objects → I (delete_all ks w).1.objects
  unfolding delete_all
  delete_all-keeps [] w c i = i
  delete_all-keeps (k ∷ ks) w c i =
      let r = delete_s3_object k w in
      subst (λ v. I v.objects) (sym (objects-both r.0 (delete_all ks r.1)))
        (delete_all-keeps ks r.1 c.1 (holds_after w.fates r (always k c.0 w i)))

  both-Post :
      (ks : List String) (fs : List Fate) (r : Option (Unit {0}) × World B)
      → All C ks
      → ((w : World B) → P ks w.objects → Post I (λ _ s. P [] s) w.fates (delete_all ks w))
      → Post I (λ _ s. P ks s) fs r
      → Post I (λ _ s. P [] s) fs (both r.0 (delete_all ks r.1))
  unfolding both
  both-Post ks fs (none, w) c rest h = (h.0, delete_all-keeps ks w c h.1)
  both-Post ks fs (some u, w) c rest h =
      chain-Post I (λ _ s. P [] s) fs w.fates (delete_all ks w) h.0 (rest w h.1)

  pub delete_all-Ensures :
      (ks : List String) → All C ks → Ensures I (P ks) (delete_all ks) (λ _ s. P [] s)
  unfolding delete_all
  delete_all-Ensures [] c w p = (λ e. e, p)
  delete_all-Ensures (k ∷ ks) c w p =
      both-Post ks w.fates (delete_s3_object k w) c.1 (delete_all-Ensures ks c.1)
        (delete_one k ks c.0 w p)
