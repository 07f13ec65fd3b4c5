-- ===== src/Destination/Parquet/ObjectStore.antt =====
-- destination/parquet/parquet_2pc.go: the calls of S3, over a bucket that is a map from keys to bodies
-- of the type `B`. What becomes of a call with its retries is up to the environment: it is done, it is
-- refused without an effect, or it has its effect and the answer is lost. A process that stops is one
-- whose next call is refused. Error values are not told apart: an error is `none`.
pub mod Rules
use olake.Base.{
  String, ◌≡◌, refl, Bool, true, false, Option, none, some, List, [], ◌∷◌, if◌then◌else◌, ◌==◌,
  string_eq, filterb,
}
use olake.Base.Assoc.{lookup, insert, delete, keys}
use olake.Utils.Path.{has_prefix, sort_strings}

pub data Fate : Type 0 where
  done lost refused : Fate

-- The bucket, and the fates of the calls to come; where none is given any more, calls are done.
pub record World (B : Type 0) : Type 0 where
  pub objects : List (String × B)
  pub fates : List Fate

abbrev pub world : {B : Type 0} → List (String × B) → List Fate → World B
world s fs = record { objects = s; fates = fs }

abbrev pub M : Type 0 → Type 0 → Type 0
M B A = World B → Option A × World B

module _ {B A : Type 0} where
  abbrev pub pure : A → M B A
  pure a w = (some a, w)

  abbrev pub fail : M B A
  fail w = (none, w)

module _ {B A D : Type 0} where
  abbrev pub continue : Option A × World B → (A → M B D) → Option D × World B
  continue (none, w) f = (none, w)
  continue (some a, w) f = f a w

  infixl 5 ◌>>=◌ ◌>>◌
  abbrev pub ◌>>=◌ : M B A → (A → M B D) → M B D
  ◌>>=◌ m f w = continue (m w) f

  abbrev pub ◌>>◌ : M B A → M B D → M B D
  m >> k = m >>= λ _. k

module _ {B A : Type 0} where
  pub answer :
      Fate → List Fate → List (String × B) → Option A × List (String × B) → Option A × World B
  answer done fs s r = (r.0, world r.1 fs)
  answer lost fs s r = (none, world r.1 fs)
  answer refused fs s r = (none, world s fs)

  pub call_with : List Fate → List (String × B) → Option A × List (String × B) → Option A × World B
  unfolding answer
  call_with [] s r = answer done [] s r
  call_with (f ∷ fs) s r = answer f fs s r

  unfoldable pub call : (List (String × B) → Option A × List (String × B)) → M B A
  unfolding call_with
  call f w = call_with w.fates w.objects (f w.objects)

module _ {B : Type 0} where
  -- listS3Keys
  unfoldable pub list_s3_keys : String → M B (List String)
  unfolding call
  list_s3_keys prefix =
      call λ s. (some (sort_strings (filterb (λ k. has_prefix k prefix) (keys s))), s)

  copy_from : String → List (String × B) → Option B → Option (Unit {0}) × List (String × B)
  copy_from destination s none = (none, s)
  copy_from destination s (some body) = (some tt, insert destination body s)

  -- copyS3Object: S3 refuses to copy a key that is not there.
  unfoldable pub copy_s3_object : String → String → M B (Unit {0})
  unfolding copy_from call
  copy_s3_object source destination = call λ s. copy_from destination s (lookup source s)

  -- deleteS3Object, which succeeds on a key that is not there
  unfoldable pub delete_s3_object : String → M B (Unit {0})
  unfolding call
  delete_s3_object key = call λ s. (some tt, delete key s)

  -- writeS3Object
  unfoldable pub write_s3_object : String → B → M B (Unit {0})
  unfolding call
  write_s3_object key body = call λ s. (some tt, insert key body s)

  -- readS3Object, where a missing key, on which isS3ObjectNotFound holds, is `some none`
  unfoldable pub read_s3_object : String → M B (Option B)
  unfolding call
  read_s3_object key = call λ s. (some (lookup key s), s)

  both : Option (Unit {0}) → Option (Unit {0}) × World B → Option (Unit {0}) × World B
  both none (r, w) = (none, w)
  both (some u) (r, w) = (r, w)

  -- utils.Concurrent of deletes: each is tried, and one error is enough. After an error the
  -- others see their context cancelled, or are done before: their fates say which.
  unfoldable pub delete_all : List String → M B (Unit {0})
  unfolding both
  delete_all [] w = (some tt, w)
  delete_all (k ∷ ks) w = let (r, w') = delete_s3_object k w in both r (delete_all ks w')

  -- utils.Concurrent of uploads, in the same way
  unfoldable pub write_all : List (String × B) → M B (Unit {0})
  unfolding both
  write_all [] w = (some tt, w)
  write_all ((k, body) ∷ ks) w = let (r, w') = write_s3_object k body w in both r (write_all ks w')
