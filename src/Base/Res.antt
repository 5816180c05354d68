-- ===== src/Base/Res.antt =====
-- compiler/include/mlk/core/result.h: error codes and the fallible result, without the messages.
use Prim.Native.Nat.{suc}
use mathlib.Core.Path.{◌≡◌, refl, subst, ap}
use mathlib.Core.Logic.{◌⊎◌, inl, inr}
use mathlib.Core.List.{List, [], ◌∷◌}
use mlk.Base.Lists.{All, length}

-- `ErrorCode`; its first value, `Ok`, is never the code of an error.
pub data ErrorCode : Type 0 where
  no_error invalid_argument invalid_graph invalid_artifact unsupported_capability : ErrorCode
  unimplemented budget_exceeded verification_failed proof_invalid accuracy_violation : ErrorCode
  effect_illegal cache_invalid parse_error io_error cancelled resource_exhausted internal :
      ErrorCode

pub data Result {ℓ} (T : Type ℓ) : Type ℓ where
  ok : T → Result T
  err : ErrorCode → Result T

-- `MLK_TRY_VAR`: go on with the value, or return the error.
infixl 5 ◌>>=◌
abbrev pub ◌>>=◌ {ℓ κ} : {T : Type ℓ} {U : Type κ} → Result T → (T → Result U) → Result U
ok value >>= next = next value
err code >>= next = err code

pub ok_inj {ℓ} : {A : Type ℓ} {a b : A} → ok a ≡ ok b → a ≡ b
ok_inj h = cc

-- What a call comes to where the source has a precondition of C++: it returns, or its behaviour is
-- undefined.
pub data Run {ℓ} (A : Type ℓ) : Type ℓ where
  undefined : Run A
  returns : A → Run A

abbrev pub after {ℓ κ} : {A : Type ℓ} {B : Type κ} → Run A → (A → Run B) → Run B
after undefined next = undefined
after (returns a) next = next a

pub returns_inj {ℓ} : {A : Type ℓ} {a b : A} → returns a ≡ returns b → a ≡ b
returns_inj h = cc

pub after-eq-returns {ℓ κ} :
    {A : Type ℓ} {B : Type κ} (m : Run A) (next : A → Run B) {b : B}
    → after m next ≡ returns b
    → (a : A) × (m ≡ returns a) × (next a ≡ returns b)
after-eq-returns undefined next e = cc
after-eq-returns (returns a) next e = (a, refl, e)

-- Inversion of a successful bind.
pub >>=-eq-ok {ℓ κ} :
    {T : Type ℓ} {U : Type κ} (tried : Result T) (next : T → Result U) {u : U}
    → (tried >>= next) ≡ ok u
    → (t : T) × (tried ≡ ok t) × (next t ≡ ok u)
>>=-eq-ok (ok value) next e = (value, refl, e)
>>=-eq-ok (err code) next e = cc

pub Result-cases {ℓ} :
    {A : Type ℓ} (m : Result A) → ((a : A) × (m ≡ ok a)) ⊎ ((e : ErrorCode) × (m ≡ err e))
Result-cases (ok a) = inl (a, refl)
Result-cases (err e) = inr (e, refl)

-- The loop that pushes the value of a fallible call on every element, and stops at an error.
module _ {ℓ κ} {A : Type ℓ} {B : Type κ} (f : A → Result B) where
  unfoldable pub traverse : List A → Result (List B)
  traverse [] = ok []
  traverse (x ∷ xs) = do y ← f x; ys ← traverse xs; ok (y ∷ ys)

  -- What it returned, element by element.
  pub data Traversed : List A → List B → Type (ℓ ⊔ κ) where
    nil : Traversed [] []
    cons :
        {x : A} {y : B} {xs : List A} {ys : List B}
        → f x ≡ ok y
        → Traversed xs ys
        → Traversed (x ∷ xs) (y ∷ ys)

  pub traverse-Traversed : (xs : List A) {ys : List B} → traverse xs ≡ ok ys → Traversed xs ys
  unfolding traverse
  traverse-Traversed [] h = subst (Traversed []) (ok_inj h) nil
  traverse-Traversed (x ∷ xs) h =
      let (y, ey, h1) = >>=-eq-ok (f x) _ h in
      let (zs, ez, h2) = >>=-eq-ok (traverse xs) _ h1 in
      subst (Traversed (x ∷ xs)) (ok_inj h2) (cons ey (traverse-Traversed xs ez))

-- The same loop over two lists, to the end of the shorter one.
module _ {ℓ κ μ} {A : Type ℓ} {B : Type κ} {C : Type μ} (f : A → B → Result C) where
  unfoldable pub traverse_zip : List A → List B → Result (List C)
  traverse_zip [] ys = ok []
  traverse_zip (x ∷ xs) [] = ok []
  traverse_zip (x ∷ xs) (y ∷ ys) = do z ← f x y; zs ← traverse_zip xs ys; ok (z ∷ zs)

  pub data Zipped : List A → List B → List C → Type (ℓ ⊔ κ ⊔ μ) where
    nil_left : {ys : List B} → Zipped [] ys []
    nil_right : {x : A} {xs : List A} → Zipped (x ∷ xs) [] []
    cons :
        {x : A} {y : B} {z : C} {xs : List A} {ys : List B} {zs : List C}
        → f x y ≡ ok z
        → Zipped xs ys zs
        → Zipped (x ∷ xs) (y ∷ ys) (z ∷ zs)

  pub traverse_zip-Zipped :
      (xs : List A) (ys : List B) {zs : List C} → traverse_zip xs ys ≡ ok zs → Zipped xs ys zs
  unfolding traverse_zip
  traverse_zip-Zipped [] ys h = subst (Zipped [] ys) (ok_inj h) nil_left
  traverse_zip-Zipped (x ∷ xs) [] h = subst (Zipped (x ∷ xs) []) (ok_inj h) nil_right
  traverse_zip-Zipped (x ∷ xs) (y ∷ ys) h =
      let (z, ez, h1) = >>=-eq-ok (f x y) _ h in
      let (zs, ezs, h2) = >>=-eq-ok (traverse_zip xs ys) _ h1 in
      subst (Zipped (x ∷ xs) (y ∷ ys)) (ok_inj h2) (cons ez (traverse_zip-Zipped xs ys ezs))

-- A property of each element carries over to what the loop returned.
pub Traversed-All {ℓ κ} :
    {A : Type ℓ} {B : Type κ} (f : A → Result B) (P : A → Type 0) (Q : B → Type 0)
    → ((a : A) (b : B) → f a ≡ ok b → P a → Q b)
    → (xs : List A) (ys : List B) → Traversed f xs ys
    → All P xs
    → All Q ys
Traversed-All f P Q step xs ys nil h = tt
Traversed-All f P Q step xs ys (Traversed.cons {x = a} {y = b} {xs = as'} {ys = bs} e t) h =
    (step a b e h.0, Traversed-All f P Q step as' bs t h.1)

pub Traversed-length {ℓ κ} :
    {A : Type ℓ} {B : Type κ} (f : A → Result B) (xs : List A) (ys : List B)
    → Traversed f xs ys
    → length ys ≡ length xs
Traversed-length f xs ys nil = refl
Traversed-length f xs ys (Traversed.cons {xs = as'} {ys = bs} e t) =
    ap suc (Traversed-length f as' bs t)
