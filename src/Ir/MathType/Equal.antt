-- ===== src/Ir/MathType/Equal.antt =====
-- Equality of types is equality.
use mlk.Base.{
  ◌≡◌, refl, sym, subst, ◌↔◌, Bool, true, false, and_parts, none, some, some_inj, [], ◌∷◌, is_yes,
  is_yes_iff, arith,
}
use mlk.Base.Int
use mlk.Base.Int.{ℤ, eqb_ℤ}
use mlk.Ir.Domain.{
  Domain-discrete, Dtype-discrete, AlgebraicClass-discrete, Differentiability-discrete,
}
use mlk.Ir.MathType.{
  shape_equal, tensor_equal, params_equal, sig_equal, option_equal, MathType, type_equal, bool_eq,
}

-- A test that decides equality.
abbrev Decides : {A : Type 0} → (A → A → Bool) → Type 0
Decides {A} eq = (a b : A) → (eq a b ≡ true) ↔ (a ≡ b)

bool_eq-Decides : Decides bool_eq
bool_eq-Decides true b = (λ h. sym h, λ h. sym h)
bool_eq-Decides false true = (λ h. cc, λ h. cc)
bool_eq-Decides false false = (λ h. refl, λ h. refl)

shape_equal-Decides : Decides shape_equal
shape_equal-Decides [] [] = (λ _. refl, λ _. refl)
shape_equal-Decides [] (b ∷ bs) = (λ h. cc, λ h. cc)
shape_equal-Decides (a ∷ as') [] = (λ h. cc, λ h. cc)
shape_equal-Decides (a ∷ as') (b ∷ bs) =
    ground (arith, Int.eqb_ℤ_iff a b, shape_equal-Decides as' bs)

params_equal-Decides : Decides params_equal
params_equal-Decides [] [] = (λ _. refl, λ _. refl)
params_equal-Decides [] (b ∷ bs) = (λ h. cc, λ h. cc)
params_equal-Decides (a ∷ as') [] = (λ h. cc, λ h. cc)
params_equal-Decides (a ∷ as') (b ∷ bs) =
    ground (arith, is_yes_iff (Domain-discrete a b), params_equal-Decides as' bs)

tensor_equal-Decides : Decides tensor_equal
unfolding tensor_equal
tensor_equal-Decides a b = ground (
  arith,
  is_yes_iff (Dtype-discrete a.element b.element),
  shape_equal-Decides a.shape b.shape,
  shape_equal-Decides a.strides b.strides,
  bool_eq-Decides a.contiguous b.contiguous,
)

sig_equal-Decides : Decides sig_equal
unfolding sig_equal
sig_equal-Decides a b =
    ground (
      arith,
      is_yes_iff (Domain-discrete a.result b.result),
      params_equal-Decides a.params b.params,
    )

option_equal-Decides : {A : Type 0} (eq : A → A → Bool) → Decides eq → Decides (option_equal eq)
option_equal-Decides eq h none none = (λ _. refl, λ _. refl)
option_equal-Decides eq h none (some b) = (λ e. cc, λ e. cc)
option_equal-Decides eq h (some a) none = (λ e. cc, λ e. cc)
option_equal-Decides eq h (some a) (some b) = (λ e. cc ((h a b).0 e), λ e. (h a b).1 (some_inj e))

-- The comparison of types that the verifier and the inference make is equality of the whole types:
-- two types compare as equal exactly when they agree in every field, tensor and signature included.
pub type_equal_exact : (a b : MathType) → (type_equal a b ≡ true) ↔ (a ≡ b)
unfolding type_equal
type_equal_exact a b = (there, λ e. subst (λ t. type_equal a t ≡ true) e back)
  where
    field : {A : Type 0} (eq : A → A → Bool) → Decides eq → (x : A) → eq x x ≡ true
    field eq h x = (h x x).1 refl

    there : type_equal a b ≡ true → a ≡ b
    there h =
        let (h5, func) = and_parts _ (option_equal sig_equal a.func b.func) h in
        let (h4, tensor) = and_parts _ (option_equal tensor_equal a.tensor b.tensor) h5 in
        let (h3, shape) = and_parts _ (option_equal shape_equal a.shape b.shape) h4 in
        let (h2, dtype) = and_parts _ (is_yes (Dtype-discrete a.dtype b.dtype)) h3 in
        let (h1, diff) = and_parts _ (is_yes (Differentiability-discrete a.diff b.diff)) h2 in
        let (domain, algebra) =
          and_parts (is_yes (Domain-discrete a.domain b.domain))
            (is_yes (AlgebraicClass-discrete a.algebra b.algebra)) h1 in
        λ i. record {
          domain = (is_yes_iff (Domain-discrete a.domain b.domain)).0 domain i;
          algebra = (is_yes_iff (AlgebraicClass-discrete a.algebra b.algebra)).0 algebra i;
          diff = (is_yes_iff (Differentiability-discrete a.diff b.diff)).0 diff i;
          dtype = (is_yes_iff (Dtype-discrete a.dtype b.dtype)).0 dtype i;
          shape = (option_equal-Decides shape_equal shape_equal-Decides a.shape b.shape).0 shape i;
          tensor =
              (option_equal-Decides tensor_equal tensor_equal-Decides a.tensor b.tensor).0 tensor i;
          func = (option_equal-Decides sig_equal sig_equal-Decides a.func b.func).0 func i;
        }

    back : type_equal a a ≡ true
    back =
        rw
          (
            (is_yes_iff (Domain-discrete a.domain a.domain)).1 refl,
            (is_yes_iff (AlgebraicClass-discrete a.algebra a.algebra)).1 refl,
            (is_yes_iff (Differentiability-discrete a.diff a.diff)).1 refl,
            (is_yes_iff (Dtype-discrete a.dtype a.dtype)).1 refl,
            field (option_equal shape_equal) (option_equal-Decides shape_equal shape_equal-Decides)
                a.shape,
            field (option_equal tensor_equal)
                (option_equal-Decides tensor_equal tensor_equal-Decides) a.tensor,
            field (option_equal sig_equal) (option_equal-Decides sig_equal sig_equal-Decides)
                a.func,
          )
          refl
