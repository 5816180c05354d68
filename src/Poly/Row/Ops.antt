-- ===== src/Poly/Row/Ops.antt =====
-- What scaling, adding and subtracting rows does to their values and coefficients.
use mlk.Base.{
  ℕ, zero, suc, ◌≡◌, refl, ap, sym, ◌∙◌, subst, Bool, List, [], ◌∷◌, get_or, length, arith, inl,
  inr, Bool-cases, ◌&&◌,
}
use mlk.Base.Int
use mlk.Base.Int.{ℤ, pos, ◌+ℤ◌, ◌-ℤ◌, ◌*ℤ◌, ◌<ℤ◌, leb_ℤ, int_laws, +ℤ_interchange}
use mlk.Base.Res
use mlk.Base.Res.{
  Result, ok, err, ◌>>=◌, ok_inj, Traversed, Zipped, traverse-Traversed, traverse_zip-Zipped, nil,
  nil_left, nil_right,
}
use mlk.Poly.Checked.{add_limited, sub_limited, mul_limited}
use mlk.Poly.Checked.Laws.{add_limited_exact, sub_limited_exact, mul_limited_exact}
use mlk.Poly.Row.{ConstraintRow, coeff_of, scale_row, add_rows, sub_rows}
use mlk.Poly.Row.Value.{dot, row_value}

module _ (k : ℤ) where
  pub scale_dot :
      (x : List ℤ) {cs ds : List ℤ}
      → Traversed (λ c. mul_limited c k) cs ds
      → dot ds x ≡ k *ℤ dot cs x
  scale_dot x nil = sym (Int.*ℤ-zero k)
  scale_dot [] (Res.cons e t) = sym (Int.*ℤ-zero k)
  scale_dot (v ∷ x) (Res.cons {x = c} {xs = cs} e t) =
      rw ((mul_limited_exact c k e).0, scale_dot x t, Int.*ℤ-+ℤ, Int.*ℤ_comm c k, Int.*ℤ_assoc)

  pub scale_length :
      {cs ds : List ℤ} → Traversed (λ c. mul_limited c k) cs ds → length ds ≡ length cs
  scale_length nil = refl
  scale_length (Res.cons e t) = ap suc (scale_length t)

  scale_get_or :
      (v : ℕ) {cs ds : List ℤ}
      → Traversed (λ c. mul_limited c k) cs ds
      → get_or ds v (pos 0) ≡ k *ℤ get_or cs v (pos 0)
  scale_get_or v nil = sym (Int.*ℤ-zero k)
  scale_get_or zero (Res.cons {x = c} e t) = (mul_limited_exact c k e).0 ∙ Int.*ℤ_comm c k
  scale_get_or (suc v) (Res.cons e t) = scale_get_or v t

pub add_dot :
    (x : List ℤ) {as' bs cs : List ℤ}
    → length as' ≡ length bs
    → Zipped add_limited as' bs cs
    → dot cs x ≡ dot as' x +ℤ dot bs x
add_dot x {bs = []} h nil_left = omega int_laws
add_dot x {bs = b ∷ bs} h nil_left = absurd (omega arith)
add_dot x h nil_right = absurd (omega arith)
add_dot [] h (Zipped.cons e t) = omega int_laws
add_dot (v ∷ x) h (Zipped.cons {x = a} {y = b} {xs = as'} {ys = bs} e t) =
    rw ((add_limited_exact a b e).0, add_dot x (omega arith) t, Int.+ℤ-*ℤ)
      (+ℤ_interchange (a *ℤ v) (b *ℤ v) (dot as' x) (dot bs x))

pub sub_dot :
    (x : List ℤ) {as' bs cs : List ℤ}
    → length as' ≡ length bs
    → Zipped sub_limited as' bs cs
    → dot cs x ≡ dot as' x -ℤ dot bs x
sub_dot x {bs = []} h nil_left = omega int_laws
sub_dot x {bs = b ∷ bs} h nil_left = absurd (omega arith)
sub_dot x h nil_right = absurd (omega arith)
sub_dot [] h (Zipped.cons e t) = omega int_laws
sub_dot (v ∷ x) h (Zipped.cons {x = a} {y = b} {xs = as'} {ys = bs} e t) =
    rw ((sub_limited_exact a b e).0, sub_dot x (omega arith) t, Int.-ℤ-*ℤ) (omega int_laws)

module _ {f : ℤ → ℤ → Result ℤ} where
  pub zip_length :
      {as' bs cs : List ℤ} → length as' ≡ length bs → Zipped f as' bs cs → length cs ≡ length as'
  zip_length h nil_left = refl
  zip_length h nil_right = omega arith
  zip_length h (Zipped.cons e t) = ap suc (zip_length (omega arith) t)

add_get_or :
    (v : ℕ) {as' bs cs : List ℤ}
    → length as' ≡ length bs
    → Zipped add_limited as' bs cs
    → get_or cs v (pos 0) ≡ get_or as' v (pos 0) +ℤ get_or bs v (pos 0)
add_get_or v {bs = []} h nil_left = omega int_laws
add_get_or v {bs = b ∷ bs} h nil_left = absurd (omega arith)
add_get_or v h nil_right = absurd (omega arith)
add_get_or zero h (Zipped.cons {x = a} {y = b} e t) = (add_limited_exact a b e).0
add_get_or (suc v) h (Zipped.cons e t) = add_get_or v (omega arith) t

sub_get_or :
    (v : ℕ) {as' bs cs : List ℤ}
    → length as' ≡ length bs
    → Zipped sub_limited as' bs cs
    → get_or cs v (pos 0) ≡ get_or as' v (pos 0) -ℤ get_or bs v (pos 0)
sub_get_or v {bs = []} h nil_left = omega int_laws
sub_get_or v {bs = b ∷ bs} h nil_left = absurd (omega arith)
sub_get_or v h nil_right = absurd (omega arith)
sub_get_or zero h (Zipped.cons {x = a} {y = b} e t) = (sub_limited_exact a b e).0
sub_get_or (suc v) h (Zipped.cons e t) = sub_get_or v (omega arith) t

-- What a successful row operation returns, in one record for each.
pub record IsScaled (row : ConstraintRow) (k : ℤ) (r : ConstraintRow) : Type 0 where
  pub positive : pos 0 <ℤ k
  pub same_kind : r.is_equality ≡ row.is_equality
  pub same_length : length r.coeffs ≡ length row.coeffs
  pub value : (x : List ℤ) → row_value r x ≡ k *ℤ row_value row x
  pub coeff : (v : ℕ) → coeff_of r v ≡ k *ℤ coeff_of row v

build-IsScaled :
    (row : ConstraintRow) (k c : ℤ) (ds : List ℤ)
    → pos 0 <ℤ k
    → mul_limited row.constant k ≡ ok c
    → Traversed (λ a. mul_limited a k) row.coeffs ds
    → IsScaled row k (record { coeffs = ds; constant = c; is_equality = row.is_equality })
build-IsScaled row k c ds hk ec t = record {
  positive = hk;
  same_kind = refl;
  same_length = scale_length k t;
  value = λ x. rw (
    (mul_limited_exact row.constant k ec).0,
    scale_dot k x t,
    Int.*ℤ-+ℤ,
    Int.*ℤ_comm row.constant k,
  );
  coeff = λ v. scale_get_or k v t;
}

-- The end of each row operation: the constant, then the coefficients.
built_row :
    (kind : Bool) (m : Result ℤ) (n : Result (List ℤ)) {r : ConstraintRow}
    → (m >>= λ cst.
        n >>= λ coeffs. ok (record { coeffs = coeffs; constant = cst; is_equality = kind }))
      ≡ ok r
    → (c : ℤ) × (ds : List ℤ) × (m ≡ ok c)
      × (n ≡ ok ds)
      × (record { coeffs = ds; constant = c; is_equality = kind } ≡ r)
built_row kind (ok c) (ok ds) h = (c, ds, refl, refl, ok_inj h)
built_row kind (ok c) (err e) h = cc
built_row kind (err e) n h = cc

pub scale_row-IsScaled :
    (row : ConstraintRow) (k : ℤ) {r : ConstraintRow} → scale_row row k ≡ ok r → IsScaled row k r
unfolding scale_row
scale_row-IsScaled row k h = elim (Bool-cases (leb_ℤ k (pos 0))) [
  | inl low ↦ cc (rw low at h)
  | inr high ↦
      let (c, ds, ec, ed, e) = built_row row.is_equality _ _ (rw high at h) in
      subst (IsScaled row k) e
        (build-IsScaled row k c ds (ground arith) ec (traverse-Traversed _ row.coeffs ed))
]

pub record IsSum (a b r : ConstraintRow) : Type 0 where
  pub kind : r.is_equality ≡ (a.is_equality && b.is_equality)
  pub same_length : length r.coeffs ≡ length a.coeffs
  pub value : (x : List ℤ) → row_value r x ≡ row_value a x +ℤ row_value b x
  pub coeff : (v : ℕ) → coeff_of r v ≡ coeff_of a v +ℤ coeff_of b v

pub add_rows-IsSum :
    (a b : ConstraintRow) {r : ConstraintRow}
    → length a.coeffs ≡ length b.coeffs
    → add_rows a b ≡ ok r
    → IsSum a b r
unfolding add_rows
add_rows-IsSum a b hl h =
    let (c, ds, ec, ed, e) = built_row (a.is_equality && b.is_equality) _ _ h in
    let t = traverse_zip-Zipped add_limited a.coeffs b.coeffs ed in
    let sum : IsSum a b
        (record { coeffs = ds; constant = c; is_equality = a.is_equality && b.is_equality }) =
      record {
        kind = refl;
        same_length = zip_length hl t;
        value = λ x.
            rw ((add_limited_exact a.constant b.constant ec).0, add_dot x hl t)
              (+ℤ_interchange (dot a.coeffs x) (dot b.coeffs x) a.constant b.constant);
        coeff = λ v. add_get_or v hl t;
      } in
    subst (IsSum a b) e sum

pub record IsDifference (a b r : ConstraintRow) : Type 0 where
  pub kind : r.is_equality ≡ (a.is_equality && b.is_equality)
  pub same_length : length r.coeffs ≡ length a.coeffs
  pub value : (x : List ℤ) → row_value r x ≡ row_value a x -ℤ row_value b x
  pub coeff : (v : ℕ) → coeff_of r v ≡ coeff_of a v -ℤ coeff_of b v

pub sub_rows-IsDifference :
    (a b : ConstraintRow) {r : ConstraintRow}
    → length a.coeffs ≡ length b.coeffs
    → sub_rows a b ≡ ok r
    → IsDifference a b r
unfolding sub_rows
sub_rows-IsDifference a b hl h =
    let (c, ds, ec, ed, e) = built_row (a.is_equality && b.is_equality) _ _ h in
    let t = traverse_zip-Zipped sub_limited a.coeffs b.coeffs ed in
    let difference : IsDifference a b
        (record { coeffs = ds; constant = c; is_equality = a.is_equality && b.is_equality }) =
      record {
        kind = refl;
        same_length = zip_length hl t;
        value = λ x.
            rw ((sub_limited_exact a.constant b.constant ec).0, sub_dot x hl t) (omega int_laws);
        coeff = λ v. sub_get_or v hl t;
      } in
    subst (IsDifference a b) e difference
