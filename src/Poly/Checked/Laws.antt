-- ===== src/Poly/Checked/Laws.antt =====
-- What the magnitude-limited operations of polyhedral/include/mlk/poly/checked.h promise.
use mlk.Base.{◌^◌, ◌≤◌, ◌≡◌, some, arith}
use mlk.Base.Int.{ℤ, pos_part, neg_part, ◌+ℤ◌, ◌-ℤ◌, ◌*ℤ◌, InInt64}
use mlk.Base.Res.{ok}
use mlk.Poly.Checked.{fits, limited, add, sub, mul, add_limited, sub_limited, mul_limited}

-- The bound on what the engine stores.
abbrev pub IsLimited : ℤ → Type 0
IsLimited r = (pos_part r ≤ 2 ^ 30) × (neg_part r ≤ 2 ^ 30)

pub IsLimited-InInt64 : (r : ℤ) → IsLimited r → InInt64 r
IsLimited-InInt64 r h = omega arith

limited-fits : (v : ℤ) {r : ℤ} → limited (fits v) ≡ ok r → (r ≡ v) × IsLimited r
limited-fits v h = (ground arith, (ground arith, ground arith))

limited-fits_total : (v : ℤ) → IsLimited v → limited (fits v) ≡ ok v
limited-fits_total v h = ground arith

pub add_limited_exact : (a b : ℤ) {r : ℤ} → add_limited a b ≡ ok r → (r ≡ a +ℤ b) × IsLimited r
unfolding add_limited
add_limited_exact a b h = limited-fits (a +ℤ b) h

pub sub_limited_exact : (a b : ℤ) {r : ℤ} → sub_limited a b ≡ ok r → (r ≡ a -ℤ b) × IsLimited r
unfolding sub_limited
sub_limited_exact a b h = limited-fits (a -ℤ b) h

pub mul_limited_exact : (a b : ℤ) {r : ℤ} → mul_limited a b ≡ ok r → (r ≡ a *ℤ b) × IsLimited r
unfolding mul_limited
mul_limited_exact a b h = limited-fits (a *ℤ b) h

pub add_limited_total : (a b : ℤ) → IsLimited (a +ℤ b) → add_limited a b ≡ ok (a +ℤ b)
unfolding add_limited
add_limited_total a b h = limited-fits_total (a +ℤ b) h

pub sub_limited_total : (a b : ℤ) → IsLimited (a -ℤ b) → sub_limited a b ≡ ok (a -ℤ b)
unfolding sub_limited
sub_limited_total a b h = limited-fits_total (a -ℤ b) h

pub mul_limited_total : (a b : ℤ) → IsLimited (a *ℤ b) → mul_limited a b ≡ ok (a *ℤ b)
unfolding mul_limited
mul_limited_total a b h = limited-fits_total (a *ℤ b) h

pub add_exact : (a b : ℤ) {r : ℤ} → add a b ≡ some r → (r ≡ a +ℤ b) × InInt64 r
unfolding add
add_exact a b h = ground arith

pub mul_exact : (a b : ℤ) {r : ℤ} → mul a b ≡ some r → (r ≡ a *ℤ b) × InInt64 r
unfolding mul
mul_exact a b h = ground arith

pub sub_exact : (a b : ℤ) {r : ℤ} → sub a b ≡ some r → (r ≡ a -ℤ b) × InInt64 r
unfolding sub
sub_exact a b h = ground arith

pub add_total : (a b : ℤ) → InInt64 (a +ℤ b) → add a b ≡ some (a +ℤ b)
unfolding add
add_total a b h = ground arith

pub mul_total : (a b : ℤ) → InInt64 (a *ℤ b) → mul a b ≡ some (a *ℤ b)
unfolding mul
mul_total a b h = ground arith

pub sub_total : (a b : ℤ) → InInt64 (a -ℤ b) → sub a b ≡ some (a -ℤ b)
unfolding sub
sub_total a b h = ground arith
