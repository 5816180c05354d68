-- ===== src/Ir/Domain.antt =====
-- compiler/include/mlk/type/domain.h with compiler/src/type/domain.cpp: the domains and element types
-- of values.
use mlk.Base.{ℕ}

pub data Domain : Type 0 where
  unknown symbolic bool int float complex real function operator set sequence distribution : Domain

pub data AlgebraicClass : Type 0 where
  unknown scalar_field vector_space matrix_algebra : AlgebraicClass
  tensor_algebra polynomial_ring abstract_ring abstract_group : AlgebraicClass

pub data Differentiability : Type 0 where
  unknown non_differentiable piecewise_differentiable : Differentiability
  differentiable smooth analytic : Differentiability

pub data Dtype : Type 0 where
  none bool1 i8 i16 i32 i64 u8 u16 u32 u64 f16 bf16 f32 f64 c64 c128 : Dtype

unfoldable pub Domain-discrete : Discrete Domain
Domain-discrete = hlevel

unfoldable pub AlgebraicClass-discrete : Discrete AlgebraicClass
AlgebraicClass-discrete = hlevel

unfoldable pub Differentiability-discrete : Discrete Differentiability
Differentiability-discrete = hlevel

unfoldable pub Dtype-discrete : Discrete Dtype
Dtype-discrete = hlevel

-- `dtypeBytes`
unfoldable pub dtype_bytes : Dtype → ℕ
dtype_bytes Dtype.none = 0
dtype_bytes Dtype.bool1 = 1
dtype_bytes Dtype.i8 = 1
dtype_bytes Dtype.u8 = 1
dtype_bytes Dtype.i16 = 2
dtype_bytes Dtype.u16 = 2
dtype_bytes Dtype.f16 = 2
dtype_bytes Dtype.bf16 = 2
dtype_bytes Dtype.i32 = 4
dtype_bytes Dtype.u32 = 4
dtype_bytes Dtype.f32 = 4
dtype_bytes Dtype.c64 = 8
dtype_bytes Dtype.i64 = 8
dtype_bytes Dtype.u64 = 8
dtype_bytes Dtype.f64 = 8
dtype_bytes Dtype.c128 = 16
