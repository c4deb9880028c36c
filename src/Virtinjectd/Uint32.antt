-- ===== src/Virtinjectd/Uint32.antt =====
-- `binary.BigEndian` of the standard library, as virtinjectd/protocol.go and xdr.go use it.
use dra_driver_integration_e.Base.{
  ℕ, ◌+◌, ◌*◌, ◌/◌, ◌%◌, ◌^◌, ◌≤◌, ◌<◌, ◌≡◌, refl, ap₂, [], ◌∷◌, ◌++◌, arith, length, take, All,
  Bytes, IsByte,
}

abbrev pub IsUint32 : ℕ → Type 0
IsUint32 v = v < 2 ^ 32

-- `binary.BigEndian.Uint32(b)`. Go panics on fewer than four bytes; every caller has checked.
unfoldable pub be_uint32 : Bytes → ℕ
be_uint32 (a ∷ b ∷ c ∷ d ∷ rest) = a * 2 ^ 24 + b * 2 ^ 16 + c * 2 ^ 8 + d
be_uint32 _ = 0

-- What `binary.BigEndian.PutUint32` writes.
unfoldable pub put_uint32 : ℕ → Bytes
put_uint32 v = v / 2 ^ 24 % 256 ∷ v / 2 ^ 16 % 256 ∷ v / 2 ^ 8 % 256 ∷ v % 256 ∷ []

pub length-put_uint32 : (v : ℕ) → length (put_uint32 v) ≡ 4
unfolding put_uint32
length-put_uint32 v = refl

pub put_uint32-IsByte : (v : ℕ) → All IsByte (put_uint32 v)
unfolding put_uint32
put_uint32-IsByte v = omega arith

-- A number is read back modulo 2 ^ 32, whatever follows.
pub be_uint32-put_uint32 : (v : ℕ) (rest : Bytes) → be_uint32 (put_uint32 v ++ rest) ≡ v % 2 ^ 32
unfolding be_uint32 put_uint32
be_uint32-put_uint32 v rest = omega arith

-- Four bytes are written back as they were read.
pub put_uint32-be_uint32 :
    (bs : Bytes) → All IsByte bs → 4 ≤ length bs → put_uint32 (be_uint32 bs) ≡ take 4 bs
unfolding be_uint32 put_uint32
put_uint32-be_uint32 [] h len = absurd (omega arith)
put_uint32-be_uint32 (a ∷ []) h len = absurd (omega arith)
put_uint32-be_uint32 (a ∷ b ∷ []) h len = absurd (omega arith)
put_uint32-be_uint32 (a ∷ b ∷ c ∷ []) h len = absurd (omega arith)
put_uint32-be_uint32 (a ∷ b ∷ c ∷ d ∷ rest) h len =
    ap₂ ◌∷◌ (omega arith)
      (ap₂ ◌∷◌ (omega arith) (ap₂ ◌∷◌ (omega arith) (ap₂ ◌∷◌ (omega arith) refl)))

pub be_uint32-IsUint32 : (bs : Bytes) → All IsByte bs → IsUint32 (be_uint32 bs)
unfolding be_uint32
be_uint32-IsUint32 [] h = omega arith
be_uint32-IsUint32 (a ∷ []) h = omega arith
be_uint32-IsUint32 (a ∷ b ∷ []) h = omega arith
be_uint32-IsUint32 (a ∷ b ∷ c ∷ []) h = omega arith
be_uint32-IsUint32 (a ∷ b ∷ c ∷ d ∷ rest) h = omega arith
