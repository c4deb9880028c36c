-- ===== src/Containerd/Tables.antt =====
-- Reading a table behind a write.
use dra_driver_integration_e.Base.{
  ◌≡◌, refl, inl, inr, true, false, some, arith, Bool-cases, Bytes, eq_bytes, eq_bytes_iff,
}
use dra_driver_integration_e.Containerd.{Value, Table, nil, entry, get, set}

same_key : (k : Bytes) → eq_bytes k k ≡ true
same_key k = (eq_bytes_iff k k).1 refl

pub get-set : (t : Table) (key : Bytes) (value : Value) → get (set t key value) key ≡ some value
unfolding get set
get-set nil key value = ground (arith, same_key key)
get-set (entry k v rest) key value = ground (arith, get-set rest key value)

no_two : (k a b : Bytes) → eq_bytes a b ≡ false → eq_bytes k a ≡ true → eq_bytes k b ≡ false
no_two k a b h p = rw (← (eq_bytes_iff k a).0 p) at h

pub get-set_other :
    (t : Table) (key other : Bytes) (value : Value)
    → eq_bytes key other ≡ false
    → get (set t key value) other ≡ get t other
unfolding get set
get-set_other nil key other value h = ground arith
get-set_other (entry k v rest) key other value h = elim (Bool-cases (eq_bytes k key)) [
  | inl here ↦ let no = no_two k key other h here in ground arith
  | inr there ↦ ground (arith, get-set_other rest key other value h)
]

-- Writing what is there already changes nothing.
pub set_same :
    (t : Table) (key : Bytes) (value : Value) → get t key ≡ some value → set t key value ≡ t
unfolding get set
set_same nil key value h = absurd (ground arith)
set_same (entry k v rest) key value h = elim (Bool-cases (eq_bytes k key)) [
  | inl here ↦ ground arith
  | inr there ↦ ground (arith, set_same rest key value (ground arith))
]
