-- ===== src/Containerd/Files.antt =====
-- `ConfigInplace` and `ConfigStream`: what is written, and when nothing is.
use dra_driver_integration_e.Base.{
  ℕ, ◌≡◌, refl, ◌⊎◌, inl, inr, Option, some, arith, Result, ok, err, ◌>>=◌, Bytes,
}
use dra_driver_integration_e.Containerd.{Table, process, Toolkit, transform, config_inplace}

module _ (K : Toolkit) where
  -- The output is the edited document, printed, of an input that was parsed whole.
  pub record Transformed (input output : Bytes) : Type 0 where
    pub conf : Table
    pub parsed : K.unmarshal input ≡ ok conf
    pub printed : K.marshal (process conf) ≡ ok output

  transform_ok : (input output : Bytes) → transform K input ≡ ok output → Transformed input output
  unfolding transform
  transform_ok input output h = go (K.unmarshal input) refl
    where
      go : (r : Result Bytes Table) → K.unmarshal input ≡ r → Transformed input output
      go (err e) p = absurd (ground arith)
      go (ok conf) p = record { conf = conf; parsed = p; printed = ground arith }

  bind_ok :
      (r : Result Bytes Bytes) (output : Bytes)
      → (r >>= transform K) ≡ ok output
      → (input : Bytes) × (r ≡ ok input) × Transformed input output
  bind_ok (err e) output h = absurd (ground arith)
  bind_ok (ok input) output h = (input, refl, transform_ok input output h)

  -- One write of the edited document to the file that was read, with the mode it had.
  pub record Rewritten (w : K.World) (path : Bytes) (result : Option Bytes) (w' : K.World)
      : Type 0 where
    pub mode : ℕ
    pub input : Bytes
    pub output : Bytes
    pub stated : K.lstat w path ≡ ok mode
    pub read : K.read_file w path ≡ ok input
    pub transformed : Transformed input output
    pub written : K.write_file w path output mode ≡ (result, w')

  -- The file is left as it was and there is an error, or it is written once, with the document that
  -- was parsed whole, edited and printed; the result is then that of the write.
  pub config_inplace_lem :
      (w : K.World) (path : Bytes) (result : Option Bytes) (w' : K.World)
      → config_inplace K w path ≡ (result, w')
      → ((e : Bytes) × (result ≡ some e) × (w' ≡ w)) ⊎ Rewritten w path result w'
  unfolding config_inplace
  config_inplace_lem w path result w' h =
      go (K.lstat w path) (K.read_file w path >>= transform K) refl refl
    where
      go :
          (m : Result Bytes ℕ) (r : Result Bytes Bytes)
          → K.lstat w path ≡ m
          → (K.read_file w path >>= transform K) ≡ r
          → ((e : Bytes) × (result ≡ some e) × (w' ≡ w)) ⊎ Rewritten w path result w'
      go (err e) r p q = inl (e, ground arith, ground arith)
      go (ok mode) (err e) p q = inl (e, ground arith, ground arith)
      go (ok mode) (ok output) p q =
          let (input, read, transformed) = bind_ok (K.read_file w path) output q in
          inr (record {
            mode = mode;
            input = input;
            output = output;
            stated = p;
            read = read;
            transformed = transformed;
            written = ground arith;
          })
