-- ===== src/Hugepages/Reading.antt =====
-- setup/pkg/hugepages/provision: `ReadConfiguration`, from the standard input or a file. The YAML
-- parser is a parameter; a reader gives its bytes or an error.
use dra_driver_integration_e.Base.{
  ◌≡◌, ◌⊎◌, inl, inr, arith, if◌then◌else◌, Bool-cases, Result, ok, ◌>>=◌, bind_ok, Bytes, codes,
  eq_bytes, eq_bytes_iff,
}
use dra_driver_integration_e.Hugepages.{HugePageProvision}

pub record Reading (W : Type 0) : Type 0 where
  pub stdin : W → Result Bytes Bytes
  pub open_file : W → Bytes → Result Bytes (Result Bytes Bytes)
  pub unmarshal : Bytes → Result Bytes HugePageProvision

module _ {W : Type 0} (R : Reading W) where
  unfoldable pub read_configuration_from : Result Bytes Bytes → Result Bytes HugePageProvision
  read_configuration_from reader = (do data_read ← reader; R.unmarshal data_read)

  unfoldable pub read_configuration : W → Bytes → Result Bytes HugePageProvision
  read_configuration w source =
      if eq_bytes source (codes "-")
      then read_configuration_from (R.stdin w)
      else (do src ← R.open_file w source; read_configuration_from src)

  -- A configuration is the parse of all that the standard input gives, for a dash, or else of the
  -- whole file.
  read_configuration_ok :
      (w : W) (source : Bytes) (config : HugePageProvision)
      → read_configuration w source ≡ ok config
      → (text : Bytes) × (R.unmarshal text ≡ ok config)
        × (((source ≡ codes "-") × (R.stdin w ≡ ok text)) ⊎ (R.open_file w source ≡ ok (ok text)))
  unfolding read_configuration read_configuration_from
  read_configuration_ok w source config h = elim (Bool-cases (eq_bytes source (codes "-"))) [
    | inl dash ↦
        let (text, got, parsed) =
          bind_ok (R.stdin w) R.unmarshal config (rw (read_configuration, dash) at h) in
        (text, parsed, inl ((eq_bytes_iff source (codes "-")).0 dash, got))
    | inr other ↦
        let (src, opened, rest) =
          bind_ok (R.open_file w source) read_configuration_from config
            (rw (read_configuration, other) at h) in
        let (text, got, parsed) = bind_ok src R.unmarshal config rest in
        (text, parsed, inr (ground arith))
  ]
