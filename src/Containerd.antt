-- ===== src/Containerd.antt =====
-- setup/pkg/containerd/containerd.go: the edits of containerd's configuration. The TOML parser and
-- printer are parameters.
pub mod Tables
pub mod Edits
pub mod Command
pub mod Outcome
pub mod Files
mod Examples
use dra_driver_integration_e.Base.{
  ℕ, Bool, true, false, Option, none, some, List, [], ◌∷◌, if◌then◌else◌, Result, ok, err, ◌>>=◌,
  Bytes, codes, eq_bytes,
}

-- What the parser makes of a document. Numbers, dates and arrays are `other`, known by their text:
-- no code looks into them.
mutual
  pub data Value : Type 0 where
    text : Bytes → Value
    flag : Bool → Value
    texts : List Bytes → Value
    other : Bytes → Value
    table : Table → Value

  pub data Table : Type 0 where
    nil : Table
    entry : Bytes → Value → Table → Table

-- `m[key]`
unfoldable pub get : Table → Bytes → Option Value
get nil key = none
get (entry k v rest) key = let later = get rest key in if eq_bytes k key then some v else later

-- `m[key] = value`
unfoldable pub set : Table → Bytes → Value → Table
set nil key value = entry key value nil
set (entry k v rest) key value =
    let later = set rest key value in if eq_bytes k key then entry k value rest else entry k v later

abbrev pub as_table : Option Value → Option Table
as_table (some (table t)) = some t
as_table _ = none

unfoldable pub get_map : Table → Bytes → Option Table
get_map node key = as_table (get node key)

abbrev pub config_name_stdio : Bytes
config_name_stdio = codes "-"

abbrev pub plugins_key : Bytes
plugins_key = codes "plugins"

abbrev pub nri_key : Bytes
nri_key = codes "io.containerd.nri.v1.nri"

abbrev pub cri_key : Bytes
cri_key = codes "io.containerd.grpc.v1.cri"

abbrev pub nri_settings : Value
nri_settings = table (
    entry (codes "disable") (flag false) (
      entry (codes "disable_connections") (flag false) (
        entry (codes "plugin_config_path") (text (codes "/etc/nri/conf.d")) (
          entry (codes "plugin_path") (text (codes "/opt/nri/plugins")) (
            entry (codes "plugin_registration_timeout") (text (codes "5s")) (
              entry (codes "plugin_request_timeout") (text (codes "5s"))
                (entry (codes "socket_path") (text (codes "/var/run/nri/nri.sock")) nil)))))))

unfoldable pub process_nri : Table → Table
process_nri plugins = set plugins nri_key nri_settings

abbrev pub cdi_dirs : Value
cdi_dirs = texts (codes "/etc/cdi" ∷ codes "/var/run/cdi" ∷ [])

unfoldable pub process_cdi : Table → Table
process_cdi cri =
    let enabled = set cri (codes "enable_cdi") (flag true) in
    set enabled (codes "cdi_spec_dirs") cdi_dirs

unfoldable pub process_hugepages : Table → Table
process_hugepages cri =
    let tolerant = set cri (codes "tolerate_missing_hugetlb_controller") (flag false) in
    set tolerant (codes "disable_hugetlb_controller") (flag false)

-- The edits of the table `plugins`. A table that Go has taken out of another is the one in it, so
-- that an edit is stored where the table came from.
unfoldable pub process_plugins : Table → Table
process_plugins plugins =
    let with_nri = process_nri plugins in
    elim (get_map with_nri cri_key) [
      | none ↦ with_nri
      | some cri ↦ set with_nri cri_key (table (process_hugepages (process_cdi cri)))
    ]

unfoldable pub process : Table → Table
unfolding process_plugins
process conf = elim (get_map conf plugins_key) [
  | none ↦ conf
  | some plugins ↦ set conf plugins_key (table (process_plugins plugins))
]

-- The parser, the printer, and files over a state of their own. A file has a mode that `os.Lstat`
-- shows; errors are known by their text.
pub record Toolkit : Type 1 where
  pub World : Type 0
  pub unmarshal : Bytes → Result Bytes Table
  pub marshal : Table → Result Bytes Bytes
  pub lstat : World → Bytes → Result Bytes ℕ
  pub read_file : World → Bytes → Result Bytes Bytes
  pub write_file : World → Bytes → Bytes → ℕ → Option Bytes × World
  pub read_stdin : World → Result Bytes Bytes
  pub write_stdout : World → Bytes → Option Bytes × World

module _ (K : Toolkit) where
  -- What `ConfigStream` does between its reader and its writer.
  unfoldable pub transform : Bytes → Result Bytes Bytes
  transform input = (do conf ← K.unmarshal input; K.marshal (process conf))

  -- `ConfigStream` from the standard input to the standard output.
  unfoldable pub config_stream : K.World → Option Bytes × K.World
  config_stream w = elim (K.read_stdin w >>= transform) [
    | err e ↦ (some e, w)
    | ok output ↦ K.write_stdout w output
  ]

  -- The buffers of `ConfigInplace` can be read and written without an error.
  unfoldable pub config_inplace : K.World → Bytes → Option Bytes × K.World
  config_inplace w conf_path = elim (K.lstat w conf_path) [
    | err e ↦ (some e, w)
    | ok mode ↦ elim (K.read_file w conf_path >>= transform) [
      | err e ↦ (some e, w)
      | ok output ↦ K.write_file w conf_path output mode
    ]
  ]

  unfoldable pub config : K.World → Bytes → Option Bytes × K.World
  config w config_name =
      if eq_bytes config_name config_name_stdio
      then config_stream w
      else config_inplace w config_name
