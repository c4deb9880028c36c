-- ===== src/Containerd/Examples.antt =====
-- A configuration with the runtime's table, and the theorems there.
use dra_driver_integration_e.Base.{
  ◌≡◌, refl, ◌⊎◌, false, Option, none, some, if◌then◌else◌, ok, err, Bytes, codes, eq_bytes,
}
use dra_driver_integration_e.Containerd.{
  Value, flag, table, Table, nil, entry, get, get_map, plugins_key, cri_key, process, Toolkit,
  transform, config_inplace,
}
use dra_driver_integration_e.Containerd.Edits.{process-process}
use dra_driver_integration_e.Containerd.Outcome.{
  IsEdited, process-IsEdited, IsOtherSetting, KeepsSetting, process_other,
}
use dra_driver_integration_e.Containerd.Files.{Rewritten, config_inplace_lem}

abbrev plugins : Table
plugins = entry cri_key (table (entry (codes "enable_cdi") (flag false) nil)) nil

abbrev conf : Table
conf = entry (codes "root") (Value.text (codes "/var")) (entry plugins_key (table plugins) nil)

process-process_example : process (process conf) ≡ process conf
process-process_example = process-process conf

plugins_there : get_map conf plugins_key ≡ some plugins
unfolding get_map get eq_bytes
plugins_there = refl

process-IsEdited_example : IsEdited conf plugins (process conf)
process-IsEdited_example = process-IsEdited conf plugins plugins_there

other_setting : IsOtherSetting (codes "sandbox_image")
unfolding eq_bytes
other_setting = (refl, refl, refl, refl)

process_other_example :
    (get (process conf) (codes "root") ≡ get conf (codes "root"))
    × ((edited : Table) × (get (process conf) plugins_key ≡ some (table edited))
        × (get edited (codes "other") ≡ get plugins (codes "other"))
        × KeepsSetting plugins edited (codes "sandbox_image"))
process_other_example =
    process_other conf plugins (codes "root") (codes "other") (codes "sandbox_image") plugins_there
      (unfold eq_bytes in refl) (unfold eq_bytes in refl) (unfold eq_bytes in refl) other_setting

-- One file, whose contents are the state; the printer writes a text of its own.
abbrev tools : Toolkit
tools = record {
  World = Bytes;
  unmarshal = λ s. if eq_bytes s (codes "bad") then err (codes "parse error") else ok conf;
  marshal = λ t. ok (codes "printed");
  lstat = λ w path. ok 0o644;
  read_file = λ w path. ok w;
  write_file = λ w path contents mode. (none, contents);
  read_stdin = λ w. ok w;
  write_stdout = λ w contents. (none, w);
}

written : config_inplace tools (codes "x") (codes "/c") ≡ (none, codes "printed")
unfolding config_inplace transform eq_bytes
written = refl

config_inplace_lem_example :
    ((e : Bytes) × (◌≡◌ {A = Option Bytes} none (some e)) × (codes "printed" ≡ codes "x"))
    ⊎ Rewritten tools (codes "x") (codes "/c") none (codes "printed")
config_inplace_lem_example =
    config_inplace_lem tools (codes "x") (codes "/c") none (codes "printed") written
