-- ===== src/Sriovvf/CommandExamples.antt =====
-- A run in try mode that fails, and the words for the level of the log.
use dra_driver_integration_e.Base.{◌≡◌, refl, true, some, none, [], ◌∷◌, codes, eq_bytes}
use dra_driver_integration_e.Base.Int.{negsuc}
use dra_driver_integration_e.Base.Space.{trim_space}
use dra_driver_integration_e.Sriovvf.Run.{run}
use dra_driver_integration_e.Sriovvf.Command.{
  Options, parse_flags, level_info, new_logger, exit_with, main, Tried, main-Tried,
}
use dra_driver_integration_e.Sriovvf.Examples.{machine}

abbrev options : Options
options = record {
  sysfs = codes "/sys";
  num_vfs = negsuc 2;
  pf_numa_node = negsuc 0;
  verbosity = codes " INFO\n";
  try_mode = true;
}

shouted : new_logger (codes " INFO\n") ≡ some level_info
unfolding new_logger trim_space eq_bytes
shouted = refl

-- A capital I with a dot is lowered to an i.
dotted : new_logger (0xc4 ∷ 0xb0 ∷ codes "nfo") ≡ some level_info
unfolding new_logger trim_space eq_bytes
dotted = refl

unknown : new_logger (codes "trace") ≡ none
unfolding new_logger trim_space eq_bytes
unknown = refl

ran : main machine [] options [] ≡ (0, [])
unfolding main parse_flags new_logger trim_space eq_bytes run exit_with
ran = refl

refused_word : main machine [] (record options { verbosity = codes "trace" }) [] ≡ (2, [])
unfolding main parse_flags new_logger trim_space eq_bytes
refused_word = refl

main-Tried_example :
    Tried machine [] options [] (main machine [] options []).0 (main machine [] options []).1
main-Tried_example = main-Tried machine [] options [] refl
