-- ===== src/Driver/Sriov/Flags.antt =====
-- driver/sriov/main.go: the flags of the application itself, with their defaults and the variables
-- of the environment that they can be set by. The flags of the libraries are left out.
use dra_driver_integration_e.Base.{
  ◌-◌, ◌≡◌, refl, Bool, true, false, ◌&&◌, List, [], ◌∷◌, map, leb, ◌==◌, if◌then◌else◌, All, Bytes,
  codes,
}
use dra_driver_integration_e.Base.Int.{ℤ, negsuc}

pub data FlagValue : Type 0 where
  string : Bytes → FlagValue
  int : ℤ → FlagValue

pub record CliFlag : Type 0 where
  pub name : Bytes
  pub required : Bool
  pub value : FlagValue
  pub env_var : Bytes

-- The directories of the kubelet are constants of its package.
unfoldable pub cli_flags : Bytes → Bytes → List CliFlag
cli_flags registry_dir plugins_dir =
    record {
      name = codes "node-name";
      required = true;
      value = string [];
      env_var = codes "NODE_NAME";
    }
    ∷ record {
      name = codes "cdi-root";
      required = false;
      value = string (codes "/var/run/cdi");
      env_var = codes "CDI_ROOT";
    }
    ∷ record {
      name = codes "kubelet-registrar-directory-path";
      required = false;
      value = string registry_dir;
      env_var = codes "KUBELET_REGISTRAR_DIRECTORY_PATH";
    }
    ∷ record {
      name = codes "kubelet-plugins-directory-path";
      required = false;
      value = string plugins_dir;
      env_var = codes "KUBELET_PLUGINS_DIRECTORY_PATH";
    }
    ∷ record {
      name = codes "healthcheck-port";
      required = false;
      value = int (negsuc 0);
      env_var = codes "HEALTHCHECK_PORT";
    }
    ∷ record {
      name = codes "default-interface-prefix";
      required = false;
      value = string (codes "vfnet");
      env_var = codes "DEFAULT_INTERFACE_PREFIX";
    }
    ∷ record {
      name = codes "namespace";
      required = false;
      value = string (codes "dra-sriov-driver");
      env_var = codes "NAMESPACE";
    }
    ∷ []

-- A name in capitals, with underscores.
screaming : Bytes → Bytes
screaming name =
    map (λ c. if c == b'-' then b'_' else if leb b'a' c && leb c b'z' then c - 32 else c) name

-- Each flag can be set by the variable that has its name in capitals, with underscores for dashes.
cli_flags-screaming :
    (registry_dir plugins_dir : Bytes)
    → All (λ flag. flag.env_var ≡ screaming flag.name) (cli_flags registry_dir plugins_dir)
unfolding cli_flags screaming
cli_flags-screaming registry_dir plugins_dir =
    (refl, (refl, (refl, (refl, (refl, (refl, (refl, tt)))))))
