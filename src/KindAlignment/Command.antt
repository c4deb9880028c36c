-- ===== src/KindAlignment/Command.antt =====
-- validation/kind/alignment/main.go: `main`, from the arguments to the report. The API server and
-- the container engine are given by what they answer.
use dra_driver_integration_e.Base.{
  ℕ, Bool, List, [], ◌∷◌, ◌++◌, length, take, replicate, Result, ok, err, ◌>>=◌, map_err, Bytes,
  codes,
}
use dra_driver_integration_e.Base.FilePath.{join}
use dra_driver_integration_e.KindAlignment.{Pod}
use dra_driver_integration_e.KindAlignment.Report.{
  CpuSets, Topology, node_root, load_cpu_set_from_file, load_physical_topology, Line, header,
  ContainerStatus, report,
}

-- What ends main with status 1.
pub data Failure : Type 0 where
  usage : Failure
  no_online_nodes no_topology no_config no_client no_moby_client no_pod no_container :
      Bytes → Failure

module _ (C : CpuSets) (read_file : Bytes → Result Bytes Bytes) where
  pub record PodAnswer : Type 0 where
    pub namespace : Bytes
    pub name : Bytes
    pub qos_class : Bytes
    pub node_name : Bytes
    pub pod : Pod
    pub container_statuses : List (ContainerStatus C read_file)

  pub record Answers : Type 0 where
    pub config : Result Bytes (Unit {0})
    pub client : Result Bytes (Unit {0})
    pub moby_client : Result Bytes (Unit {0})
    pub get_pod : Bytes → Bytes → Result Bytes PodAnswer
    pub container_id : Bytes → Result Bytes Bytes

  -- The names in the directory of the nodes, whether a path is missing, and the order of the map in
  -- each round.
  pub record Machine : Type 0 where
    pub names : List Bytes
    pub is_missing : Bytes → Bool
    pub order : ℕ → Topology C read_file → Topology C read_file

  -- `%.12s` of an identifier of ASCII characters.
  unfoldable pub header_text : PodAnswer → Bytes → Bytes
  header_text p kind_node_id =
      codes "Pod: "
      ++ (p.namespace
          ++ (codes "/"
              ++ (p.name
                  ++ (codes " QoS="
                      ++ (p.qos_class
                          ++ (codes " running on node: "
                              ++ (p.node_name
                                  ++ (codes " (Docker ID: "
                                      ++ (take 12 kind_node_id ++ codes ")")))))))))

  unfoldable pub print_report :
      Machine → C.Set → Topology C read_file → PodAnswer → Bytes → List (Line C read_file)
  print_report m all_numa_nodes topo p kind_node_id =
      let text = header_text p kind_node_id in
      header text
      ∷ header (replicate (length text) b'=')
      ∷ report C read_file m.is_missing kind_node_id p.pod all_numa_nodes m.order 0 topo
          p.container_statuses

  unfoldable pub check_pod :
      Machine → Answers → Bytes → Bytes → Result Failure (List (Line C read_file))
  check_pod m a pod_namespace pod_name = (do
    all_numa_nodes ←
        map_err no_online_nodes
          (load_cpu_set_from_file C read_file (join (node_root ∷ codes "online" ∷ [])))
    topo ← map_err no_topology (load_physical_topology C read_file m.names)
    _ ← map_err no_config a.config
    _ ← map_err no_client a.client
    _ ← map_err no_moby_client a.moby_client
    p ← map_err no_pod (a.get_pod pod_namespace pod_name)
    kind_node_id ← map_err no_container (a.container_id p.node_name)
    ok (print_report m all_numa_nodes topo p kind_node_id))

  -- `main` on `os.Args`.
  unfoldable pub main : Machine → Answers → List Bytes → Result Failure (List (Line C read_file))
  main m a (program ∷ pod_namespace ∷ pod_name ∷ more) = check_pod m a pod_namespace pod_name
  main m a _ = err usage
