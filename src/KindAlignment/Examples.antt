-- ===== src/KindAlignment/Examples.antt =====
-- The path of a container of a burstable pod.
use dra_driver_integration_e.Base.{◌≡◌, refl, false, ok, codes, eq_bytes, has_prefix}
use dra_driver_integration_e.Base.FilePath.{join, clean, split}
use dra_driver_integration_e.KindAlignment.{
  Pod, burstable, cut, first_part, runtime_and_id, container_scope, cgroup_path,
  find_kind_cgroup_path,
}

abbrev pod : Pod
pod = record { uid = codes "1-2"; qos_class = burstable }

found :
    find_kind_cgroup_path (λ path. false) (codes "f0") pod (codes "containerd://ab")
    ≡ ok (
        codes
          "/sys/fs/cgroup/system.slice/docker-f0.scope/kubelet.slice/kubelet-kubepods.slice/kubelet-kubepods-burstable.slice/kubelet-kubepods-burstable-pod1_2.slice/cri-containerd-ab.scope")
unfolding find_kind_cgroup_path runtime_and_id first_part cut has_prefix cgroup_path container_scope
    join clean split eq_bytes
found = refl
