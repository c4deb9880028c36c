-- ===== src/KindAlignment/Report/Zones.antt =====
-- What the report prints for a container, and that it has a section for each.
use dra_driver_integration_e.Base.{
  ℕ, suc, ◌≡◌, refl, ap, ◌↔◌, ◌⊎◌, inl, inr, Bool, true, false, List, [], ◌∷◌, ◌++◌, map, arith,
  if◌then◌else◌, Member, Result, ok, Bytes, codes,
}
use dra_driver_integration_e.Base.Int.{ℤ}
use dra_driver_integration_e.Base.FilePath.{join}
use dra_driver_integration_e.KindAlignment.{Pod, find_kind_cgroup_path}
use dra_driver_integration_e.KindAlignment.Report.{
  CpuSets, Topology, load_cpu_set_from_file, Line, container_line, memory_title, cpu_title, blank,
  memory_zone, cpu_zone, ContainerStatus, cpu_zones, container_lines, report,
}

module _ {A : Type 0} where
  Member-append : (a : A) (xs ys : List A) → Member a (xs ++ ys) ↔ (Member a xs ⊎ Member a ys)
  Member-append a [] ys = (inr, λ h. elim h [ inl m ↦ absurd m | inr m ↦ m ])
  Member-append a (x ∷ xs) ys = ground (arith, Member-append a xs ys)

module _ (C : CpuSets) (read_file : Bytes → Result Bytes Bytes) where
  abbrev Lines : Type 0
  Lines = List (Line C read_file)

  -- The sections of a report: the containers that it names.
  abbrev pub sections : Lines → List Bytes
  sections [] = []
  sections (container_line name ∷ lines) = name ∷ sections lines
  sections (l ∷ lines) = sections lines

  sections-append : (xs ys : Lines) → sections (xs ++ ys) ≡ sections xs ++ sections ys
  sections-append [] ys = refl
  sections-append (x ∷ xs) ys = ground (arith, sections-append xs ys)

  sections-zones :
      (assigned : C.Set) (topo : Topology C read_file)
      → sections (cpu_zones C read_file assigned topo) ≡ []
  unfolding cpu_zones
  sections-zones assigned [] = refl
  sections-zones assigned ((id, cpus) ∷ topo) = ground (arith, sections-zones assigned topo)

  sections-memory : (ids : List ℤ) → sections (map memory_zone ids) ≡ []
  sections-memory [] = refl
  sections-memory (id ∷ ids) = sections-memory ids

  -- The zones that have CPUs of a set.
  abbrev pub Meets : C.Set → Topology C read_file → ℤ → C.Set → Type 0
  Meets assigned topo id matches =
      (cpus : C.Set) × Member (id, cpus) topo
      × (matches ≡ C.intersection cpus assigned)
      × (C.is_empty matches ≡ false)

  Meets-later :
      (assigned : C.Set) (z : ℤ × C.Set) (topo : Topology C read_file) (id : ℤ) (matches : C.Set)
      → Meets assigned topo id matches
      → Meets assigned (z ∷ topo) id matches
  Meets-later assigned z topo id matches (cpus, m, e, f) = (cpus, inr m, e, f)

  cpu_zones-Meets :
      (assigned : C.Set) (topo : Topology C read_file) (id : ℤ) (matches : C.Set)
      → Member (cpu_zone id matches) (cpu_zones C read_file assigned topo)
      → Meets assigned topo id matches
  unfolding cpu_zones
  cpu_zones-Meets assigned [] id matches m = absurd m
  cpu_zones-Meets assigned ((id', cpus') ∷ topo) id matches m =
      go (cpu_zones-Meets assigned topo id matches) (C.is_empty (C.intersection cpus' assigned))
        refl
    where
      go :
          (Member (cpu_zone id matches) (cpu_zones C read_file assigned topo)
            → Meets assigned topo id matches)
          → (b : Bool) → C.is_empty (C.intersection cpus' assigned) ≡ b
          → Meets assigned ((id', cpus') ∷ topo) id matches
      go ih true e = Meets-later assigned (id', cpus') topo id matches (ih (rw (cpu_zones, e) at m))
      go ih false e = elim (rw (cpu_zones, e) at m) [
        | inl here ↦ (cpus', inl (ground arith), ground arith, ground arith)
        | inr later ↦ Meets-later assigned (id', cpus') topo id matches (ih later)
      ]

  Meets-cpu_zones :
      (assigned : C.Set) (topo : Topology C read_file) (id : ℤ) (matches : C.Set)
      → Meets assigned topo id matches
      → Member (cpu_zone id matches) (cpu_zones C read_file assigned topo)
  unfolding cpu_zones
  Meets-cpu_zones assigned [] id matches (cpus, m, e, f) = absurd m
  Meets-cpu_zones assigned ((id', cpus') ∷ topo) id matches (cpus, inl m, e, f) = ground arith
  Meets-cpu_zones assigned ((id', cpus') ∷ topo) id matches (cpus, inr m, e, f) =
      ground (arith, Meets-cpu_zones assigned topo id matches (cpus, m, e, f))

  memory_line :
      (ids : List ℤ) (id : ℤ)
      → Member {A = Line C read_file} (memory_zone id) (map memory_zone ids) ↔ Member id ids
  memory_line [] id = (λ m. m, λ m. m)
  memory_line (x ∷ ids) id = ground (arith, memory_line ids id)

  cpu_not_memory :
      (ids : List ℤ) (id : ℤ) (matches : C.Set)
      → Member {A = Line C read_file} (cpu_zone id matches) (map memory_zone ids)
      → ⊥
  cpu_not_memory [] id matches m = m
  cpu_not_memory (x ∷ ids) id matches m = ground (arith, cpu_not_memory ids id matches)

  memory_not_cpu :
      (assigned : C.Set) (topo : Topology C read_file) (id : ℤ)
      → Member (memory_zone id) (cpu_zones C read_file assigned topo)
      → ⊥
  unfolding cpu_zones
  memory_not_cpu assigned [] id m = m
  memory_not_cpu assigned (z ∷ topo) id m = ground (arith, memory_not_cpu assigned topo id)

  -- The lines of a container whose files can be read.
  abbrev body : List ℤ → Lines → Bytes → Lines
  body ids zones name =
      container_line name ∷ (memory_title ∷ map memory_zone ids)
      ++ ((cpu_title ∷ zones) ++ (blank ∷ []))

  body_cpu :
      (ids : List ℤ) (zones : Lines) (name : Bytes) (id : ℤ) (matches : C.Set)
      → Member (cpu_zone id matches) (body ids zones name) ↔ Member (cpu_zone id matches) zones
  body_cpu ids zones name id matches = ground (
    arith,
    Member-append (cpu_zone id matches) (memory_title ∷ map memory_zone ids)
        ((cpu_title ∷ zones) ++ (blank ∷ [])),
    Member-append (cpu_zone id matches) (cpu_title ∷ zones) (blank ∷ []),
    cpu_not_memory ids id matches,
  )

  body_memory :
      (ids : List ℤ) (assigned : C.Set) (topo : Topology C read_file) (name : Bytes) (id : ℤ)
      → Member (memory_zone id) (body ids (cpu_zones C read_file assigned topo) name)
        ↔ Member id ids
  body_memory ids assigned topo name id = ground (
    arith,
    Member-append (memory_zone id) (memory_title ∷ map memory_zone ids)
        ((cpu_title ∷ cpu_zones C read_file assigned topo) ++ (blank ∷ [])),
    Member-append (memory_zone id) (cpu_title ∷ cpu_zones C read_file assigned topo) (blank ∷ []),
    memory_line ids id,
    memory_not_cpu assigned topo id,
  )

  sections-body :
      (ids : List ℤ) (assigned : C.Set) (topo : Topology C read_file)
      → sections (
          (memory_title ∷ map memory_zone ids)
          ++ ((cpu_title ∷ cpu_zones C read_file assigned topo) ++ (blank ∷ [])))
        ≡ []
  sections-body ids assigned topo =
      rw
        (
          sections-append (memory_title ∷ map memory_zone ids)
              ((cpu_title ∷ cpu_zones C read_file assigned topo) ++ (blank ∷ [])),
          sections-memory ids,
          sections-append (cpu_title ∷ cpu_zones C read_file assigned topo) (blank ∷ []),
          sections-zones assigned topo,
        )
        refl

  module _ (is_missing : Bytes → Bool) (kind_node_id : Bytes) (pod : Pod)
      (all_numa_nodes : C.Set) where
    -- For a container whose control group is found and whose two files can be read, the report has
    -- a line for a NUMA zone and CPUs exactly if these are the CPUs of the container in that zone
    -- of the machine, and some; and it has a line for the memory of a zone exactly if the container
    -- was given it or, where it was given no zone, the zone is online. The order in which the map
    -- of the zones is ranged over is no matter.
    pub container_lines_zones :
        (topo ranged : Topology C read_file) (status : ContainerStatus C read_file) (path : Bytes)
        (assigned nodes : C.Set) (id : ℤ) (matches : C.Set)
        → ((z : ℤ × C.Set) → Member z ranged ↔ Member z topo)
        → find_kind_cgroup_path is_missing kind_node_id pod status.container_id ≡ ok path
        → load_cpu_set_from_file C read_file (join (path ∷ codes "cpuset.cpus" ∷ [])) ≡ ok assigned
        → load_cpu_set_from_file C read_file (join (path ∷ codes "cpuset.mems" ∷ [])) ≡ ok nodes
        → (Member
              (cpu_zone id matches)
              (container_lines C read_file is_missing kind_node_id pod all_numa_nodes ranged status)
            ↔ Meets assigned topo id matches)
          × (Member (memory_zone id) (
                container_lines C read_file is_missing kind_node_id pod all_numa_nodes ranged
                  status)
              ↔ Member id (C.list (if C.is_empty nodes then all_numa_nodes else nodes)))
    unfolding container_lines
    container_lines_zones topo ranged status path assigned nodes id matches same found cpus mems =
        let ids = C.list (if C.is_empty nodes then all_numa_nodes else nodes) in
        let zones = cpu_zones C read_file assigned ranged in
        rw (container_lines, found, cpus, mems)
          (
            (
              λ m. over (
                  cpu_zones-Meets assigned ranged id matches
                    ((body_cpu ids zones status.name id matches).0 m)),
              λ m.
                  (body_cpu ids zones status.name id matches).1
                    (Meets-cpu_zones assigned ranged id matches (back m)),
            ),
            body_memory ids assigned ranged status.name id,
          )
      where
        over : Meets assigned ranged id matches → Meets assigned topo id matches
        over (cpus, m, e, f) = (cpus, (same (id, cpus)).0 m, e, f)

        back : Meets assigned topo id matches → Meets assigned ranged id matches
        back (cpus, m, e, f) = (cpus, (same (id, cpus)).1 m, e, f)

    sections-container_lines :
        (topo : Topology C read_file) (status : ContainerStatus C read_file)
        → sections
            (container_lines C read_file is_missing kind_node_id pod all_numa_nodes topo status)
          ≡ status.name ∷ []
    unfolding container_lines
    sections-container_lines topo status =
        grind (arith, λ (assigned : C.Set) (ids : List ℤ). sections-body ids assigned topo)

    -- The report names the containers of the pod, each once and in their order, whatever fails for
    -- one of them.
    pub sections-report :
        (order : ℕ → Topology C read_file → Topology C read_file) (n : ℕ)
        (topo : Topology C read_file) (statuses : List (ContainerStatus C read_file))
        → sections
            (report C read_file is_missing kind_node_id pod all_numa_nodes order n topo statuses)
          ≡ map (λ status. status.name) statuses
    unfolding report
    sections-report order n topo [] = refl
    sections-report order n topo (status ∷ statuses) =
        rw
          (
            sections-append
                (container_lines C read_file is_missing kind_node_id pod all_numa_nodes
                  (order n topo) status)
                (report C read_file is_missing kind_node_id pod all_numa_nodes order (suc n) topo
                  statuses),
            sections-container_lines (order n topo) status,
          )
          (ap (◌∷◌ status.name) (sections-report order (suc n) topo statuses))
