-- ===== src/Lib.antt =====
-- The tools that put virtual machines and their hosts in shape for tests of DRA drivers.
--
-- The parts, and how they interact:
--   * virtinjectd/ is a proxy in front of libvirtd. It reads each RPC message of a client
--     (protocol.go), takes the domain XML out of a define call (xdr.go), runs a chain of hook
--     scripts over it (hook.go), and forwards the message with the XML that they leave (proxy.go).
--     Replies go back as they came. Each connection has a goroutine per direction.
--   * setup/ holds commands that prepare a node. setup/sriovvf creates the virtual functions of a
--     network device and gives them NUMA nodes; setup/hugepages has the kernel set huge pages aside,
--     by setup/pkg/hugepages/provision. Both write to sysfs. setup/containerd edits the container
--     runtime's configuration, by setup/pkg/containerd. setup/workernode prints a job for a cluster
--     that runs a setup once on each worker.
--   * driver/ holds the commands that start the DRA drivers of other repositories: for CPUs, memory
--     and SR-IOV. validation/ holds two that report how the CPUs and the memory of a container are
--     placed: in the container itself (generic), and for the pods of a kind cluster, from the host
--     (kind).
--
-- The files, and the code they model:
--   Base and the modules below it: what the standard library of Go does, as far as the code uses it
--     (slices and `copy`, `strconv.Itoa`, `sort.Strings`, `filepath.Join`, `strings.TrimSpace`,
--     `strings.Contains`), with the lemmas that the parts share. Strings are lists of bytes.
--   Virtinjectd.Uint32: the big-endian words of encoding/binary.
--   Virtinjectd.Xdr: virtinjectd/xdr.go. `decode_xdr_string` is DecodeXDRString, and so on: each
--     function has the name of the code's in lower case with underscores, in all files.
--   Virtinjectd.Protocol: virtinjectd/protocol.go. ReadMessage is cut into `read_message`,
--     `read_body` and `split_message`, WriteMessage into `message_buffer` and `write_message`.
--   Virtinjectd.Hook: virtinjectd/hook.go. `System` is what the code asks of the file system and of
--     processes, over a state of its own; `run` is HookChain.Run, with `discover` for its first two
--     steps and `run_hooks` for its loop.
--   Virtinjectd.Proxy: virtinjectd/proxy.go. `intercept` and `passthrough` are the two closures of
--     handleConnection, `forward` is the loop of one direction, `accept_loop` is Proxy.Run, and
--     Virtinjectd.Proxy.Connection is handleConnection as a machine: `Step` interleaves the two
--     goroutines and the function that waits for them. Virtinjectd.Proxy.Session is the machine with
--     its data: a step that relays is a `round` of `forward`, and once a connection is closed, what
--     a goroutine may still read and write is cut at any place. In both a goroutine may fail at any
--     time; Virtinjectd.Proxy.Connection.Returning tells the steps apart that need no peer (`IsSure`),
--     where a goroutine that waits fails only once both connections are closed.
--   Sriovvf: setup/sriovvf/main.go, its data, its `Sysfs` and the helpers at its end, with
--     Sriovvf.Address (isPCIAddress), Sriovvf.Device (resolvePF, validatePFDevice, setNumVFs,
--     setPFNUMANode), Sriovvf.Nodes (listVFPaths, listNUMANodes, pinVFNUMA, balanceVFNUMA) and
--     Sriovvf.Run (run, cut at its steps, finishTryMode, and handleFailure as `stop` and `after`)
--     and Sriovvf.Command (main, parseFlags, newLogger).
--   Hugepages: setup/pkg/hugepages/provision, the types and the size check of its api/v0, and the
--     loop of setup/hugepages/main.go, with Hugepages.Reading (ReadConfiguration).
--   Containerd: setup/pkg/containerd/containerd.go. A table that is edited in place is written back
--     to the table it came from. Containerd.Command: setup/containerd/main.go.
--   WorkerNode: setup/workernode/main.go. `Cluster` is what it asks of the Kubernetes libraries.
--   Driver.Cpu, Driver.Memory and Driver.Sriov: driver/cpu/main.go, driver/memory/main.go and
--     driver/sriov/main.go. A run of such a command is the list of its calls of other code, up to
--     the first that fails (Base.Trace), for whatever these calls answer (`Answers`).
--   Virtinjectd.Command: virtinjectd/main.go, the level of the log, the start and the end.
--   KindAlignment: findKindCgroupPath of validation/kind/alignment/main.go, with
--     KindAlignment.Report (loadPhysicalTopology, loadCPUSetFromFile, the loop of main) and
--     KindAlignment.Command (main). The map of the NUMA nodes is ranged over in any order.
--   GenericAlignment: validation/generic/alignment/main.go.
--   The modules below these hold the proofs; those named Examples hold runs and the theorems at
--     concrete data.
--
-- Bounds and fuel: `int` has 64 bits, a `uint32` is a number below 2 ^ 32, and conversions to it
-- keep the low 32 bits. `forward` has one more round of fuel than its input has bytes; each round
-- reads 28 of them at least, so that the fuel never runs out. All other loops follow a list or count
-- down. The commands of setup/ use signed integers (Base.Int).
--
-- Not modelled: the log, the wall clock (a timeout is one of the errors of a process), the parsing of
-- command lines, and signals. A connection that is read is the bytes that come and the error that
-- ends them, and one that is written takes a number of bytes before it fails. An error of the
-- system is known by its text. The YAML and TOML parsers and printers, the Kubernetes libraries, the
-- sets of CPUs, the container engine, the discovery of hardware, and the packages of the drivers are
-- parameters of the model. Of the Kubernetes objects, the fields that the code sets are there. The
-- flags that the libraries add in driver/sriov, the metrics and the time-outs of driver/cpu, and the
-- layout of the lines that validation/kind prints are left out. scripts/ holds a hook in Python,
-- which is not modelled.
pub mod Base
pub mod Containerd
pub mod Driver
pub mod GenericAlignment
pub mod Hugepages
pub mod KindAlignment
pub mod Sriovvf
pub mod Virtinjectd
pub mod WorkerNode
