-- ===== src/Lib.antt =====
-- vk-cocoon is a Virtual Kubelet provider: it runs the pods of one node as microVMs through the cocoon
-- CLI. provider/cocoon keeps tables of pods, VMs, published lifecycle intents, delete claims and
-- retries under one mutex; its handlers (create, update, delete, VM events) change them in short
-- sections and make slow calls between the sections; probes/ tells it which guests answer.
--
-- The parts and where they are modelled:
--   Kube.antt        pods, statuses, and cocoon-common's `meta` package as the record `Meta`
--   Vm.antt          vm/runtime.go: the types of VMs, NICs and snapshots
--   Spec.antt        what the handlers read off a pod: lifecycleCreating, pendingSnapshotRef and the like
--   Provider/State   provider/cocoon/provider.go: the fields of `Provider`
--   Provider/Track   provider.go, reconcile.go, lifecycle.go: the sections on the tables of pods and VMs
--   Provider/Lifecycle, Provider/Flush, Provider/Ready
--                    lifecycle.go: the published intent, its flush to the apiserver, and Ready;
--                    Ready has liftHibernateFailure (update.go) as well
--   Provider/Retry   retry.go: the locks of pods and the retries of failed updates
--   Provider/Resume  resume.go: which interrupted step a pod owes, and the claim on it
--   Provider/Sections  any interleaving of the handlers' sections, as a list
--   Provider/Status  status.go: the pod status, and the comparison of two
--   Provider/World   the calls that a handler makes of other components
--   Provider/Runtime the steps that the handlers share: bindings, annotations, statuses, removal
--   Provider/Hibernate  update.go: hibernate, its stages and its rollback
--   Provider/Quiet   what the shared steps leave out of a history of calls
--   Provider/Image   create.go: the images and options of a boot
--   Provider/Source, Provider/Wake
--                    update.go: the source of a wake, and the clone that wakes the VM
--   Provider/Prepare, Provider/BringUp, Provider/Create
--                    create.go: the snapshots of a clone, how a create gets its VM, and CreatePod
--   Provider/Endpoint  create.go, macos.go: endpoint annotations, and Ready of a macOS guest
--   Provider/Macos   macos.go: VNC ports, the create and the adoption of a macOS guest, and its probe
--   Provider/Dispatch  create.go: CreatePod for both kinds of guests
--   Provider/Update  update.go, snapshot.go: UpdatePod, and requests for a snapshot
--   Provider/PostClone  postclone.go, update.go: the fixup of a guest after a clone, the console pass
--                    over a Windows guest, the wait for a lease, and the post-clone markers
--   Guest            guest/sac/sac.go: what a Windows console lists
--   Provider/Evict   provider.go: handleVMGone, removeThenEvict, evictPod
--   Provider/Delete  delete.go, snapshot.go, macos.go: DeletePod
--   Provider/Evidence  create.go, compatibility.go: adoption, hibernate evidence, compatibility class
--   Provider/Stale   reconcile.go: creates that a restart left behind, and the orphan policy
--   Provider/Startup reconcile.go, resume.go: StartupReconcile and the work that a restart interrupted
--   Provider/Reclaim gc.go: which local snapshots are dropped
--   Network          network/: cocoon-net's leases, cached, and their release
--   Cli              vm/cocoon_cli.go: the arguments of exec, clone and run, and SnapshotSave
--   Probes           probes/probes.go: the manager's tables and the loop of a probe agent
--   Resources        create.go, provider/capacity.go, postclone.go: CPU policy, reserve, netmask
--   Tests            sample values, on which the theorems are run
--
-- A definition has its Go function's name in snake case; a method on `Provider` takes the tables, or
-- is a handler in the monad `Io` of Provider/World. A section under `p.mu` is one function on the
-- tables, so sections are atomic, and any change that other goroutines make while a handler waits for
-- a call is the function `others` of `Env`, which the theorems leave open unless they say otherwise.
-- An `Env` answers each call from the history of calls so far. A handler that runs under the lock of
-- its pod is modelled from where it holds the lock.
--
-- Loops over retries recurse on the number of tries left, which the source bounds: three patches of
-- an annotation, two inspects, two deletes of a pod. Loops over tables and NICs recurse on the list.
-- The attempts of a fixup, the watch of a busy create, the wait for a lease and that for the name of
-- a snapshot recurse on fuel, and theorems say how much is enough. The matches of a regular
-- expression are an answer of `Env`.
-- Integers are natural numbers, and Resources writes out where an int64 product may wrap around.
-- Go's maps are association lists, whose order stands for the order of iteration.
--
-- Not modelled: metrics, logs, events and the texts of most errors; context cancellation other than
-- of a sleep; timers and tickers; the processes, sockets and files behind the cocoon CLI, the guest
-- console, the registry and the peers. The functions of cocoon-common are the fields of `Meta`;
-- theorems that need their documented behaviour take `StatusLaws`: writing a status or a mark to a
-- pod keeps its identity, and a status is read back as written. A flight
-- that several creates share is run by the one that asks.
pub mod Base
pub mod Cli
pub mod Guest
pub mod Kube
pub mod Network
pub mod Probes
pub mod Provider
pub mod Resources
pub mod Spec
pub mod Tests
pub mod Vm
