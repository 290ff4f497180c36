-- ===== src/Lib.antt =====
-- A model of Portage, the operator that moves classified Kubernetes workloads between clusters, with
-- the theorems that make its decisions correct. Portage inventories the workloads of a source
-- cluster, judges whether a copy of their data is useful, and drives Backup, Restore and Cutover
-- Actions over a destination. Its rule is that an Action does not say Succeeded before the data is
-- proven there.
--
-- The parts, and the code that each is about:
--   Api           api/v1alpha1: classes, phases, the status of an Action, attestations.
--   Kube          the fields of the Kubernetes objects that the program reads or writes.
--   Classify      pkg/classify: the workload, the catalog of engines (Catalog: MatchImage, MatchCRD,
--                 Register), the helpers of the inventory (Pods) and the inventory itself (Walk: Walk).
--   Usefulness    pkg/usefulness/usefulness.go: Evaluate, on 64-bit sizes.
--   Movers        pkg/movers/mover.go: the registry and Select.
--   Actionphase   pkg/actionphase/complete.go: CanSucceed, the gate before Succeeded.
--   Restore       pkg/restore/machine.go: seeding and observing (Restore), Advance (Restore.Advance).
--   Backup        pkg/backup: Healthy, FromArtifact, Advance.
--   Cutover       pkg/cutover/machine.go: Advance, and runs of it (Order).
--   Controller    internal/controller/action_controller.go: which Actions a reconcile takes up, with
--                 restoreRetryable (Resume), when the source of a cutover is frozen (Frozen), runBackup
--                 (BackupRun), runRestore (RestoreRun), runReplicate (Replicate), runCutover
--                 (Failover, and runs of it in Failover.Through), the record of the dumps that were applied (Dumps), what is written back
--                 of a machine's result (Status), and Reconcile, which composes them (Dispatch).
--   Transform     pkg/transform/sanitize.go: the typed claim (Transform), and the walks over
--                 generic objects (Runtime, Tolerations).
--   Heal          pkg/heal/heal.go: PVC and PodSpec.
--   Probe         pkg/probe: Default, Run and RequireOK.
--   Scale         pkg/workloads/scale.go: Scale, ScaledToZero and OriginalReplicas.
--   Readiness     pkg/workloads/pods.go: Ready, ListPods and FirstReadyPod.
--   Pins          pkg/movers/volsync/dest_pins.go: pods and jobs pinned to nodes of the source.
--   Scratch       pkg/movers/volsync/scratch.go: the marks of scratch claims, and who is evicted from them.
--   Graph         pkg/clusterobjects: the exclusion patterns (Graph), discover (Discover), List and
--                 skipObj (Listing), the pass of Sync with syncOne and updateWithRetry, and Attest
--                 (Sync).
--   Capsule       pkg/clusterobjects: capsule.go, capsule_access.go, capsule_ensure.go, whoami.go and
--                 syncNamespace (Capsule.Namespace).
--   Policy        internal/controller/policy_controller.go: the pass of the Policy reconciler (Pass), the
--                 Actions that it creates (Actions), over a store of Actions (Server, Memory).
--   Base          what they share: lists over native numbers, Go maps as association lists, the
--                 calls of strings and sort, int64 arithmetic, results with an error.
--   Samples       the workloads of the tests. The modules named Tests hold examples.
--
-- How they interact: Walk gives the inventory that Backup's Healthy and the machines read. Evaluate
-- gives the artifacts that Healthy counts and the facts about useful copies that the restore machine
-- reads. Each machine takes the status of its Action and the facts of a reconcile and gives the next
-- status; the controller writes that back, and a cutover's run is the sequence of these steps, with
-- facts that may differ at each. The restore and cutover machines ask CanSucceed before Succeeded.
--
-- Conventions: a machine is a function from facts and status to a result, and a panic of the code (a
-- write to a nil map) is a result of none. A Go map is an association list whose first entry of a
-- key counts. A pointer is an Option. Sizes of artifacts are int64 as 64-bit patterns whose sum
-- wraps. Texts are lists of code points, and case is folded over ASCII, which holds the names that
-- the program compares. No loop needs fuel but the decimal print of a number, which has one digit
-- more than it can use; updateWithRetry counts its attempts down as the code does.
--
-- The API server and the clients of clusters are not under this tree, and a mover, a dump or a snapshot
-- counts by what its calls answer: Lister (Walk), Mover.discover, the answers of calls (Graph.Sync:
-- Calls, Round, Reply; Graph.Listing: Source), the lists of Pins, the executor of Probe, the Answers
-- of Policy, Capsule, Readiness and Controller, schema.ParseGroupVersion, time.ParseDuration and
-- strconv.Atoi are arguments. Nothing is assumed of them but, in one theorem of Scale, that Atoi
-- reads one count back as it was written, in one of the live replica, that an error has a text, and
-- in Policy, the laws of the writes of a store of Actions (Server), which a list of Actions (Memory)
-- has. The controllers read from a cache, which may be behind: what a pass of the Policy reconciler
-- reads is an argument beside the store, and a theorem that needs it not to be behind says so.
-- A call on a client that is nil panics in the code; the model leaves that out where Reconcile has
-- made sure of the client before (the path of runRestore without a destination).
--
-- Not modelled: the removal of fields from generic objects and the walk over fsGroup in
-- pkg/transform; the hints on Capsule in pkg/clusterobjects; the times of an Action and the
-- registration of movers in internal/controller; the data paths of the movers, the live sizes, the
-- snapshots, the traffic hook, rendering, export and the command line, which are mostly calls of
-- other systems; the generated deep copies.
mod Base
pub mod Api
pub mod Kube
pub mod Classify
pub mod Transform
pub mod Heal
pub mod Pins
pub mod Scratch
pub mod Readiness
pub mod Scale
pub mod Probe
pub mod Graph
pub mod Movers
mod Samples
pub mod Actionphase
pub mod Restore
pub mod Usefulness
pub mod Backup
pub mod Cutover
pub mod Controller
pub mod Policy
pub mod Capsule
