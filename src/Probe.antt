-- ===== src/Probe.antt =====
-- pkg/probe: the check of a class that a workload's data is there (probe.go, run.go).
pub mod Passed
mod Tests
use portage.Base.{
  String, ◌==◌, ◌<>◌, Bool, true, false, not, Option, none, some, List, [], ◌∷◌, if◌then◌else◌, any,
  all, is_empty, Fallible, ok, err,
}
use portage.Api.{WorkloadClass, stateless, cluster_objects}
use portage.Classify.{Workload}
use portage.Restore.{ProbeResult}

-- `Spec`
pub record Spec : Type 0 where
  pub command : List String
  pub message : String

abbrev pub spec : List String → String → Spec
spec command message = record { command = command; message = message }

abbrev pub is_one_of : List String → String → Bool
is_one_of names engine = any (λ n. n == engine) names

-- The second `switch` of `Default`, on the class.
abbrev pub by_class : WorkloadClass → Spec
by_class stateless = spec [] "k8s-ready"
by_class cluster_objects = spec [] "dest-get"
by_class _ = spec [] "volume-mounted"

-- `Default`
unfoldable pub default_spec : Workload → Spec
default_spec w =
    if is_one_of ("postgres" ∷ "timescale" ∷ []) w.engine
    then spec ("pg_isready" ∷ []) "pg_isready"
    else if is_one_of ("mysql" ∷ "mariadb" ∷ []) w.engine
    then spec ("mysqladmin" ∷ "ping" ∷ []) "mysqladmin ping"
    else if is_one_of ("redis" ∷ "valkey" ∷ "keydb" ∷ "dragonfly" ∷ []) w.engine
    then spec ("redis-cli" ∷ "ping" ∷ []) "PING"
    else if is_one_of ("mongo" ∷ []) w.engine
    then spec ("mongosh" ∷ "--eval" ∷ "db.hello()" ∷ []) "hello"
    else if is_one_of ("minio" ∷ []) w.engine
    then spec ("mc" ∷ "ready" ∷ "local" ∷ []) "mc ready"
    else by_class w.class

-- `RequireOK`
unfoldable pub require_ok : List ProbeResult → Bool
require_ok results = if is_empty results then false else all (λ r. r.ok) results

-- What a command answers in a pod: its error, if it has one, and what it wrote to stderr.
pub record ExecResult : Type 0 where
  pub error : Option String
  pub stderr : String

-- A pod and its container.
abbrev pub Place : Type 0
Place = String × String

abbrev pub result : Bool → String → ProbeResult
result passed message = record { ok = passed; message = message }

abbrev pub judge_error : Spec → String → Option String → ProbeResult
judge_error s stderr none = result true s.message
judge_error s stderr (some e) =
    let message = s.message <> " failed: " <> e in
    result false (if stderr == "" then message else message <> ": " <> stderr)

abbrev pub exec_in : Spec → (Place → List String → ExecResult) → Fallible Place → ProbeResult
exec_in s exec (err e) = result false e
exec_in s exec (ok place) = let r = exec place s.command in judge_error s r.stderr r.error

abbrev pub run_command :
    Spec → Option (Place → List String → ExecResult) → Fallible Place → ProbeResult
run_command s none place = result false "execer not configured"
run_command s (some exec) place = exec_in s exec place

abbrev pub is_graph : WorkloadClass → Bool
is_graph cluster_objects = true
is_graph _ = false

-- `Run`: `exec` stands for the executor, `none` for nil, and `place` for `FirstReadyPod`.
unfoldable pub run :
    Option (Place → List String → ExecResult) → Fallible Place → Workload → ProbeResult
unfolding default_spec
run exec place w =
    let s = default_spec w in
    if is_graph w.class
    then result false "cluster objects require dest Get (clusterobjects.Attest)"
    else if is_empty s.command
    then result true s.message
    else run_command s exec place
