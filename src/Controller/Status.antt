-- ===== src/Controller/Status.antt =====
-- internal/controller/action_controller.go: how a result becomes the status of the Action, the
-- part of `Reconcile` after the machine has run.
use portage.Base.{String, ◌<>◌, ◌==◌, Option, none, some, if◌then◌else◌, trim_space}
use portage.Api.{ActionStatus, Attestation}
use portage.Restore.{Result}

-- The message with the destination's name, where the Policy has a ClusterPair (`some`) and its
-- destination a name.
unfoldable pub told : Option String → String → String
told none message = message
told (some dest) message = if dest == "" then message else trim_space (message <> "; dest=" <> dest)

abbrev pub newer : Option Attestation → Option Attestation → Option Attestation
newer none old = old
newer (some a) old = some a

unfoldable pub write_back : Option String → ActionStatus → Result → ActionStatus
write_back dest status r = record {
  phase = r.phase;
  message = told dest r.message;
  workloads = r.workloads;
  attestation = newer r.attestation status.attestation;
}
