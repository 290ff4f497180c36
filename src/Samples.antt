-- ===== src/Samples.antt =====
-- The workloads that the tests share: a database on a disk and a web server.
use portage.Base.{false, none, [], ◌∷◌}
use portage.Api.{sql_logical, stateless}
use portage.Classify.{Workload}

abbrev pub database : Workload
database = record {
  namespace = "shop";
  name = "db";
  kind = "StatefulSet";
  api_version = "apps/v1";
  class = sql_logical;
  engine = "postgres";
  images = "postgres:16" ∷ [];
  pvc_names = "data-db-0" ∷ [];
  unclassified = false;
  fs_group = none;
  run_as_user = none;
}

abbrev pub server : Workload
server = record database {
  name = "web";
  kind = "Deployment";
  class = stateless;
  engine = "";
  images = "nginx" ∷ [];
  pvc_names = [];
}
