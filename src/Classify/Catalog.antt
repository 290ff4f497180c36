-- ===== src/Classify/Catalog.antt =====
-- pkg/classify/catalog.go: the known data engines, and the match of an image or a custom resource.
use portage.Base.{
  String, ◌==◌, Bool, true, false, not, ◌&&◌, Option, none, some, List, [], ◌∷◌, if◌then◌else◌, any,
  contains_fold, equal_fold,
}
use portage.Api.{WorkloadClass, sql_logical, kv_logical, search_fs, queue_durable, object_store}

pub record Engine : Type 0 where
  pub name : String
  pub class : WorkloadClass
  pub image_matchers : List String
  pub crd_matchers : List String
  pub logical_dump : Bool

abbrev engine : String → WorkloadClass → Bool → List String → List String → Engine
engine name class dump images crds = record {
  name = name;
  class = class;
  image_matchers = images;
  crd_matchers = crds;
  logical_dump = dump;
}

-- `Catalog`: the first match wins.
abbrev pub catalog : List Engine
catalog =
    engine "timescale" sql_logical true ("timescale/timescaledb" ∷ "timescaledb" ∷ []) []
    ∷ engine "cockroach" sql_logical false ("cockroachdb/cockroach" ∷ "cockroachdb" ∷ []) []
    ∷ engine "postgres" sql_logical true
        ("bitnami/postgresql" ∷ "cloudnative-pg" ∷ "crunchydata" ∷ "pgvector" ∷ "supabase/postgres"
          ∷ "enterprisedb" ∷ "postgis" ∷ "postgresql" ∷ "postgres" ∷ [])
        ("postgresql.cnpg.io/Cluster" ∷ "postgres-operator.crunchydata.com/PostgresCluster" ∷ [])
    ∷ engine "mariadb" sql_logical true ("bitnami/mariadb" ∷ "mariadb" ∷ []) []
    ∷ engine "mysql" sql_logical true
        ("bitnami/mysql" ∷ "percona/percona-server" ∷ "mysql/mysql-server" ∷ "mysql" ∷ [])
        ("pxc.percona.com/PerconaXtraDBCluster" ∷ "mysql.presslabs.org/MysqlCluster" ∷ [])
    ∷ engine "mssql" sql_logical false
        ("mssql/server" ∷ "microsoft/mssql-server" ∷ "azure-sql-edge" ∷ []) []
    ∷ engine "clickhouse" sql_logical true
        ("clickhouse/clickhouse-server" ∷ "bitnami/clickhouse" ∷ "clickhouse" ∷ []) []
    ∷ engine "mongo" kv_logical true
        ("bitnami/mongodb" ∷ "percona/percona-server-mongodb" ∷ "mongodb/mongodb-community-server"
          ∷ "mongo" ∷ [])
        ("psmdb.percona.com/PerconaServerMongoDB" ∷ [])
    ∷ engine "redis" kv_logical true
        ("bitnami/redis" ∷ "redis/redis-stack" ∷ "redis-stack" ∷ "redis" ∷ [])
        ("redis.redis.opstreelabs.in/Redis" ∷ "databases.spotahome.com/RedisFailover" ∷ [])
    ∷ engine "valkey" kv_logical true ("valkey/valkey" ∷ "bitnami/valkey" ∷ "valkey" ∷ []) []
    ∷ engine "keydb" kv_logical true ("eqalpha/keydb" ∷ "keydb" ∷ []) []
    ∷ engine "dragonfly" kv_logical true ("dragonflydb/dragonfly" ∷ "dragonfly" ∷ []) []
    ∷ engine "elasticsearch" search_fs false
        ("bitnami/elasticsearch" ∷ "elastic/elasticsearch" ∷ "elasticsearch" ∷ []) []
    ∷ engine "opensearch" search_fs false
        ("opensearchproject/opensearch" ∷ "bitnami/opensearch" ∷ "opensearch" ∷ []) []
    ∷ engine "cassandra" search_fs false ("bitnami/cassandra" ∷ "cassandra" ∷ []) []
    ∷ engine "scylla" search_fs false ("scylladb/scylla" ∷ "scylla" ∷ []) []
    ∷ engine "neo4j" search_fs false ("neo4j" ∷ []) []
    ∷ engine "influxdb" search_fs false ("bitnami/influxdb" ∷ "influxdb" ∷ []) []
    ∷ engine "rabbitmq" queue_durable true ("bitnami/rabbitmq" ∷ "rabbitmq" ∷ []) []
    ∷ engine "nats" queue_durable false ("natsio/nats-server" ∷ "bitnami/nats" ∷ "nats" ∷ []) []
    ∷ engine "kafka" queue_durable false
        ("bitnami/kafka" ∷ "confluentinc/cp-kafka" ∷ "strimzi" ∷ "kafka" ∷ [])
        ("kafka.strimzi.io/Kafka" ∷ [])
    ∷ engine "minio" object_store false
        ("bitnami/minio" ∷ "minio/minio" ∷ "quay.io/minio/minio" ∷ "minio" ∷ []) []
    ∷ engine "etcd" kv_logical true ("bitnami/etcd" ∷ "quay.io/coreos/etcd" ∷ "etcd" ∷ []) []
    ∷ []

-- Does an image hold one of the engine's matchers?
unfoldable pub image_matches : String → Engine → Bool
image_matches image e = any (λ m. not (m == "") && contains_fold image m) e.image_matchers

-- Is a group/kind one of the engine's?
unfoldable pub crd_matches : String → Engine → Bool
crd_matches group_kind e = any (λ m. equal_fold m group_kind) e.crd_matchers

-- The loops of `MatchImage` and `MatchCRD`: the first engine that passes a test.
unfoldable pub first {ℓ} : {A : Type ℓ} → (A → Bool) → List A → Option A
first p [] = none
first p (x ∷ xs) = if p x then some x else first p xs

-- `MatchImage`, over the catalog of the process.
unfoldable pub match_image : List Engine → String → Option Engine
unfolding first image_matches
match_image engines image = first (image_matches image) engines

-- `MatchCRD`
unfoldable pub match_crd : List Engine → String → Option Engine
unfolding first crd_matches
match_crd engines group_kind = first (crd_matches group_kind) engines

-- `Register`: before the others.
unfoldable pub register : Engine → List Engine → List Engine
register e engines = e ∷ engines
