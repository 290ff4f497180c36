-- ===== src/Usefulness/Tests.antt =====
-- A real dump, and a snapshot that holds certificates only.
use portage.Base.{◌≡◌, refl, ◌↔◌, true, false, [], ◌∷◌, i64_le, i64_lt}
use portage.Api.{sql_logical}
use portage.Usefulness.{Input, evaluate, looks_like_dump}
use portage.Usefulness.Verdict.{HoldsData, evaluate_iff}

abbrev certs : Input
certs = record {
  class = sql_logical;
  engine = "postgres";
  size_bytes = 0;
  files = record { path = "certs/server.key"; size_bytes = 12000 } ∷ [];
  snapshot_ready = true;
  has_snapshot = true;
}

abbrev dumped : Input
dumped = record certs {
  files =
      record { path = "certs/server.key"; size_bytes = 12000 }
      ∷ record { path = "dump/Shop.SQL"; size_bytes = 70000 }
      ∷ [];
}

evaluate_iff_example : ((evaluate dumped).useful ≡ true) ↔ HoldsData sql_logical dumped
evaluate_iff_example = evaluate_iff dumped

evaluate_tests :
    ((evaluate certs).useful ≡ false)
    × ((evaluate dumped).useful ≡ true)
    × ((evaluate dumped).message ≡ "logical dump dump/Shop.SQL")
unfolding evaluate looks_like_dump i64_le i64_lt
evaluate_tests = (refl, refl, refl)
