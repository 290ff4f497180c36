-- ===== src/Controller/Dumps/Tests.antt =====
-- The record of two dumps.
use portage.Base.{◌≡◌, refl, true, none, ok, split}
use portage.Controller.Dumps.{dump_applied, remember_dump_applied}
use portage.Controller.Dumps.Recorded.{IsRecorded, one_line, remember_dump_applied-IsRecorded}

first_stays : dump_applied "shop/StatefulSet/a\nshop/StatefulSet/b" "shop/StatefulSet/a" ≡ true
unfolding dump_applied split
first_stays = refl

remember_dump_applied-IsRecorded_example :
    IsRecorded
      (ok "shop/StatefulSet/a")
      none
      "shop/StatefulSet/b"
      (remember_dump_applied (ok "shop/StatefulSet/a") none "shop/StatefulSet/b")
unfolding one_line
remember_dump_applied-IsRecorded_example =
    remember_dump_applied-IsRecorded (ok "shop/StatefulSet/a") none "shop/StatefulSet/b" refl refl
