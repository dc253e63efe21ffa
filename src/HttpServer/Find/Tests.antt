-- ===== src/HttpServer/Find/Tests.antt =====
-- Tests of `case_find`.
use pico2w_grbl_bridge.Base.{◌≡◌, refl, some, codes}
use pico2w_grbl_bridge.HttpServer.Find.{case_find}
use pico2w_grbl_bridge.HttpServer.Find.First.{IsFirst, case_find-IsFirst}

case_find-IsFirst_example :
    IsFirst
      (codes "xContent-length: 3 CONTENT-LENGTH: 4")
      (codes "content-LENGTH:")
      (case_find (codes "xContent-length: 3 CONTENT-LENGTH: 4") (codes "content-LENGTH:"))
case_find-IsFirst_example =
    case_find-IsFirst (codes "xContent-length: 3 CONTENT-LENGTH: 4") (codes "content-LENGTH:")
      (λ e. cc)

found_first :
    case_find (codes "xContent-length: 3 CONTENT-LENGTH: 4") (codes "content-LENGTH:") ≡ some 1
unfolding case_find
found_first = refl
