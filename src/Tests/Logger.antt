-- ===== src/Tests/Logger.antt =====
-- A device whose logger has the interval 60, and a module that asks for 300.
use lielas.Base.{◌≡◌, refl, true, false, [], ◌∷◌, ◌++◌, codes, replicate, done, arith, str_eq}
use lielas.Lwp.Wkc.{Resource}
use lielas.Lwp.Attr.Values.{Placed, join}
use lielas.Handler.Coap.{Reply, status_content}
use lielas.Handler.Logger.{set_logger_mint}
use lielas.Handler.Logger.Interval.{recorded, logger_requests, set_logger_mint-requests}

abbrev logger : Resource
logger = record {
  name = codes "logger";
  attributes = 2;
  attr = codes "state" ∷ codes "interval" ∷ replicate 8 [];
}

interval-Placed : Placed logger (codes "interval") (codes "1" ∷ [])
unfolding str_eq
interval-Placed = record {
  names = codes "state" ∷ [];
  more = replicate 8 [];
  slots = refl;
  counted = omega arith;
  other = (refl, tt);
  same_place = refl;
}

abbrev answer : Reply
answer = record {
  status = status_content;
  len = 5;
  buf = join (codes "1" ∷ []) ++ (codes "60" ++ 0 ∷ []);
}

set_logger_mint-requests_example :
    set_logger_mint
      (recorded answer)
      true
      []
      (replicate 500 0)
      (codes "fd00::1")
      (codes "300")
      logger
      (record { world = []; retries = 3 })
    ≡ done (
      false,
      record {
        world = [] ++ logger_requests answer (codes "fd00::1") (codes "300") (codes "60");
        retries = 3;
      },
    )
unfolding join
set_logger_mint-requests_example =
    set_logger_mint-requests answer interval-Placed 2 0 [] (replicate 500 0) (codes "fd00::1")
      (codes "300") (codes "60") [] [] refl refl (ground arith) (ground arith) refl (omega arith)
      (omega arith)
