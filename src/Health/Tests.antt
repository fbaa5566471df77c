-- ===== src/Health/Tests.antt =====
-- Two failures in a row take a server down, and a check of one server runs to its answer.
use l4_loadbalancer.Base.{◌≤◌, ◌≡◌, ◌≢◌, refl, true, false, [], ◌∷◌, arith}
use l4_loadbalancer.Config.{HealthConf}
use l4_loadbalancer.Health.Flip.{after, streak, result_flips}
use l4_loadbalancer.Health.{Probe, HealthChecker, RsView, tick, on_response, result, probe_of}
use l4_loadbalancer.Types.{zero_mac}

abbrev conf : HealthConf
conf = record { enabled = true; interval_ms = 1000; timeout_ms = 500; fall = 2; rise = 2 }

abbrev server : RsView
server = record { id = 3; ip = 7; port = 80; mac = zero_mac; healthy = true; proto = 6 }

abbrev probe : Probe
probe = probe_of [] server conf 0

abbrev checker : HealthChecker
checker = record {
  conf = conf;
  src_ip = 9;
  next_port = 61000;
  isn_seed = 0x5a5a1234;
  probes = [];
  by_port = [];
}

program : Unit {0}
unfolding tick on_response result
program = tt

-- The first probe is due 111 ms after the start, on port 61000.
sent :
    (tick (λ id. true) (tick (λ id. true) checker (server ∷ []) 0).0 (server ∷ []) 111).0.by_port
    ≡ (61000, 3) ∷ []
unfolding program
sent = refl

-- Without an answer the port is free again after 500 ms, and a failure is counted.
late :
    (tick
      (λ id. true)
      (tick (λ id. true) (tick (λ id. true) checker (server ∷ []) 0).0 (server ∷ []) 111).0
      (server ∷ [])
      611).0.by_port
    ≡ []
unfolding program
late = refl

result_flips_example :
    ((after conf probe (false ∷ false ∷ true ∷ [])).healthy
        ≢ (after conf probe (false ∷ true ∷ [])).healthy
      → ((after conf probe (false ∷ true ∷ [])).healthy ≡ true)
        × (2 ≤ streak false (false ∷ false ∷ true ∷ [])))
    × ((after conf probe (false ∷ true ∷ [])).healthy ≡ true
        → 2 ≤ streak false (false ∷ false ∷ true ∷ [])
        → (after conf probe (false ∷ false ∷ true ∷ [])).healthy ≡ false)
result_flips_example = result_flips conf probe refl refl false (false ∷ true ∷ []) (omega arith)
