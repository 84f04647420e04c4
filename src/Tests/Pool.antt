-- ===== src/Tests/Pool.antt =====
-- The connection pool and the sharded pool of roshi/pool on small inputs.
use er_pi_middleware25_artif.Base.{pos, ◌≡◌, ◌↔◌, [], ◌∷◌, some, Bool, false, not, arith}
use er_pi_middleware25_artif.Pool.Connections.{Connections, new_connection_pool, get, put}
use er_pi_middleware25_artif.Pool.Connections.Steps.{
  World, calls, gets, Reach, here, next, start, IsSound, Reach-start-IsSound,
}
use er_pi_middleware25_artif.Pool.Sharding.{Pool, new, size, id, panics, Action, id_panics_iff}

program : Unit {0}
unfolding new_connection_pool new size get put
program = tt

-- A connection by whether it is open.
abbrev flags : Connections
flags = record { Conn = Bool; failed = λ c. not c; close = λ c. false }

abbrev after_call : World flags
after_call = record (start flags (9 ∷ []) 1 1 1 2) { ready = 1 }

abbrev holding : World flags
holding = record {
  pool = record {
    address = 9 ∷ [];
    connect_timeout = 1;
    read_timeout = 1;
    write_timeout = 1;
    available = [];
    outstanding = 1;
    max_connections = 2;
  };
  ready = 0;
  blocked = 0;
  leased = 1;
}

holding-Reach : Reach flags (start flags (9 ∷ []) 1 1 1 2) holding
unfolding program
holding-Reach = next (next here calls) (gets (omega arith))

Reach-start-IsSound_example : IsSound flags 2 holding
Reach-start-IsSound_example = Reach-start-IsSound flags (9 ∷ []) 1 1 1 2 holding-Reach

abbrev two_instances : Pool flags
two_instances = record { connections = holding.pool ∷ holding.pool ∷ []; hash = λ key. 5 }

id_panics_iff_example :
    (id flags two_instances (pos 2) ≡ panics) ↔ (pos 2 ≡ pos (size flags two_instances))
id_panics_iff_example = id_panics_iff flags two_instances (pos 2)

abbrev failing : Action flags
failing conn = (conn, some (3 ∷ []))
