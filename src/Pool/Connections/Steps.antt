-- ===== src/Pool/Connections/Steps.antt =====
-- The goroutines that share one connection pool, and what holds in every state they reach.
use er_pi_middleware25_artif.Base.{
  ℕ, ◌+◌, ◌-◌, ◌≤◌, ◌<◌, ◌≡◌, refl, [], ◌∷◌, Bool, true, Option, none, some, length, length-append,
  arith, if◌then◌else◌, ltb, ◌≢◌,
}
use er_pi_middleware25_artif.Common.{Bytes}
use er_pi_middleware25_artif.Pool.Connections.{
  Connections, ConnectionPool, new_connection_pool, get, waits, dials, reuses, put, close_all, Put,
  GetRound,
}

module _ (k : Connections) where
  open k use {Conn}

  -- `ready` goroutines are about to do a round of `get`, `blocked` ones wait for a signal, and
  -- `leased` ones have left `get` and have still to `put`.
  pub record World : Type 0 where
    pub pool : ConnectionPool k
    pub ready : ℕ
    pub blocked : ℕ
    pub leased : ℕ

  -- A signal wakes one waiter, if there is one.
  abbrev pub wake : Bool → ℕ → ℕ
  wake signals n = if signals then (if ltb 0 n then 1 else 0) else 0

  abbrev pub after_get : World → GetRound k → World
  after_get w waits = record w { ready = w.ready - 1; blocked = w.blocked + 1 }
  after_get w (dials p) = record w { pool = p; ready = w.ready - 1; leased = w.leased + 1 }
  after_get w (reuses conn p) = record w { pool = p; ready = w.ready - 1; leased = w.leased + 1 }

  abbrev pub after_put : World → Put k → World
  after_put w r = record {
    pool = r.pool;
    ready = w.ready + wake r.signals w.blocked;
    blocked = w.blocked - wake r.signals w.blocked;
    leased = w.leased - 1;
  }

  pub data Step (w : World) : World → Type 0 where
    calls : Step w (record w { ready = w.ready + 1 })
    gets : 0 < w.ready → Step w (after_get w (get k w.pool))
    puts : (conn : Option Conn) → 0 < w.leased → Step w (after_put w (put k conn w.pool))
    closes : Step w (record w { pool = close_all k w.pool })

  pub data Reach (w : World) : World → Type 0 where
    here : Reach w w
    next : {u v : World} → Reach w u → Step u v → Reach w v

  abbrev pub start : Bytes → ℕ → ℕ → ℕ → ℕ → World
  start address c rd wr n = record {
    pool = new_connection_pool k address c rd wr n;
    ready = 0;
    blocked = 0;
    leased = 0;
  }

  pub record IsSound (n : ℕ) (w : World) : Type 0 where
    pub limit : w.pool.max_connections ≡ n
    pub counted : w.pool.outstanding ≡ w.leased
    pub bounded : length w.pool.available + w.leased ≤ n
    pub awake : 0 < w.blocked → n ≤ w.leased + w.ready

  get-IsSound :
      (n : ℕ) (w : World) → 0 < w.ready → IsSound n w → IsSound n (after_get w (get k w.pool))
  unfolding get
  get-IsSound n w h v = ground arith

  put-IsSound :
      (n : ℕ) (w : World) (conn : Option Conn)
      → 0 < w.leased
      → IsSound n w
      → IsSound n (after_put w (put k conn w.pool))
  unfolding put
  put-IsSound n w none h v = ground arith
  put-IsSound n w (some conn) h v = ground (arith, length-append w.pool.available (conn ∷ []))

  Step-IsSound : (n : ℕ) {w u : World} → Step w u → IsSound n w → IsSound n u
  unfolding close_all
  Step-IsSound n calls v = ground arith
  Step-IsSound n {w} (gets h) v = get-IsSound n w h v
  Step-IsSound n {w} (puts conn h) v = put-IsSound n w conn h v
  Step-IsSound n closes v = ground arith

  Reach-IsSound : (n : ℕ) {w u : World} → IsSound n w → Reach w u → IsSound n u
  Reach-IsSound n v here = v
  Reach-IsSound n v (next r s) = Step-IsSound n s (Reach-IsSound n v r)

  -- Whatever the goroutines that share a pool do, in any interleaving of get, put and closeAll:
  -- `outstanding` counts the goroutines that hold a connection, these and the idle connections
  -- are together at most max, and while one waits, at least max others hold a connection or are
  -- about to try for one, so that no wake-up is lost.
  pub Reach-start-IsSound :
      (address : Bytes) (c rd wr n : ℕ) {w : World}
      → Reach (start address c rd wr n) w
      → IsSound n w
  unfolding new_connection_pool
  Reach-start-IsSound address c rd wr n r =
      Reach-IsSound n
        (record {
          limit = refl;
          counted = refl;
          bounded = omega arith;
          awake = λ h. absurd (omega arith);
        })
        r

  -- In a state that is sound a put by a holder never closes a usable connection for lack of space, it
  -- always signals, and the next get does not wait.
  pub get-put :
      (n : ℕ) (w : World) (conn : Option Conn)
      → IsSound n w
      → 0 < w.leased
      → ((put k conn w.pool).closes ≡ none)
        × ((put k conn w.pool).signals ≡ true)
        × (get k (put k conn w.pool).pool ≢ waits)
  unfolding get put
  get-put n w none v h = ground arith
  get-put n w (some conn) v h = ground arith
