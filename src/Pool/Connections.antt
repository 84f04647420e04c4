-- ===== src/Pool/Connections.antt =====
-- roshi/pool/connection_pool.go: the connections to one Redis instance. A function that holds the
-- mutex is one step; `get` is a step for each round of its loop.
pub mod Steps
use er_pi_middleware25_artif.Base.{
  ℕ, suc, ◌+◌, ◌-◌, List, [], ◌∷◌, ◌++◌, Bool, true, false, Option, none, some, ltb, leb, length,
  if◌then◌else◌,
}
use er_pi_middleware25_artif.Common.{Bytes}

-- redis.Conn: whether it has failed (conn.Err() != nil), and what Close makes of it.
pub record Connections : Type 1 where
  pub Conn : Type 0
  pub failed : Conn → Bool
  pub close : Conn → Conn

module _ (k : Connections) where
  open k use {Conn, failed}

  pub record ConnectionPool : Type 0 where
    pub address : Bytes
    pub connect_timeout : ℕ
    pub read_timeout : ℕ
    pub write_timeout : ℕ
    pub available : List Conn
    pub outstanding : ℕ
    pub max_connections : ℕ

  unfoldable pub new_connection_pool : Bytes → ℕ → ℕ → ℕ → ℕ → ConnectionPool
  new_connection_pool address connect read write max_connections = record {
    address = address;
    connect_timeout = connect;
    read_timeout = read;
    write_timeout = write;
    available = [];
    outstanding = 0;
    max_connections = max_connections;
  }

  -- A round of `get`: it waits for a signal, leaves the lock to dial, or returns a connection.
  pub data GetRound : Type 0 where
    waits : GetRound
    dials : ConnectionPool → GetRound
    reuses : Conn → ConnectionPool → GetRound

  unfoldable pub get : ConnectionPool → GetRound
  get p = elim p.available [
    | [] ↦
        if leb p.max_connections p.outstanding
        then waits
        else dials (record p { outstanding = p.outstanding + 1 })
    | conn ∷ rest ↦ reuses conn (record p {
      available = rest;
      outstanding =
          if ltb p.outstanding p.max_connections then p.outstanding + 1 else p.outstanding;
    })
  ]

  -- The pool after `put`, whether it signals a waiter, and the connection that it closes.
  pub record Put : Type 0 where
    pub pool : ConnectionPool
    pub signals : Bool
    pub closes : Option Conn

  abbrev decrement : ℕ → ℕ
  decrement n = if ltb 0 n then n - 1 else n

  -- No connection, or one that has failed.
  abbrev pub unusable : Option Conn → Bool
  unusable none = true
  unusable (some conn) = failed conn

  -- What `put` does with a usable connection.
  unfoldable pub put_back : Conn → ConnectionPool → Put
  put_back conn p =
      if leb p.max_connections (length p.available)
      then record { pool = p; signals = false; closes = some conn }
      else record {
        pool = record p {
          available = p.available ++ conn ∷ [];
          outstanding = decrement p.outstanding;
        };
        signals = true;
        closes = none;
      }

  unfoldable pub discard : ConnectionPool → Put
  discard p = record {
    pool = record p { outstanding = decrement p.outstanding };
    signals = true;
    closes = none;
  }

  unfoldable pub put : Option Conn → ConnectionPool → Put
  unfolding put_back discard
  put none p = discard p
  put (some conn) p = if failed conn then discard p else put_back conn p

  unfoldable pub close_all : ConnectionPool → ConnectionPool
  close_all p = record p { available = [] }
