-- ===== src/Pool/Sharding.antt =====
-- roshi/pool/pool.go: Pool.
use er_pi_middleware25_artif.Base.{
  ℤ, pos, negsuc, ap, ℕ, ◌+◌, ◌%◌, ◌^◌, ◌≤◌, ◌<◌, ◌≡◌, ◌≢◌, refl, List, [], ◌∷◌, Option, none, some,
  length, arith, if◌then◌else◌, ltb, map, get_elem?, set, ◌↔◌, get_elem?-none, get_elem?-some, ◌⊎◌,
  inl, inr, length-append,
}
use er_pi_middleware25_artif.Common.{Bytes}
use er_pi_middleware25_artif.Pool.Connections.{
  Connections, ConnectionPool, new_connection_pool, get, waits, dials, reuses, put, close_all,
}

-- A Go error, by its text.
abbrev pub Error : Type 0
Error = Bytes

-- What a call into the pool comes to: a panic (an index out of range, a division by zero), a wait
-- for a connection, or a value.
pub data Outcome {ℓ} (A : Type ℓ) : Type ℓ where
  panics : Outcome A
  blocks : Outcome A
  returns : A → Outcome A

module _ (k : Connections) where
  open k use {Conn, failed, close}

  pub record Pool : Type 0 where
    pub connections : List (ConnectionPool k)
    pub hash : Bytes → ℕ

  unfoldable pub new : List Bytes → ℕ → ℕ → ℕ → ℕ → (Bytes → ℕ) → Pool
  new addresses connect read write max_connections hash = record {
    connections =
        map (λ address. new_connection_pool k address connect read write max_connections) addresses;
    hash = hash;
  }

  unfoldable pub size : Pool → ℕ
  size p = length p.connections

  unfoldable pub index : Pool → Bytes → Outcome ℕ
  index p key =
      if ltb 0 (length p.connections % 2 ^ 32)
      then returns (p.hash key % (length p.connections % 2 ^ 32))
      else panics

  -- index < 0 || index > len(p.connections), and then the index itself.
  unfoldable pub id : Pool → ℤ → Outcome (Option Bytes)
  id p (negsuc n) = returns none
  id p (pos i) =
      if ltb (length p.connections) i
      then returns none
      else elim (get_elem? p.connections i) [ none ↦ panics | some c ↦ returns (some c.address) ]

  unfoldable pub close_pools : Pool → Pool
  close_pools p = record p { connections = map (close_all k) p.connections }

  -- The reply to a dial: a connection, or an error and no connection.
  pub data Dialled : Type 0 where
    connected : Conn → Dialled
    refused : Error → Dialled

  -- What `do` makes of the connection, with the error that it returns.
  abbrev pub Action : Type 0
  Action = Conn → Conn × Option Error

  -- The connection that the deferred `put` gets: closed if `do` returned an error.
  abbrev pub closed_on_error : Conn × Option Error → Conn
  closed_on_error (conn, none) = conn
  closed_on_error (conn, some e) = close conn

  unfoldable pub use_connection : Conn → Action → ConnectionPool k → ConnectionPool k × Option Error
  use_connection conn act p =
      let after = act conn in ((put k (some (closed_on_error after)) p).pool, after.1)

  -- WithIndex on the connection pool of the index.
  unfoldable pub with_connection :
      Dialled → Action → ConnectionPool k → Outcome (ConnectionPool k × Option Error)
  unfolding use_connection
  with_connection dialled act p = elim (get k p) [
    | waits ↦ blocks
    | dials p' ↦ elim dialled [
      | connected conn ↦ returns (use_connection conn act p')
      | refused e ↦ returns ((put k none p').pool, some e)
    ]
    | reuses conn p' ↦ returns (use_connection conn act p')
  ]

  unfoldable pub with_index : Pool → ℕ → Dialled → Action → Outcome (Pool × Option Error)
  with_index p i dialled act = elim (get_elem? p.connections i) [
    | none ↦ panics
    | some c ↦ elim (with_connection dialled act c) [
      | panics ↦ panics
      | blocks ↦ blocks
      | returns (c', e) ↦ returns (record p { connections = set p.connections i c' }, e)
    ]
  ]

  -- With: Index, then WithIndex.
  unfoldable pub with_key : Pool → Bytes → Dialled → Action → Outcome (Pool × Option Error)
  with_key p key dialled act = elim (index p key) [
    | panics ↦ panics
    | blocks ↦ blocks
    | returns i ↦ with_index p i dialled act
  ]

  -- Index is always a valid index, over at least one and fewer than 2^32 instances.
  pub index-lt-size :
      (p : Pool) (key : Bytes)
      → 0 < size p
      → size p < 2 ^ 32
      → (i : ℕ) × (index p key ≡ returns i) × (i < size p)
  unfolding index size
  index-lt-size p key h below =
      (p.hash key % (length p.connections % 2 ^ 32), ground arith, ground arith)

  id_cases :
      (p : Pool) (i : ℕ)
      → ((size p < i) × (id p (pos i) ≡ returns none))
        ⊎ ((i ≡ size p) × (id p (pos i) ≡ panics))
        ⊎ ((i < size p) × (id p (pos i) ≢ panics))
  unfolding id size
  id_cases p i = ground (arith, get_elem?-none p.connections i, get_elem?-some p.connections i)

  -- ID panics for the index that equals the number of instances, and for no other int, negative or not.
  pub id_panics_iff : (p : Pool) (i : ℤ) → (id p i ≡ panics) ↔ (i ≡ pos (size p))
  unfolding id
  id_panics_iff p (negsuc n) = (λ q. cc, λ q. cc)
  id_panics_iff p (pos i) = elim (id_cases p i) [
    | inl (h, e) ↦ (λ q. cc, λ q. absurd (ground arith))
    | inr (inl (h, e)) ↦ (λ _. ap pos h, λ _. e)
    | inr (inr (h, n)) ↦ (λ q. absurd (n q), λ q. absurd (ground arith))
  ]

  -- No more than max connections are idle or outstanding.
  abbrev pub IsWithin : ConnectionPool k → Type 0
  IsWithin c = length c.available + c.outstanding ≤ c.max_connections

  -- The error that WithIndex owes its caller, given the idle connections.
  abbrev pub owed : List Conn → Dialled → Action → Option Error
  owed [] (connected conn) act = (act conn).1
  owed [] (refused e) act = some e
  owed (conn ∷ rest) dialled act = (act conn).1

  -- `outstanding` is what it was, the pool is within its bound, and the error is the one owed.
  abbrev pub IsBalanced :
      ConnectionPool k → Dialled → Action → Outcome (ConnectionPool k × Option Error) → Type 0
  IsBalanced c dialled act panics = ⊥
  IsBalanced c dialled act blocks = ⊥
  IsBalanced c dialled act (returns (c', e)) =
      (c'.outstanding ≡ c.outstanding)
      × (c'.max_connections ≡ c.max_connections)
      × IsWithin c'
      × (e ≡ owed c.available dialled act)

  put_returns :
      (conn : Option Conn) (p : ConnectionPool k)
      → IsWithin p
      → 0 < p.outstanding
      → ((put k conn p).pool.outstanding + 1 ≡ p.outstanding)
        × ((put k conn p).pool.max_connections ≡ p.max_connections)
        × IsWithin (put k conn p).pool
  unfolding put
  put_returns none p v h = ground arith
  put_returns (some conn) p v h = ground (arith, length-append p.available (conn ∷ []))

  use_connection_returns :
      (conn : Conn) (act : Action) (p : ConnectionPool k)
      → IsWithin p
      → 0 < p.outstanding
      → let r = use_connection conn act p in
        (r.0.outstanding + 1 ≡ p.outstanding)
        × (r.0.max_connections ≡ p.max_connections)
        × IsWithin r.0
        × (r.1 ≡ (act conn).1)
  unfolding use_connection
  use_connection_returns conn act p v h =
      let (a, b, c) = put_returns (some (closed_on_error (act conn))) p v h in (a, b, c, refl)

  -- WithIndex gives its slot back on every path: when the dial fails, when the function returns an
  -- error and when it succeeds. With a slot free it does not block, `outstanding` is afterwards
  -- what it was, the idle and outstanding connections stay within max, and the error returned is
  -- that of the dial, if one was needed and failed, and else that of the function.
  pub with_connection-IsBalanced :
      (dialled : Dialled) (act : Action) (c : ConnectionPool k)
      → IsWithin c
      → c.outstanding < c.max_connections
      → IsBalanced c dialled act (with_connection dialled act c)
  unfolding with_connection get
  with_connection-IsBalanced dialled act c v free = go c.available refl dialled
    where
      go :
          (xs : List Conn)
          → c.available ≡ xs
          → (d : Dialled) → IsBalanced c d act (with_connection d act c)
      go [] e (connected conn) =
          ground
            (arith, use_connection_returns conn act (record c { outstanding = c.outstanding + 1 }))
      go [] e (refused x) =
          ground (arith, put_returns none (record c { outstanding = c.outstanding + 1 }))
      go (conn ∷ rest) e d = ground (
        arith,
        use_connection_returns conn act
            (record c { available = rest; outstanding = c.outstanding + 1 }),
      )
