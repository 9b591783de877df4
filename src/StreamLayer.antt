-- ===== src/StreamLayer.antt =====
-- internal/log/distributed.go: StreamLayer, the connections between the Raft nodes, and the matcher of
-- internal/agent/agent.go's setupLog, that sends them to it. `Tls` stands for a tls.Config.
pub mod Routing
use aphros.Base.{ℕ, Bool, true, false, Option, none, some, List, [], ◌∷◌, ◌++◌, ◌==◌, if◌then◌else◌}
use aphros.Result.{Error, eof, io_failure, bad_record, Result, ok, err}

pub data Side (Tls : Type 0) : Type 0 where
  bare : Side Tls
  as_client as_server : Tls → Side Tls

-- A TCP connection: the bytes that have come from the other end, those that were put on the wire,
-- whether it fails, and the TLS that is over it.
pub record Conn (Tls : Type 0) : Type 0 where
  pub unread : List ℕ
  pub sent : List ℕ
  pub broken : Bool
  pub side : Side Tls

pub record StreamLayer (Tls : Type 0) : Type 0 where
  pub server_tls : Option Tls
  pub peer_tls : Option Tls

abbrev pub raft_rpc : ℕ
raft_rpc = 1

module _ {Tls : Type 0} where
  abbrev pub new_stream_layer : Option Tls → Option Tls → StreamLayer Tls
  new_stream_layer server peer = record { server_tls = server; peer_tls = peer }

  abbrev pub client_over : Option Tls → Conn Tls → Conn Tls
  client_over none c = c
  client_over (some t) c = record c { side = as_client t }

  abbrev pub server_over : Option Tls → Conn Tls → Conn Tls
  server_over none c = c
  server_over (some t) c = record c { side = as_server t }

-- What tls puts on the wire for a byte that is written, and what it reads of the bytes that came.
pub record Ciphers (Tls : Type 0) : Type 0 where
  pub written : Tls → ℕ → List ℕ
  pub taken : Tls → List ℕ → Result (ℕ × List ℕ)

module _ {Tls : Type 0} (tls : Ciphers Tls) where
  -- Write, and Read of one byte, by the TLS that is over the connection.
  abbrev pub on_wire : Side Tls → ℕ → List ℕ
  on_wire bare b = b ∷ []
  on_wire (as_client t) b = tls.written t b
  on_wire (as_server t) b = tls.written t b

  abbrev pub off_wire : Side Tls → List ℕ → Result (ℕ × List ℕ)
  off_wire bare [] = err eof
  off_wire bare (b ∷ bs) = ok (b, bs)
  off_wire (as_client t) bs = tls.taken t bs
  off_wire (as_server t) bs = tls.taken t bs

  abbrev pub write_byte : ℕ → Conn Tls → Result (Conn Tls)
  write_byte b c =
      if c.broken then err io_failure else ok (record c { sent = c.sent ++ on_wire c.side b })

  abbrev pub taken_from : Conn Tls → Result (ℕ × List ℕ) → Result (ℕ × Conn Tls)
  taken_from c (err x) = err x
  taken_from c (ok (b, rest)) = ok (b, record c { unread = rest })

  abbrev pub read_byte : Conn Tls → Result (ℕ × Conn Tls)
  read_byte c = if c.broken then err io_failure else taken_from c (off_wire c.side c.unread)

  abbrev pub identified : StreamLayer Tls → Result (Conn Tls) → Result (Conn Tls)
  identified l (err x) = err x
  identified l (ok c) = ok (client_over l.peer_tls c)

  -- Dial, given what the dialer returned.
  unfoldable pub dial : StreamLayer Tls → Result (Conn Tls) → Result (Conn Tls)
  dial l (err x) = err x
  dial l (ok c) = identified l (write_byte raft_rpc c)

  -- "not a Raft RPC".
  abbrev pub checked : StreamLayer Tls → Result (ℕ × Conn Tls) → Result (Conn Tls)
  checked l (err x) = err x
  checked l (ok (b, c)) = if b == raft_rpc then ok (server_over l.server_tls c) else err bad_record

  -- Accept, given what the listener's Accept returned.
  unfoldable pub accept : StreamLayer Tls → Result (Conn Tls) → Result (Conn Tls)
  accept l (err x) = err x
  accept l (ok c) = checked l (read_byte c)

  -- The matcher, on the bytes of a connection that the multiplexer looks at.
  abbrev pub says_raft : Result (ℕ × Conn Tls) → Bool
  says_raft (err x) = false
  says_raft (ok (b, rest)) = b == raft_rpc

  unfoldable pub is_raft : Conn Tls → Bool
  is_raft c = says_raft (read_byte c)
