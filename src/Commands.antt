-- ===== src/Commands.antt =====
-- cmd/server/main.go and cmd/getservers/main.go. `listen_and_serve` stands for the method of
-- http.Server, which returns only with an error; `new_client` for what grpc.NewClient gives, and
-- `servers` for the client's GetServers.
use aphros.Base.{ℕ, List, [], ◌∷◌, ◌++◌}
use aphros.Base.Strings.{bytes_of}
use aphros.Result.{Error, Result, ok, err}
use aphros.Cluster.{ServerInfo}
use aphros.Http.Routing.{HttpServer, new_http_server}

-- What log.Fatal ends the program with.
pub server_main : (HttpServer → Error) → Error
server_main listen_and_serve = listen_and_serve (new_http_server (bytes_of ":8080"))

-- The line of one server, with its line feed.
abbrev pub server_line : ServerInfo → List ℕ
server_line srv =
    bytes_of "- id: " ++ (srv.id ++ (bytes_of ", rpc_addr: " ++ (srv.rpc_addr ++ (10 ∷ []))))

abbrev pub server_lines : List ServerInfo → List ℕ
server_lines [] = []
server_lines (srv ∷ rest) = server_line srv ++ server_lines rest

-- What is printed, or the error that log.Fatal ends the program with.
pub get_servers_main :
    {Conn : Type 0}
    → (List ℕ → Result Conn)
    → (Conn → Result (List ServerInfo))
    → List ℕ
    → Result (List ℕ)
get_servers_main new_client servers addr = elim (new_client addr) [
  | err x ↦ err x
  | ok conn ↦ elim (servers conn) [
    | err x ↦ err x
    | ok res ↦ ok (bytes_of "servers:" ++ (10 ∷ server_lines res))
  ]
]
