-- ===== src/Http/Routing.antt =====
-- internal/server/http.go: NewHTTPServer and newHTTPServer, and the server that they give. `dispatch`
-- stands for gorilla/mux, which takes a handler for a request or answers it itself, with `unrouted`.
pub mod Listed
pub mod Refining
use aphros.Base.{ℕ, ◌&&◌, ◌≡◌, Bool, true, false, Option, some, none, List, [], ◌∷◌, if◌then◌else◌}
use aphros.Base.Strings.{same_string}
use aphros.MemoryLog.{Entry, new_log}
use aphros.Http.{Reply, handle_produce, handle_consume}

pub data Method : Type 0 where
  post get other : Method

pub record Request : Type 0 where
  pub method : Method
  pub path : List ℕ
  pub body : List ℕ

pub data Handler : Type 0 where
  produces consumes : Handler

pub record Route : Type 0 where
  pub path : List ℕ
  pub handler : Handler
  pub method : Method

-- http.Server with httpServer's log, as far as requests see it.
pub record HttpServer : Type 0 where
  pub addr : List ℕ
  pub routes : List Route
  pub log : List Entry

-- "/".
abbrev pub root_path : List ℕ
root_path = 47 ∷ []

pub new_http_server : List ℕ → HttpServer
new_http_server addr = record {
  addr = addr;
  routes =
      (record { path = root_path; handler = produces; method = post })
      ∷ (record { path = root_path; handler = consumes; method = get })
      ∷ [];
  log = new_log;
}

abbrev pub Dispatch : Type 0
Dispatch = List Route → Method → List ℕ → Option Handler

abbrev pub same_method : Method → Method → Bool
same_method post post = true
same_method get get = true
same_method other other = true
same_method _ _ = false

-- What mux documents: the routes are tested in the order that they were added in, and the first one
-- that the request matches, here by path and method, wins.
abbrev pub first_route : Dispatch
first_route [] m p = none
first_route (r ∷ rest) m p =
    if same_string p r.path && same_method m r.method then some r.handler else first_route rest m p

-- encoding/json on the requests and the responses.
pub record Json : Type 0 where
  pub decode_produce : List ℕ → Option Entry
  pub encode_offset : ℕ → Option (List ℕ)
  pub decode_consume : List ℕ → Option ℕ
  pub encode_record : Entry → Option (List ℕ)

module _ (dispatch : Dispatch) (unrouted : Request → Reply (List ℕ)) (json : Json) where
  pub handle : Option Handler → Request → List Entry → Reply (List ℕ) × List Entry
  handle none req l = (unrouted req, l)
  handle (some produces) req l = handle_produce json.decode_produce json.encode_offset req.body l
  handle (some consumes) req l =
      (handle_consume json.decode_consume json.encode_record req.body l, l)

  pub serve : Request → HttpServer → Reply (List ℕ) × HttpServer
  serve req s =
      let (res, l) = handle (dispatch s.routes req.method req.path) req s.log in
      (res, record s { log = l })

  -- Requests in the order in which the log's mutex takes them.
  pub serve_all : List Request → HttpServer → List (Reply (List ℕ)) × HttpServer
  serve_all [] s = ([], s)
  serve_all (req ∷ rest) s =
      let (res, s') = serve req s in let (more, s'') = serve_all rest s' in (res ∷ more, s'')
