-- ===== src/Http/Routing/Refining.antt =====
-- The HTTP server answers as the list of the values does.
use aphros.Base.{ℕ, ◌≡◌, refl, ap, ◌∙◌, Bool, true, false, List, [], ◌∷◌}
use aphros.Base.Strings.{same_string}
use aphros.MemoryLog.{Entry}
use aphros.Http.{Reply, handle_produce, handle_consume}
use aphros.Http.Routing.{
  Method, post, get, other, Request, HttpServer, Dispatch, Route, handle, first_route, root_path,
  Json, serve, serve_all, new_http_server,
}
use aphros.Http.Routing.Listed.{numbered, listed, listed_all, accept_lem, answer_lem}

-- The server at an address, where the values were produced.
abbrev pub holding : List ℕ → List (List ℕ) → HttpServer
holding addr vs = record (new_http_server addr) { log = numbered 0 vs }

module _ (dispatch : Dispatch) (unrouted : Request → Reply (List ℕ)) (json : Json)
    (first : (rs : List Route) (m : Method) (p : List ℕ)
      → dispatch rs m p ≡ first_route rs m p) where
  routed_lem :
      (m : Method) (p body : List ℕ) (vs : List (List ℕ)) (at : Bool)
      → same_string p root_path ≡ at
      → let req : Request = record { method = m; path = p; body = body } in
        handle dispatch unrouted json
          (first_route (new_http_server []).routes m p)
          req
          (numbered 0 vs)
        ≡ ((listed json unrouted req vs).0, numbered 0 (listed json unrouted req vs).1)
  unfolding new_http_server handle handle_produce handle_consume
  routed_lem post p body vs true is = rw is (accept_lem json (json.decode_produce body) vs)
  routed_lem get p body vs true is =
      rw is (ap (λ x. (x, numbered 0 vs)) (answer_lem json (json.decode_consume body) vs))
  routed_lem other p body vs true is = rw is refl
  routed_lem post p body vs false is = rw is refl
  routed_lem get p body vs false is = rw is refl
  routed_lem other p body vs false is = rw is refl

  serve_lem :
      (req : Request) (addr : List ℕ) (vs : List (List ℕ))
      → serve dispatch unrouted json req (holding addr vs)
        ≡ ((listed json unrouted req vs).0, holding addr (listed json unrouted req vs).1)
  unfolding serve new_http_server
  serve_lem req addr vs =
      ap
        (λ o.
          let (res, l) = handle dispatch unrouted json o req (numbered 0 vs) in
          (res, record (holding addr vs) { log = l }))
        (first (new_http_server addr).routes req.method req.path)
      ∙ ap (λ (x : Reply (List ℕ) × List Entry). (x.0, record (holding addr vs) { log = x.1 }))
          (routed_lem req.method req.path req.body vs (same_string req.path root_path) refl)

  -- Requests to a server that NewHTTPServer gave and that holds values, one after the other, where the
  -- router takes the first route that matches: every reply, errors included, is the one that the list
  -- of the values gives, and the server then holds the records of the list, each numbered by its place.
  pub serve_all_lem :
      (reqs : List Request) (addr : List ℕ) (vs : List (List ℕ))
      → serve_all dispatch unrouted json reqs (holding addr vs)
        ≡ ((listed_all json unrouted reqs vs).0, holding addr (listed_all json unrouted reqs vs).1)
  unfolding serve_all
  serve_all_lem [] addr vs = refl
  serve_all_lem (req ∷ rest) addr vs =
      ap
        (λ (x : Reply (List ℕ) × HttpServer).
          let (more, s) = serve_all dispatch unrouted json rest x.1 in (x.0 ∷ more, s))
        (serve_lem req addr vs)
      ∙ ap
          (λ (x : List (Reply (List ℕ)) × HttpServer). ((listed json unrouted req vs).0 ∷ x.0, x.1))
          (serve_all_lem rest addr (listed json unrouted req vs).1)
