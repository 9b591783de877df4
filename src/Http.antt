-- ===== src/Http.antt =====
-- internal/server/http.go: the handlers of the JSON server over the log in memory. `decode` and
-- `encode` stand for encoding/json, `none` for its errors.
pub mod Routing
use aphros.Base.{ℕ, ◌≡◌, Option, some, none, List, arith}
use aphros.MemoryLog.{Entry, append, read, read_appended}

pub data Reply {ℓ} (A : Type ℓ) : Type ℓ where
  success : A → Reply A
  bad_request not_found internal_error : Reply A

module _ (decode_produce : List ℕ → Option Entry) (encode_offset : ℕ → Option (List ℕ)) where
  pub produce_reply : Option (List ℕ) → Reply (List ℕ)
  produce_reply none = internal_error
  produce_reply (some b) = success b

  pub produce_decoded : Option Entry → List Entry → Reply (List ℕ) × List Entry
  produce_decoded none l = (bad_request, l)
  produce_decoded (some r) l = let (off, l') = append r l in (produce_reply (encode_offset off), l')

  pub handle_produce : List ℕ → List Entry → Reply (List ℕ) × List Entry
  handle_produce body l = produce_decoded (decode_produce body) l

module _ (decode_consume : List ℕ → Option ℕ) (encode_record : Entry → Option (List ℕ)) where
  pub consume_reply : Option (List ℕ) → Reply (List ℕ)
  consume_reply none = internal_error
  consume_reply (some b) = success b

  pub consume_found : Option Entry → Reply (List ℕ)
  consume_found none = not_found
  consume_found (some r) = consume_reply (encode_record r)

  pub consume_decoded : Option ℕ → List Entry → Reply (List ℕ)
  consume_decoded none l = bad_request
  consume_decoded (some off) l = consume_found (read off l)

  pub handle_consume : List ℕ → List Entry → Reply (List ℕ)
  handle_consume body l = consume_decoded (decode_consume body) l
