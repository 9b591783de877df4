-- ===== src/Fsm/Apply.antt =====
-- Apply of an append.
use aphros.Base.{ℕ, ◌≡◌, ap, some, List, ◌∷◌}
use aphros.Api.{Record, Codec}
use aphros.Log.{Env, append}
use aphros.Fsm.{RequestCodec, answer_of, apply, apply_append, apply_decoded, append_request}

-- Apply of the type 0 and an encoded request with a record answers what Append returns.
pub apply-append :
    (k : Codec) (requests : RequestCodec) (r : Record) (b : List ℕ) (e : Env)
    → requests.marshal (some r) ≡ some b
    → apply k requests (0 ∷ b) e ≡ answer_of (append k r e).0 (append k r e).1
unfolding apply apply_append apply_decoded append_request
apply-append k requests r b e encodes =
    ap (λ o. apply_decoded k requests o e) (requests.unmarshal-marshal (some r) b encodes)
