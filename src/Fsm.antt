-- ===== src/Fsm.antt =====
-- internal/log/distributed.go: the state machine that Raft drives, and what Restore makes of a
-- snapshot. `requests` stands for protobuf's encoding of a ProduceRequest, in which the record may be
-- missing.
pub mod Restore
pub mod Apply
pub mod Replicas
use aphros.Base.{
  ℕ, zero, suc, ◌+◌, ◌^◌, ◌≡◌, refl, ap, ◌∙◌, Option, none, some, List, [], ◌∷◌, ◌==◌, ltb, arith,
  if◌then◌else◌, take, drop, length,
}
use aphros.Base.Bytes.{get_be}
use aphros.Result.{
  Error, eof, unexpected_eof, bad_record, panic, Result, ok, err, Exec, pure, raise, modify, ◌>>=◌,
  ◌>>◌,
}
use aphros.Api.{Record, Codec}
use aphros.Log.{Env, append, highest_offset, get_active, rotate, reset}

pub record RequestCodec : Type 0 where
  pub marshal : Option Record → Option (List ℕ)
  pub unmarshal : List ℕ → Option (Option Record)
  pub unmarshal-marshal :
      (r : Option Record) (p : List ℕ) → marshal r ≡ some p → unmarshal p ≡ some r

-- The interface{} that Apply returns: a ProduceResponse, an error, or nil.
pub data Answer : Type 0 where
  produced : ℕ → Answer
  failed : Error → Answer
  nothing : Answer

-- A run-time panic is no error that is returned.
abbrev pub answer_of : Result ℕ → Env → Result Answer × Env
answer_of (ok off) e = (ok (produced off), e)
answer_of (err panic) e = (err panic, e)
answer_of (err x) e = (ok (failed x), e)

-- Log.Append of a nil record: the segment writes the record's offset first.
append_nil : Exec Env ℕ
append_nil = do highest ← highest_offset; s ← get_active; rotate highest s; raise panic

pub append_request : Codec → Option Record → Exec Env ℕ
append_request k none = append_nil
append_request k (some r) = append k r

module _ (k : Codec) (requests : RequestCodec) where
  pub apply_decoded : Option (Option Record) → Exec Env Answer
  apply_decoded none e = (ok (failed bad_record), e)
  apply_decoded (some req) e = let (r, e') = append_request k req e in answer_of r e'

  pub apply_append : List ℕ → Exec Env Answer
  apply_append b = apply_decoded (requests.unmarshal b)

  pub apply : List ℕ → Exec Env Answer
  apply [] e = (err panic, e)
  apply (kind ∷ b) e = let done = apply_append b e in if kind == 0 then done else (ok nothing, e)

module _ (k : Codec) where
  abbrev decoded : Option Record → Result Record
  decoded none = err bad_record
  decoded (some r) = ok r

  -- `f.log.Config.Segment.InitialOffset = record.Offset` and Reset, for the first record.
  abbrev start_at : ℕ → Exec Env (Unit {0})
  start_at off = do
    modify (λ e. record e {
      self = record e.self { config = record e.self.config { initial_offset = off } };
    })
    reset

  -- CopyN takes nothing where the length is negative as an int64.
  abbrev copied : ℕ → ℕ
  copied size = if ltb size (2 ^ 63) then size else 0

  abbrev pub take_frame : List ℕ → Result (List ℕ × List ℕ)
  take_frame bytes =
      let n = copied (get_be (take 8 bytes)) in
      if ltb (length bytes) 8
      then err unexpected_eof
      else (if ltb (length (drop 8 bytes)) n
          then err eof
          else ok (take n (drop 8 bytes), drop n (drop 8 bytes)))

  abbrev when_first : ℕ → ℕ → Exec Env (Unit {0})
  when_first zero off = start_at off
  when_first (suc i) off = pure tt

  -- One round of the loop, and the loop: every round takes eight bytes at least.
  pub restore_loop : ℕ → ℕ → List ℕ → Exec Env (Unit {0})
  restore_loop fuel i [] = pure tt
  restore_loop zero i (b ∷ bs) = raise panic
  restore_loop (suc fuel) i (b ∷ bs) = do
    (payload, rest) ← λ e. (take_frame (b ∷ bs), e)
    r ← λ e. (decoded (k.unmarshal payload), e)
    when_first i r.offset
    append k r
    restore_loop fuel (suc i) rest

  pub restore : List ℕ → Exec Env (Unit {0})
  restore bytes = restore_loop (length bytes) 0 bytes
