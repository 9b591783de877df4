-- ===== src/Api.antt =====
-- api/v1: the messages of log.proto, and protobuf's encoding of a record as a parameter.
pub mod OffsetError
use aphros.Base.{ℕ, ◌≡◌, Option, some, List}

pub record Record : Type 0 where
  pub value : List ℕ
  pub offset : ℕ
  pub term : ℕ
  pub kind : ℕ

-- `proto.Marshal` and `proto.Unmarshal` on records; `none` is an error. What was marshalled is
-- unmarshalled to the same record.
pub record Codec : Type 0 where
  pub marshal : Record → Option (List ℕ)
  pub unmarshal : List ℕ → Option Record
  pub unmarshal-marshal : (r : Record) (p : List ℕ) → marshal r ≡ some p → unmarshal p ≡ some r
