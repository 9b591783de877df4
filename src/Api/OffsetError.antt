-- ===== src/Api/OffsetError.antt =====
-- api/v1/error.go: the gRPC status of an offset that is out of range. `decimal` stands for the verb %d
-- of fmt.Sprintf, `attach` for Status.WithDetails, `none` for its error.
use aphros.Base.{ℕ, ◌≡◌, refl, ap, Option, none, some, List, [], ◌∷◌, ◌++◌}
use aphros.Base.Strings.{bytes_of}

pub record LocalizedMessage : Type 0 where
  pub locale : List ℕ
  pub message : List ℕ

-- A gRPC status, with the details that are attached to it.
pub record Status : Type 0 where
  pub code : ℕ
  pub message : List ℕ
  pub details : List LocalizedMessage

abbrev pub Attach : Type 0
Attach = Status → LocalizedMessage → Option Status

-- What gRPC documents of WithDetails: where it returns no error, the status with the details behind
-- those that it had.
abbrev pub Appended : Attach → Type 0
Appended attach =
    (s s' : Status) (m : LocalizedMessage)
    → attach s m ≡ some s'
    → s' ≡ record s { details = s.details ++ (m ∷ []) }

module _ (decimal : ℕ → List ℕ) (attach : Attach) where
  abbrev pub plain_status : ℕ → Status
  plain_status offset = record {
    code = 404;
    message = bytes_of "offset out of range: " ++ decimal offset;
    details = [];
  }

  abbrev pub localized : ℕ → LocalizedMessage
  localized offset = record {
    locale = bytes_of "en-US";
    message = bytes_of "The requested offset is out of log's range " ++ decimal offset;
  }

  abbrev pub or_plain : Status → Option Status → Status
  or_plain st none = st
  or_plain st (some std) = std

  pub grpc_status : ℕ → Status
  grpc_status offset = let st = plain_status offset in or_plain st (attach st (localized offset))

  or_plain_lem :
      (offset : ℕ) (o : Option Status)
      → ((s' : Status)
          → o ≡ some s'
          → s' ≡ record (plain_status offset) { details = localized offset ∷ [] })
      → ((or_plain (plain_status offset) o).code ≡ 404)
        × ((or_plain (plain_status offset) o).message
            ≡ bytes_of "offset out of range: " ++ decimal offset)
  or_plain_lem offset none law = (refl, refl)
  or_plain_lem offset (some std) law =
      (ap (λ s. s.code) (law std refl), ap (λ s. s.message) (law std refl))

  -- The status has the code 404 and names the offset, whether or not the details could be attached.
  pub grpc_status-code :
      (offset : ℕ)
      → Appended attach
      → ((grpc_status offset).code ≡ 404)
        × ((grpc_status offset).message ≡ bytes_of "offset out of range: " ++ decimal offset)
  unfolding grpc_status
  grpc_status-code offset law =
      or_plain_lem offset (attach (plain_status offset) (localized offset))
        (λ s' is. law (plain_status offset) s' (localized offset) is)

  -- Error, with `describe` for the Error of a status's Err.
  pub error_text : (Status → List ℕ) → ℕ → List ℕ
  error_text describe offset = describe (grpc_status offset)
