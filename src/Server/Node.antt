-- ===== src/Server/Node.antt =====
-- The streams over the log of a node: DistributedLog's Read is the Read of its log.
use aphros.Base.{Option, none, some, ℕ, ◌≡◌, ◌≤◌, ◌-◌, get_elem?, ap, true, some, List, [], ◌∷◌}
use aphros.Result.{Exec, err, panic}
use aphros.Api.{Record, Codec}
use aphros.Log.{Env, append, read}
use aphros.Log.Contents.{IsLog, all_records}
use aphros.Log.Reading.{is_boundary}
use aphros.Log.Refusing.{read-boundary}
use Prim.Native.String.{String}
use aphros.Server.{CommitLog, Enforcer, consume}
use aphros.Server.Streams.{consume_stream, running, Blocked, going_on, consume_stream-Blocked}

-- A record that is nil panics where Append sets its offset.
abbrev append_given : Codec → Option Record → Exec Env ℕ
append_given k (some r) = append k r
append_given k none = λ e. (err panic, e)

abbrev pub node_log : Codec → CommitLog Env
node_log k = record { append = append_given k; read = read k }

-- In each round a segment other than the first starts at the offset, and the log holds a record there.
abbrev pub AtBoundary : Codec → ℕ → List Env → Type 0
AtBoundary k off [] = Unit
AtBoundary k off (e ∷ rounds) =
    ((n : ℕ) × (rss : List (List Record)) × (r : Record) × IsLog k e n rss
      × (n ≤ off)
      × (is_boundary n rss off ≡ true)
      × (get_elem? (all_records rss) (off - n) ≡ some r))
    × AtBoundary k off rounds

boundaries_block :
    (k : Codec) (enforce : Enforcer) (subject : String) (off : ℕ) (rounds : List Env)
    → AtBoundary k off rounds
    → Blocked (node_log k) enforce subject off rounds
boundaries_block k enforce subject off [] h = tt
boundaries_block k enforce subject off (e ∷ rounds) ((n, rss, r, holds, above, starts, _), h) = (
  ap (λ x. x.0) (read-boundary k e n off rss holds above starts),
  boundaries_block k enforce subject off rounds h,
)

-- ConsumeStream over a node's log, for a subject that may consume, at an offset at which in every round
-- a segment other than the first starts and the log holds a record: it has sent nothing after these
-- rounds, however many, and still goes on; it returns neither the record nor an error.
pub consume_stream_stuck :
    (k : Codec) (enforce : Enforcer) (subject : String) (budget off : ℕ) (rounds : List Env)
    → enforce subject consume ≡ true
    → AtBoundary k off rounds
    → consume_stream (node_log k) enforce subject budget off (going_on rounds) ≡ ([], running)
consume_stream_stuck k enforce subject budget off rounds allowed h =
    consume_stream-Blocked (node_log k) enforce subject budget off rounds allowed
      (boundaries_block k enforce subject off rounds h)
