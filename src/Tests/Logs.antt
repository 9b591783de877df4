-- ===== src/Tests/Logs.antt =====
-- Logs at concrete inputs.
use aphros.Base.{some, ℕ, ◌≡◌, refl, [], ◌∷◌, arith, true, false, inl}
use aphros.Result.{ok, err, out_of_range}
use aphros.Segment.{is_maxed}
use aphros.Index
use aphros.Log
use aphros.Log.{append, read}
use aphros.Log.Contents.{IsLog}
use aphros.Log.Expected.{read-expected}
use aphros.Log.Rotating.{append-rotates}
use aphros.Log.RoundTrip.{read-append, read-append_rotated}
use aphros.Server.Streams.{consume_stream, running}
use aphros.Server.Node.{node_log, consume_stream_stuck}
use aphros.Tests.Samples.{plain, note, note_bytes, full_segment, full_log, open_segment, open_log}
use aphros.Tests.Facts.{full_log-IsLog, open_log-IsLog, open-Fits, full-CanCreate}

full_is_maxed : is_maxed full_segment ≡ true
unfolding is_maxed
full_is_maxed = refl

open_is_not_maxed : is_maxed open_segment ≡ false
unfolding is_maxed Index.is_maxed
open_is_not_maxed = refl

-- The log after the append that opens a second segment.
rotated : (e' : Log.Env) × IsLog plain e' 0 ((note 0 ∷ []) ∷ (note 1 ∷ []) ∷ [])
rotated =
    let (e', _, holds) =
      append-rotates plain full_log 0 ((note 0 ∷ []) ∷ []) full_segment (note 9) (note_bytes 1)
        full_log-IsLog (omega arith) refl full_is_maxed (omega arith) full-CanCreate (omega arith)
        (omega arith) refl (omega arith) (omega arith) in
    (e', holds)

-- The offset 1 is where the second segment starts.
read-expected_example :
    ((read plain 1 rotated.0).0 ≡ err (out_of_range 1))
    × IsLog plain (read plain 1 rotated.0).1 0 ((note 0 ∷ []) ∷ (note 1 ∷ []) ∷ [])
read-expected_example =
    read-expected plain rotated.0 0 1 ((note 0 ∷ []) ∷ (note 1 ∷ []) ∷ []) rotated.1

read-append_example :
    (off : ℕ) × (e' : Log.Env) × (e'' : Log.Env) × (append plain (note 9) open_log ≡ (ok off, e'))
    × (read plain off e' ≡ (ok (note off), e''))
    × IsLog plain e'' 0 ((note 0 ∷ note off ∷ []) ∷ [])
read-append_example =
    read-append plain open_log 0 ((note 0 ∷ []) ∷ []) (note 0 ∷ []) open_segment (note 9)
      (note_bytes 1) open_log-IsLog refl refl (inl (omega arith)) open-Fits open_is_not_maxed

read-append_rotated_example :
    (off : ℕ) × (e' : Log.Env) × (append plain (note 9) full_log ≡ (ok off, e'))
    × (read plain off e' ≡ (err (out_of_range off), e'))
    × IsLog plain e' 0 ((note 0 ∷ []) ∷ (note off ∷ []) ∷ [])
read-append_rotated_example =
    read-append_rotated plain full_log 0 ((note 0 ∷ []) ∷ []) full_segment (note 9) (note_bytes 1)
      full_log-IsLog (omega arith) refl full_is_maxed (omega arith) full-CanCreate (omega arith)
      (omega arith) refl (omega arith) (omega arith)

consume_stream_stuck_example :
    consume_stream
      (node_log plain)
      (λ subject action. true)
      "root"
      3
      1
      (some rotated.0 ∷ some rotated.0 ∷ [])
    ≡ ([], running)
consume_stream_stuck_example =
    consume_stream_stuck plain (λ subject action. true) "root" 3 1 (rotated.0 ∷ rotated.0 ∷ []) refl
      (
        (0, (note 0 ∷ []) ∷ (note 1 ∷ []) ∷ [], note 1, rotated.1, omega arith, refl, refl),
        ((0, (note 0 ∷ []) ∷ (note 1 ∷ []) ∷ [], note 1, rotated.1, omega arith, refl, refl), tt),
      )
