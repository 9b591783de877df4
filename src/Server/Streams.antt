-- ===== src/Server/Streams.antt =====
-- ProduceStream and ConsumeStream. A stream is the list of what arrives; `budget` is the number of
-- Sends that succeed before the connection breaks.
use aphros.Base.{
  ap, ◌∙◌, ℕ, zero, suc, ◌+◌, ◌≤◌, ◌≡◌, refl, true, Option, none, some, List, [], ◌∷◌, arith,
  length, u64,
}
use Prim.Native.String.{String}
use aphros.Api.{Record}
use aphros.Result.{err, eof, io_failure, out_of_range, ok}
use aphros.Server.{
  consume, Failure, of_log, Response, reply, refused, CommitLog, Enforcer, produce, handle_produce,
  handle_consume, authorization,
}

-- How a stream's handler ended, if it did.
pub data Outcome : Type 0 where
  running finished : Outcome
  failed : Failure → Outcome

-- Rounds none of which finds the context done.
abbrev pub going_on : {S : Type 0} → List S → List (Option S)
going_on [] = []
going_on (s ∷ rounds) = some s ∷ going_on rounds

module _ {S : Type 0} (log : CommitLog S) (enforce : Enforcer) (subject : String) where
  -- The requests that Recv gives before its error, which is io.EOF.
  pub produce_stream : ℕ → List (Option Record) → S → List ℕ × (Failure × S)
  produce_stream budget [] s = ([], (of_log eof, s))
  produce_stream zero (r ∷ rs) s = elim (handle_produce log enforce subject r s).0 [
    | refused x ↦ ([], (x, (handle_produce log enforce subject r s).1))
    | reply off ↦ ([], (of_log io_failure, (handle_produce log enforce subject r s).1))
  ]
  produce_stream (suc budget) (r ∷ rs) s =
      let (rest, last) = produce_stream budget rs (handle_produce log enforce subject r s).1 in
      elim (handle_produce log enforce subject r s).0 [
        | refused x ↦ ([], (x, (handle_produce log enforce subject r s).1))
        | reply off ↦ (off ∷ rest, last)
      ]

  -- The appends of a list of records, all of which succeed.
  pub data Appends : S → List (Option Record) → List ℕ → S → Type 0 where
    none_left : (s : S) → Appends s [] [] s
    one_more :
        (r : Option Record) (off : ℕ) (s s' s'' : S) (rs : List (Option Record)) (offs : List ℕ)
        → log.append r s ≡ (ok off, s')
        → Appends s' rs offs s''
        → Appends s (r ∷ rs) (off ∷ offs) s''

  -- One round of ConsumeStream goes on where the log has no record yet.
  abbrev after_read :
      Response Record
      → (Record → List Record × Outcome)
      → List Record × Outcome
      → List Record × Outcome
  after_read (reply r) send again = send r
  after_read (refused (of_log (out_of_range n))) send again = again
  after_read (refused x) send again = ([], failed x)

  -- Each round finds the context done, `none`, or reads the log in the state that it then has.
  pub consume_stream : ℕ → ℕ → List (Option S) → List Record × Outcome
  consume_stream budget off [] = ([], running)
  consume_stream budget off (none ∷ rounds) = ([], finished)
  consume_stream zero off (some s ∷ rounds) =
      let again = consume_stream zero off rounds in
      after_read (handle_consume log enforce subject off s).0
        (λ r. ([], failed (of_log io_failure))) again
  consume_stream (suc budget) off (some s ∷ rounds) =
      let again = consume_stream (suc budget) off rounds in
      let next = consume_stream budget (u64 (off + 1)) rounds in
      after_read (handle_consume log enforce subject off s).0 (λ r. (r ∷ next.0, next.1)) again

  -- The records are what Read returned at the offset, the next one, and so on, each in the state of
  -- a later round.
  pub data Consecutive : ℕ → List (Option S) → List Record → Type 0 where
    stop : (off : ℕ) (rounds : List (Option S)) → Consecutive off rounds []
    wait :
        (off : ℕ) (round : Option S) (rounds : List (Option S)) (rs : List Record)
        → Consecutive off rounds rs
        → Consecutive off (round ∷ rounds) rs
    take_one :
        (off : ℕ) (s : S) (rounds : List (Option S)) (r : Record) (rs : List Record)
        → (log.read off s).0 ≡ ok r
        → Consecutive (u64 (off + 1)) rounds rs
        → Consecutive off (some s ∷ rounds) (r ∷ rs)

  produced :
      (r : Option Record) (s : S) (off : ℕ) (s' : S)
      → enforce subject produce ≡ true
      → log.append r s ≡ (ok off, s')
      → handle_produce log enforce subject r s ≡ (reply off, s')
  produced r s off s' allowed runs =
      let step = (authorization log enforce subject r off s).0 in ground (arith, step)

  consumed :
      (off : ℕ) (s : S) (x : Record)
      → (handle_consume log enforce subject off s).0 ≡ reply x
      → (log.read off s).0 ≡ ok x
  consumed off s x found =
      let step = (authorization log enforce subject (some x) off s).1 in ground (arith, step)

  after_read-Consecutive :
      (off : ℕ) (s : S) (rounds : List (Option S)) (res : Response Record)
      (send : Record → List Record × Outcome) (again : List Record × Outcome)
      → (handle_consume log enforce subject off s).0 ≡ res
      → ((r : Record) → (log.read off s).0 ≡ ok r → Consecutive off (some s ∷ rounds) (send r).0)
      → Consecutive off rounds again.0
      → Consecutive off (some s ∷ rounds) (after_read res send again).0
  after_read-Consecutive off s rounds (reply r) send again is sends waits =
      sends r (consumed off s r is)
  after_read-Consecutive off s rounds (refused (of_log (out_of_range n))) send again is sends
        waits =
      wait off (some s) rounds again.0 waits
  after_read-Consecutive off s rounds (refused x) send again is sends waits =
      stop off (some s ∷ rounds)

  -- For a subject that may produce, over requests whose appends all succeed, on a connection that
  -- takes that many responses, ProduceStream sends the offset of each append in turn, returns the
  -- error of Recv, io.EOF, and leaves the log as the appends do.
  pub produce_stream-Appends :
      (budget : ℕ) (s s' : S) (rs : List (Option Record)) (offs : List ℕ)
      → enforce subject produce ≡ true
      → length rs ≤ budget
      → Appends s rs offs s'
      → produce_stream budget rs s ≡ (offs, (of_log eof, s'))
  unfolding produce_stream
  produce_stream-Appends budget _ _ _ _ allowed fits (none_left s) = refl
  produce_stream-Appends zero _ _ _ _ allowed fits (one_more r off s s₁ s' rs offs runs rest) =
      absurd (omega arith)
  produce_stream-Appends (suc budget) _ _ _ _ allowed fits
        (one_more r off s s₁ s' rs offs runs rest) =
      let here = produced r s off s₁ allowed runs in
      let later = produce_stream-Appends budget s₁ s' rs offs allowed (omega arith) rest in
      ground (arith, here, later)

  -- ConsumeStream sends consecutive records from the offset of the request on: no gap, no repeat,
  -- whatever happens to the log between the rounds.
  pub consume_stream-Consecutive :
      (budget off : ℕ) (rounds : List (Option S))
      → Consecutive off rounds (consume_stream budget off rounds).0
  unfolding consume_stream
  consume_stream-Consecutive budget off [] = stop off []
  consume_stream-Consecutive budget off (none ∷ rounds) = stop off _
  consume_stream-Consecutive zero off (some s ∷ rounds) =
      let again = consume_stream zero off rounds in
      after_read-Consecutive off s rounds (handle_consume log enforce subject off s).0
        (λ r. ([], failed (of_log io_failure))) again refl (λ r is. stop off (some s ∷ rounds))
        (consume_stream-Consecutive zero off rounds)
  consume_stream-Consecutive (suc budget) off (some s ∷ rounds) =
      let again = consume_stream (suc budget) off rounds in
      let next = consume_stream budget (u64 (off + 1)) rounds in
      after_read-Consecutive off s rounds (handle_consume log enforce subject off s).0
        (λ r. (r ∷ next.0, next.1)) again refl
        (λ r is.
          take_one off s rounds r next.0 is
            (consume_stream-Consecutive budget (u64 (off + 1)) rounds))
        (consume_stream-Consecutive (suc budget) off rounds)

  -- In every round the log answers that the offset is out of range.
  abbrev pub Blocked : ℕ → List S → Type 0
  Blocked off [] = Unit
  Blocked off (s ∷ rounds) = ((log.read off s).0 ≡ err (out_of_range off)) × Blocked off rounds

  refused_in :
      (off : ℕ) (s : S)
      → enforce subject consume ≡ true
      → (log.read off s).0 ≡ err (out_of_range off)
      → (handle_consume log enforce subject off s).0 ≡ refused (of_log (out_of_range off))
  refused_in off s allowed out =
      let step = (authorization log enforce subject none off s).1 in ground (arith, step)

  pub consume_stream-Blocked :
      (budget off : ℕ) (rounds : List S)
      → enforce subject consume ≡ true
      → Blocked off rounds
      → consume_stream budget off (going_on rounds) ≡ ([], running)
  unfolding consume_stream
  consume_stream-Blocked budget off [] allowed h = refl
  consume_stream-Blocked zero off (s ∷ rounds) allowed (out, h) =
      ap
        (λ res.
          after_read res (λ r. ([], failed (of_log io_failure)))
            (consume_stream zero off (going_on rounds)))
        (refused_in off s allowed out)
      ∙ consume_stream-Blocked zero off rounds allowed h
  consume_stream-Blocked (suc budget) off (s ∷ rounds) allowed (out, h) =
      let next = consume_stream budget (u64 (off + 1)) (going_on rounds) in
      ap
        (λ res.
          after_read res (λ r. (r ∷ next.0, next.1))
            (consume_stream (suc budget) off (going_on rounds)))
        (refused_in off s allowed out)
      ∙ consume_stream-Blocked (suc budget) off rounds allowed h
