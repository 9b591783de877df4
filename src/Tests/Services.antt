-- ===== src/Tests/Services.antt =====
-- The streams of the gRPC server at concrete inputs.
use aphros.Base.{
  Option, ℕ, ◌≡◌, refl, true, false, none, some, List, [], ◌∷◌, ◌++◌, arith, length, get_elem?,
}
use aphros.Result.{panic, eof, out_of_range, Result, ok, err}
use aphros.Api.{Record}
use aphros.Tests.Samples.{note}
use aphros.Server.{CommitLog, Enforcer, Action, of_log}
use aphros.Server.Streams.{
  produce_stream, produce_stream-Appends, none_left, one_more, consume_stream,
  consume_stream-Consecutive, Consecutive,
}

-- A list of records as a commit log.
abbrev read_list : ℕ → List Record → Result Record
read_list off l = elim (get_elem? l off) [ none ↦ err (out_of_range off) | some r ↦ ok r ]

abbrev append_list : Option Record → List Record → Result ℕ × List Record
append_list none l = (err panic, l)
append_list (some r) l = (ok (length l), l ++ (r ∷ []))

abbrev listed : CommitLog (List Record)
listed = record { append = append_list; read = λ off l. (read_list off l, l) }

abbrev producers : Enforcer
producers subject Action.produce = true
producers subject Action.consume = false

abbrev everyone : Enforcer
everyone subject action = true

produce_stream-Appends_example :
    produce_stream listed producers "root" 2 (some (note 0) ∷ some (note 1) ∷ []) []
    ≡ (0 ∷ 1 ∷ [], (of_log eof, note 0 ∷ note 1 ∷ []))
produce_stream-Appends_example =
    produce_stream-Appends listed producers "root" 2 [] (note 0 ∷ note 1 ∷ [])
      (some (note 0) ∷ some (note 1) ∷ []) (0 ∷ 1 ∷ []) refl (omega arith)
      (one_more (some (note 0)) 0 [] (note 0 ∷ []) (note 0 ∷ note 1 ∷ []) (some (note 1) ∷ [])
        (1 ∷ []) refl
        (one_more (some (note 1)) 1 (note 0 ∷ []) (note 0 ∷ note 1 ∷ []) (note 0 ∷ note 1 ∷ []) []
          [] refl (none_left (note 0 ∷ note 1 ∷ []))))

consume_stream-Consecutive_example :
    Consecutive listed everyone "root" 0
      (some [] ∷ some (note 0 ∷ []) ∷ some (note 0 ∷ []) ∷ none ∷ [])
      (consume_stream listed everyone "root" 4 0
        (some [] ∷ some (note 0 ∷ []) ∷ some (note 0 ∷ []) ∷ none ∷ [])).0
consume_stream-Consecutive_example =
    consume_stream-Consecutive listed everyone "root" 4 0
      (some [] ∷ some (note 0 ∷ []) ∷ some (note 0 ∷ []) ∷ none ∷ [])
