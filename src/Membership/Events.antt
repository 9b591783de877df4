-- ===== src/Membership/Events.antt =====
-- What the handler of events does with a sequence of events.
use aphros.Base.{
  ℕ, ◌≡◌, refl, sym, ap, ◌∙◌, Bool, true, false, List, [], ◌∷◌, ◌++◌, if◌then◌else◌, arith, Option,
  none, some, Bool-cases, inl, inr,
}
use mathlib.Core.List.{append_assoc}
use aphros.Membership.{
  Refusal, not_leader, other_error, debug, error, Message, failed_to_join, failed_to_leave, Line,
  log_error, Member, Event, joined, departed, failed, other, Handler, State, is_local, handle_join,
  handle_leave, joins, leaves, event_handler,
}

-- A call of the handler's Join or Leave.
pub data Call : Type 0 where
  join_call leave_call : Member → Call

module _ {S : Type 0} (handler : Handler S) (local_name : List ℕ) where
  -- The line of a call that failed: at the level of debugging where this node is not the leader, and as
  -- an error else.
  abbrev pub line_of : Refusal → Message → Member → Line
  line_of not_leader message m = record {
    level = debug;
    refusal = not_leader;
    message = message;
    member = m;
  }
  line_of (other_error n) message m = record {
    level = error;
    refusal = other_error n;
    message = message;
    member = m;
  }

  abbrev pub noted : Message → Member → Option Refusal × S → List Line → State S
  noted message m (none, t) lines = record { inner = t; lines = lines }
  noted message m (some x, t) lines = record {
    inner = t;
    lines = lines ++ (line_of x message m ∷ []);
  }

  -- A call of Join gets the member's name and its tag, one of Leave the name.
  abbrev pub run_call : Call → State S → State S
  run_call (join_call m) s = noted failed_to_join m (handler.join m.name m.rpc_addr s.inner) s.lines
  run_call (leave_call m) s = noted failed_to_leave m (handler.leave m.name s.inner) s.lines

  noted_lem :
      (message : Message) (m : Member) (o : Option Refusal × S) (lines : List Line)
      → (record { inner = o.1; lines = log_error o.0 message m lines }) ≡ noted message m o lines
  noted_lem message m (none, t) lines = refl
  noted_lem message m (some not_leader, t) lines = refl
  noted_lem message m (some (other_error n), t) lines = refl

  handle_join_lem :
      (m : Member) (s : State S) → handle_join handler local_name m s ≡ run_call (join_call m) s
  unfolding handle_join
  handle_join_lem m s = noted_lem failed_to_join m (handler.join m.name m.rpc_addr s.inner) s.lines

  handle_leave_lem :
      (m : Member) (s : State S) → handle_leave handler local_name m s ≡ run_call (leave_call m) s
  unfolding handle_leave
  handle_leave_lem m s = noted_lem failed_to_leave m (handler.leave m.name s.inner) s.lines

  abbrev pub run_calls : List Call → State S → State S
  run_calls [] s = s
  run_calls (c ∷ cs) s = run_calls cs (run_call c s)

  -- The calls for a list of members, the local one left out.
  abbrev pub calls_for : (Member → Call) → List Member → List Call
  calls_for f [] = []
  calls_for f (m ∷ ms) =
      if is_local handler local_name m then calls_for f ms else f m ∷ calls_for f ms

  abbrev pub calls_of : List Event → List Call
  calls_of [] = []
  calls_of (joined ms ∷ es) = calls_for join_call ms ++ calls_of es
  calls_of (departed ms ∷ es) = calls_for leave_call ms ++ calls_of es
  calls_of (failed ms ∷ es) = calls_for leave_call ms ++ calls_of es
  calls_of (other ∷ es) = calls_of es

  -- The local member is not among them.
  abbrev pub no_local : List Member → Bool
  no_local [] = true
  no_local (m ∷ ms) = if is_local handler local_name m then false else no_local ms

  -- No event says that the local member left or failed.
  abbrev pub stays : List Event → Bool
  stays [] = true
  stays (joined ms ∷ es) = stays es
  stays (departed ms ∷ es) = if no_local ms then stays es else false
  stays (failed ms ∷ es) = if no_local ms then stays es else false
  stays (other ∷ es) = stays es

  run_calls-append :
      (as_ bs : List Call) (s : State S) → run_calls (as_ ++ bs) s ≡ run_calls bs (run_calls as_ s)
  run_calls-append [] bs s = refl
  run_calls-append (a ∷ as_) bs s = run_calls-append as_ bs (run_call a s)

  joins_lem :
      (ms : List Member) (s : State S)
      → joins handler local_name ms s ≡ run_calls (calls_for join_call ms) s
  unfolding joins
  joins_lem [] s = refl
  joins_lem (m ∷ ms) s = elim (Bool-cases (is_local handler local_name m)) [
    | inl here ↦ rw here (joins_lem ms s)
    | inr other_one ↦ rw other_one (
        ap (joins handler local_name ms) (handle_join_lem m s)
        ∙ joins_lem ms (run_call (join_call m) s))
  ]

  leaves_lem :
      (ms : List Member) (s : State S)
      → no_local ms ≡ true
      → leaves handler local_name ms s ≡ (false, run_calls (calls_for leave_call ms) s)
  unfolding leaves
  leaves_lem [] s h = refl
  leaves_lem (m ∷ ms) s h = elim (Bool-cases (is_local handler local_name m)) [
    | inl here ↦ ground arith
    | inr other_one ↦
        let rest : no_local ms ≡ true = ground arith in
        rw other_one (
          ap (leaves handler local_name ms) (handle_leave_lem m s)
          ∙ leaves_lem ms (run_call (leave_call m) s) rest)
  ]

  stays_head :
      (ms : List Member) (es : List Event)
      → stays (departed ms ∷ es) ≡ true
      → (no_local ms ≡ true) × (stays es ≡ true)
  stays_head ms es h = (ground arith, ground arith)

  -- Events that name members which left or failed, the local one not among them.
  others_left :
      (ms : List Member) (rest : List Call) (s : State S) (k : State S → State S)
      → no_local ms ≡ true
      → ((t : State S) → k t ≡ run_calls rest t)
      → (if (leaves handler local_name ms s).0
          then (leaves handler local_name ms s).1
          else k (leaves handler local_name ms s).1)
        ≡ run_calls (calls_for leave_call ms ++ rest) s
  others_left ms rest s k absent same =
      ap (λ (r : Bool × State S). if r.0 then r.1 else k r.1) (leaves_lem ms s absent)
      ∙ same (run_calls (calls_for leave_call ms) s)
      ∙ sym (run_calls-append (calls_for leave_call ms) rest s)

  -- While no event says that the local member left or failed, the handler calls Join, with the name and
  -- the tag, for every other member that joined and Leave, with the name, for every other one that left
  -- or failed, in the order of the events, and goes on after a call that fails, with a line for it.
  pub event_handler-calls :
      (es : List Event) (s : State S)
      → stays es ≡ true
      → event_handler handler local_name es s ≡ run_calls (calls_of es) s
  unfolding event_handler
  event_handler-calls [] s h = refl
  event_handler-calls (joined ms ∷ es) s h =
      event_handler-calls es (joins handler local_name ms s) h
      ∙ ap (run_calls (calls_of es)) (joins_lem ms s)
      ∙ sym (run_calls-append (calls_for join_call ms) (calls_of es) s)
  event_handler-calls (departed ms ∷ es) s h =
      let (absent, later) = stays_head ms es h in
      others_left ms (calls_of es) s (event_handler handler local_name es) absent
        (λ t. event_handler-calls es t later)
  event_handler-calls (failed ms ∷ es) s h =
      let (absent, later) = stays_head ms es h in
      others_left ms (calls_of es) s (event_handler handler local_name es) absent
        (λ t. event_handler-calls es t later)
  event_handler-calls (other ∷ es) s h = event_handler-calls es s h

  leaves_local :
      (ms ms' : List Member) (me : Member) (s : State S)
      → no_local ms ≡ true
      → is_local handler local_name me ≡ true
      → leaves handler local_name (ms ++ (me ∷ ms')) s
        ≡ (true, run_calls (calls_for leave_call ms) s)
  unfolding leaves
  leaves_local [] ms' me s h here = rw here refl
  leaves_local (m ∷ ms) ms' me s h here = elim (Bool-cases (is_local handler local_name m)) [
    | inl local_one ↦ ground arith
    | inr other_one ↦
        let rest : no_local ms ≡ true = ground arith in
        rw other_one (
          ap (leaves handler local_name (ms ++ (me ∷ ms'))) (handle_leave_lem m s)
          ∙ leaves_local ms ms' me (run_call (leave_call m) s) rest here)
  ]

  -- An event that says that the local member left stops the handler: it calls Leave for the members
  -- named before the local one, and nothing for those behind it nor for any later event.
  pub event_handler-stops :
      (es later : List Event) (ms ms' : List Member) (me : Member) (s : State S)
      → stays es ≡ true
      → no_local ms ≡ true
      → is_local handler local_name me ≡ true
      → event_handler handler local_name (es ++ (departed (ms ++ (me ∷ ms')) ∷ later)) s
        ≡ run_calls (calls_of es ++ calls_for leave_call ms) s
  unfolding event_handler
  event_handler-stops [] later ms ms' me s h absent here =
      rw (leaves_local ms ms' me s absent here) refl
  event_handler-stops (joined ns ∷ es) later ms ms' me s h absent here =
      event_handler-stops es later ms ms' me (joins handler local_name ns s) h absent here
      ∙ ap (run_calls (calls_of es ++ calls_for leave_call ms)) (joins_lem ns s)
      ∙ sym (run_calls-append (calls_for join_call ns) (calls_of es ++ calls_for leave_call ms) s)
      ∙ ap (λ cs. run_calls cs s)
          (sym (append_assoc (calls_for join_call ns) (calls_of es) (calls_for leave_call ms)))
  event_handler-stops (departed ns ∷ es) later ms ms' me s h absent here =
      let (none_here, stay) = stays_head ns es h in
      others_left ns (calls_of es ++ calls_for leave_call ms) s
        (event_handler handler local_name (es ++ (departed (ms ++ (me ∷ ms')) ∷ later))) none_here
        (λ t. event_handler-stops es later ms ms' me t stay absent here)
      ∙ ap (λ cs. run_calls cs s)
          (sym (append_assoc (calls_for leave_call ns) (calls_of es) (calls_for leave_call ms)))
  event_handler-stops (failed ns ∷ es) later ms ms' me s h absent here =
      let (none_here, stay) = stays_head ns es h in
      others_left ns (calls_of es ++ calls_for leave_call ms) s
        (event_handler handler local_name (es ++ (departed (ms ++ (me ∷ ms')) ∷ later))) none_here
        (λ t. event_handler-stops es later ms ms' me t stay absent here)
      ∙ ap (λ cs. run_calls cs s)
          (sym (append_assoc (calls_for leave_call ns) (calls_of es) (calls_for leave_call ms)))
  event_handler-stops (other ∷ es) later ms ms' me s h absent here =
      event_handler-stops es later ms ms' me s h absent here
