-- ===== src/Membership.antt =====
-- internal/discovery/membership.go: the handler of Serf's events. `handler` stands for Handler, the
-- distributed log in the program, over its states; the log lines are kept as a list.
pub mod Events
pub mod Joining
pub mod Starting
use aphros.Base.{ℕ, ◌≡◌, Bool, true, false, Option, none, some, List, [], ◌∷◌, ◌++◌, if◌then◌else◌}
use aphros.Base.Strings.{same_string}

pub record Member : Type 0 where
  pub name : List ℕ
  pub rpc_addr : List ℕ

pub data Event : Type 0 where
  joined departed failed : List Member → Event
  other : Event

-- raft.ErrNotLeader, or any other error.
pub data Refusal : Type 0 where
  not_leader : Refusal
  other_error : ℕ → Refusal

pub record Handler (S : Type 0) : Type 0 where
  pub join : List ℕ → List ℕ → S → Option Refusal × S
  pub leave : List ℕ → S → Option Refusal × S

pub data Level : Type 0 where
  debug error : Level

pub data Message : Type 0 where
  failed_to_join failed_to_leave : Message

pub record Line : Type 0 where
  pub level : Level
  pub refusal : Refusal
  pub message : Message
  pub member : Member

pub record State (S : Type 0) : Type 0 where
  pub inner : S
  pub lines : List Line

abbrev level_of : Refusal → Level
level_of not_leader = debug
level_of (other_error n) = error

abbrev pub log_error : Option Refusal → Message → Member → List Line → List Line
log_error none message m lines = lines
log_error (some x) message m lines =
    lines ++ ((record { level = level_of x; refusal = x; message = message; member = m }) ∷ [])

module _ {S : Type 0} (handler : Handler S) (local_name : List ℕ) where
  abbrev pub is_local : Member → Bool
  is_local m = same_string local_name m.name

  pub handle_join : Member → State S → State S
  handle_join m s =
      let (r, inner) = handler.join m.name m.rpc_addr s.inner in
      record { inner = inner; lines = log_error r failed_to_join m s.lines }

  pub handle_leave : Member → State S → State S
  handle_leave m s =
      let (r, inner) = handler.leave m.name s.inner in
      record { inner = inner; lines = log_error r failed_to_leave m s.lines }

  pub joins : List Member → State S → State S
  joins [] s = s
  joins (m ∷ ms) s = if is_local m then joins ms s else joins ms (handle_join m s)

  -- `true`: the local member was among them, and the handler returns.
  pub leaves : List Member → State S → Bool × State S
  leaves [] s = (false, s)
  leaves (m ∷ ms) s = if is_local m then (true, s) else leaves ms (handle_leave m s)

  -- The events up to the closing of the channel.
  pub event_handler : List Event → State S → State S
  event_handler [] s = s
  event_handler (joined ms ∷ es) s = event_handler es (joins ms s)
  event_handler (departed ms ∷ es) s =
      let (stop, s') = leaves ms s in let rest = event_handler es s' in if stop then s' else rest
  event_handler (failed ms ∷ es) s =
      let (stop, s') = leaves ms s in let rest = event_handler es s' in if stop then s' else rest
  event_handler (other ∷ es) s = event_handler es s
