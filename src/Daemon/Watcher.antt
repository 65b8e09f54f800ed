-- ===== src/Daemon/Watcher.antt =====
-- The file watcher of a share: daemon/daemon/watcher/fs.py. What the operating system notices of a path
-- waits until nothing has been noticed for a while, and is reported once.

pub mod Summary
pub mod Reports
pub mod Timely
pub mod Measure
pub mod Quiet
use peerdup.Prelude.{
  ℕ, zero, suc, ◌+◌, ◌-◌, Text, truthy, Bool, true, false, Option, none, some, List, [], ◌∷◌, ◌++◌,
  map, if◌then◌else◌, leb, not, select, text_eq,
}
use peerdup.Prelude.Table
use peerdup.Daemon.Coordinator.Loops.{
  ChangeType, deleted, moved, created, modified, FileChangedEvent,
}

-- `DEBOUNCE_SECONDS`, in milliseconds
abbrev pub debounce_ms : ℕ
debounce_ms = 500

-- What is known of a path: the kind of change and, for a move, the destination.
abbrev pub Change : Type 0
Change = ChangeType × Option Text

pub record Pending : Type 0 where
  pub path : Text
  pub change : Change
  pub deadline : ℕ

abbrev pub path_of : Pending → Text
path_of p = p.path

-- `timer` is the time at which the running timer fires. A timer that has fired is a thread of `_flush`:
-- `flushing` has the readings of the clock of those that wait for the lock, in the order in which they
-- get it, and `restarting` is the number of those that are to start the timer again. The clock counts
-- milliseconds.
pub record ShareHandler : Type 0 where
  pub pending : List Pending
  pub timer : Option ℕ
  pub flushing : List ℕ
  pub restarting : ℕ
  pub clock : ℕ

abbrev pub fresh : ShareHandler
fresh = record { pending = []; timer = none; flushing = []; restarting = 0; clock = 0 }

-- An assignment to a key of the dictionary: a key that is there keeps its place.
abbrev pub assign : Pending → List Pending → List Pending
assign p ps =
    if Table.has path_of p.path ps
    then Table.update path_of p.path (λ x. record p { path = x.path }) ps
    else ps ++ p ∷ []

-- `_reschedule`
abbrev pub reschedule : ShareHandler → ShareHandler
reschedule h = record h { timer = some (h.clock + debounce_ms) }

-- Whether a deletion of the path is pending.
unfoldable pub is_deleted : Option Pending → Bool
is_deleted none = false
is_deleted (some p) = elim p.change.0 [ deleted ↦ true | _ ↦ false ]

-- `_debounce`, where `waited` milliseconds go by between the reading of the clock and the lock
unfoldable pub debounce : ℕ → Text → Change → ShareHandler → ShareHandler
debounce waited path change h =
    if is_deleted (Table.find path_of path h.pending)
    then h
    else reschedule (record h {
      pending =
          assign
            (record { path = path; change = change; deadline = (h.clock - waited) + debounce_ms })
            h.pending;
    })

abbrev pub is_ready : ℕ → Pending → Bool
is_ready now p = leb p.deadline now

-- The first half of `_flush` in a thread that read `now` from the clock: what is ready, and the rest.
unfoldable pub collect : ℕ → ShareHandler → List Pending × ShareHandler
collect now h =
    let rest = select (λ p. not (is_ready now p)) h.pending in
    (
      select (is_ready now) h.pending,
      record h {
        pending = rest;
        restarting = elim rest [ [] ↦ h.restarting | p ∷ ps ↦ suc h.restarting ];
      },
    )

-- The event that is emitted for a change; `rel` is `_rel`.
abbrev pub event_of : Text → (Text → Text) → Pending → FileChangedEvent
event_of share_id rel p = record {
  share_id = share_id;
  rel_path = rel p.path;
  change_type = p.change.0;
  dest_path = elim p.change.1 [
    | none ↦ none
    | some dest ↦ if truthy dest then some (rel dest) else none
  ];
}

-- What the operating system tells of a path; a directory that was moved comes with the files below its
-- new place, each with the path it had.
pub data SystemEvent : Type 0 where
  file_created file_modified file_deleted : Bool → Text → SystemEvent
  file_moved : Text → Text → SystemEvent
  directory_moved : List (Text × Text) → SystemEvent

-- `on_created`, `on_modified`, `on_deleted` and `on_moved`: the calls of `_debounce`.
unfoldable pub notices : SystemEvent → List (Text × Change)
notices (file_created is_directory path) = if is_directory then [] else (path, (created, none)) ∷ []
notices (file_modified is_directory path) =
    if is_directory then [] else (path, (modified, none)) ∷ []
notices (file_deleted is_directory path) = if is_directory then [] else (path, (deleted, none)) ∷ []
notices (file_moved src dest) = (src, (moved, some dest)) ∷ []
notices (directory_moved files) = map (λ f. (f.0, (moved, some f.1))) files

-- One step of the threads that share the lock. A step whose turn it is not changes nothing.
pub data Turn : Type 0 where
  time_passes : ℕ → Turn
  notice : ℕ → Text × Change → Turn
  timer_fires flush_gets_lock timer_restarts : Turn

-- What a step leaves in the log: a change noticed, or one reported.
pub data Entry : Type 0 where
  noticed : Text × Change → Entry
  reported : Pending → Entry

abbrev pub fires : ℕ → ShareHandler → ShareHandler
fires f h =
    if leb f h.clock then record h { timer = none; flushing = h.flushing ++ h.clock ∷ [] } else h

unfoldable pub take_turn : Turn → ShareHandler → List Entry × ShareHandler
take_turn (time_passes n) h = ([], record h { clock = h.clock + n })
take_turn (notice waited n) h = (noticed n ∷ [], debounce waited n.0 n.1 h)
take_turn timer_fires h = elim h.timer [ none ↦ ([], h) | some f ↦ ([], fires f h) ]
take_turn flush_gets_lock h = elim h.flushing [
  | [] ↦ ([], h)
  | now ∷ later ↦
      let (ready, e) = collect now (record h { flushing = later }) in (map reported ready, e)
]
take_turn timer_restarts h = elim h.restarting [
  | zero ↦ ([], h)
  | suc n ↦ ([], reschedule (record h { restarting = n }))
]

unfoldable pub run : List Turn → ShareHandler → List Entry × ShareHandler
run [] h = ([], h)
run (t ∷ ts) h =
    let (entries, e) = take_turn t h in let (log, last) = run ts e in (entries ++ log, last)
