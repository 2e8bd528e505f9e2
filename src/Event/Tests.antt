-- ===== src/Event/Tests.antt =====
-- The event queues on concrete players, over thousandths.
use mathlib.Core.Option
use milkyway_liluo_idle.Prelude.{
  ℕ, ◌≡◌, refl, inl, false, List, [], ◌∷◌, Option, none, some, arith, ℤ, pos, negsuc, Table, lookup,
  ◌=?◌, int_eq, if◌then◌else◌,
}
use milkyway_liluo_idle.Milli.{
  Milli, milli, whole, milli_float, milli_lit, milli_add, milli_sub, Milli-IsOrdered, Milli-IsClock,
}
use milkyway_liluo_idle.Item.{Item}
use milkyway_liluo_idle.GameConfig.{Event, EventType, Requirement, ReqType, is_consumption}
use milkyway_liluo_idle.Event.{State, entries_of}
use milkyway_liluo_idle.Event.Entries.{QueueEntry}
use milkyway_liluo_idle.Event.Commands.{
  enqueues, moves, inserts, removes, command, commands, IsCompact, commands-IsCompact,
}
use milkyway_liluo_idle.Event.Jobs.{jobs_of, job_command, queue_of, command-job_command}
use milkyway_liluo_idle.Event.Store.{load_queue, flush_queue, load-flush}
use milkyway_liluo_idle.Event.Swap.{swap_satisfied, load-flush-swap_satisfied}
use milkyway_liluo_idle.Event.Settle.{SettlementCtx, GameData, check_reqs, deref_loop_time}
use milkyway_liluo_idle.Event.Loop.{is_satisfied, settle_queue}
use milkyway_liluo_idle.Event.Tick.{advance_head, head_triggers}
use milkyway_liluo_idle.Event.Rounds.{
  settle_queue_blocked, settle_queue_diverges, settle_queue_immediate,
}
use milkyway_liluo_idle.Event.FastPath.{settle_queue-advance_head}

abbrev entry : ℕ → ℤ → ℤ → QueueEntry Milli
entry p event target = record {
  position = p;
  event_id = event;
  target_cycles = target;
  progress = milli (pos 0);
}

abbrev empty : State Milli
empty = record { queues = []; dirty = []; executions = none; marks = some [] }

abbrev with_entries : List (QueueEntry Milli) → State Milli
with_entries es = record {
  queues = (pos 0, record { id = pos 0; entries = es }) ∷ [];
  dirty = [];
  executions = some [];
  marks = some [];
}

abbrev three : List (QueueEntry Milli)
three = entry 0 (pos 7) (pos 2) ∷ entry 1 (pos 8) (negsuc 0) ∷ entry 2 (pos 9) (pos 1) ∷ []

-- A stock of one item, and the events that are unlocked.
record Player : Type 0 where
  stock : Milli
  skill : Milli
  unlocked : List ℤ

abbrev player : Player
player = record { stock = whole 5; skill = whole 3; unlocked = [] }

abbrev ctx : SettlementCtx Player Milli
ctx = record {
  get_item_qty = λ it p. p.stock;
  add_item = λ it q p. record p { stock = milli_add p.stock q };
  deduct_item = λ it q p. record p { stock = milli_sub p.stock q };
  add_xp = λ id xp p. record p { skill = milli_add p.skill xp };
  get_attr = λ id p. milli (pos 0);
  get_skill_level = λ id p. p.skill;
  unlock_event = λ id p. record p { unlocked = id ∷ p.unlocked };
  is_event_unlocked = λ id p. false;
}

abbrev wood : Item
wood = record { id = pos 1; state = pos 0 }

-- Two of an item for a cycle.
abbrev two_wood : Requirement Milli
two_wood = record {
  kind = ReqType.item;
  value = some (whole 2);
  comparison = none;
  resolved_item = wood;
  resolved_id = pos 0;
}

abbrev level_9 : Requirement Milli
level_9 = record {
  kind = ReqType.skill;
  value = some (whole 9);
  comparison = none;
  resolved_item = wood;
  resolved_id = pos 4;
}

abbrev event : EventType → List (Requirement Milli) → Event Milli
event kind reqs = record {
  kind = kind;
  loop_time = some (whole 4);
  production_attr_name = "";
  requirements = reqs;
  rewards = [];
}

-- 7 is a loop, 8 a loop that eats wood, 9 an instant event, 10 asks for skill 9, 11 is of no known type.
abbrev events : Table ℤ (Event Milli)
events =
    (pos 7, event EventType.loop [])
    ∷ (pos 8, event EventType.loop (two_wood ∷ []))
    ∷ (pos 9, event EventType.instant [])
    ∷ (pos 10, event EventType.loop (level_9 ∷ []))
    ∷ (pos 11, event EventType.other [])
    ∷ []

abbrev find_event : Table ℤ (Event Milli) → ℤ → Option (Event Milli)
find_event [] id = none
find_event ((j, ev) ∷ evs) id = if j =? id then some ev else find_event evs id

abbrev game : GameData Milli
game = record { get_event_by_id = find_event events; attr_id = λ s. none }

empty-IsCompact : IsCompact empty
unfolding entries_of lookup
empty-IsCompact id = tt

commands-IsCompact_example : IsCompact (
    commands
      (enqueues (pos 0) (pos 7) (negsuc 0)
        ∷ inserts (pos 0) (pos 0) (pos 8) (pos 3)
        ∷ removes (pos 0) (pos 1)
        ∷ [])
      empty)
commands-IsCompact_example = commands-IsCompact _ empty empty-IsCompact

command-job_command_example :
    jobs_of (pos 0) (command (moves (pos 0) (pos 2) (pos 0)) (with_entries three)) ≡ (
      if queue_of (moves (pos 0) (pos 2) (pos 0)) =? pos 0
      then job_command (moves (pos 0) (pos 2) (pos 0)) (jobs_of (pos 0) (with_entries three))
      else jobs_of (pos 0) (with_entries three))
command-job_command_example =
    command-job_command (moves (pos 0) (pos 2) (pos 0)) (with_entries three) (pos 0)

-- The store held an older, longer queue.
load-flush_example :
    load_queue (flush_queue three (entry 0 (pos 5) (pos 1) ∷ entry 4 (pos 6) (pos 1) ∷ [])) ≡ three
load-flush_example =
    load-flush three (entry 0 (pos 5) (pos 1) ∷ entry 4 (pos 6) (pos 1) ∷ []) (omega arith)
      (refl, (refl, (refl, tt))) (omega arith)

-- The instant event at the end runs first, and then only the blocked loop is left in the store.
load-flush-swap_satisfied_example :
    let swapped =
      entry 2 (pos 9) (pos 1) ∷ entry 1 (pos 10) (pos 3) ∷ entry 0 (pos 10) (pos 2) ∷ [] in
    (swap_satisfied
        (is_satisfied ctx game player)
        (entry 0 (pos 10) (pos 2) ∷ entry 1 (pos 10) (pos 3) ∷ entry 2 (pos 9) (pos 1) ∷ [])
      ≡ some swapped)
    × (load_queue (flush_queue swapped []) ≡ entry 0 (pos 10) (pos 2) ∷ [])
unfolding is_satisfied check_reqs is_consumption
load-flush-swap_satisfied_example =
    load-flush-swap_satisfied (is_satisfied ctx game player) (entry 0 (pos 10) (pos 2))
      (entry 2 (pos 9) (pos 1)) (entry 1 (pos 10) (pos 3) ∷ []) [] [] (omega arith) (refl, tt) refl
      (refl, (refl, (refl, tt))) tt

settle_queue_blocked_example :
    settle_queue ctx game 1
      (pos 0)
      (whole 60)
      (with_entries (entry 0 (pos 10) (pos 2) ∷ entry 1 (pos 12) (pos 1) ∷ []))
      player
    ≡ some
        (with_entries (entry 0 (pos 10) (pos 2) ∷ entry 1 (pos 12) (pos 1) ∷ []), player, whole 60)
unfolding is_satisfied check_reqs entries_of lookup is_consumption
settle_queue_blocked_example =
    settle_queue_blocked ctx game 0 (pos 0) (entry 0 (pos 10) (pos 2))
      (entry 1 (pos 12) (pos 1) ∷ []) (event EventType.loop (level_9 ∷ [])) (whole 60)
      (with_entries (entry 0 (pos 10) (pos 2) ∷ entry 1 (pos 12) (pos 1) ∷ [])) player refl refl
      refl (refl, tt)

settle_queue_diverges_example :
    settle_queue ctx game 1000
      (pos 0)
      (whole 1)
      (with_entries (entry 0 (pos 11) (pos 1) ∷ []))
      player
    ≡ none
unfolding entries_of lookup check_reqs milli_lit
settle_queue_diverges_example =
    settle_queue_diverges ctx game 1000 (pos 0) (entry 0 (pos 11) (pos 1)) []
      (event EventType.other []) (whole 1) (with_entries (entry 0 (pos 11) (pos 1) ∷ [])) player
      refl refl refl refl refl

settle_queue_immediate_example :
    (st' : State Milli) × (s' : Player) × (settle_queue ctx game 3
        (pos 0)
        (whole 1)
        (with_entries (entry 0 (pos 9) (pos 1) ∷ entry 1 (pos 9) (pos 1) ∷ []))
        player
      ≡ some (st', s', whole 1))
    × (entries_of (pos 0) st' ≡ [])
unfolding entries_of lookup milli_lit
settle_queue_immediate_example =
    settle_queue_immediate ctx game 2 (pos 0)
      (entry 0 (pos 9) (pos 1) ∷ entry 1 (pos 9) (pos 1) ∷ []) (whole 1)
      (with_entries (entry 0 (pos 9) (pos 1) ∷ entry 1 (pos 9) (pos 1) ∷ [])) player refl
      (
        (event EventType.instant [], refl, inl refl, refl),
        ((event EventType.instant [], refl, inl refl, refl), tt),
      )
      refl (omega arith)

-- A tenth of a second of a loop of four seconds.
settle_queue-advance_head_example :
    (st' : State Milli) × (left : Milli) × (settle_queue ctx game 2
        (pos 0)
        (milli (pos 100))
        (with_entries three)
        player
      ≡ some (st', player, left))
    × (entries_of (pos 0) st' ≡ advance_head game (milli (pos 100)) three)
unfolding entries_of lookup milli_lit milli_add head_triggers check_reqs deref_loop_time
settle_queue-advance_head_example =
    settle_queue-advance_head Milli-IsOrdered Milli-IsClock ctx game (pos 0)
      (entry 0 (pos 7) (pos 2)) (entry 1 (pos 8) (negsuc 0) ∷ entry 2 (pos 9) (pos 1) ∷ [])
      (event EventType.loop []) (milli (pos 100)) (with_entries three) player refl refl refl refl
      refl refl refl refl

-- Ten seconds of a loop of four seconds run three cycles: the two seconds that two cycles leave are
-- both kept as progress and settled once more.
ten_seconds_executions : Option (Milli × Option ℤ)
ten_seconds_executions =
    Option.map (λ r. (r.2, cycles r.0.executions))
      (settle_queue ctx game 4 (pos 0) (whole 10) (with_entries (entry 0 (pos 7) (negsuc 0) ∷ []))
        player)
  where
    cycles : Option (Table ℤ ℤ) → Option ℤ
    cycles none = none
    cycles (some m) = lookup (pos 7) m
