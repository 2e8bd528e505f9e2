-- ===== src/Lib.antt =====
-- Models of the core of the game server, backend/internal, with the theorems that make it correct.
--
-- A player has queues of events. An event in a queue is a loop that takes time, consumes items and
-- gives rewards, or an instant event. Commands of the player edit the queues; a tick settles them over
-- the time that has passed, through an interface to the rest of the player's state; a flush writes
-- the dirty queues to the database, and a load reads them back.
--
-- Files:
--   Prelude: the names that all files share. Prelude/Tables and Prelude/KeySets are Go's maps, as
--     lists of entries: Go visits a map in any order, a model in the order of the list.
--   Float: Go's float64 as a parameter, with the laws of IEEE 754 that the proofs use; Milli meets
--     them. Additions are rounded: theorems on sums hold for a set of numbers whose sums are not.
--     Integers are ℤ or ℕ and do not wrap: positions, cycle counts and ids stay far below 2^63.
--   Item: item.Item, and in Item/Definition an ItemDef with its upgrade curve and its modifiers
--     (backend/internal/item/item.go); Item/Modifiers is about the modifiers. GameConfig: event definitions
--     (backend/internal/gameconfig/models.go); the definitions that are loaded from actions.json are a
--     parameter, GameData.
--   Inventory, Equipment, Skill: the packages of these names in backend/internal, state.go and
--     bucket.go. A state has the bucket that the attached recorder hands out, if it has one; an
--     operation is the method of its name. In each, the file Store or Progress is about Flush and Load,
--     with the rows of the player in the database as a table with unique keys.
--   Bestiary: backend/internal/bestiary, whose names of events, areas and items are parameters.
--   Record: backend/internal/record, the recorder and the registry over any type of buckets;
--     Record/Merging and Record/Diffs are about BuildDiff, Record/Systems about Register, Providers
--     and Bucket.
--   Battle: backend/internal/battle. Battle has the entities and skills; Damage, Targeting, Effects,
--     Clock and Times are damage.go, targeting.go with the choice of a wave, effect.go with the effects of
--     an entity, and the time of session.go; Experience, Choice and Combat are combat.go, and Outcomes is
--     about an attack as a whole. Events is AdvanceOneEvent of session.go with spawnWave of wave.go;
--     Timing is about NextEventTime, with Membership, Choosing and News about the choice of a skill,
--     Respawn about the respawn timers and Passing about an event as a whole. Delta is NewBattleSession
--     and AdvanceByDelta. The attributes of an entity are behind an interface, and the random source and the enemies that the
--     configuration makes are parameters.
--   Attribute: backend/internal/attribute, the instance of a player over the registry. Calculation is
--     getFinal, and Reference the value that it should have; Marking is markDirty; Final, Tracking,
--     Batches, Operations, Runs, Removal and Preview are about the methods of an instance. Building is
--     newRegistry with checkCycles; Cycles, Acyclic, Recorded and Registered are about it.
--   Session: SetEquipment, Equip and Unequip of backend/internal/session/session.go, on the parts of a
--     PlayerSession that they change. Session/Slots has the helpers for slots; Picking, Bases,
--     Choosing and Requirements are about the choice of slots, Pieces about the slots of one piece, and
--     Ends, Commands, Mounting and Removing about the two commands. The item definitions are a
--     parameter. Lifecycle is lifecycle.go with Close and SubmitCommand, as steps in any order.
--   Event: backend/internal/event/state.go and bucket.go. Event/Entries is what the methods do to the
--     entries of one queue; Event the State with its dirty marks and the recorder's buckets;
--     Event/Commands, Event/Positions and Event/Jobs are about the editing commands; Event/Store is
--     Flush and Load with the queries of backend/internal/db/queries/events.sql; Event/Swap,
--     with Event/Reloading, Event/Settle, Event/Loop, Event/Tick, Event/Rounds and Event/FastPath are
--     backend/internal/event/settle.go.
--
-- Fuel: settle_queue counts the rounds of the loop of settleQueue, and `none` says that it ran out.
-- Where a theorem gives a result, it gives the fuel for it. The loop does not end for every state:
-- see Event/Rounds. mark_dirty, get_final and dfs have fuel for the depth of the recursion, and so has
-- a session, for its attributes; advance_by_delta counts the events of a battle.
--
-- Not modelled: the making of enemies and players of a battle, whose logs are kept for an attack only;
-- the conversion of diffs to protobuf messages, the tick and the other commands of a session, the session
-- manager and its goroutines, the WebSocket hub, authentication, configuration loading and the
-- database driver. A query that fails is not modelled: a flush runs in a transaction, which is rolled back.
pub mod Prelude
pub mod Float
pub mod Milli
pub mod Item
pub mod GameConfig
pub mod Event
pub mod Inventory
pub mod Equipment
pub mod Skill
pub mod Record
pub mod Session
pub mod Bestiary
pub mod Attribute
pub mod Battle
