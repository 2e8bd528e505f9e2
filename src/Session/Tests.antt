-- ===== src/Session/Tests.antt =====
-- A player with a hat, and the slots of the hands, over thousandths.
use milkyway_liluo_idle.Prelude.{
  ◌≤◌, ◌≡◌, refl, subst, true, false, Option, none, some, List, [], ◌∷◌, pos, ℤ, ◌+ℤ◌, String,
  Table, lookup, member, IsKeyed, Bool-cases, inl, inr, ◌=?◌, string_eq, int_eq, eq_of_eq, arith,
}
use milkyway_liluo_idle.Milli.{
  Milli, whole, milli_lit, milli_add, milli_sub, milli_mul, milli_float, AnyMilli, Milli-IsExact,
}
use milkyway_liluo_idle.Item.{Item, item_eq}
use milkyway_liluo_idle.Item.Definition.{ItemDef}
use milkyway_liluo_idle.Inventory.{get}
use milkyway_liluo_idle.Bestiary.{Names, new_state}
use milkyway_liluo_idle.Attribute.Tests.{rank, rank_bounded, blank, blank-IsReady}
use milkyway_liluo_idle.Session.{
  Session, Fault, Result, Command, equips, unequips, equip, unequip, run_all,
}
use milkyway_liluo_idle.Session.Slots.{choose_target_slots}
use milkyway_liluo_idle.Session.Picking.{occurrences}
use milkyway_liluo_idle.Session.Choosing.{IsSelection, choose_target_slots-IsSelection}
use milkyway_liluo_idle.Session.Commands.{IsSound, run_all-IsSound}
use milkyway_liluo_idle.Session.Mounting.{Leaves, equip-AllLeave}
use milkyway_liluo_idle.Session.Lifecycle.{
  Life, new_life, start_grace_timer, submit, Reaches, here, next, starts, submits, IsTimed, Expires,
  grace-Expires,
}
use milkyway_liluo_idle.Session.Removing.{unequip-equip}

abbrev hands : List String
hands = "main_hand" ∷ "side_hand" ∷ []

abbrev hand_reqs : Table String ℤ
hand_reqs = ("main_hand", pos 1) ∷ ("side_hand", pos 1) ∷ []

hands_once : (sl : String) → occurrences sl hands ≤ 1
unfolding occurrences
hands_once sl = elim (Bool-cases ("main_hand" =? sl)) [
  | inl e ↦
      subst (λ (x : String). occurrences x hands ≤ 1) (eq_of_eq "main_hand" sl e) (omega arith)
  | inr e ↦ ground (arith, e)
]

choose_target_slots-IsSelection_example :
    IsSelection hands "side_hand" ("head" ∷ []) hand_reqs hands
unfolding choose_target_slots member IsKeyed lookup
choose_target_slots-IsSelection_example =
    choose_target_slots-IsSelection hands "side_hand" ("head" ∷ []) refl hand_reqs hands hands_once
      (refl, (refl, tt)) (refl, (refl, tt)) refl

abbrev hat : ItemDef Milli
hat = record {
  id = pos 7;
  string_id = "hat";
  name = "Hat";
  tool = false;
  equipment = true;
  upgradable = false;
  classification = "";
  equip_basic = ("power", whole 5) ∷ [];
  equip_upgrade = [];
  tool_basic = [];
  tool_upgrade = [];
  upgrade_curve = [];
  equip_position_reqs = record { position = "head"; value = pos 1 } ∷ [];
  tool_position_reqs = [];
  max_upgrade = pos 0;
}

abbrev items : Table ℤ (ItemDef Milli)
items = (pos 7, hat) ∷ []

abbrev names : Names
names = record { event_name = λ id. ""; area_name = λ id. ""; item_name = λ it. "hat" }

abbrev a_hat : Item
a_hat = record { id = pos 7; state = pos 0 }

abbrev session : Session Milli
session = record {
  attr = blank;
  inv = record { slots = (a_hat, whole 1) ∷ []; dirty = []; changes = none };
  best = new_state;
  eq = record { slots = []; dirty = []; deleted = []; actions = none };
}

session-IsSound :
    IsSound items names rank 2 rank_bounded (pos 2 ∷ []) 3 (omega arith) (omega arith) session
unfolding IsKeyed lookup
session-IsSound = record { ready = blank-IsReady; keyed = tt; anchored = λ slot e h. absurd (cc h) }

abbrev changes_hat : List Command
changes_hat = equips a_hat "head" ∷ unequips "head" ∷ equips a_hat "chest" ∷ []

run_all-IsSound_example :
    (es : List (Option Fault)) × (s' : Session Milli) × (run_all items names 3 changes_hat session
      ≡ some (es, s'))
    × IsSound items names rank 2 rank_bounded (pos 2 ∷ []) 3 (omega arith) (omega arith) s'
run_all-IsSound_example =
    run_all-IsSound items names rank 2 rank_bounded (pos 2 ∷ []) 3 (omega arith) (omega arith)
      changes_hat session session-IsSound

-- The session behind a result.
session_of : Result Milli → Session Milli
session_of none = session
session_of (some (e, s)) = s

with_hat :
    equip items names 3 a_hat "head" session
    ≡ some (none, session_of (equip items names 3 a_hat "head" session))
unfolding session_of equip milli_lit get ◌+ℤ◌ milli_add milli_mul
with_hat = refl

abbrev hatted : Session Milli
hatted = session_of (equip items names 3 a_hat "head" session)

equip-AllLeave_example : Leaves a_hat "head" session none hatted
unfolding lookup
equip-AllLeave_example = equip-AllLeave items names 3 a_hat "head" session none hatted refl with_hat

unequip-equip_example :
    (s : Session Milli) × (unequip items names 3 "head" hatted ≡ some (none, s))
    × ((slot : String) → lookup slot s.eq.slots ≡ lookup slot session.eq.slots)
    × ((j : Item) → get j s.inv ≡ get j session.inv)
unfolding lookup milli_lit milli_add milli_sub
unequip-equip_example =
    unequip-equip items names rank 2 rank_bounded (pos 2 ∷ []) 3 (omega arith) (omega arith)
      AnyMilli Milli-IsExact a_hat "head" session hatted tt tt tt tt tt refl session-IsSound refl
      refl with_hat

-- A player whose connection is lost while a command waits.
abbrev left_alone : Life
left_alone = submit (start_grace_timer new_life)

lost : Reaches new_life left_alone
unfolding start_grace_timer
lost =
    next new_life (start_grace_timer new_life) left_alone (starts new_life (λ c. absurd (cc c))) (
      next (start_grace_timer new_life) left_alone left_alone
        (submits (start_grace_timer new_life) refl) (here left_alone))

grace-Expires_example : IsTimed left_alone.timer left_alone.waiting × Expires left_alone
unfolding start_grace_timer submit
grace-Expires_example = grace-Expires left_alone lost refl refl
