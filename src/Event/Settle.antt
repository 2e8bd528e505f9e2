-- ===== src/Event/Settle.antt =====
-- Settlement of the event queues (backend/internal/event/settle.go).
use milkyway_liluo_idle.Prelude.{
  Bool, true, false, not, ◌&&◌, ◌||◌, if◌then◌else◌, int_eq, ltb_ℤ, List, [], ◌∷◌, Option, none,
  some, ℤ, pos, String,
}
use milkyway_liluo_idle.Float.{Float, ◌⊗◌, ◌⊘◌, ◌<?◌, nought}
use milkyway_liluo_idle.Item.{Item}
use milkyway_liluo_idle.GameConfig.{
  Event, Requirement, ReqType, Reward, RewardType, is_consumption, item_quantity,
}
use milkyway_liluo_idle.Event.{State, consume, record_execution}
use milkyway_liluo_idle.Event.Entries.{QueueEntry}

-- The interface `SettlementCtx` over a player's state `S`. Its reads are functions of the state: the
-- cache that `GetAttr` fills and the empty slot that `GetSkillLevel` creates are not part of it.
pub record SettlementCtx (S F : Type 0) : Type 0 where
  pub get_item_qty : Item → S → F
  pub add_item : Item → F → S → S
  pub deduct_item : Item → F → S → S
  pub add_xp : ℤ → F → S → S
  pub get_attr : ℤ → S → F
  pub get_skill_level : ℤ → S → F
  pub unlock_event : ℤ → S → S
  pub is_event_unlocked : ℤ → S → Bool

-- What settlement reads of the loaded configuration: `gameconfig.GetEventByID` and the `AttrID` of the
-- attribute registry.
pub record GameData (F : Type 0) : Type 0 where
  pub get_event_by_id : ℤ → Option (Event F)
  pub attr_id : String → Option ℤ

-- `actual` is cut to the target, if there is one.
unfoldable pub cap_target : ℤ → ℤ → ℤ
cap_target target n = if ltb_ℤ (pos 0) target && ltb_ℤ target n then target else n

module _ {F : Type 0} ⦃f : Float F⦄ where
  unfoldable pub deref_loop_time : Option F → F
  deref_loop_time none = nought
  deref_loop_time (some t) = t

module _ {S F : Type 0} ⦃f : Float F⦄ (ctx : SettlementCtx S F) where
  -- What one requirement that is not consumed says of the player.
  unfoldable pub check_kind : ReqType → Option F → ℤ → S → Bool
  check_kind ReqType.skill none id s = true
  check_kind ReqType.skill (some v) id s = not (ctx.get_skill_level id s <? v)
  check_kind ReqType.event v id s = ctx.is_event_unlocked id s
  check_kind _ v id s = false

  unfoldable pub check_reqs : List (Requirement F) → S → Bool
  unfolding check_kind
  check_reqs [] s = true
  check_reqs (req ∷ reqs) s =
      (is_consumption req || check_kind req.kind req.value req.resolved_id s) && check_reqs reqs s

  unfoldable pub cap_kind : Bool → Option F → Item → S → ℤ → ℤ
  cap_kind true (some v) item s n =
      let most = f.to_int (ctx.get_item_qty item s ⊘ v) in if ltb_ℤ most n then most else n
  cap_kind _ _ item s n = n

  -- The bound that the consumed requirements put on the number of cycles.
  unfoldable pub cap_reqs : List (Requirement F) → S → ℤ → ℤ
  unfolding cap_kind
  cap_reqs [] s n = n
  cap_reqs (req ∷ reqs) s n =
      cap_reqs reqs s (cap_kind (is_consumption req) req.value req.resolved_item s n)

  unfoldable pub deduct_kind : Bool → Option F → Item → ℤ → S → S
  deduct_kind true (some v) item n s = ctx.deduct_item item (v ⊗ f.of_int n) s
  deduct_kind _ _ item n s = s

  unfoldable pub deduct_reqs : List (Requirement F) → ℤ → S → S
  unfolding deduct_kind
  deduct_reqs [] n s = s
  deduct_reqs (req ∷ reqs) n s =
      deduct_reqs reqs n (deduct_kind (is_consumption req) req.value req.resolved_item n s)

  -- One reward of a loop, for `n` cycles.
  unfoldable pub reward_loop : Reward F → RewardType → ℤ → F → S → S
  reward_loop rew RewardType.item n factor s =
      ctx.add_item rew.resolved_item (item_quantity rew ⊗ f.of_int n ⊗ factor) s
  reward_loop rew RewardType.experience n factor s =
      ctx.add_xp rew.resolved_skill_id (rew.value ⊗ f.of_int n) s
  reward_loop rew RewardType.other n factor s = s

  unfoldable pub reward_loops : List (Reward F) → ℤ → F → S → S
  unfolding reward_loop
  reward_loops [] n factor s = s
  reward_loops (rew ∷ rews) n factor s =
      reward_loops rews n factor (reward_loop rew rew.kind n factor s)

  unfoldable pub reward_once : Reward F → RewardType → S → S
  reward_once rew RewardType.item s = ctx.add_item rew.resolved_item (item_quantity rew) s
  reward_once rew RewardType.experience s = ctx.add_xp rew.resolved_skill_id rew.value s
  reward_once rew RewardType.other s = s

  unfoldable pub rewards_once : List (Reward F) → S → S
  unfolding reward_once
  rewards_once [] s = s
  rewards_once (rew ∷ rews) s = rewards_once rews (reward_once rew rew.kind s)

  -- `ExecuteInstant`
  unfoldable pub execute_instant : ℤ → Event F → State F → S → State F × S
  unfolding rewards_once
  execute_instant event ev st s =
      (record_execution event (pos 1) st, ctx.unlock_event event (rewards_once ev.rewards s))

  -- `settleInstant` on the head of a queue.
  unfoldable pub settle_instant : ℤ → QueueEntry F → Event F → State F → S → State F × S
  unfolding rewards_once
  settle_instant id e ev st s = (
    consume id 0 (record_execution e.event_id (pos 1) st),
    ctx.unlock_event e.event_id (rewards_once ev.rewards s),
  )
