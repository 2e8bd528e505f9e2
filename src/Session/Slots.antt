-- ===== src/Session/Slots.antt =====
-- The slots of a player and the choice of those that an item takes: the helpers of Equip in
-- backend/internal/session/session.go. A choice that ends in an error returns the error's text.
use Prim.Native.Char.{Char, code}
use Prim.Native.String.{◌++◌ as str_append, slice}
use milkyway_liluo_idle.Prelude.{
  ℕ, zero, suc, ◌/◌, ◌%◌, ◌==◌, Bool, ◌||◌, if◌then◌else◌, Option, none, some, List, [], ◌∷◌, ◌++◌,
  length, ℤ, pos, pos_part, ◌+ℤ◌, leb_ℤ, String, Table, lookup, insert, member, or_zero, ◌=?◌,
  string_eq, int_eq,
}
use milkyway_liluo_idle.Float.{Float}
use milkyway_liluo_idle.Item.Definition.{ItemDef, PositionReq}
use milkyway_liluo_idle.Attribute.{Instance}
use milkyway_liluo_idle.Attribute.Calculation.{get_final}

abbrev pub tool_slot_bases : List String
tool_slot_bases = "felling" ∷ "mining" ∷ "planting" ∷ "crafting" ∷ "forging" ∷ "enhancing" ∷ []

abbrev pub equipment_slot_bases : List String
equipment_slot_bases =
    "main_hand" ∷ "side_hand" ∷ "head" ∷ "chest" ∷ "leg" ∷ "feet" ∷ "necklace" ∷ "treasure" ∷ []

abbrev is_hash : Char → Bool
is_hash c = code c == 35

-- `slotBase`, the part in front of the first `#`
unfoldable pub slot_base : String → String
slot_base String.[] = String.[]
slot_base (String.◌∷◌ c s) =
    let rest = slot_base s in if is_hash c then String.[] else String.◌∷◌ c rest

-- `resolveSlotType`
unfoldable pub resolve_slot_type : String → String
unfolding slot_base member
resolve_slot_type slot =
    if member (slot_base slot) tool_slot_bases
    then "tool"
    else if member (slot_base slot) equipment_slot_bases
    then "equipment"
    else ""

-- The decimal digits of a number, in front of a text; the fuel bounds their number.
unfoldable pub decimal_from : ℕ → ℕ → String → String
decimal_from zero n text = text
decimal_from (suc fuel) n text =
    let text' = str_append (slice "0123456789" (n % 10) 1) text in
    let rest = decimal_from fuel (n / 10) text' in if (n / 10) == 0 then text' else rest

-- The slots of a base with the numbers from one on.
unfoldable pub numbered : String → ℕ → ℕ → List String
unfolding decimal_from
numbered base i zero = []
numbered base i (suc left) =
    str_append base (str_append "#" (decimal_from (suc i) i "")) ∷ numbered base (suc i) left

-- The slots of a base, by their number.
unfoldable pub slots_of_base : String → ℤ → List String
unfolding numbered
slots_of_base base count =
    if leb_ℤ count (pos 1) then base ∷ [] else numbered base 1 (pos_part count)

-- The loop of `positionRequirements`.
unfoldable pub add_reqs : List PositionReq → Table String ℤ → Table String ℤ
unfolding insert lookup or_zero
add_reqs [] m = m
add_reqs (r ∷ rs) m =
    let v = if leb_ℤ r.value (pos 0) then pos 1 else r.value in
    add_reqs rs (insert r.position (or_zero (pos 0) (lookup r.position m) +ℤ v) m)

module _ {F : Type 0} where
  unfoldable pub position_requirements : ItemDef F → String → Table String ℤ
  unfolding add_reqs
  position_requirements d slot_type =
      add_reqs (if slot_type =? "tool" then d.tool_position_reqs else d.equip_position_reqs) []

module _ {F : Type 0} ⦃f : Float F⦄ where
  -- The number of slots of a base: the attribute of that name, if it is registered, or one.
  unfoldable pub slot_count : ℕ → String → Instance F → Option (ℤ × Instance F)
  unfolding lookup get_final
  slot_count n base a = elim (lookup (str_append base "_slot_count") a.reg.attr_ids) [
    | none ↦ some (pos 1, a)
    | some aid ↦ elim (get_final n none aid [] a) [
      | none ↦ none
      | some (v, a') ↦ some (f.to_int v, a')
    ]
  ]

  -- The loop of `buildSlotInstances` over the bases.
  unfoldable pub build_slots : ℕ → List String → Instance F → Option (List String × Instance F)
  unfolding slot_count slots_of_base
  build_slots n [] a = some ([], a)
  build_slots n (base ∷ bases) a = elim (slot_count n base a) [
    | none ↦ none
    | some (count, a') ↦ elim (build_slots n bases a') [
      | none ↦ none
      | some (slots, a'') ↦ some (slots_of_base base count ++ slots, a'')
    ]
  ]

  -- `buildSlotInstances`, with the attributes after the calls of GetFinal
  unfoldable pub build_slot_instances : ℕ → String → Instance F → Option (List String × Instance F)
  unfolding build_slots
  build_slot_instances n slot_type a =
      build_slots n (if slot_type =? "tool" then tool_slot_bases else equipment_slot_bases) a

pub data Choice : Type 0 where
  chosen : List String → Choice
  refused : String → Choice

-- `slotsByBase`
unfoldable pub group_slots : List String → Table String (List String) → Table String (List String)
unfolding slot_base insert or_zero lookup
group_slots [] m = m
group_slots (sl ∷ sls) m =
    group_slots sls (insert (slot_base sl) (or_zero [] (lookup (slot_base sl) m) ++ (sl ∷ [])) m)

-- The loop over the candidates, which leaves out some of them.
unfoldable pub pick : ℤ → (String → Bool) → List String → List String → List String
pick need skip [] out = out
pick need skip (sl ∷ sls) out =
    let skipped = pick need skip sls out in
    let taken = pick need skip sls (out ++ (sl ∷ [])) in
    if leb_ℤ need (pos (length out)) then out else if skip sl then skipped else taken

-- The test behind that loop.
abbrev pub enough : String → ℤ → List String → Choice
enough base need out =
    if leb_ℤ need (pos (length out))
    then chosen out
    else refused (str_append "not enough free slots for " base)

-- The body of the loop of `chooseTargetSlots` over the requirements, on the candidates.
unfoldable pub choose_from : List String → String → List String → String → ℤ → Choice
unfolding slot_base member pick
choose_from [] clicked occupied base need = refused (str_append "missing slot: " base)
choose_from (sl ∷ sls) clicked occupied base need =
    let beside = pick need (λ x. (x =? clicked) || member x occupied) (sl ∷ sls) (clicked ∷ []) in
    let free = pick need (λ x. member x occupied) (sl ∷ sls) [] in
    if base =? slot_base clicked
    then if member clicked occupied
      then refused "clicked slot is occupied"
      else enough base need beside
    else enough base need free

unfoldable pub choose_base : Table String (List String) → String → List String → String → ℤ → Choice
unfolding lookup or_zero choose_from
choose_base groups clicked occupied base need =
    choose_from (or_zero [] (lookup base groups)) clicked occupied base need

unfoldable pub choose_all :
    Table String (List String) → String → List String → Table String ℤ → List String → Choice
unfolding choose_base
choose_all groups clicked occupied [] selected = chosen selected
choose_all groups clicked occupied ((base, need) ∷ reqs) selected =
    elim (choose_base groups clicked occupied base need) [
      | refused e ↦ refused e
      | chosen out ↦ choose_all groups clicked occupied reqs (selected ++ out)
    ]

-- `chooseTargetSlots`, with the requirements in the order in which the loop meets them
unfoldable pub choose_target_slots : List String → Table String ℤ → String → List String → Choice
unfolding lookup slot_base group_slots choose_all
choose_target_slots all_slots reqs clicked occupied = elim (lookup (slot_base clicked) reqs) [
  | none ↦ refused "item cannot be equipped in this slot"
  | some _ ↦ choose_all (group_slots all_slots []) clicked occupied reqs []
]
