-- ===== src/Ordering/Required.antt =====
-- src/ordering/tools/required-modifiers.ts: a batch of operations must leave exactly one option chosen
-- in each required group. A message to the agent is a text made of four parts, the item's label, the
-- group's name, its options and the number chosen. Here it is the record of these parts.
pub mod Exactly
mod Tests
use voice_order_backend.Base.{
  ℕ, ◌+◌, Bool, true, false, ◌&&◌, not, List, [], ◌∷◌, ◌++◌, map, Option, none, some, String, same,
  get, put, or_else, find?, filter_b, if◌then◌else◌, ◌==◌,
}
use voice_order_backend.Menu.{MenuItem, CandidateModifier, display_name}
use voice_order_backend.Contracts.{
  CartOperation, add_item, remove_item, update_quantity, add_modifier, remove_modifier,
}

pub record ModOption : Type 0 where
  pub modifier_key : String
  pub name : String
  pub group_key : Option String
  pub group_name : Option String
  pub required : Option Bool

pub record Violation : Type 0 where
  pub label : String
  pub group_name : String
  pub options : List String
  pub selected : ℕ

-- `Set.has`, `Set.add`, `includes`
pub member : String → List String → Bool
member x [] = false
member x (y ∷ ys) = if same y x then true else member x ys

pub insert : String → List String → List String
insert x xs = if member x xs then xs else xs ++ x ∷ []

-- This option is in this group.
pub in_group : String → ModOption → Bool
in_group g o = elim o.group_key [ none ↦ false | some h ↦ same h g ]

-- `groupOf.get(key)`: the group of the last option with this key that has one.
pub group_of : String → List ModOption → Option String
group_of key [] = none
group_of key (o ∷ os) = elim (group_of key os) [
  | some g ↦ some g
  | none ↦ if same o.modifier_key key then o.group_key else none
]

-- `groupName.get(g)`
pub group_name_of : String → List ModOption → Option String
group_name_of g [] = none
group_name_of g (o ∷ os) = elim (group_name_of g os) [
  | some n ↦ some n
  | none ↦ if in_group g o then o.group_name else none
]

-- `optionNames.get(g)`
pub option_names : String → List ModOption → List String
option_names g os = map (λ o. o.name) (filter_b (in_group g) os)

pub is_required : ModOption → Bool
is_required o = or_else o.required false

-- `requiredGroups`, in order of first occurrence.
add_group : ModOption → List String → List String
add_group o gs = elim o.group_key [ none ↦ gs | some g ↦ if is_required o then insert g gs else gs ]

pub required_groups : List String → List ModOption → List String
unfolding add_group
required_groups gs [] = gs
required_groups gs (o ∷ os) = required_groups (add_group o gs) os

-- `counts.get(g) ?? 0`
pub chosen : String → List ModOption → List String → ℕ
chosen g os [] = 0
chosen g os (key ∷ keys) =
    let rest = chosen g os keys in
    elim (group_of key os) [ none ↦ rest | some h ↦ if same h g then rest + 1 else rest ]

-- `onlyGroups !== undefined && !onlyGroups.has(g)` skips the group.
pub judged : Option (List String) → String → Bool
judged none g = true
judged (some gs) g = member g gs

pub check_groups :
    List String → List ModOption → String → Option (List String) → List String → List Violation
check_groups keys os label only [] = []
check_groups keys os label only (g ∷ gs) =
    let rest = check_groups keys os label only gs in
    let n = chosen g os keys in
    if judged only g
    then (if n == 1
        then rest
        else record {
          label = label;
          group_name = or_else (group_name_of g os) "a required option";
          options = option_names g os;
          selected = n;
        }
          ∷ rest)
    else rest

pub check_exactly_one :
    List String → List ModOption → String → Option (List String) → List Violation
check_exactly_one keys os label only = check_groups keys os label only (required_groups [] os)

pub to_option : CandidateModifier → ModOption
to_option m = record {
  modifier_key = m.modifier_key;
  name = m.name;
  group_key = m.group_key;
  group_name = m.group_name;
  required = m.required;
}

-- 1) `add_item`: the resulting options are the operation's own.
pub check_item : Option MenuItem → List String → List Violation
check_item none keys = []
check_item (some item) keys =
    if item.available
    then check_exactly_one keys (map to_option item.modifiers)
        (display_name (some item.names) item.menu_item_key) none
    else []

pub add_violations : List (String × MenuItem) → List CartOperation → List Violation
add_violations items [] = []
add_violations items (add_item key quantity keys ∷ ops) =
    check_item (get key items) keys ++ add_violations items ops
add_violations items (op ∷ ops) = add_violations items ops

-- 2) The edits of the lines in the view, simulated over the whole batch.
pub record LineView : Type 0 where
  pub line_id : String
  pub name : String
  pub modifiers : List ModOption
  pub available_modifiers : List ModOption

pub record LineState : Type 0 where
  pub options : List ModOption
  pub label : String
  pub keys : List String
  pub touched_groups : List String
  pub removed : Bool

fresh_state : LineView → LineState
fresh_state line = record {
  options = line.available_modifiers;
  label = line.name;
  keys = map (λ m. m.modifier_key) line.modifiers;
  touched_groups = [];
  removed = false;
}

pub state_of : List LineView → String → List (String × LineState) → Option LineState
unfolding fresh_state
state_of view id lines = elim (get id lines) [
  | some st ↦ some st
  | none ↦ elim (find? (λ l. same l.line_id id) view) [
    | none ↦ none
    | some l ↦ some (fresh_state l)
  ]
]

on_line :
    List LineView
    → String
    → (LineState → LineState)
    → List (String × LineState)
    → List (String × LineState)
on_line view id f lines = elim (state_of view id lines) [
  | none ↦ lines
  | some st ↦ put id (f st) lines
]

touch : String → LineState → LineState
touch key st = elim (find? (λ o. same o.modifier_key key) st.options) [
  | none ↦ st
  | some o ↦ elim o.group_key [
    | none ↦ st
    | some g ↦ record st { touched_groups = insert g st.touched_groups }
  ]
]

pub choose : String → LineState → LineState
unfolding touch
choose key st = record (touch key st) { keys = insert key (touch key st).keys }

pub unchoose : String → LineState → LineState
unfolding touch
unchoose key st = record (touch key st) {
  keys = filter_b (λ k. not (same k key)) (touch key st).keys;
}

pub simulate_one :
    List LineView → CartOperation → List (String × LineState) → List (String × LineState)
unfolding on_line
simulate_one view (add_modifier id key) lines = on_line view id (choose key) lines
simulate_one view (remove_modifier id key) lines = on_line view id (unchoose key) lines
simulate_one view (remove_item id) lines =
    on_line view id (λ st. record st { removed = true }) lines
simulate_one view (add_item key quantity keys) lines = lines
simulate_one view (update_quantity id quantity) lines = lines

pub simulate :
    List LineView → List CartOperation → List (String × LineState) → List (String × LineState)
simulate view [] lines = lines
simulate view (op ∷ ops) lines = simulate view ops (simulate_one view op lines)

pub check_line : LineState → List Violation
check_line st =
    if st.removed
    then []
    else check_exactly_one st.keys st.options st.label (some st.touched_groups)

pub line_violations : List (String × LineState) → List Violation
line_violations [] = []
line_violations ((id, st) ∷ lines) = check_line st ++ line_violations lines

pub edit_violations : Option (List LineView) → List CartOperation → List Violation
edit_violations none ops = []
edit_violations (some view) ops = line_violations (simulate view ops [])

same_texts : List String → List String → Bool
same_texts [] [] = true
same_texts (x ∷ xs) (y ∷ ys) = same x y && same_texts xs ys
same_texts _ _ = false

same_violation : Violation → Violation → Bool
same_violation a b =
    same a.label b.label
    && same a.group_name b.group_name
    && same_texts a.options b.options
    && (a.selected == b.selected)

has_violation : Violation → List Violation → Bool
has_violation v [] = false
has_violation v (w ∷ ws) = if same_violation w v then true else has_violation v ws

-- `[...new Set(violations)]`
pub without_repeats : List Violation → List Violation → List Violation
unfolding has_violation same_violation same_texts
without_repeats seen [] = seen
without_repeats seen (v ∷ vs) =
    without_repeats (if has_violation v seen then seen else seen ++ v ∷ []) vs

pub find_violations :
    List CartOperation → Option (List LineView) → List (String × MenuItem) → List Violation
find_violations ops view items =
    without_repeats [] (add_violations items ops ++ edit_violations view ops)
