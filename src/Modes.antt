-- ===== src/Modes.antt =====
-- The permission modes (permission_modes.py), and the switch between plan and build by the model
-- (tools/plan_tools.py).
use noah_code.Prelude.{
  Bool, true, false, not, Option, none, some, List, [], ◌∷◌, ◌≡◌, arith, if◌then◌else◌, null,
  Bool-cases, inl, inr,
}
use noah_code.Python.Text.{Text, text_eq, codes, texts, member, strip, lower, contains, behind}
use noah_code.Permissions.Types.{Mode, build, plan}
use noah_code.Notes.{written_note}

pub record ModeFlags : Type 0 where
  pub auto_approve : Bool
  pub yolo : Bool

abbrev pub permission_modes : List Text
permission_modes = texts ("normal" ∷ "auto" ∷ "yolo" ∷ [])

-- `none` is the error that there is no such mode.
unfoldable pub permission_mode_flags : Text → Option ModeFlags
unfolding member text_eq
permission_mode_flags mode =
    if not (member mode permission_modes)
    then none
    else some
        (record { auto_approve = text_eq mode (codes "auto"); yolo = text_eq mode (codes "yolo") })

-- The mode of the owner, the text of the plan's note, and the flags that the tools read.
pub record Planning : Type 0 where
  pub mode : Mode
  pub note : Text
  pub auto_approve : Bool
  pub is_readonly : Bool

pub data PlanReply : Type 0 where
  read_only blank_plan no_plan no_handler : PlanReply
  wrote already stayed switched : PlanReply

-- `answer.rsplit("a:", 1)`, for what is behind
abbrev behind_mark : Text → Option Text
unfolding behind
behind_mark [] = none
behind_mark (c ∷ s) = elim (behind_mark s) [ some t ↦ some t | none ↦ behind (codes "a:") (c ∷ s) ]

abbrev chosen_of : Text → Text
unfolding behind_mark
chosen_of answer = elim (behind_mark answer) [ none ↦ answer | some t ↦ t ]

-- The answer of the user; without a handler there is none, and `_confirm` raises an error.
unfoldable pub confirm : Planning → Text → Option Text → Option Bool
unfolding contains chosen_of lower
confirm s accept answer =
    if s.auto_approve
    then some true
    else elim answer [ none ↦ none | some a ↦ some (contains (chosen_of (lower a)) accept) ]

abbrev switch_to : Planning → Mode → Option Bool → Planning × PlanReply
switch_to s mode none = (s, no_handler)
switch_to s mode (some false) = (s, stayed)
switch_to s mode (some true) = (record s { mode = mode }, switched)

unfoldable pub write_plan : Planning → Text → Planning × PlanReply
unfolding strip written_note
write_plan s markdown =
    if s.is_readonly
    then (s, read_only)
    else if null (strip markdown)
    then (s, blank_plan)
    else (record s { note = written_note (strip markdown) }, wrote)

unfoldable pub enter : Planning → Option Text → Planning × PlanReply
unfolding confirm
enter s answer = elim s.mode [
  | plan ↦ (s, already)
  | build ↦ switch_to s plan (confirm s (codes "switch to plan") answer)
]

unfoldable pub exit_to_build : Planning → Option Text → Planning × PlanReply
unfolding confirm strip
exit_to_build s answer =
    if s.is_readonly
    then (s, read_only)
    else if null (strip s.note)
    then (s, no_plan)
    else elim s.mode [
      | build ↦ (s, already)
      | plan ↦ switch_to s build (confirm s (codes "switch to build") answer)
    ]

is_build : Mode → Bool
is_build build = true
is_build plan = false

-- The model leaves plan mode only with a plan that is not blank, and a read-only agent never does.
exit_to_build_needs_plan :
    (s : Planning) (answer : Option Text)
    → is_build s.mode ≡ false
    → is_build (exit_to_build s answer).0.mode ≡ true
    → (null (strip s.note) ≡ false) × (s.is_readonly ≡ false)
unfolding exit_to_build is_build
exit_to_build_needs_plan s answer planning left = elim (Bool-cases s.is_readonly) [
  | inl readonly ↦ ground (arith, readonly, planning, left)
  | inr writes ↦ elim (Bool-cases (null (strip s.note))) [
    | inl blank ↦ ground (arith, writes, blank, planning, left)
    | inr filled ↦ (filled, writes)
  ]
]
