-- ===== src/Teams/Truncated.antt =====
-- What `_truncate_result` and `_team_prompt` (tools/task_tools.py) keep within their limits.
use noah_code.Prelude.{
  ℕ, suc, ◌+◌, ◌-◌, ◌*◌, ◌≤◌, List, [], ◌∷◌, ◌++◌, arith, ltb, leb, length, take, drop,
  length-append, length-take, length-drop, collect, Bool-cases, inl, inr, ◌<◌, max, subst, min,
}
use noah_code.Python.Text.{Text}
use Prim.Native.Nat.{◌/◌, max, zero, min}
use native.Mathlib.Nat.{div-mul-le_self, mul-le-mul_right}
use noah_code.Teams.{
  omitted, truncate_result, truncated, TeamReport, per_report, team_prompt, heading, TeamWorkflow,
  distill_input_limit, TeamPhase, TeamRole, assignment, reports_heading, team_report_limit,
}
use noah_code.Teams.Workflows.{TeamWorkflow, TeamPhase, TeamRole}

length-middle :
    (mark text : Text) (n head : ℕ)
    → length mark + head ≤ n
    → n < length text
    → length (take head text ++ (mark ++ drop (length text - (n - length mark - head)) text)) ≤ n
length-middle mark text n head h k = omega (
  arith,
  h,
  k,
  length-append (take head text) (mark ++ drop (length text - (n - length mark - head)) text),
  length-append mark (drop (length text - (n - length mark - head)) text),
  length-take head text,
  length-drop (length text - (n - length mark - head)) text,
)

-- A truncation to a positive number of characters has no more of them.
pub length-truncated : (text : Text) (n : ℕ) → 1 ≤ n → length (truncated text n) ≤ n
unfolding truncate_result
length-truncated text n h = elim (Bool-cases (ltb n 1)) [
  | inl none_left ↦ ground (arith, h, none_left)
  | inr positive ↦ elim (Bool-cases (leb (length text) n)) [
    | inl fits ↦ rw (positive, fits) (ground (arith, fits))
    | inr long ↦ elim (Bool-cases (leb n (length omitted))) [
      | inl small ↦ rw (positive, long, small) (length-take n text)
      | inr large ↦
          rw (positive, long, large)
            (length-middle omitted text n ((n - length omitted) * 2 / 3) (ground (arith, large))
              (ground (arith, long)))
    ]
  ]
]

max-mul : (q n rest : ℕ) → q * n ≤ rest → n ≤ rest → max 1 q * n ≤ rest
max-mul zero n rest h k = omega (arith, k)
max-mul (suc q) n rest h k = subst (λ x. x * n ≤ rest) (omega arith) h

length-reports :
    (share : ℕ) (l : List TeamReport)
    → 1 ≤ share
    → length (collect (λ x. heading x ++ truncated x.text share) l)
      ≤ length (collect heading l) + share * length l
length-reports share [] h = omega arith
length-reports share (r ∷ l) h = omega (
  arith,
  length-reports share l h,
  length-truncated r.text share h,
  length-append (heading r) (truncated r.text share),
  length-append (heading r ++ truncated r.text share)
      (collect (λ x. heading x ++ truncated x.text share) l),
  length-append (heading r) (collect heading l),
)

length-share :
    (prompt : Text) (r : TeamReport) (l : List TeamReport)
    → length prompt + length (collect heading (r ∷ l)) + length (r ∷ l) ≤ distill_input_limit
    → (1 ≤ per_report prompt (r ∷ l))
      × (length (collect heading (r ∷ l)) + per_report prompt (r ∷ l) * length (r ∷ l)
          ≤ distill_input_limit - length prompt)
unfolding per_report
length-share prompt r l h =
    let n : ℕ = length (r ∷ l) in
    let rest : ℕ = distill_input_limit - length prompt - length (collect heading (r ∷ l)) in
    (
      omega arith,
      omega (
        arith,
        h,
        max-mul (rest / n) n rest (div-mul-le_self rest n) (omega (arith, h)),
        mul-le-mul_right {m = min team_report_limit (max 1 (rest / n))} {n = max 1 (rest / n)} n
            (omega arith),
      ),
    )

-- Where the prompt, the headings and one character of each report fit within the limit, the prompt of a
-- role with all reports of the phases before it does.
pub length-team_prompt :
    (workflow : TeamWorkflow) (phase : TeamPhase) (role : TeamRole) (objective : Text)
    (reports : List TeamReport)
    → length (assignment workflow phase role objective ++ reports_heading)
        + length (collect heading reports)
        + length reports
      ≤ distill_input_limit
    → length (team_prompt workflow phase role objective reports) ≤ distill_input_limit
unfolding team_prompt
length-team_prompt workflow phase role objective [] h =
    omega (arith, h, length-append (assignment workflow phase role objective) reports_heading)
length-team_prompt workflow phase role objective (r ∷ l) h =
    let prompt : Text = assignment workflow phase role objective ++ reports_heading in
    let share : ℕ = per_report prompt (r ∷ l) in
    let fits = length-share prompt r l h in
    omega (
      arith,
      h,
      fits.1,
      length-reports share (r ∷ l) fits.0,
      length-append prompt (collect (λ x. heading x ++ truncated x.text share) (r ∷ l)),
    )
