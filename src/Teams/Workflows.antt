-- ===== src/Teams/Workflows.antt =====
-- The workflows of teams (teams.py).
use noah_code.Prelude.{
  String, Bool, true, false, Option, List, [], ◌∷◌, collect, if◌then◌else◌, none, some,
}
use noah_code.Python.Text.{Text, text_eq, codes, strip, lower}

pub record TeamRole : Type 0 where
  pub agent : Text
  pub instruction : Text

pub record TeamPhase : Type 0 where
  pub name : Text
  pub title : Text
  pub roles : List TeamRole
  pub readonly : Bool

pub record TeamWorkflow : Type 0 where
  pub name : Text
  pub title : Text
  pub description : Text
  pub phases : List TeamPhase

abbrev text_of : List String → Text
text_of l = collect codes l

abbrev role : Text → Text → TeamRole
role agent instruction = record { agent = agent; instruction = instruction }

abbrev pub build_workflow : TeamWorkflow
build_workflow = record {
  name = codes "build";
  title = codes "Build together";
  description =
      text_of (
        "Explore and plan in parallel, implement, then independently " ∷ "review the changes."
        ∷ []);
  phases =
      record {
        name = codes "analyze";
        title = codes "Explore and plan";
        roles =
            role (codes "explore") (
              text_of (
                "Map the relevant code, existing behavior, and integration points. "
                ∷ "Cite file paths and evidence." ∷ []))
            ∷ role (codes "planner") (
                text_of (
                  "Identify requirements, risks, and a minimal implementation and "
                  ∷ "validation plan. Inspect existing tests and conventions." ∷ []))
            ∷ [];
        readonly = true;
      }
      ∷ record {
        name = codes "implement";
        title = codes "Implement";
        roles =
            role (codes "general") (
              text_of (
                "Implement the objective using the analysis reports. Run "
                ∷ "appropriate validation and report changed files, results, and "
                ∷ "remaining limitations." ∷ []))
            ∷ [];
        readonly = false;
      }
      ∷ record {
        name = codes "review";
        title = codes "Independent review";
        roles =
            role (codes "reviewer") (
              text_of (
                "Independently inspect the resulting changes against the "
                ∷ "objective. Check correctness, regression risks, and evidence for "
                ∷ "validation. Report actionable findings and unresolved limitations "
                ∷ "without modifying files." ∷ []))
            ∷ [];
        readonly = true;
      }
      ∷ [];
}

abbrev pub review_workflow : TeamWorkflow
review_workflow = record {
  name = codes "review";
  title = codes "Review together";
  description = text_of (
      "Inspect correctness and surrounding context in parallel, then "
      ∷ "consolidate findings without editing files." ∷ []);
  phases =
      record {
        name = codes "inspect";
        title = codes "Inspect code and context";
        roles =
            role (codes "reviewer") (
              text_of (
                "Inspect the requested changes or code for concrete correctness, "
                ∷ "security, and regression issues. Cite locations, triggers, and " ∷ "severity."
                ∷ []))
            ∷ role (codes "explore") (
                text_of (
                  "Trace callers, contracts, and existing tests relevant to the "
                  ∷ "review objective. Identify missing coverage and compatibility "
                  ∷ "risks with evidence." ∷ []))
            ∷ [];
        readonly = true;
      }
      ∷ record {
        name = codes "synthesize";
        title = codes "Consolidate findings";
        roles =
            role (codes "reviewer") (
              text_of (
                "Verify and deduplicate the reports into prioritized, actionable "
                ∷ "review findings. Distinguish confirmed issues from questions; "
                ∷ "state residual testing gaps. Do not edit files." ∷ []))
            ∷ [];
        readonly = true;
      }
      ∷ [];
}

abbrev pub investigate_workflow : TeamWorkflow
investigate_workflow = record {
  name = codes "investigate";
  title = codes "Investigate together";
  description = text_of (
      "Trace evidence and competing explanations in parallel, then "
      ∷ "produce a focused diagnosis without editing files." ∷ []);
  phases =
      record {
        name = codes "analyze";
        title = codes "Investigate and trace";
        roles =
            role (codes "investigator") (
              text_of (
                "Investigate the reported behavior. Rank plausible causes and seek "
                ∷ "evidence that confirms or falsifies them. Separate observations "
                ∷ "from assumptions." ∷ []))
            ∷ role (codes "explore") (
                text_of (
                  "Independently trace the relevant execution path, configuration, "
                  ∷ "and tests. Return concrete evidence and boundary cases that "
                  ∷ "explain the behavior." ∷ []))
            ∷ [];
        readonly = true;
      }
      ∷ record {
        name = codes "synthesize";
        title = codes "Consolidate diagnosis";
        roles =
            role (codes "investigator") (
              text_of (
                "Reconcile the reports into an evidence-based diagnosis, remaining "
                ∷ "uncertainties, and the smallest proposed fix with verification "
                ∷ "steps. Do not implement changes." ∷ []))
            ∷ [];
        readonly = true;
      }
      ∷ [];
}

-- `TEAM_WORKFLOWS`, in the order of its keys
unfoldable pub team_workflows : List TeamWorkflow
team_workflows = build_workflow ∷ review_workflow ∷ investigate_workflow ∷ []

abbrev pub named : Text → List TeamWorkflow → Option TeamWorkflow
unfolding text_eq
named name [] = none
named name (w ∷ l) = if text_eq w.name name then some w else named name l

-- `none` is an error.
unfoldable pub get_team_workflow : Text → Option TeamWorkflow
unfolding team_workflows strip lower named
get_team_workflow name = named (lower (strip name)) team_workflows
