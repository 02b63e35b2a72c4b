-- ===== src/Permissions/AskingExamples.antt =====
-- The theorems on asking the user, applied to concrete requests.
use noah_code.Permissions.Tests.{program, engine}
use noah_code.Permissions.Types.{Decision, bash, build, allow, ask}
use noah_code.Permissions.Broker.Asking.{
  require, resolve, ask_user, answered, session, once, reject, chosen, Reply, resolve-twin,
  require-passes,
}
use noah_code.Prelude.{false, [], ◌≡◌, some, true, none, ◌≢◌, refl, ◌⊎◌}
use noah_code.Permissions.Engine.{decide, hard_deny, plan_deny, normalize}
use noah_code.Python.Fnmatch.{fnmatch}
use noah_code.Python.Text.{codes}

abbrev request : Decision
request = decide (engine false) bash (codes "cargo test") []

request_passes : (require false (engine false) request (some (answered once)) false).1 ≡ true
unfolding program require ask_user resolve
request_passes = refl

late_session :
    require false (engine false) request (some (answered session)) true ≡ (engine false, false)
unfolding program require ask_user resolve
late_session = refl

require-passes_example :
    (false ≡ false)
    × ((request.action ≡ allow)
        ⊎ ((request.action ≡ ask)
            × (false ≡ false)
            × ((reply : Reply) × (some (answered once) ≡ some reply)
                × (((decide (engine false) request.category request.target []).action ≡ allow)
                    ⊎ (reply ≡ answered once)
                    ⊎ (reply ≡ answered session)))))
require-passes_example =
    require-passes false false (engine false) request (some (answered once)) request_passes

request_asks : (decide (engine false) request.category request.target []).action ≢ allow
unfolding program
request_asks h = cc

request_matches : fnmatch (normalize request.target) request.remember_pattern ≡ true
unfolding program
request_matches = refl

request_not_hard : hard_deny false request.category (normalize request.target) ≡ none
unfolding program
request_not_hard = refl

request_not_planned : plan_deny build request.category (normalize request.target) ≡ none
unfolding program
request_not_planned = refl

approves_twin :
    (resolve
      (resolve (engine false) request false (answered session)).0
      request
      false
      (answered reject)).1
    ≡ chosen once
approves_twin =
    resolve-twin (engine false) request (answered reject) false request_asks request_matches
      request_not_hard request_not_planned
