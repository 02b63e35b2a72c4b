-- ===== src/Permissions/Broker/Asking.antt =====
-- `ApprovalBroker.require`. The guard's veto and the handler's reply are arguments, and so is whether a
-- timeout or `cancel_all` cuts the request off before the reply.
-- The section under `_ui_lock` is one step, so that queued requests are resolved in sequence.
use noah_code.Permissions.Types.{Decision, Engine, is_allow, allow, ask, deny}
use noah_code.Permissions.Broker.{remembered_rule, []}
use noah_code.Prelude.{Bool, Option, false, if◌then◌else◌, ◌≡◌, some, true, [], ◌⊎◌, ◌≢◌, arith}
use noah_code.Permissions.Engine.{decide, add_session_rule, normalize, hard_deny, plan_deny}
use mathlib.Core.Option.{none}
use noah_code.Python.Fnmatch.{fnmatch}
use noah_code.Permissions.Broker.Remembering.{decide-remembered}

-- `ApprovalChoice`
pub data Choice : Type 0 where
  once session reject : Choice

-- The handler answers or raises an error.
pub data Reply : Type 0 where
  answered : Choice → Reply
  handler_failed : Reply

-- What becomes of the future that a request waits for.
pub data Result : Type 0 where
  chosen : Choice → Result
  failed : Result

abbrev grants : Engine → Decision → Bool → Choice → Engine
grants e d is_done session = if is_done then e else add_session_rule e (remembered_rule d)
grants e d is_done _ = e

abbrev replied : Engine → Decision → Bool → Reply → Engine × Result
replied e d is_done handler_failed = (e, failed)
replied e d is_done (answered c) = (grants e d is_done c, chosen c)

-- `_resolve`: the engine is asked again, and the handler only if the answer is not to allow.
-- `is_done` says that the future was done by then.
unfoldable pub resolve : Engine → Decision → Bool → Reply → Engine × Result
resolve e d is_done reply =
    if is_allow (decide e d.category d.target []).action
    then (e, chosen once)
    else replied e d is_done reply

-- `_ask`: a request is rejected without a handler, and where it is cut off.
unfoldable pub ask_user : Engine → Decision → Option Reply → Bool → Engine × Result
unfolding resolve
ask_user e d none cut_off = (e, chosen reject)
ask_user e d (some reply) cut_off =
    if cut_off then ((resolve e d true reply).0, chosen reject) else resolve e d false reply

abbrev lets_pass : Result → Bool
lets_pass failed = false
lets_pass (chosen reject) = false
lets_pass (chosen _) = true

-- `require`: `true` where it returns, `false` where it raises an error.
unfoldable pub require : Bool → Engine → Decision → Option Reply → Bool → Engine × Bool
unfolding ask_user
require vetoed e d handler cut_off = if vetoed then (e, false) else (elim d.action [
  | allow ↦ (e, true)
  | deny ↦ (e, false)
  | ask ↦ let (e', result) = ask_user e d handler cut_off in (e', lets_pass result)
])

-- A request passes only without a veto, and then by an allow, by a fresh decision to allow, or by
-- the user's word in time: never by a decision to deny, nor where nobody can be asked.
pub require-passes :
    (vetoed cut_off : Bool) (e : Engine) (d : Decision) (handler : Option Reply)
    → (require vetoed e d handler cut_off).1 ≡ true
    → (vetoed ≡ false)
      × ((d.action ≡ allow)
          ⊎ ((d.action ≡ ask)
              × (cut_off ≡ false)
              × ((reply : Reply) × (handler ≡ some reply)
                  × (((decide e d.category d.target []).action ≡ allow)
                      ⊎ (reply ≡ answered once)
                      ⊎ (reply ≡ answered session)))))
unfolding require ask_user resolve
require-passes vetoed cut_off e d handler h = ground arith

-- A request that waits behind its twin is not put to the user again: where the twin's approval was
-- given for the session, it is approved with whatever reply the handler would give, if its target
-- matches the remembered pattern and is not denied by content or by plan mode.
pub resolve-twin :
    (e : Engine) (d : Decision) (reply : Reply) (is_done : Bool)
    → (decide e d.category d.target []).action ≢ allow
    → fnmatch (normalize d.target) d.remember_pattern ≡ true
    → hard_deny e.auto_approve d.category (normalize d.target) ≡ none
    → plan_deny e.mode d.category (normalize d.target) ≡ none
    → (resolve (resolve e d false (answered session)).0 d is_done reply).1 ≡ chosen once
unfolding resolve
resolve-twin e d reply is_done n m hard plan =
    ground (arith, decide-remembered e d d.target [] m hard plan)
