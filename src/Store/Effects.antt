-- ===== src/Store/Effects.antt =====
-- The table `effects` (runtime_state.py).
use noah_code.Prelude.{
  Bool, true, false, Option, none, some, List, [], ◌∷◌, ◌++◌, if◌then◌else◌, take,
}
use noah_code.Python.Text.{Text, codes}
use noah_code.Store.Events.{EventLog, text, event}
use noah_code.Store.Table.{update_rows, find_row}

pub data EffectState : Type 0 where
  started committed failed : EffectState

pub record Effect : Type 0 where
  pub effect_key : Text
  pub kind : Text
  pub target : Text
  pub request : Text
  pub state : EffectState
  pub result : Option Text
  pub error : Text

pub record Effects : Type 0 where
  pub rows : List Effect
  pub log : EventLog

abbrev pub is_committed : EffectState → Bool
is_committed committed = true
is_committed _ = false

abbrev pub key_of : Effect → Text
key_of r = r.effect_key

-- WHERE effect_key=?, a primary key
abbrev pub update_effect : Text → (Effect → Effect) → List Effect → List Effect
update_effect key f rows = update_rows key_of key (λ r. true) f rows

-- `json.loads(result_json) if result_json else None`
abbrev pub loaded : Option Text → Option Text
loaded none = none
loaded (some []) = none
loaded (some (c ∷ t)) = some (c ∷ t)

abbrev pub restarted : Effect → Effect
restarted r = record r { state = started; error = [] }

abbrev pub completed : Text → Effect → Effect
completed result r = record r { state = committed; result = some result; error = [] }

abbrev pub gone_wrong : Text → Effect → Effect
gone_wrong error r = record r { state = failed; error = take 2000 error }

abbrev started_event : EventLog → Text → Text → Text → EventLog
started_event log key kind target = event log (codes "effect.started") (
    (codes "effect_key", text key) ∷ (codes "kind", text kind) ∷ (codes "target", text target) ∷ [])

abbrev pub new_effect : Text → Text → Text → Text → Effect
new_effect key kind target request = record {
  effect_key = key;
  kind = kind;
  target = target;
  request = request;
  state = started;
  result = none;
  error = [];
}

-- `key, done, result, recovering`
abbrev pub Begun : Type 0
Begun = Effects × Text × Bool × Option Text × Bool

abbrev pub begin_found : Effects → Text → Text → Text → Text → Option Effect → Begun
begin_found s key kind target request none = (
  record {
    rows = s.rows ++ new_effect key kind target request ∷ [];
    log = started_event s.log key kind target;
  },
  key,
  false,
  none,
  false,
)
begin_found s key kind target request (some r) =
    if is_committed r.state then (s, key, true, loaded r.result, false) else (
      record {
        rows = update_effect key restarted s.rows;
        log = started_event s.log key kind target;
      },
      key,
      false,
      none,
      true,
    )

-- The digest of the kind, the target and the request, which are joined by NUL.
module _ (sha256 : Text → Text) where
  abbrev pub effect_key_of : Text → Text → Text → Text
  effect_key_of kind target request = sha256 (kind ++ 0 ∷ target ++ 0 ∷ request)

  -- `request` is its JSON text.
  unfoldable pub begin_effect : Effects → Text → Text → Text → Begun
  begin_effect s kind target request =
      let key : Text = effect_key_of kind target request in
      begin_found s key kind target request (find_row key_of key s.rows)

-- `result` is its JSON text.
unfoldable pub complete_effect : Effects → Text → Text → Effects
complete_effect s key result = record {
  rows = update_effect key (completed result) s.rows;
  log = event s.log (codes "effect.committed") ((codes "effect_key", text key) ∷ []);
}

unfoldable pub fail_effect : Effects → Text → Text → Effects
fail_effect s key error = record s { rows = update_effect key (gone_wrong error) s.rows }
