-- ===== src/Pushes/Steps.antt =====
-- The pushes with their guests, the host and the worker, as steps in any order. The worker takes up a
-- copy of a job, which may be older than the job that is stored.
use friendzone.Prelude.{String, Option, none, some, List, [], ◌∷◌}
use mathlib.Core.Option
use friendzone.Prelude.Text.{Text}
use friendzone.Prelude.Map.{Map}
use friendzone.Prelude.Result.{Result, ok, err}
use friendzone.Github.{Uuid, IpAddr}
use friendzone.Review
use friendzone.State
use friendzone.State.{AppState, Moment}
use friendzone.Settings.{Settings}
use friendzone.Jobs.Credential.{Crypto}
use friendzone.Storage.{Directory}
use friendzone.Pushes.{Review, Job, Saved, Pushes, Env, Submission, Artifact}
use friendzone.Pushes.Store.{Reading, stored, new, load}
use friendzone.Pushes.Submit.{submit}
use friendzone.Pushes.Guest.{cancel, acknowledge, delete, decide}
use friendzone.Pushes.Worker.{take_up, after_derive, after_push}

pub data Op : Type 0 where
  submit_op : State.Env → Settings → AppState → String → IpAddr → Submission → Artifact → Op
  cancel_op acknowledge_op delete_op : String → Uuid → Uuid → Text → Op
  decide_op : Uuid → Text → Review.Decision → Op
  take_op : Settings → Moment → AppState → Job → Op
  derived_op : AppState → Job → Result Text Review → Op
  pushed_op : Job → Result Text Text → Op
  restart_op : Map Uuid Artifact → Op

-- What `load` reads: the file that is there, with its length.
unfoldable pub reading : Env → Directory Saved → Option Reading
reading env dir = Option.map (λ saved. stored (env.size saved) saved) dir.target

-- The start of the broker: without a file the pushes start empty; where `load` fails, nothing runs, and
-- the pushes stand for what was stored.
unfoldable pub restart : Env → Crypto → Map Uuid Artifact → Pushes → Pushes
unfolding reading load new
restart env x artifacts s = elim s.path [
  | none ↦ new
  | some dir ↦ elim (load env x (reading env dir) dir artifacts) [ ok s' ↦ s' | err _ ↦ s ]
]

unfoldable pub step : Crypto → Env → Op → Pushes → Pushes
unfolding submit cancel acknowledge delete decide take_up after_derive after_push restart
step x env (submit_op state_env settings app container peer input bundle) s =
    (submit env state_env x settings container peer input bundle app s).1
step x env (cancel_op container i id session) s = (cancel env container i id session s).1
step x env (acknowledge_op container i id session) s = (acknowledge env container i id session s).1
step x env (delete_op container i id session) s = (delete env container i id session s).1
step x env (decide_op id fingerprint decision) s = (decide env id fingerprint decision s).1
step x env (take_op settings first app job) s = (take_up env x settings first app job s).1
step x env (derived_op app job r) s = (after_derive env app job r s).1
step x env (pushed_op job r) s = (after_push env job r s).1
step x env (restart_op artifacts) s = restart env x artifacts s

unfoldable pub run : Crypto → List (Env × Op) → Pushes → Pushes
unfolding step
run x [] s = s
run x ((env, op) ∷ ops) s = run x ops (step x env op s)
