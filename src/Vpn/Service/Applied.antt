-- ===== src/Vpn/Service/Applied.antt =====
-- services/vpn-service/viswall_vpn_agent/wg_client.py: how `WgClientManager.apply` can end, and what it leaves.
use viswall.Prelude.{
  Bool, true, false, ◌≡◌, refl, sym, subst, Option, none, some, List, [], ◌∷◌, ◌++◌, String,
}
use viswall.Vpn.Config.{WgClientConfig, render_config}
use viswall.Vpn.Service.{
  Action, restart, Manager, Exit, done, unit_error, apply_error, validation_error, os_error,
  timed_out, Answer, succeeded, failed, unanswered, not_started, Copy, copied, broken, Host,
  and_then, answered, systemctl, backed_up, replaced, write_rendered, write_config, restored,
  restart_again, after_failure, apply,
}

-- The exception of a command that ends so.
abbrev pub Raises : Answer → Exit → Type 0
Raises a timed_out = a ≡ unanswered
Raises a os_error = a ≡ not_started
Raises a e = ⊥

-- Where an `OSError` or a timeout leaves an apply.
pub data Interrupted (host : Host) (model : WgClientConfig) (before : String) (m : Manager)
    : Exit → Manager → Type 0 where
  -- at the backup or at the write: the unit and the configuration are as they were
  before_restart :
      {after : Manager}
      → after.config ≡ some before
      → after.ran ≡ m.ran
      → Interrupted host model before m os_error after
  -- at the restart: the new configuration stays, and the former one is in the backup only
  at_restart :
      {e : Exit} {after : Manager} (text : String)
      → Raises (host.answer m.ran restart) e
      → render_config host.texts model ≡ some text
      → after.config ≡ some text
      → after.backup ≡ some before
      → after.ran ≡ m.ran ++ restart ∷ []
      → Interrupted host model before m e after
  -- at the restoration: the copy leaves what it leaves, and the unit is not restarted again
  at_restoration :
      {after : Manager} (left : Option String)
      → host.answer m.ran restart ≡ failed
      → host.restore_copy ≡ broken left
      → after.config ≡ left
      → after.backup ≡ some before
      → after.ran ≡ m.ran ++ restart ∷ []
      → Interrupted host model before m os_error after
  -- at the second restart: the former configuration is back
  at_second_restart :
      {e : Exit} {after : Manager}
      → host.answer m.ran restart ≡ failed
      → Raises (host.answer (m.ran ++ restart ∷ []) restart) e
      → after.config ≡ some before
      → after.backup ≡ some before
      → after.ran ≡ (m.ran ++ restart ∷ []) ++ restart ∷ []
      → Interrupted host model before m e after

-- What an end of `apply` says where a configuration was there before.
abbrev pub Applied : Host → WgClientConfig → (before : String) → Manager → Exit × Manager → Type 0
Applied host model before m (done, after) =
    (text : String) × (render_config host.texts model ≡ some text)
    × (after.config ≡ some text)
    × (after.backup ≡ some before)
    × (after.ran ≡ m.ran ++ restart ∷ [])
    × (host.answer m.ran restart ≡ succeeded)
Applied host model before m (apply_error, after) =
    (host.answer m.ran restart ≡ failed)
    × (after.config ≡ some before)
    × (after.backup ≡ some before)
    × (after.ran ≡ (m.ran ++ restart ∷ []) ++ restart ∷ [])
Applied host model before m (validation_error, after) =
    (render_config host.texts model ≡ none)
    × (after.config ≡ some before)
    × (after.backup ≡ some before)
    × (after.ran ≡ m.ran)
Applied host model before m (unit_error action, after) = ⊥
Applied host model before m (os_error, after) = Interrupted host model before m os_error after
Applied host model before m (timed_out, after) = Interrupted host model before m timed_out after

module _ (host : Host) (model : WgClientConfig) (before : String) (m : Manager) where
  AppliedOf : Exit × Manager → Type 0
  AppliedOf r = Applied host model before m r

  -- The manager after commands, with this in the files.
  abbrev after_all : String → List Action → Manager
  after_all config ran = record { config = some config; backup = some before; ran = ran }

  abbrev once : List Action
  once = m.ran ++ restart ∷ []

  second-Applied :
      (a : Answer)
      → host.answer m.ran restart ≡ failed
      → host.answer once restart ≡ a
      → AppliedOf (
          and_then
            (answered host a (λ n. (done, n)) (after_all before (once ++ restart ∷ [])))
            (λ n. (apply_error, n)))
  unfolding AppliedOf
  second-Applied succeeded f h = (f, refl, refl, refl)
  second-Applied failed f h = (f, refl, refl, refl)
  second-Applied unanswered f h = at_second_restart f h refl refl refl
  second-Applied not_started f h = at_second_restart f h refl refl refl

  failure-Applied :
      (how : Copy) (text : String)
      → host.answer m.ran restart ≡ failed
      → host.restore_copy ≡ how
      → AppliedOf
          (and_then (restored host how (some before) (after_all text once)) (restart_again host))
  failure-Applied copied text f h = second-Applied (host.answer once restart) f refl
  failure-Applied (broken left) text f h =
      unfold AppliedOf in at_restoration left f h refl refl refl

  restart-Applied :
      (a : Answer) (text : String)
      → render_config host.texts model ≡ some text
      → host.answer m.ran restart ≡ a
      → AppliedOf (answered host a (after_failure host) (after_all text once))
  unfolding AppliedOf after_failure
  restart-Applied succeeded text r h = (text, r, refl, refl, refl, h)
  restart-Applied failed text r h = failure-Applied host.restore_copy text h refl
  restart-Applied unanswered text r h = at_restart text h r refl refl refl
  restart-Applied not_started text r h = at_restart text h r refl refl refl

  replaced-Applied :
      (fails : Bool) (text : String)
      → render_config host.texts model ≡ some text
      → AppliedOf (
          and_then
            (replaced host fails text (after_all before m.ran))
            (systemctl host restart (after_failure host)))
  unfolding AppliedOf
  replaced-Applied true text r = before_restart refl refl
  replaced-Applied false text r = restart-Applied (host.answer m.ran restart) text r refl

  written-Applied :
      (rendered : Option String)
      → render_config host.texts model ≡ rendered
      → AppliedOf (
          and_then
            (write_rendered host rendered (after_all before m.ran))
            (systemctl host restart (after_failure host)))
  unfolding AppliedOf
  written-Applied none r = (r, refl, refl, refl)
  written-Applied (some text) r = replaced-Applied host.write_fails text r

  backed_up-Applied :
      (how : Copy)
      → AppliedOf (
          and_then
            (and_then
              (backed_up host how
                (some before)
                (record { config = some before; backup = m.backup; ran = m.ran }))
              (write_rendered host (render_config host.texts model)))
            (systemctl host restart (after_failure host)))
  unfolding AppliedOf
  backed_up-Applied copied = written-Applied (render_config host.texts model) refl
  backed_up-Applied (broken left) = before_restart refl refl

-- Where a configuration was in place: an apply that returns leaves the rendered one in the file, the former one in
-- the backup, and one restart, which succeeded; one that raises `WgApplyError` comes of a restart with another exit
-- code, has put the former one back and has restarted the unit again; one whose model is not valid leaves the file
-- and the unit as they were, and so does an `OSError` of the backup or of the write. A restart that is not answered
-- in time or not started leaves the new configuration in the file, with the former one in the backup only and no
-- second restart; a restoration that raises leaves what the copy left in the file, and no second restart; and a
-- second restart that is not answered in time or not started leaves the former configuration.
pub apply-Applied :
    (host : Host) (model : WgClientConfig) (before : String) (m : Manager)
    → m.config ≡ some before
    → Applied host model before m (apply host model m)
unfolding apply write_config
apply-Applied host model before m c =
    let first = backed_up-Applied host model before m host.backup_copy in
    subst
      (λ o. Applied host model before m (
        and_then
          (and_then
            (backed_up host host.backup_copy o
              (record { config = o; backup = m.backup; ran = m.ran }))
            (write_rendered host (render_config host.texts model)))
          (systemctl host restart (after_failure host))))
      (sym c) (unfold AppliedOf in first)
