-- ===== src/Vpn/Service.antt =====
-- services/vpn-service/viswall_vpn_agent/wg_client.py: `WgClientManager`, on the configuration file, its backup
-- and the systemctl commands that ran.
pub mod Applied
use viswall.Prelude.{
  Bool, true, false, ◌≡◌, refl, sym, subst, Option, none, some, List, [], ◌∷◌, ◌++◌, String,
}
use viswall.Vpn.Config.{Python, WgClientConfig, render_config}

-- What `systemctl` is asked to do with the unit.
pub data Action : Type 0 where
  enable disable start stop restart : Action

pub record Manager : Type 0 where
  pub config : Option String
  pub backup : Option String
  pub ran : List Action

-- How an operation ends: it returns, or it raises.
pub data Exit : Type 0 where
  done : Exit
  unit_error : Action → Exit
  apply_error : Exit
  validation_error : Exit
  os_error : Exit
  timed_out : Exit

-- How `subprocess.run` ends: with the exit code 0, with another one, after the 60 seconds, or with an `OSError`,
-- as where there is no nsenter.
pub data Answer : Type 0 where
  succeeded : Answer
  failed : Answer
  unanswered : Answer
  not_started : Answer

-- How a copy ends: with its target the same, or with an `OSError` that leaves this in the target.
pub data Copy : Type 0 where
  copied : Copy
  broken : (left : Option String) → Copy

-- Python's library, how a command ends after those that ran before it, how the copies to the backup and back end,
-- the latter with its chmod, and whether the write of the new file raises.
pub record Host : Type 0 where
  pub texts : Python
  pub answer : List Action → Action → Answer
  pub backup_copy : Copy
  pub restore_copy : Copy
  pub write_fails : Bool

abbrev pub ran_also : Action → Manager → Manager
ran_also action m = record { config = m.config; backup = m.backup; ran = m.ran ++ action ∷ [] }

-- An exception leaves; else it goes on from what is left.
abbrev pub and_then : Exit × Manager → (Manager → Exit × Manager) → Exit × Manager
and_then (done, m) next = next m
and_then (unit_error action, m) next = (unit_error action, m)
and_then (apply_error, m) next = (apply_error, m)
and_then (validation_error, m) next = (validation_error, m)
and_then (os_error, m) next = (os_error, m)
and_then (timed_out, m) next = (timed_out, m)

module _ (host : Host) where
  -- What a call of `_systemctl` comes to, for what is done on an exit code that is not 0.
  abbrev pub answered : Answer → (on_failure : Manager → Exit × Manager) → Manager → Exit × Manager
  answered succeeded on_failure m = (done, m)
  answered failed on_failure m = on_failure m
  answered unanswered on_failure m = (timed_out, m)
  answered not_started on_failure m = (os_error, m)

  abbrev pub systemctl : Action → (on_failure : Manager → Exit × Manager) → Manager → Exit × Manager
  systemctl action on_failure m = answered (host.answer m.ran action) on_failure (ran_also action m)

  -- `start`: the exit code of `enable` is not looked at.
  unfoldable pub start_unit : Manager → Exit × Manager
  start_unit m =
      and_then (systemctl enable (λ n. (done, n)) m) (systemctl start (λ n. (unit_error start, n)))

  -- `stop`
  unfoldable pub stop_unit : Manager → Exit × Manager
  stop_unit m =
      and_then (systemctl disable (λ n. (done, n)) m) (systemctl stop (λ n. (unit_error stop, n)))

  -- The config is copied over the backup, where it exists.
  abbrev pub backed_up : Copy → Option String → Manager → Exit × Manager
  backed_up how none m = (done, m)
  backed_up copied (some config) m =
      (done, record { config = m.config; backup = some config; ran = m.ran })
  backed_up (broken left) (some config) m =
      (os_error, record { config = m.config; backup = left; ran = m.ran })

  abbrev pub replaced : Bool → String → Manager → Exit × Manager
  replaced true text m = (os_error, m)
  replaced false text m = (done, record { config = some text; backup = m.backup; ran = m.ran })

  abbrev pub write_rendered : Option String → Manager → Exit × Manager
  write_rendered none m = (validation_error, m)
  write_rendered (some text) m = replaced host.write_fails text m

  -- `write_config`
  unfoldable pub write_config : WgClientConfig → Manager → Exit × Manager
  write_config model m =
      and_then (backed_up host.backup_copy m.config m)
        (write_rendered (render_config host.texts model))

  abbrev pub restored : Copy → Option String → Manager → Exit × Manager
  restored how none m = (done, m)
  restored copied (some backup) m =
      (done, record { config = some backup; backup = m.backup; ran = m.ran })
  restored (broken left) (some backup) m =
      (os_error, record { config = left; backup = m.backup; ran = m.ran })

  -- `restore_backup`
  abbrev pub restore_backup : Manager → Exit × Manager
  restore_backup m = restored host.restore_copy m.backup m

  -- After a restart with another exit code than 0; that of the second restart is not looked at.
  abbrev pub restart_again : Manager → Exit × Manager
  restart_again m = and_then (systemctl restart (λ n. (done, n)) m) (λ n. (apply_error, n))

  unfoldable pub after_failure : Manager → Exit × Manager
  after_failure m = and_then (restore_backup m) restart_again

  -- `apply`
  unfoldable pub apply : WgClientConfig → Manager → Exit × Manager
  apply model m = and_then (write_config model m) (systemctl restart after_failure)
