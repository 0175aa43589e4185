-- ===== src/Outbox/Dispatcher.antt =====
-- packages/outbox/src/dispatcher.ts: the dispatcher of the outbox. The handler of a command is a
-- parameter, and so are the readings of the clock.
use remote_agent_devbox.Common.{
  ℕ, zero, suc, ◌+◌, ◌*◌, ◌^◌, min, Option, none, some, leb, if◌then◌else◌, message, Exec, pure,
  catch, ◌>>=◌, ◌>>◌,
}
use remote_agent_devbox.Schema.Workspace.{Date}
use remote_agent_devbox.Schema.Outbox.{OutboxCommand}
use remote_agent_devbox.Schema.Database.{Database}
use remote_agent_devbox.Outbox.{claim_next, mark_succeeded, mark_failed}

-- What `this.now()` returns in one round: for the claim, after the handler, and after it has thrown.
pub record Readings : Type 0 where
  pub claimed_at : Date
  pub succeeded_at : Date
  pub retry_from : Date
  pub failed_at : Date

-- The default arguments.
abbrev pub maximum_attempts_default : ℕ
maximum_attempts_default = 5

abbrev pub limit_default : ℕ
limit_default = 25

-- The time of the retry; none for a command that has had its attempts.
unfoldable pub retry_at : ℕ → Date → OutboxCommand → Option Date
retry_at maximum_attempts now command =
    if leb maximum_attempts command.attempts
    then none
    else some (now + min 60000 (2 ^ command.attempts * 1000))

module _ (handle : OutboxCommand → Exec Database (Unit {0})) (maximum_attempts : ℕ) where
  -- The body of the loop for a command that was claimed.
  unfoldable pub dispatch_command : Readings → OutboxCommand → Exec Database (Unit {0})
  unfolding retry_at
  dispatch_command now command =
      catch (handle command >> mark_succeeded command.id now.succeeded_at) (λ error.
        mark_failed command.id (message error) (retry_at maximum_attempts now.retry_from command)
          now.failed_at)

  -- A round after its claim; `next` is the rest of the loop.
  unfoldable pub dispatch_claimed :
      Readings → Exec Database ℕ → ℕ → Option OutboxCommand → Exec Database ℕ
  unfolding dispatch_command
  dispatch_claimed now next processed none = pure processed
  dispatch_claimed now next processed (some command) = dispatch_command now command >> next

  -- The loop: `rounds` is `limit` less `processed`.
  unfoldable pub dispatch : (ℕ → Readings) → ℕ → ℕ → Exec Database ℕ
  unfolding dispatch_claimed
  dispatch now zero processed = pure processed
  dispatch now (suc rounds) processed =
      claim_next (now processed).claimed_at
      >>= dispatch_claimed (now processed) (dispatch now rounds (processed + 1)) processed

  unfoldable pub dispatch_available : (ℕ → Readings) → ℕ → Exec Database ℕ
  unfolding dispatch
  dispatch_available now limit = dispatch now limit 0
