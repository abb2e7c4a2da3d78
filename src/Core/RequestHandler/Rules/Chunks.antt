-- ===== src/Core/RequestHandler/Rules/Chunks.antt =====
-- core/request_handler.cpp: the replies under the steps on a chunk.
use remote_backup_m1_server.Prelude.{ℕ, Bool, true, false, List, Option, none, if◌then◌else◌}
use remote_backup_m1_server.Platform.{Platform}
use remote_backup_m1_server.Communication.Types.ErrType.{ErrType}
use remote_backup_m1_server.Core.Exec.{pure, ◌>>◌}
use remote_backup_m1_server.Core.Exec.Triple.{Triple, Triple-pure}
use remote_backup_m1_server.Core.RequestHandler.Rules.{FileRules}
use remote_backup_m1_server.Core.RequestHandler.State.{reply_error, reply_ok}
use remote_backup_m1_server.Core.RequestHandler.Rules.Steps.{
  Going, Pending, closed_then, Open, Closed, Keeps, gets-Keeps, reply_ok-Closes,
}
use remote_backup_m1_server.Core.RequestHandler.Files.{
  is_ready, is_ready, write_stream, flush_stream, close_stream,
}
use remote_backup_m1_server.Core.RequestHandler.Rules.FileSteps.{on_disk-Keeps}

module _ (os : Platform) (files : FileRules os) where
  -- `if (matches) … else` after an early return.
  pub checked :
      (matches : Bool)
      → Triple
          (Going os files.rules.views matches)
          (if matches then reply_ok os else pure tt)
          (λ _. Closed os files.rules.views)
          (Open os files.rules.views)
  checked true = reply_ok-Closes os files.rules.views
  checked false = Triple-pure _ _ _ tt (λ c closed. closed)

  pub write_stream-Keeps :
      (s : os.Stream) (bytes : List ℕ) → Keeps os files.rules.views (write_stream os s bytes)
  unfolding write_stream
  write_stream-Keeps s bytes = on_disk-Keeps os files _

  pub flush_stream-Keeps : (s : os.Stream) → Keeps os files.rules.views (flush_stream os s)
  unfolding flush_stream
  flush_stream-Keeps s = on_disk-Keeps os files _

  pub close_stream-Keeps : (s : os.Stream) → Keeps os files.rules.views (close_stream os s)
  unfolding close_stream
  close_stream-Keeps s = on_disk-Keeps os files _

  pub is_ready-Keeps : (s : os.Stream) → Keeps os files.rules.views (is_ready os s)
  unfolding is_ready
  is_ready-Keeps s = gets-Keeps os files.rules.views _

  pub failed_chunk :
      (err_type : ErrType)
      → Triple
          (Open os files.rules.views)
          (do reply_error os err_type; pure {A = Option (os.Stream × Bool)} none)
          (Pending os files.rules.views)
          (Open os files.rules.views)
  failed_chunk err_type =
      closed_then os files.rules.views (Pending os files.rules.views) err_type none (λ c h. h)
