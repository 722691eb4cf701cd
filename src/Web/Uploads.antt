-- ===== src/Web/Uploads.antt =====
-- Uploaded files on the disk: `Create`, `Copy` and `Remove` of the handlers of
-- internal/web/handlers_jobs.go and internal/web/handlers_worker.go. Their names hold the time in
-- nanoseconds, and come from outside.
use satfarm.Prelude.{◌==◌, Option, none, if◌then◌else◌}
use satfarm.Text.{Text}
use satfarm.World.{FilePath}
use satfarm.World.Exec.{Exec, pure, put_world, ◌>>◌, call, attempt}

unfoldable pub set_file : FilePath → Option Text → (FilePath → Option Text) → FilePath → Option Text
set_file path content files other = if other == path then content else files other

-- One call that leaves a file with a content; without one, where it removes the file.
unfoldable pub write_file : FilePath → Option Text → Exec (Unit {0})
unfolding set_file
write_file path content = do
  call
  put_world (λ w. record w { files = set_file path content w.files })

-- `_ = os.Remove(…)`
unfoldable pub remove_file : FilePath → Exec (Unit {0})
unfolding write_file
remove_file path = do attempt (write_file path none); pure tt
