-- ===== src/Registry.antt =====
-- internal/grpc/registry.go: the connections of the workers.
use satfarm.Prelude.{ℕ, ◌+◌, List, [], ◌∷◌, Option, map, ◌==◌, if◌then◌else◌}
use satfarm.World.{WorkerConn, WorkerRegistry}
use satfarm.Ledger.{conn_of}

abbrev pub new_registry : WorkerRegistry
new_registry = record { conns = []; next_id = 0 }

-- `NewID`
unfoldable pub new_id : WorkerRegistry → ℕ × WorkerRegistry
new_id r = (r.next_id + 1, record r { next_id = r.next_id + 1 })

-- `r.data[id] = conn`
abbrev pub put_conn : ℕ → WorkerConn → List (ℕ × WorkerConn) → List (ℕ × WorkerConn)
put_conn k c [] = (k, c) ∷ []
put_conn k c (e ∷ cs) = if e.0 == k then (k, c) ∷ cs else e ∷ put_conn k c cs

-- `delete(r.data, id)`
abbrev pub drop_conn : ℕ → List (ℕ × WorkerConn) → List (ℕ × WorkerConn)
drop_conn k [] = []
drop_conn k (e ∷ cs) = if e.0 == k then drop_conn k cs else e ∷ drop_conn k cs

unfoldable pub set_conn : ℕ → WorkerConn → WorkerRegistry → WorkerRegistry
set_conn k c r = record r { conns = put_conn k c r.conns }

unfoldable pub get_conn : ℕ → WorkerRegistry → Option WorkerConn
get_conn k r = conn_of k r.conns

unfoldable pub delete_conn : ℕ → WorkerRegistry → WorkerRegistry
delete_conn k r = record r { conns = drop_conn k r.conns }

unfoldable pub ids : WorkerRegistry → List ℕ
ids r = map (λ e. e.0) r.conns
