-- ===== src/Idempotency/Tests.antt =====
-- Runs of the replay cache, and its theorems at concrete inputs.
use infrgate.Prelude.{ℕ, ◌≡◌, refl, some, arith}
use infrgate.Prelude.Text.{Text, codes}
use infrgate.Prelude.Eq.{List-eq}
use infrgate.Prelude.Dict.{lookup, insert}
use infrgate.Idempotency.{IdempotencyGuard, new, get, set}
use infrgate.Idempotency.Replay.{view, get-view}

abbrev guard : IdempotencyGuard ℕ
guard = new (some 60)

abbrev request : Text
request = codes "abc"

abbrev stored : IdempotencyGuard ℕ
stored = set guard request 7 200 1000 1001

hit_run :
    (get stored request 60999).0 ≡ some (record { status_code = 200; body = 7; cached_at = 1001 })
unfolding get set new lookup insert
hit_run = refl

get-view_example :
    ((get stored request 60999).0 ≡ view stored request 60999)
    × (view (get stored request 60999).1 request 61000 ≡ view stored request 61000)
get-view_example = get-view stored request request 60999 61000 (omega arith)
