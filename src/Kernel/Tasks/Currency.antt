-- ===== src/Kernel/Tasks/Currency.antt =====
-- How long a task is current.
use apex_vnext.Common.{ℕ, ◌+◌, ◌<◌, ◌≡◌, String, ok, arith, eq_iff, ◌↔◌}
use apex_vnext.Kernel.Tasks.{TaskRequest, TaskEnvelope, create_task_envelope, assert_task_current}

-- A task that was created passes the check exactly until its time to live is over, and only for the
-- journal head and the owner epoch that it was created for.
created_task-current_iff :
    (request : TaskRequest) (ttl created : ℕ) (task_id : String) (task : TaskEnvelope)
    → create_task_envelope request ttl created task_id ≡ ok task
    → (head : String) (owner_epoch now : ℕ)
    → (assert_task_current task head owner_epoch now ≡ ok tt) ↔ (
        (now < created + ttl)
        × (head ≡ request.expected_head)
        × (owner_epoch ≡ request.owner_epoch))
unfolding create_task_envelope assert_task_current
created_task-current_iff request ttl created task_id task h head owner_epoch now = (
  λ e. ground (arith, h, eq_iff request.expected_head head),
  λ e. ground (arith, h, eq_iff request.expected_head head),
)
