-- ===== src/Dispatch/Tests.antt =====
-- A search for a lease at a concrete input.
use freebuff2api.Base.{
  ℕ, ◌≤◌, ◌≡◌, ◌<◌, refl, Bool, true, false, some, List, [], ◌∷◌, ◌==◌, if◌then◌else◌, codes, count,
  arith, text_lt,
}
use freebuff2api.Errors.{fail, reason, cooling_down}
use freebuff2api.Pool.{run_addresses, Pool}
use freebuff2api.Pool.Tests.{pool}
use freebuff2api.FreeSession.{disabled_session, has_ready_session, ready_session}
use freebuff2api.Lease.{acquire}
use freebuff2api.Order.{
  weighted_pool_order, group_pools_by_priority, collect, add_to_group, sort_groups, insert_group,
  sort_each, sort_pools, insert_pool, expand, walk, keep_new, repeat_of, before,
}
use freebuff2api.Manager.{Manager, put}
use freebuff2api.Dispatch.{
  TryEnv, Try, skipped, refused, failed, acquire_any, group_loop, pass_loop,
}
use freebuff2api.Dispatch.Tried.{acquire_any-Attempted}
use freebuff2api.Dispatch.Log.{Attempted}

-- Two pools: one is cooling down, and the other's session is refreshed by another request just
-- between the two passes.
view : ℕ → Pool
view a = if a == 0 then record pool { cooldown_until = 50 } else pool

abbrev manager : Manager
manager = record {
  interval = 100;
  pools = view;
  next_pool = 2;
  active = (codes "x", 0) ∷ (codes "y", 1) ∷ [];
  retired = [];
  prewarm_agents = [];
  running = false;
  next = 0;
}

abbrev refreshed : Pool → Pool
refreshed p = record p { session = some disabled_session }

abbrev meets : ℕ → Bool → Pool → Pool
meets a second p = if a == 1 then (if second then refreshed p else p) else p

envs : ℕ → Bool → TryEnv
envs a second = record {
  meets = meets a second;
  ready_at = 10;
  acquiring = record {
    checked = 10;
    rotated = 10;
    start = fail (reason (codes "down"));
    ensured = 10;
    wakes = [];
    meets_session = λ p. p;
    meets_commit = λ p. p;
    refreshed = fail (reason (codes "down"));
  };
}

abbrev log : List Try
log =
    skipped 0 false false
    ∷ skipped 1 false false
    ∷ refused 0 (cooling_down 50)
    ∷ skipped 1 true true
    ∷ []

abbrev after_first : ℕ → Pool
after_first = put (put view 0 (view 0)) 1 (view 1)

abbrev after_second : ℕ → Pool
after_second = put (put after_first 0 (view 0)) 1 (refreshed (view 1))

abbrev final : Manager
final = record manager { pools = after_second; next = 1 }

gave_up : acquire_any manager (codes "agent") envs ≡ failed final log
unfolding acquire_any group_loop pass_loop weighted_pool_order group_pools_by_priority collect
    add_to_group sort_groups insert_group sort_each sort_pools insert_pool run_addresses acquire
    has_ready_session ready_session expand walk keep_new count repeat_of before view envs text_lt
gave_up = refl

distinct : (b : ℕ) → count b (run_addresses manager.active) ≤ 1
unfolding count run_addresses
distinct b = ground arith

member : 0 < count 1 (run_addresses manager.active)
unfolding count run_addresses
member = omega arith

-- The second pool was tried in neither pass.
acquire_any-Attempted_example : Attempted 1 log
acquire_any-Attempted_example =
    acquire_any-Attempted manager final (codes "agent") envs log 1 distinct gave_up member
