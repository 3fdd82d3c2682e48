-- ===== src/Pool/Tests.antt =====
-- A pool and its runs at concrete inputs.
use freebuff2api.Base.{
  ◌+◌, ◌<◌, ◌≡◌, ◌≢◌, ◌⊎◌, refl, true, false, none, some, [], ◌∷◌, pos, Text, codes, text_eq, arith,
  lookup, insert, delete, count, remove_one,
}
use freebuff2api.Errors.{ok}
use freebuff2api.Pool.{
  Pool, fresh_run, is_current, rotate_commit, acquire_commit, release_lease, finish_begin,
}
use freebuff2api.Pool.System.{System, rotates, leases, releases, sends, Reach, here, step_on}
use freebuff2api.Pool.System.Invariant.{Inv}
use freebuff2api.Pool.System.Preserved.{Step-Inv}
use freebuff2api.Pool.System.Reachable.{IsNew, Reach-Inv, send-idle, run-kept}
use freebuff2api.Pool.System.Active.{
  ReachWhile, starts, goes, IsActive, finished-not_leased, retired-leased,
}

abbrev pub pool : Pool
pool = record {
  account_id = codes "id";
  label = codes "label";
  token = codes "token";
  priority = pos 0;
  weight = pos 1;
  retired = false;
  rotation_interval = 100;
  runs = [];
  draining = [];
  cell = λ _. fresh_run [] [] 0;
  next = 0;
  session = none;
  refreshing = false;
  rebuild_scheduled = false;
  last_error = none;
  cooldown_until = 0;
}

abbrev pub system : System
system = record {
  pool = pool;
  held = [];
  sending = [];
  finished = [];
  dropped = [];
  taken = [];
  closing = [];
  closed = [];
}

pub system-IsNew : IsNew system
system-IsNew = record {
  runs = refl;
  draining = refl;
  next = refl;
  idle = λ a. refl;
  held = refl;
  sending = refl;
  finished = refl;
  dropped = refl;
  taken = refl;
  closing = refl;
  closed = refl;
}

abbrev agent : Text
agent = codes "agent"

-- A run is started, leased, and replaced; its lease ends.
abbrev one : System
one = record system { pool = rotate_commit system.pool agent (codes "first") 5 }

abbrev two : System
two = record one { pool = (acquire_commit one.pool agent).0; held = 0 ∷ one.held }

abbrev three : System
three = record two { pool = rotate_commit two.pool agent (codes "second") 200 }

abbrev pub four : System
four = record three { pool = release_lease three.pool 0; held = remove_one 0 three.held }

leased_two : (acquire_commit one.pool agent).1 ≡ ok 0
unfolding acquire_commit rotate_commit lookup insert text_eq
leased_two = refl

held_three : 0 < count 0 three.held
unfolding count
held_three = omega arith

pub Reach-four : Reach system four
Reach-four =
    step_on
      (step_on
        (step_on (step_on here (rotates system agent (codes "first") 5))
          (leases one agent 0 leased_two))
        (rotates two agent (codes "second") 200))
      (releases three 0 held_three)

Step-Inv_example : Inv four
Step-Inv_example = Step-Inv (releases three 0 held_three) (
    Reach-Inv system-IsNew (
      step_on
        (step_on (step_on here (rotates system agent (codes "first") 5))
          (leases one agent 0 leased_two))
        (rotates two agent (codes "second") 200)))

send-idle_example :
    ((four.pool.cell 0).inflight ≡ count 0 four.held)
    × ((finish_begin four.pool 0).1 ≡ true
        → (count 0 four.held ≡ 0) × (count 0 four.sending ≡ 0) × (count 0 four.finished ≡ 0))
    × ((count 0 four.closing + count 0 four.closed ≡ 0) ⊎ (0 < count 0 four.taken))
send-idle_example = send-idle 0 system-IsNew Reach-four

sent_four : (finish_begin four.pool 0).1 ≡ true
unfolding finish_begin is_current acquire_commit rotate_commit release_lease lookup insert delete
    text_eq
sent_four = refl

allocated_four : 0 < four.pool.next
unfolding acquire_commit rotate_commit release_lease lookup insert delete text_eq
allocated_four = omega arith

abbrev five : System
five = record four { pool = (finish_begin four.pool 0).0; sending = 0 ∷ four.sending }

allocated_five : 0 < five.pool.next
unfolding finish_begin is_current acquire_commit rotate_commit release_lease lookup insert delete
    text_eq count
allocated_five = omega arith

reach_five : ReachWhile IsActive system five
unfolding finish_begin is_current acquire_commit rotate_commit release_lease lookup insert delete
    text_eq count
reach_five =
    goes
      (goes
        (goes
          (goes (goes (starts refl) (rotates system agent (codes "first") 5) refl)
            (leases one agent 0 leased_two) refl)
          (rotates two agent (codes "second") 200) refl)
        (releases three 0 held_three) refl)
      (sends four 0 allocated_four sent_four) refl

sending_five : 0 < count 0 five.sending + count 0 five.finished
unfolding finish_begin is_current acquire_commit rotate_commit release_lease lookup insert delete
    text_eq count
sending_five = omega arith

-- The replaced run is on its way to the upstream, and still drains.
run-kept_example :
    (is_current five.pool 0 ≡ true)
    ⊎ ((count 0 five.pool.draining ≡ 1) × (is_current five.pool 0 ≡ false))
    ⊎ (0 < count 0 five.finished)
    ⊎ (0 < count 0 five.dropped)
    ⊎ (0 < count 0 five.taken)
run-kept_example =
    run-kept 0 system-IsNew (step_on Reach-four (sends four 0 allocated_four sent_four))
      allocated_five

finished-not_leased_example :
    (count 0 five.held ≡ 0)
    × (is_current five.pool 0 ≡ false)
    × ((acquire_commit five.pool agent).1 ≢ ok 0)
finished-not_leased_example = finished-not_leased 0 agent system-IsNew reach_five sending_five

-- `SyncAccounts` has retired the pool.
abbrev gone : System
gone = record one { pool = record one.pool { retired = true } }

named_gone : lookup agent gone.pool.runs ≡ some 0
unfolding finish_begin is_current acquire_commit rotate_commit release_lease lookup insert delete
    text_eq count
named_gone = refl

allocated_gone : 0 < gone.pool.next
unfolding finish_begin is_current acquire_commit rotate_commit release_lease lookup insert delete
    text_eq count
allocated_gone = omega arith

idle_gone : (gone.pool.cell 0).inflight ≡ 0
unfolding finish_begin is_current acquire_commit rotate_commit release_lease lookup insert delete
    text_eq count
idle_gone = refl

unmarked_gone : (gone.pool.cell 0).finishing ≡ false
unfolding finish_begin is_current acquire_commit rotate_commit release_lease lookup insert delete
    text_eq count
unmarked_gone = refl

retired-leased_example :
    (t : System) × Reach gone t × (0 < count 0 t.sending) × (0 < count 0 t.held)
retired-leased_example =
    retired-leased gone agent 0 refl named_gone allocated_gone idle_gone unmarked_gone
