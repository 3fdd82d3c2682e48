-- ===== src/SessionCycle/SingleFlight.antt =====
-- Refreshes of a pool's session by many goroutines: at most one is under way, and at most one
-- background rebuild. A step is a part under the lock; `refreshers` and `rebuilders` count the
-- goroutines between the two parts.
use freebuff2api.Base.{ℕ, suc, ◌-◌, ◌≤◌, ◌<◌, ◌≡◌, Bool, true, arith, if◌then◌else◌, Text}
use freebuff2api.Errors.{Outcome, ok, fail}
use freebuff2api.Pool.{Pool, CachedSession}
use freebuff2api.SessionCycle.{
  refreshes, ensure_begin, ensure_end, rebuild_begin, rebuild_end, invalidate_session, watch_round,
  end_session,
}

pub record Flight : Type 0 where
  pub pool : Pool
  pub refreshers : ℕ
  pub rebuilders : ℕ

-- One more goroutine, if a rebuild starts.
abbrev pub started : Bool → ℕ → ℕ
started b n = if b then suc n else n

pub data Step : Flight → Flight → Type 0 where
  -- `ensureSession`: the start and the end of a refresh
  enters :
      (f : Flight) (now : ℕ)
      → (ensure_begin f.pool now).1 ≡ refreshes
      → Step f (record f { pool = (ensure_begin f.pool now).0; refreshers = suc f.refreshers })
  leaves :
      (f : Flight) (refreshed : Outcome (CachedSession × Text))
      → 0 < f.refreshers
      → Step f (record f { pool = ensure_end f.pool refreshed; refreshers = f.refreshers - 1 })
  -- `ensureSessionAsync`, and the end of its goroutine
  schedules :
      (f : Flight) (now : ℕ)
      → Step f (record f {
        pool = (rebuild_begin f.pool now).0;
        rebuilders = started (rebuild_begin f.pool now).1 f.rebuilders;
      })
  rebuilt :
      (f : Flight)
      → 0 < f.rebuilders
      → Step f (record f { pool = rebuild_end f.pool; rebuilders = f.rebuilders - 1 })
  -- `invalidateSession`, a round of `watchSessionExpiry`, `endSession`
  invalidates :
      (f : Flight) (why : Text) (now : ℕ)
      → Step f (record f {
        pool = (invalidate_session f.pool why now).0;
        rebuilders = started (invalidate_session f.pool why now).1 f.rebuilders;
      })
  watches :
      (f : Flight) (instance : Text) → Step f (record f { pool = (watch_round f.pool instance).0 })
  closes : (f : Flight) → Step f (record f { pool = (end_session f.pool).0 })
  -- anything else that takes the lock
  others :
      (f : Flight) (q : Pool)
      → q.refreshing ≡ f.pool.refreshing
      → q.rebuild_scheduled ≡ f.pool.rebuild_scheduled
      → Step f (record f { pool = q })

pub data Reach (f : Flight) : Flight → Type 0 where
  here : Reach f f
  step_on : {g h : Flight} → Reach f g → Step g h → Reach f h

-- The flags count the goroutines.
pub record Counted (f : Flight) : Type 0 where
  pub refreshers : f.refreshers ≡ (if f.pool.refreshing then 1 else 0)
  pub rebuilders : f.rebuilders ≡ (if f.pool.rebuild_scheduled then 1 else 0)

Step-Counted : {f g : Flight} → Step f g → Counted f → Counted g
unfolding ensure_begin ensure_end rebuild_begin rebuild_end invalidate_session watch_round
    end_session
Step-Counted (enters f now e) c = ground arith
Step-Counted (leaves f (ok r) h) c = ground arith
Step-Counted (leaves f (fail e) h) c = ground arith
Step-Counted (schedules f now) c = ground arith
Step-Counted (rebuilt f h) c = ground arith
Step-Counted (invalidates f why now) c = ground arith
Step-Counted (watches f instance) c = ground arith
Step-Counted (closes f) c = ground arith
Step-Counted (others f q e e') c = ground arith

Reach-Counted : {f g : Flight} → Reach f g → Counted f → Counted g
Reach-Counted here c = c
Reach-Counted (step_on r st) c = Step-Counted st (Reach-Counted r c)

-- From a pool whose flags count its goroutines, such as a new one, however they interleave: at most
-- one goroutine refreshes the session, and at most one rebuilds it in the background; one starts to
-- refresh only when none does, and a rebuild is scheduled only when none runs and none refreshes.
pub refresh_alone :
    {f g : Flight} (now : ℕ)
    → Counted f
    → Reach f g
    → (g.refreshers ≤ 1)
      × (g.rebuilders ≤ 1)
      × ((ensure_begin g.pool now).1 ≡ refreshes → g.refreshers ≡ 0)
      × ((rebuild_begin g.pool now).1 ≡ true → (g.refreshers ≡ 0) × (g.rebuilders ≡ 0))
unfolding ensure_begin rebuild_begin
refresh_alone {f} {g} now c r =
    let c' = Reach-Counted r c in
    (ground (arith, c'), ground (arith, c'), λ h. ground (arith, c'), λ h. ground (arith, c'))
