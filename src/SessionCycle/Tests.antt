-- ===== src/SessionCycle/Tests.antt =====
-- The session of a pool at concrete inputs.
use freebuff2api.Base.{◌≤◌, ◌≡◌, ◌⊎◌, refl, true, some, ◌*◌, ◌<◌, codes, text_eq, count}
use freebuff2api.Pool.{CachedSession, active}
use freebuff2api.Pool.System.{System, others}
use freebuff2api.Pool.System.Active.{ReachWhile, starts, goes, IsActive}
use freebuff2api.Pool.Tests.{pool, system, system-IsNew}
use freebuff2api.FreeSession.{ready_session, second}
use freebuff2api.SessionCycle.{
  refreshes, expires, ensure_begin, rebuild_begin, watch_round, has_inflight,
}
use freebuff2api.SessionCycle.SingleFlight.{Flight, enters, here, step_on, Counted, refresh_alone}
use freebuff2api.SessionCycle.Laws.{expiry-waits}

abbrev idle : Flight
idle = record { pool = pool; refreshers = 0; rebuilders = 0 }

idle-Counted : Counted idle
idle-Counted = record { refreshers = refl; rebuilders = refl }

abbrev refreshing : Flight
refreshing = record idle { pool = (ensure_begin idle.pool 7).0; refreshers = 1 }

begins : (ensure_begin idle.pool 7).1 ≡ refreshes
unfolding ensure_begin ready_session
begins = refl

-- A request has begun to refresh, and a rebuild is asked for.
refresh_alone_example :
    (refreshing.refreshers ≤ 1)
    × (refreshing.rebuilders ≤ 1)
    × ((ensure_begin refreshing.pool 8).1 ≡ refreshes → refreshing.refreshers ≡ 0)
    × ((rebuild_begin refreshing.pool 8).1 ≡ true
        → (refreshing.refreshers ≡ 0) × (refreshing.rebuilders ≡ 0))
refresh_alone_example = refresh_alone 8 idle-Counted (step_on here (enters idle 7 begins))

abbrev granted : CachedSession
granted = record { status = active; instance_id = codes "i"; expires_at = 20 * second }

abbrev served : System
served = record system { pool = record pool { session = some granted } }

served_reached : ReachWhile IsActive system served
served_reached =
    goes (starts refl)
      (others system served.pool
        (record { runs = refl; draining = refl; cell = refl; next = refl }))
      refl

expired : (watch_round served.pool (codes "i")).1 ≡ expires
unfolding watch_round has_inflight text_eq
expired = refl

expiry-waits_example :
    (count 0 served.held ≡ 0) ⊎ (0 < count 0 served.dropped) ⊎ (0 < count 0 served.taken)
expiry-waits_example = expiry-waits (codes "i") 0 system-IsNew served_reached expired
