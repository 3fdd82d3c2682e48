-- ===== src/Upstream/Tests.antt =====
-- The upstream client at concrete inputs.
use freebuff2api.Base.{◌≡◌, refl, Text, codes, trim_space, decimal}
use freebuff2api.Errors.{upstream, fail}
use freebuff2api.Upstream.{
  Returned, returns, breaks, do_json, started, run_id_of, failed_status, start_run,
}

decode_run_id : Text → Returned Text
decode_run_id body = breaks (codes "invalid character '<'")

-- An outage page is no JSON.
start_run_test :
    start_run decode_run_id (returns (record { status = 200; body = returns (codes "<html>") }))
    ≡ fail (upstream (codes "decode start run response: invalid character '<'"))
unfolding start_run do_json started run_id_of decode_run_id
start_run_test = refl

unavailable_test :
    start_run decode_run_id (returns (record { status = 503; body = returns (codes " down ") }))
    ≡ fail (upstream (codes "start run failed with status 503: down"))
unfolding start_run do_json started failed_status decimal trim_space
unavailable_test = refl
