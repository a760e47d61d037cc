-- ===== src/Tests/Cleaned.antt =====
-- What `fastz_clean` leaves for the next shot, on concrete input.
use daux4pcs2m.Base.{[], some, ◌≡◌, ◌≢◌, refl, true, false}
use daux4pcs2m.Base.Text.{Text, Stream}
use daux4pcs2m.Real.Rational.{rational}
use daux4pcs2m.Memory.Result.{ok}
use daux4pcs2m.Memory.Buffer.{free, write}
use daux4pcs2m.Vs.State.{Vs, vs_init}
use daux4pcs2m.Vs.Ztarget.{Input, read_sections, read_ztarget}
use daux4pcs2m.Vs.Init.{interpolate, set_window, fastz_init}
use daux4pcs2m.Vs.Clean.{
  free_wave, free_cc, free_rows, free_lm_config, free_lm_targets, free_lm, free_ip, free_fd,
  free_sm, free_trace, free_waves, stop_control, fastz_clean,
}
use daux4pcs2m.Vs.Clean.Stale.{fastz_init_stale}
use daux4pcs2m.Tests.Prepared.{env, prepared, started}
use daux4pcs2m.Tests.Serve.{num, same}

abbrev empty_file : Stream
empty_file = record { rest = []; eof = true; cut_short = false }

abbrev first : Vs Unit
first = vs_init tt

-- An empty ztarget file as the first one.
idle :
    (t : Vs Unit) × (text : Text) × (fastz_init same env (num 1) (some empty_file) [] first
      ≡ ok (t, text))
unfolding fastz_init set_window interpolate read_ztarget read_sections
idle = (_, _, refl)

abbrev idle_state : Vs Unit
idle_state = idle.0

-- The clean-up of a shot with both algorithms.
cleaned : (t : Vs Unit) × (fastz_clean same started ≡ ok t)
unfolding fastz_clean stop_control free_waves free_wave free_cc free_rows free_lm_config
    free_lm_targets free_lm free_ip free_fd free_sm free_trace free write prepared
cleaned = (_, refl)

abbrev after : Vs Unit
after = cleaned.0

unread :
    (i : Input) × (read_ztarget env.scan env.garbage env.read_fuel
        (some empty_file)
        []
        (after.algmask, after.config)
      ≡ ok ((after.algmask, after.config), i))
unfolding read_ztarget read_sections
unread = (_, refl)

fastz_init_stale_example : fastz_init same env (num 1) (some empty_file) [] after ≢ ok (first, [])
unfolding prepared
fastz_init_stale_example =
    fastz_init_stale same same env (num 1) empty_file [] started after (first, []) _ after.algmask
      after.config unread.0 refl refl cleaned.1 unread.1 refl
