-- ===== src/Rfm/East/Life.antt =====
-- Opening and closing the reflective memory, in east_rfmrt.h.
use daux4pcs2m.Base.{ℕ, ◌≡◌, arith, ◌⊎◌}
use daux4pcs2m.Base.Int.{ℤ, pos, negsuc}
use daux4pcs2m.Memory.Result.{ok}
use daux4pcs2m.Rfm.{Rfm2g}
use daux4pcs2m.Rfm.East.{
  East, send, east_rfm_open, east_rfm_close, shut_down, clear_scope, get_rfm_status,
}

module _ (api : Rfm2g) where
  -- `east_rfm_open` returns 0 exactly when it leaves the status at 1, from a status of 0.
  pub east_rfm_open_status :
      (window : ℕ) (s : East api)
      → s.init_status ≡ 0
      → let (code, s') = east_rfm_open api window s in
        ((code ≡ pos 0) × (get_rfm_status api s' ≡ 1))
        ⊎ ((code ≡ negsuc 0) × (get_rfm_status api s' ≡ 0))
        ⊎ ((code ≡ negsuc 2) × (get_rfm_status api s' ≡ 0))
  unfolding east_rfm_open
  east_rfm_open_status window s shut = ground arith

  send-status :
      (offset n : ℕ) (s : East api) (r : ℕ × East api)
      → send api offset n s ≡ ok r
      → r.1.init_status ≡ s.init_status
  unfolding send
  send-status offset n s r e = ground arith

  clear_scope-status :
      (s : East api) (r : ℤ × East api) → clear_scope api s ≡ ok r → r.1.init_status ≡ s.init_status
  unfolding clear_scope
  clear_scope-status s r e = grind (arith, send-status)

  shut_down-status :
      (s : East api) (r : ℤ × East api) → shut_down api s ≡ ok r → r.1.init_status ≡ s.init_status
  unfolding shut_down
  shut_down-status s r e = grind (arith, send-status, clear_scope-status)

  -- Closing twice is closing once: whatever becomes of the first call, if it returns, the second one
  -- returns 0 and changes nothing.
  pub east_rfm_close_twice :
      (s s' : East api) (code : ℤ)
      → east_rfm_close api s ≡ ok (code, s')
      → east_rfm_close api s' ≡ ok (pos 0, s')
  unfolding east_rfm_close
  east_rfm_close_twice s s' code e = grind (arith, shut_down-status)
