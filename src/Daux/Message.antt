-- ===== src/Daux/Message.antt =====
-- The message that starts a shot, in `main` of daux.c: `recvfrom` into `rbuf`, and `sscanf`. What
-- the socket delivers is an input, `none` for an error.
use daux4pcs2m.Base.{
  ℕ, ◌≤◌, ◌<◌, List, [], ◌∷◌, Option, none, some, ltb, ◌==◌, if◌then◌else◌, ◌≡◌, refl, length,
  lt→ltb, ltb-false,
}
use daux4pcs2m.Base.Int.{ℤ}
use daux4pcs2m.Base.Text.{Text, Scan}
use daux4pcs2m.Memory.Result.{Result, ok, err, out_of_bounds, ◌>>=◌}

-- The size of `rbuf`, and the most that `recvfrom` stores there.
abbrev pub rbuf_size : ℕ
rbuf_size = 32

-- The text up to its first byte 0.
abbrev pub c_text : List ℕ → Text
c_text [] = []
c_text (c ∷ s) = if c == 0 then [] else c ∷ c_text s

-- `msglen = recvfrom(sock, rbuf, 32, ...); rbuf[msglen] = '\0';`, with the text that is then in
-- `rbuf`. On an error `msglen` is -1; a datagram that does not fit is cut to 32 bytes.
unfoldable pub receive : Option (List ℕ) → Result Text
receive none = err out_of_bounds
receive (some bytes) = if ltb (length bytes) rbuf_size then ok (c_text bytes) else err out_of_bounds

-- `shot` and `total_time`.
pub record Order : Type 0 where
  pub shot : ℤ
  pub total_time : ℤ

module _ {F : Type 0} (scan : Scan F) where
  open scan use {scan_int}

  abbrev assign_time : Option (ℤ × Text) → Order → Order
  assign_time none o = o
  assign_time (some (t, rest)) o = record o { total_time = t }

  -- The second conversion, behind a comma.
  abbrev scan_time : Text → Order → Order
  scan_time [] o = o
  scan_time (c ∷ s) o = if c == b',' then assign_time (scan_int s) o else o

  abbrev assign_shot : Option (ℤ × Text) → Order → Order
  assign_shot none o = o
  assign_shot (some (n, rest)) o = scan_time rest (record o { shot = n })

  -- `sscanf(rbuf, "%d,%d", &shot, &total_time)`: a number that is not there is not assigned.
  unfoldable pub scan_order : Text → Order → Order
  scan_order text o = assign_shot (scan_int text) o

  -- From the wait for a message to its two numbers.
  unfoldable pub wait_for_shot : Option (List ℕ) → Order → Result Order
  wait_for_shot datagram o = do text ← receive datagram; ok (scan_order text o)

  -- A message of a shot's number, a comma and a time, as `sscanf` reads them.
  pub record IsMessage (bytes : List ℕ) (shot time : ℤ) : Type 0 where
    pub short : length bytes < rbuf_size
    pub no_end : c_text bytes ≡ bytes
    pub time_text : Text
    pub reads_shot : scan_int bytes ≡ some (shot, b',' ∷ time_text)
    pub rest : Text
    pub reads_time : scan_int time_text ≡ some (time, rest)

  -- A message is understood, whatever the message before was.
  pub wait_for_shot_lem :
      (bytes : List ℕ) (shot time : ℤ) (o : Order)
      → IsMessage bytes shot time
      → wait_for_shot (some bytes) o ≡ ok (record { shot = shot; total_time = time })
  unfolding wait_for_shot receive scan_order
  wait_for_shot_lem bytes shot time o h =
      rw (lt→ltb (length bytes) rbuf_size h.short)
        (rw h.no_end (rw h.reads_shot (rw h.reads_time refl)))

  -- A datagram of 32 bytes or more ends in a write behind `rbuf`.
  pub wait_for_shot_long :
      (bytes : List ℕ) (o : Order)
      → rbuf_size ≤ length bytes
      → wait_for_shot (some bytes) o ≡ err out_of_bounds
  unfolding wait_for_shot receive
  wait_for_shot_long bytes o long = rw (ltb-false (length bytes) rbuf_size long) refl

  -- A shorter one without a number at its front leaves the shot and the time of the message before.
  pub wait_for_shot_stale :
      (bytes : List ℕ) (o : Order)
      → length bytes < rbuf_size
      → scan_int (c_text bytes) ≡ none
      → wait_for_shot (some bytes) o ≡ ok o
  unfolding wait_for_shot receive scan_order
  wait_for_shot_stale bytes o short garbled =
      rw (lt→ltb (length bytes) rbuf_size short) (rw garbled refl)
