-- ===== src/Vs/Clean/Held.antt =====
-- The shots that `fastz_clean` of vscontrol.h cleans up without a fault.
use daux4pcs2m.Base.{List, [], ◌∷◌, All, ◌≡◌, ◌≤◌, length, refl}
use daux4pcs2m.Real.{Ieee, Float}
use daux4pcs2m.Memory.Result.{ok}
use daux4pcs2m.Memory.Buffer.{Buffer, null, freed, live, free}
use daux4pcs2m.Vs.State.{Wave, Config, Targets}
use daux4pcs2m.Vs.Clean.{free_wave, free_cc, free_ip, free_fd, free_sm}

-- A pointer that may be freed: null, or of an array that is there.
abbrev pub Held : {A : Type 0} → Buffer A → Type 0
Held null = Unit
Held freed = ⊥
Held (live xs) = Unit

-- What is left of it.
abbrev pub after_free : {A : Type 0} → Buffer A → Buffer A
after_free null = null
after_free freed = freed
after_free (live xs) = freed

pub free_right : {A : Type 0} (b : Buffer A) → Held b → free b ≡ ok (after_free b)
unfolding free
free_right null h = refl
free_right freed h = absurd h
free_right (live xs) h = refl

module _ ⦃m : Ieee⦄ where
  abbrev pub HeldWave : Wave → Type 0
  HeldWave w = Held w.points

  abbrev pub after_free_wave : Wave → Wave
  after_free_wave w = record w { points = after_free w.points }

  pub free_wave_right : (w : Wave) → HeldWave w → free_wave w ≡ ok (after_free_wave w)
  unfolding free_wave
  free_wave_right w h = rw (free_right w.points h) refl

  abbrev pub HeldCc : Config × Targets → Type 0
  HeldCc (c, t) =
      All HeldWave (c.ivs1 ∷ c.ivs2 ∷ c.vvs1 ∷ c.vvs2 ∷ [])
      × All Held (t.ccivs1 ∷ t.ccivs2 ∷ t.ccvvs1 ∷ t.ccvvs2 ∷ [])

  abbrev pub HeldIp : Config × Targets → Type 0
  HeldIp (c, t) = HeldWave c.ipref × Held t.ipref

  abbrev pub HeldFd : Config × Targets → Type 0
  HeldFd (c, t) = All HeldWave (c.ipeoo ∷ c.ipetl ∷ []) × All Held (t.ipeoo ∷ t.ipetl ∷ [])

  abbrev pub HeldSm : Config × Targets → Type 0
  HeldSm (c, t) =
      All HeldWave (c.dummy_zx1 ∷ c.dummy_ip ∷ c.dummy_ivs1 ∷ [])
      × All Held (t.dummy_ip ∷ t.dummy_zx1 ∷ t.dummy_ivs1 ∷ [])

  abbrev pub HeldLm : Config × Targets → Type 0
  HeldLm (c, t) =
      All HeldWave (
        c.zx1ref ∷ c.which_e ∷ c.which_m ∷ c.zx1gp ∷ c.zx1gd ∷ c.zx1gi ∷ c.zx1tp ∷ c.zx1td ∷ c.zx1ti
        ∷ c.sztc ∷ c.szdt ∷ [])
      × Held c.mmatrix
      × ((rows : List (Buffer Float)) × (c.ematrix ≡ live rows)
          × (c.which_e.len ≤ length rows)
          × All Held rows)
      × All Held (
          t.zx1ref ∷ t.which_e ∷ t.which_m ∷ t.zx1gp ∷ t.zx1gd ∷ t.zx1gi ∷ t.zx1tp ∷ t.zx1td
          ∷ t.zx1ti ∷ t.sztc ∷ t.szdt ∷ [])

  abbrev pub after_cc : Config × Targets → Config × Targets
  after_cc (c, t) = (
    record c {
      ivs1 = after_free_wave c.ivs1;
      ivs2 = after_free_wave c.ivs2;
      vvs1 = after_free_wave c.vvs1;
      vvs2 = after_free_wave c.vvs2;
    },
    record t {
      ccivs1 = after_free t.ccivs1;
      ccivs2 = after_free t.ccivs2;
      ccvvs1 = after_free t.ccvvs1;
      ccvvs2 = after_free t.ccvvs2;
    },
  )

  pub free_cc_right : (s : Config × Targets) → HeldCc s → free_cc s ≡ ok (after_cc s)
  unfolding free_cc
  free_cc_right (c, t) ((w0, (w1, (w2, (w3, _)))), (a0, (a1, (a2, (a3, _))))) =
      rw (free_wave_right c.ivs1 w0) (
        rw (free_wave_right c.ivs2 w1) (
          rw (free_wave_right c.vvs1 w2) (
            rw (free_wave_right c.vvs2 w3) (
              rw (free_right t.ccivs1 a0) (
                rw (free_right t.ccivs2 a1)
                  (rw (free_right t.ccvvs1 a2) (rw (free_right t.ccvvs2 a3) (refl))))))))

  abbrev pub after_ip : Config × Targets → Config × Targets
  after_ip (c, t) =
      (record c { ipref = after_free_wave c.ipref }, record t { ipref = after_free t.ipref })

  pub free_ip_right : (s : Config × Targets) → HeldIp s → free_ip s ≡ ok (after_ip s)
  unfolding free_ip
  free_ip_right (c, t) (w0, a0) =
      rw (free_wave_right c.ipref w0) (rw (free_right t.ipref a0) (refl))

  abbrev pub after_fd : Config × Targets → Config × Targets
  after_fd (c, t) = (
    record c { ipeoo = after_free_wave c.ipeoo; ipetl = after_free_wave c.ipetl },
    record t { ipeoo = after_free t.ipeoo; ipetl = after_free t.ipetl },
  )

  pub free_fd_right : (s : Config × Targets) → HeldFd s → free_fd s ≡ ok (after_fd s)
  unfolding free_fd
  free_fd_right (c, t) ((w0, (w1, _)), (a0, (a1, _))) = rw (free_wave_right c.ipeoo w0) (
      rw (free_wave_right c.ipetl w1)
        (rw (free_right t.ipeoo a0) (rw (free_right t.ipetl a1) (refl))))

  abbrev pub after_sm : Config × Targets → Config × Targets
  after_sm (c, t) = (
    record c {
      dummy_zx1 = after_free_wave c.dummy_zx1;
      dummy_ip = after_free_wave c.dummy_ip;
      dummy_ivs1 = after_free_wave c.dummy_ivs1;
    },
    record t {
      dummy_ip = after_free t.dummy_ip;
      dummy_zx1 = after_free t.dummy_zx1;
      dummy_ivs1 = after_free t.dummy_ivs1;
    },
  )

  pub free_sm_right : (s : Config × Targets) → HeldSm s → free_sm s ≡ ok (after_sm s)
  unfolding free_sm
  free_sm_right (c, t) ((w0, (w1, (w2, _))), (a0, (a1, (a2, _)))) =
      rw (free_wave_right c.dummy_zx1 w0) (
        rw (free_wave_right c.dummy_ip w1) (
          rw (free_wave_right c.dummy_ivs1 w2) (
            rw (free_right t.dummy_ip a0)
              (rw (free_right t.dummy_zx1 a1) (rw (free_right t.dummy_ivs1 a2) (refl))))))
