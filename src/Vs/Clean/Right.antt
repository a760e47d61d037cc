-- ===== src/Vs/Clean/Right.antt =====
-- The shots that `fastz_clean` of vscontrol.h cleans up without a fault.
use daux4pcs2m.Base.{ℕ, Bool, true, false, ◌||◌, ◌≡◌, ◌∙◌, refl, arith}
use daux4pcs2m.Real.{Ieee}
use daux4pcs2m.Memory.Result.{Result, ok, ◌>>=◌}
use daux4pcs2m.Memory.Buffer.{freed, HasSize, free_live, write_within}
use daux4pcs2m.Vs.State.{Config, Targets, Trace, AlgMask, Vs}
use daux4pcs2m.Vs.Cycle.Arrays.{TraceReady}
use daux4pcs2m.Vs.Clean.{
  when, free_cc, free_lm, free_ip, free_fd, free_sm, free_waves, free_trace, stop_control,
  fastz_clean, lpf_reset, scratch_reset,
}
use daux4pcs2m.Vs.Clean.Held.{
  HeldCc, HeldLm, HeldIp, HeldFd, HeldSm, after_cc, after_ip, after_fd, after_sm, free_cc_right,
  free_ip_right, free_fd_right, free_sm_right,
}
use daux4pcs2m.Vs.Clean.Limited.{after_lm, free_lm_right}

-- Where the bit is set.
abbrev pub Where : Bool → Type 0 → Type 0
Where true P = P
Where false P = Unit

abbrev pub where_do : {A : Type 0} → Bool → (A → A) → A → A
where_do true f s = f s
where_do false f s = s

when_on : {A : Type 0} (b : Bool) (f : A → Result A) (a : A) → b ≡ true → when b f a ≡ f a
when_on true f a e = refl
when_on false f a e = cc

-- Five steps that go right.
chain :
    {A : Type 0} (f1 f2 f3 f4 f5 : A → Result A) (s s1 s2 s3 s4 s5 : A)
    → f1 s ≡ ok s1
    → f2 s1 ≡ ok s2
    → f3 s2 ≡ ok s3
    → f4 s3 ≡ ok s4
    → f5 s4 ≡ ok s5
    → (f1 s >>= λ a. f2 a >>= λ b. f3 b >>= λ c. f4 c >>= λ d. f5 d) ≡ ok s5
chain f1 f2 f3 f4 f5 s s1 s2 s3 s4 s5 e1 e2 e3 e4 e5 = rw e1 (rw e2 (rw e3 (rw e4 e5)))

module _ ⦃m : Ieee⦄ where
  -- What the algorithms of the shot have allocated is there, once.
  abbrev pub HeldWaves : AlgMask → Config × Targets → Type 0
  HeldWaves mask s =
      Where mask.cc (HeldCc s)
      × Where mask.lm (HeldLm s)
      × Where mask.ip (HeldIp s)
      × Where mask.fd (HeldFd s)
      × Where mask.sm (HeldSm s)

  -- What is left of the waveforms.
  abbrev pub after_waves : AlgMask → Config × Targets → Config × Targets
  after_waves mask s = where_do mask.sm after_sm (
      where_do mask.fd after_fd
        (where_do mask.ip after_ip (where_do mask.lm after_lm (where_do mask.cc after_cc s))))

  when_right :
      {A : Type 0} (P : A → Type 0) (b : Bool) (f : A → Result A) (g : A → A) (s : A)
      → (P s → f s ≡ ok (g s))
      → Where b (P s)
      → when b f s ≡ ok (where_do b g s)
  when_right P true f g s go p = go p
  when_right P false f g s go p = refl

  -- A step of another part keeps a claim.
  past :
      {A : Type 0} (P : A → Type 0) (b d : Bool) (g : A → A) (s : A)
      → (P s → P (g s))
      → Where d (P s)
      → Where d (P (where_do b g s))
  past P true true g s keeps p = keeps p
  past P true false g s keeps p = tt
  past P false d g s keeps p = p

  pub free_waves_right :
      (mask : AlgMask) (s : Config × Targets)
      → HeldWaves mask s
      → free_waves mask s ≡ ok (after_waves mask s)
  unfolding free_waves
  free_waves_right mask s (cc_held, lm_held, ip_held, fd_held, sm_held) =
      let s1 = where_do mask.cc after_cc s in
      let s2 = where_do mask.lm after_lm s1 in
      let s3 = where_do mask.ip after_ip s2 in
      let s4 = where_do mask.fd after_fd s3 in
      let lm1 = past HeldLm mask.cc mask.lm after_cc s (λ h. h) lm_held in
      let ip1 = past HeldIp mask.cc mask.ip after_cc s (λ h. h) ip_held in
      let fd1 = past HeldFd mask.cc mask.fd after_cc s (λ h. h) fd_held in
      let sm1 = past HeldSm mask.cc mask.sm after_cc s (λ h. h) sm_held in
      let ip2 = past HeldIp mask.lm mask.ip after_lm s1 (λ h. h) ip1 in
      let fd2 = past HeldFd mask.lm mask.fd after_lm s1 (λ h. h) fd1 in
      let sm2 = past HeldSm mask.lm mask.sm after_lm s1 (λ h. h) sm1 in
      let fd3 = past HeldFd mask.ip mask.fd after_ip s2 (λ h. h) fd2 in
      let sm3 = past HeldSm mask.ip mask.sm after_ip s2 (λ h. h) sm2 in
      let sm4 = past HeldSm mask.fd mask.sm after_fd s3 (λ h. h) sm3 in
      chain (when mask.cc free_cc) (when mask.lm free_lm) (when mask.ip free_ip)
        (when mask.fd free_fd) (when mask.sm free_sm) s s1 s2 s3 s4 (where_do mask.sm after_sm s4)
        (when_right HeldCc mask.cc free_cc after_cc s (free_cc_right s) cc_held)
        (when_right HeldLm mask.lm free_lm after_lm s1 (free_lm_right s1) lm1)
        (when_right HeldIp mask.ip free_ip after_ip s2 (free_ip_right s2) ip2)
        (when_right HeldFd mask.fd free_fd after_fd s3 (free_fd_right s3) fd3)
        (when_right HeldSm mask.sm free_sm after_sm s4 (free_sm_right s4) sm4)

  abbrev pub no_trace : Trace
  no_trace = record {
    timebase = freed;
    zpos = freed;
    error = freed;
    derror = freed;
    pvector = freed;
    precmd = freed;
    fincmd = freed;
    fincmd_bit = freed;
  }

  free_trace_ready : (n : ℕ) (r : Trace) → TraceReady n r → free_trace r ≡ ok no_trace
  unfolding free_trace
  free_trace_ready n r h =
      let e0 = free_live r.timebase n h.timebase in
      let e1 = free_live r.zpos n h.zpos in
      let e2 = free_live r.derror n h.derror in
      let e3 = free_live r.error n h.error in
      let e4 = free_live r.pvector n h.pvector in
      let e5 = free_live r.precmd n h.precmd in
      let e6 = free_live r.fincmd n h.fincmd in
      let e7 = free_live r.fincmd_bit n h.fincmd_bit in
      rw e0 (rw e1 (rw e2 (rw e3 (rw e4 (rw e5 (rw e6 (rw e7 refl)))))))

  stop_control_ready :
      {I : Type 0} (destroy : I → I) (n : ℕ) (s : Vs I)
      → TraceReady n s.trace
      → stop_control destroy s ≡ ok (record s { trace = no_trace; inst = destroy s.inst })
  unfolding stop_control
  stop_control_ready destroy n s ready = rw (free_trace_ready n s.trace ready) refl

  -- A shot is cleaned up without a fault, and everything is freed.
  pub fastz_clean_right :
      {I : Type 0} (destroy : I → I) (n : ℕ) (s : Vs I)
      → HeldWaves s.algmask (s.config, s.targets)
      → s.algmask.cc ≡ true
      → TraceReady n s.trace
      → HasSize 1 s.scratch
      → (t : Vs I) × (fastz_clean destroy s ≡ ok t)
        × (t.trace ≡ no_trace)
        × (t.config ≡ (after_waves s.algmask (s.config, s.targets)).0)
        × (t.targets ≡ (after_waves s.algmask (s.config, s.targets)).1)
  unfolding fastz_clean
  fastz_clean_right {I = I} destroy n s held on ready size =
      let e = free_waves_right s.algmask (s.config, s.targets) held in
      let left = after_waves s.algmask (s.config, s.targets) in
      let s' : Vs I = record s { config = left.0; targets = left.1 } in
      let f = stop_control_ready destroy n s' ready in
      let (b, g, h, _) = write_within s.scratch 1 0 scratch_reset size (omega arith) in
      let some_on : (s.algmask.cc || s.algmask.lm) ≡ true = ground arith in
      let stopped = when_on (s.algmask.cc || s.algmask.lm) (stop_control destroy) s' some_on ∙ f in
      (
        record s' { trace = no_trace; inst = destroy s.inst; lpf = lpf_reset; scratch = b },
        rw e (rw stopped (rw g refl)),
        refl,
        refl,
        refl,
      )
