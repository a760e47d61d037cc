-- ===== src/Vs/Cycle/Kept.antt =====
-- What the steps of vscontrol.h's `fastz` between the first and the last leave alone.
use daux4pcs2m.Base.{ℕ, Bool, ◌&&◌, List, ◌≡◌, ◌≢◌, refl}
use daux4pcs2m.Real.{Ieee, Float, nought}
use daux4pcs2m.Memory.Result.{Always, Always-ok, Always->>=, Always-if}
use daux4pcs2m.Memory.Buffer.{Buffer, read, write, read-write_ne}
use daux4pcs2m.Filter.{Lpf}
use daux4pcs2m.Pid.{Scratch}
use daux4pcs2m.Vs.State.{Vs, Config, Targets, is_int}
use daux4pcs2m.Vs.Cycle.{coil_current, limited, limited_test, cc_command, within}
use daux4pcs2m.Vs.Cycle.Plan.{limited_normal-Always}

module _ ⦃m : Ieee⦄ where
  -- The other elements of an array are kept.
  abbrev pub KeepsOthers : ℕ → Buffer Float → Buffer Float → Type 0
  KeepsOthers i b c = (j : ℕ) → i ≢ j → read c j ≡ read b j

  write-Always : (b : Buffer Float) (i : ℕ) (x : Float) → Always (KeepsOthers i b) (write b i x)
  write-Always b i x = record { always = λ c e j. read-write_ne b i j x e }

  cc_command-Always :
      (i : ℕ) (c : Config) (t : Targets) (b : Buffer Float)
      → Always (KeepsOthers i b) (cc_command i c t b)
  unfolding cc_command
  cc_command-Always i c t b = Always-if (is_int c.vs1mode 0) (write-Always b i nought) (
      Always-if (is_int c.vs1mode 1) (Always->>= (read t.ccvvs1 i) _ λ v _. write-Always b i v) (
        Always-if (is_int c.vs1mode 2) (Always->>= (read t.ccivs1 i) _ λ v _. write-Always b i v)
          (Always-ok b (λ j other. refl))))

module _ ⦃m : Ieee⦄ {I : Type 0} where
  -- The steps between the first and the last leave the counter, the times, the recorded answers, what
  -- the library is called with, and the commands of other cycles.
  pub record Untouched (s t : Vs I) : Type 0 where
    pub cycle : t.vs_cycle ≡ s.vs_cycle
    pub timebase : t.trace.timebase ≡ s.trace.timebase
    pub fincmd : t.trace.fincmd ≡ s.trace.fincmd
    pub fincmd_bit : t.trace.fincmd_bit ≡ s.trace.fincmd_bit
    pub s_in : t.s_in ≡ s.s_in
    pub out : t.out ≡ s.out
    pub inst : t.inst ≡ s.inst
    pub commands : (j : ℕ) → s.vs_cycle ≢ j → read t.trace.precmd j ≡ read s.trace.precmd j

  same : (s : Vs I) → Untouched s s
  same s = record {
    cycle = refl;
    timebase = refl;
    fincmd = refl;
    fincmd_bit = refl;
    s_in = refl;
    out = refl;
    inst = refl;
    commands = λ j other. refl;
  }

  -- A new command for the cycle, with what is recorded of the positions.
  commanded :
      (s : Vs I) (zpos error derror pvector precmd : Buffer Float) (lpf : Lpf)
      (scratch : Buffer Scratch) (in_shape : List Float)
      → ((j : ℕ) → s.vs_cycle ≢ j → read precmd j ≡ read s.trace.precmd j)
      → Untouched s (record s {
        trace = record s.trace {
          zpos = zpos;
          error = error;
          derror = derror;
          pvector = pvector;
          precmd = precmd;
        };
        lpf = lpf;
        scratch = scratch;
        in_shape = in_shape;
      })
  commanded s zpos error derror pvector precmd lpf scratch in_shape kept = record {
    cycle = refl;
    timebase = refl;
    fincmd = refl;
    fincmd_bit = refl;
    s_in = refl;
    out = refl;
    inst = refl;
    commands = kept;
  }

  -- The same without the positions.
  only_commanded :
      (s : Vs I) (precmd : Buffer Float)
      → ((j : ℕ) → s.vs_cycle ≢ j → read precmd j ≡ read s.trace.precmd j)
      → Untouched s (record s { trace = record s.trace { precmd = precmd } })
  only_commanded s precmd kept =
      commanded s s.trace.zpos s.trace.error s.trace.derror s.trace.pvector precmd s.lpf s.scratch
        s.in_shape kept

  pub coil_current-Always : (time : Float) (s : Vs I) → Always (Untouched s) (coil_current time s)
  unfolding coil_current
  coil_current-Always time s =
      Always-if (s.algmask.cc && within time s.config.cc_st s.config.cc_et)
        (Always->>= (cc_command s.vs_cycle s.config s.targets s.trace.precmd) _ λ precmd e.
          Always-ok _ (
            only_commanded s precmd
              ((cc_command-Always s.vs_cycle s.config s.targets s.trace.precmd).always precmd e)))
        (Always-ok s (same s))

  limited_test-Always : (s : Vs I) → Always (Untouched s) (limited_test s)
  unfolding limited_test
  limited_test-Always s = Always->>= (read s.targets.dummy_ip s.vs_cycle) _ λ ip _.
      Always->>= (read s.targets.dummy_zx1 s.vs_cycle) _ λ zx1 _.
        Always->>= (write s.trace.precmd s.vs_cycle zx1) _
          λ precmd e. Always-ok _ (only_commanded s precmd (λ j. read-write_ne _ _ j _ e))

  pub limited-Always :
      (istest : Bool) (xs : List Float) (time : Float) (s : Vs I)
      → Always (Untouched s) (limited istest xs time s)
  unfolding limited
  limited-Always istest xs time s =
      Always-if (s.algmask.lm && s.algmask.ip && within time s.config.limit_st s.config.limit_et)
        (Always-if istest (limited_test-Always s) (
          limited_normal-Always (Untouched s) xs time s
            (λ zpos error derror pvector precmd x lpf scratch in_shape e.
              commanded s zpos error derror pvector precmd lpf scratch in_shape
                (λ j. read-write_ne _ _ j _ e))))
        (Always-ok s (same s))
