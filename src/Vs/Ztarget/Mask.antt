-- ===== src/Vs/Ztarget/Mask.antt =====
-- `algmask` of vscontrol.h over the reading of a ztarget file.
use daux4pcs2m.Base.{
  Bool, ◌||◌, false, ℕ, zero, suc, true, some, ◌≡◌, refl, subst, arith, Bool-cases, inl, inr,
}
use daux4pcs2m.Base.Text.{Text, Stream, fgets, Scan}
use daux4pcs2m.Real.{Ieee, Float}
use daux4pcs2m.Memory.Result.{Result, ok, err, ok-injective}
use daux4pcs2m.Vs.State.{Point, Config, AlgMask}
use daux4pcs2m.Vs.Ztarget.{
  Input, continue, ◌>>=◌, next_line, read_section, read_sections, read_ztarget,
}

kept_self : (b : Bool) → (b || b) ≡ b
kept_self true = refl
kept_self false = refl

kept_trans : (a b c : Bool) → (a || b) ≡ b → (b || c) ≡ c → (a || c) ≡ c
kept_trans true true c p q = q
kept_trans true false c p q = cc
kept_trans false b c p q = refl

-- No bit of the mask is cleared.
pub record KeepsBits (before after : AlgMask) : Type 0 where
  pub cc : (before.cc || after.cc) ≡ after.cc
  pub lm : (before.lm || after.lm) ≡ after.lm
  pub ip : (before.ip || after.ip) ≡ after.ip
  pub fd : (before.fd || after.fd) ≡ after.fd
  pub sm : (before.sm || after.sm) ≡ after.sm

KeepsBits-trans : {a b c : AlgMask} → KeepsBits a b → KeepsBits b c → KeepsBits a c
KeepsBits-trans p q = record {
  cc = kept_trans _ _ _ p.cc q.cc;
  lm = kept_trans _ _ _ p.lm q.lm;
  ip = kept_trans _ _ _ p.ip q.ip;
  fd = kept_trans _ _ _ p.fd q.fd;
  sm = kept_trans _ _ _ p.sm q.sm;
}

module _ ⦃m : Ieee⦄ (scan : Scan Float) (garbage : Point) where
  read_section-KeepsBits :
      (line : Text) (mask mask' : AlgMask) (c c' : Config) (i j : Input)
      → read_section scan garbage line (mask, c) i ≡ ok ((mask', c'), j)
      → KeepsBits mask mask'
  unfolding read_section ◌>>=◌
  read_section-KeepsBits line mask mask' c c' i j e = ground arith

  -- One round of the loop.
  module _ (fuel : ℕ)
      (keeps : (s s' : AlgMask × Config) (i j : Input)
        → read_sections scan garbage fuel s i ≡ ok (s', j)
        → KeepsBits s.0 s'.0) where
    round :
        (s s' : AlgMask × Config) (line : Text) (k j : Input)
        → (r : Result ((AlgMask × Config) × Input)) → read_section scan garbage line s k ≡ r
        → continue r (read_sections scan garbage fuel) ≡ ok (s', j)
        → KeepsBits s.0 s'.0
    round s s' line k j (ok (s1, k')) here there =
        KeepsBits-trans (read_section-KeepsBits line s.0 s1.0 s.1 s1.1 k k' here)
          (keeps s1 s' k' j there)
    round s s' line k j (err e') here there = cc

  read_sections-KeepsBits :
      (fuel : ℕ) (s s' : AlgMask × Config) (i j : Input)
      → read_sections scan garbage fuel s i ≡ ok (s', j)
      → KeepsBits s.0 s'.0
  unfolding read_sections ◌>>=◌ next_line
  read_sections-KeepsBits zero s s' i j e = cc
  read_sections-KeepsBits (suc fuel) s s' i j e = elim (Bool-cases i.stream.eof) [
    | inl done ↦
        let same = rw (done, read_sections) at e in
        subst (λ q. KeepsBits s.0 q.0.0) (ok-injective same)
          (record {
            cc = kept_self _;
            lm = kept_self _;
            ip = kept_self _;
            fd = kept_self _;
            sm = kept_self _;
          })
    | inr more ↦
        let (line, f) = fgets i.zfbuf i.stream in
        let k : Input = record { zfbuf = line; stream = f } in
        round fuel (read_sections-KeepsBits fuel) s s' line k j (read_section scan garbage line s k)
          refl (rw (more, read_sections) at e)
  ]

  -- Reading a ztarget file clears no bit of `algmask`: what an earlier file set stays set, whether or
  -- not the new one has that section.
  pub read_ztarget-KeepsBits :
      (fuel : ℕ) (f : Stream) (zfbuf : Text) (mask mask' : AlgMask) (c c' : Config) (i : Input)
      → read_ztarget scan garbage fuel (some f) zfbuf (mask, c) ≡ ok ((mask', c'), i)
      → KeepsBits mask mask'
  unfolding read_ztarget
  read_ztarget-KeepsBits fuel f zfbuf mask mask' c c' i e =
      read_sections-KeepsBits fuel (mask, c) (mask', c') (record { zfbuf = zfbuf; stream = f }) i e
