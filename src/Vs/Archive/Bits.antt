-- ===== src/Vs/Archive/Bits.antt =====
-- What `save_fastz` of vscontrol.h archives of a shot.
use daux4pcs2m.Base.{
  ℕ, zero, suc, ◌+◌, ◌*◌, ◌/◌, ◌≤◌, ◌<◌, Bool, true, ◌&&◌, List, [], ◌∷◌, ◌≡◌, refl, ap, arith,
  length, ◌==◌, map, ◌∙◌,
}
use daux4pcs2m.Base.Int.{pos, pos_part}
use daux4pcs2m.Real.{Ieee, Float}
use daux4pcs2m.Memory.Result.{ok, err, out_of_bounds}
use daux4pcs2m.Memory.Buffer.{Buffer, HasSize}
use daux4pcs2m.Vs.State.{Vs}
use daux4pcs2m.Vs.Archive.Parts.{elements_within, elements_beyond}
use daux4pcs2m.Vs.Archive.{
  Node, vsezx1, vspzx1, vsczx1, vscvs1, vscvs1b, vscvs1v, vscvs1i, block_bit, voltage_bit,
  current_bit, Signal, elements, signal, float_values, converted, save_fastz,
}

-- The test holds for `start` and the `more` numbers behind it.
holds_from : (ℕ → Bool) → ℕ → ℕ → Bool
holds_from test start zero = test start
holds_from test start (suc more) = test start && holds_from test (start + 1) more

holds_from-at :
    (test : ℕ → Bool) (start more k : ℕ)
    → k ≤ more
    → holds_from test start more ≡ true
    → test (start + k) ≡ true
unfolding holds_from
holds_from-at test start zero k h all = let here : start + k ≡ start = omega arith in rw here all
holds_from-at test start (suc more) zero h all =
    let here : start + zero ≡ start = omega arith in rw here (ground arith)
holds_from-at test start (suc more) (suc k) h all =
    let there : start + suc k ≡ start + 1 + k = omega arith in
    let rest : holds_from test (start + 1) more ≡ true = ground arith in
    rw there (holds_from-at test (start + 1) more k (omega arith) rest)

-- The value without the bit.
abbrev as_archived : ℕ → Bool
as_archived w =
    block_bit w == w / 2 * 2 + 1 && voltage_bit w == w / 4 * 2 + 1 && current_bit w == w / 8 * 2 + 1

archived_table : holds_from as_archived 0 255 ≡ true
unfolding holds_from block_bit voltage_bit current_bit
archived_table = refl

-- The three archived values of a status word below 256 are odd, and are made of the bits above the
-- one that each is named for: whether the block, the voltage or the current bit of the library's
-- answer was set cannot be told from its signal.
pub archived_bits :
    (w : ℕ)
    → w < 256
    → (block_bit w ≡ w / 2 * 2 + 1)
      × (voltage_bit w ≡ w / 4 * 2 + 1)
      × (current_bit w ≡ w / 8 * 2 + 1)
archived_bits w h =
    let row : as_archived (0 + w) ≡ true =
      holds_from-at as_archived 0 255 w (omega arith) archived_table in
    ground arith

length-float_values : ⦃m : Ieee⦄ (f : ℕ → ℕ) (ws : List ℕ) → length (float_values f ws) ≡ length ws
unfolding float_values
length-float_values f [] = refl
length-float_values f (w ∷ ws) = ap suc (length-float_values f ws)

HasSize-converted :
    ⦃m : Ieee⦄ (f : ℕ → ℕ) (ws : List ℕ) (n : ℕ) → length ws ≡ n → HasSize n (converted f ws)
unfolding converted
HasSize-converted f ws n e = length-float_values f ws ∙ e

module _ ⦃m : Ieee⦄ where
  signal_ok :
      (node : Node) (n : ℕ) (times values : Buffer Float)
      → HasSize n times
      → HasSize n values
      → (xs : Signal) × (signal node n times values ≡ ok xs) × (xs.node ≡ node)
  unfolding signal
  signal_ok node n times values st sv =
      let (xs, ex, _) = elements_within n 0 n times st (omega arith) in
      let (ys, ey, _) = elements_within n 0 n values sv (omega arith) in
      (record { node = node; times = xs; values = ys }, rw ex (rw ey refl), refl)

  signal_fails :
      (node : Node) (n l : ℕ) (times values : Buffer Float)
      → HasSize n times
      → HasSize l values
      → l < n
      → signal node n times values ≡ err out_of_bounds
  unfolding signal
  signal_fails node n l times values st sv short =
      let (xs, ex, _) = elements_within n 0 n times st (omega arith) in
      rw ex (rw (elements_beyond n 0 l values sv (omega arith) (omega arith)))

module _ ⦃m : Ieee⦄ {I : Type 0} where
  -- The arrays that are archived, for a shot of `n` samples.
  pub record IsRecorded (n : ℕ) (s : Vs I) : Type 0 where
    pub samples : s.vs_samples ≡ pos n
    pub timebase : HasSize n s.trace.timebase
    pub error : HasSize n s.trace.error
    pub pvector : HasSize n s.trace.pvector
    pub precmd : HasSize n s.trace.precmd
    pub fincmd : HasSize n s.trace.fincmd
    pub fincmd_bit : HasSize n s.trace.fincmd_bit

  -- A shot that stopped before its last sample is not archived: the command signal is made from
  -- `vs_cycle` values, and `write_signal` reads `vs_samples` of them.
  pub save_fastz_short :
      (n : ℕ) (s : Vs I) → IsRecorded n s → s.vs_cycle < n → save_fastz s ≡ err out_of_bounds
  unfolding save_fastz
  save_fastz_short n s h short =
      let samples : pos_part s.vs_samples ≡ n = ap pos_part h.samples in
      let t = s.trace.timebase in
      let (e, ee, _) = signal_ok vsezx1 n t s.trace.error h.timebase h.error in
      let (p, ep, _) = signal_ok vspzx1 n t s.trace.pvector h.timebase h.pvector in
      let (c, ec, _) = signal_ok vsczx1 n t s.trace.precmd h.timebase h.precmd in
      let (ws, ew, size) = elements_within s.vs_cycle 0 n s.trace.fincmd h.fincmd (omega arith) in
      let failed =
        signal_fails vscvs1 n s.vs_cycle t (converted (λ w. w) ws) h.timebase
          (HasSize-converted (λ w. w) ws s.vs_cycle size) short in
      rw samples (rw ee (rw ep (rw ec (rw ew (rw failed)))))

  -- The whole from its parts.
  archived_parts :
      (n : ℕ) (s : Vs I) (e p c v b u i : Signal) (cs ws : List ℕ)
      → pos_part s.vs_samples ≡ n
      → let t = s.trace.timebase in
        signal vsezx1 n t s.trace.error ≡ ok e
        → signal vspzx1 n t s.trace.pvector ≡ ok p
        → signal vsczx1 n t s.trace.precmd ≡ ok c
        → elements s.vs_cycle 0 s.trace.fincmd ≡ ok cs
        → signal vscvs1 n t (converted (λ w. w) cs) ≡ ok v
        → elements s.vs_cycle 0 s.trace.fincmd_bit ≡ ok ws
        → signal vscvs1b n t (converted block_bit ws) ≡ ok b
        → signal vscvs1v n t (converted voltage_bit ws) ≡ ok u
        → signal vscvs1i n t (converted current_bit ws) ≡ ok i
        → save_fastz s ≡ ok (e ∷ p ∷ c ∷ v ∷ b ∷ u ∷ i ∷ [])
  unfolding save_fastz
  archived_parts n s e p c v b u i cs ws samples ee ep ec ecs ev ew eb eu ei =
      rw samples (rw ee (rw ep (rw ec (rw ecs (rw ev (rw ew (rw eb (rw eu (rw ei)))))))))

  -- A full shot is archived without an error, as seven signals in this order.
  pub save_fastz_full :
      (n : ℕ) (s : Vs I)
      → IsRecorded n s
      → s.vs_cycle ≡ n
      → (out : List Signal) × (save_fastz s ≡ ok out)
        × (map (λ o. o.node) out
            ≡ vsezx1 ∷ vspzx1 ∷ vsczx1 ∷ vscvs1 ∷ vscvs1b ∷ vscvs1v ∷ vscvs1i ∷ [])
  save_fastz_full n s h full =
      let samples : pos_part s.vs_samples ≡ n = ap pos_part h.samples in
      let t = s.trace.timebase in
      let (e, ee, ne) = signal_ok vsezx1 n t s.trace.error h.timebase h.error in
      let (p, ep, np) = signal_ok vspzx1 n t s.trace.pvector h.timebase h.pvector in
      let (c, ec, nc) = signal_ok vsczx1 n t s.trace.precmd h.timebase h.precmd in
      let (cs, ecs, sc) = elements_within s.vs_cycle 0 n s.trace.fincmd h.fincmd (omega arith) in
      let (ws, ew, sw) =
        elements_within s.vs_cycle 0 n s.trace.fincmd_bit h.fincmd_bit (omega arith) in
      let (v, ev, nv) = archived vscvs1 (λ w. w) cs (sc ∙ full) in
      let (b, eb, nb) = archived vscvs1b block_bit ws (sw ∙ full) in
      let (u, eu, nu) = archived vscvs1v voltage_bit ws (sw ∙ full) in
      let (i, ei, ni) = archived vscvs1i current_bit ws (sw ∙ full) in
      (
        e ∷ p ∷ c ∷ v ∷ b ∷ u ∷ i ∷ [],
        archived_parts n s e p c v b u i cs ws samples ee ep ec ecs ev ew eb eu ei,
        rw ne (rw np (rw nc (rw nv (rw nb (rw nu (rw ni)))))),
      )
    where
      archived :
          (node : Node) (f : ℕ → ℕ) (ws : List ℕ)
          → length ws ≡ n
          → (xs : Signal) × (signal node n s.trace.timebase (converted f ws) ≡ ok xs)
            × (xs.node ≡ node)
      archived node f ws size =
          signal_ok node n s.trace.timebase (converted f ws) h.timebase
            (HasSize-converted f ws n size)
