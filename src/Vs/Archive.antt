-- ===== src/Vs/Archive.antt =====
-- `save_fastz` of vscontrol.h: the signals of a shot that go to the archive.
pub mod Parts
pub mod Bits
use Prim.Native.Nat.{bit_or}
use daux4pcs2m.Base.{ℕ, zero, suc, ◌+◌, ◌/◌, ◌^◌, List, [], ◌∷◌}
use daux4pcs2m.Base.Int.{ℤ, pos, pos_part}
use daux4pcs2m.Real.{Ieee, Float}
use daux4pcs2m.Memory.Result.{Result, ok, err, ◌>>=◌}
use daux4pcs2m.Memory.Buffer.{Buffer, read, live}
use daux4pcs2m.Vs.State.{Trace, Vs}

-- The nodes of the tree.
pub data Node : Type 0 where
  vsezx1 vspzx1 vsczx1 vscvs1 vscvs1b vscvs1v vscvs1i : Node

-- The three transformations of a status word, as the code writes them: `(w | mask) >> shift`.
unfoldable pub block_bit : ℕ → ℕ
block_bit w = bit_or w 0x01

unfoldable pub voltage_bit : ℕ → ℕ
voltage_bit w = bit_or w 0x02 / 2 ^ 1

unfoldable pub current_bit : ℕ → ℕ
current_bit w = bit_or w 0x04 / 2 ^ 2

-- The first `n` elements from `i` on, each of them read.
unfoldable pub elements : {A : Type 0} → ℕ → ℕ → Buffer A → Result (List A)
elements zero i b = ok []
elements (suc n) i b = do x ← read b i; rest ← elements n (i + 1) b; ok (x ∷ rest)

module _ ⦃m : Ieee⦄ where
  open m use {of_int}

  -- A call of `write_signal`: the node, the times and the values. It reads `vs_samples` elements.
  pub record Signal : Type 0 where
    pub node : Node
    pub times : List Float
    pub values : List Float

  unfoldable pub signal : Node → ℕ → Buffer Float → Buffer Float → Result Signal
  signal node len times values = do
    xs ← elements len 0 times
    ys ← elements len 0 values
    ok (record { node = node; times = xs; values = ys })

  float_values : (ℕ → ℕ) → List ℕ → List Float
  float_values f [] = []
  float_values f (w ∷ ws) = of_int (pos (f w)) ∷ float_values f ws

  -- `for (i = 0; i < vs_cycle; i++) tmp[i] = f(a[i]);`, with `tmp` as long as that.
  unfoldable pub converted : (ℕ → ℕ) → List ℕ → Buffer Float
  unfolding float_values
  converted f ws = live (float_values f ws)

  -- The signals in order.
  unfoldable pub save_fastz : {I : Type 0} → Vs I → Result (List Signal)
  save_fastz s = do
    let n = pos_part s.vs_samples
    let t = s.trace.timebase
    e ← signal vsezx1 n t s.trace.error
    p ← signal vspzx1 n t s.trace.pvector
    c ← signal vsczx1 n t s.trace.precmd
    cmds ← elements s.vs_cycle 0 s.trace.fincmd
    v ← signal vscvs1 n t (converted (λ w. w) cmds)
    words ← elements s.vs_cycle 0 s.trace.fincmd_bit
    b ← signal vscvs1b n t (converted block_bit words)
    u ← signal vscvs1v n t (converted voltage_bit words)
    i ← signal vscvs1i n t (converted current_bit words)
    ok (e ∷ p ∷ c ∷ v ∷ b ∷ u ∷ i ∷ [])
