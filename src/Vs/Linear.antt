-- ===== src/Vs/Linear.antt =====
-- `linear` of vscontrol.h: the samples of a waveform between a start and an end time. The local
-- pointer `vertics` begins as the caller's; once it is replaced, the caller's array is freed.
pub mod Reads
pub mod Ownership
pub mod Samples
pub mod Sizes
use daux4pcs2m.Base.{
  ℕ, zero, suc, ◌+◌, ◌-◌, Bool, true, false, List, [], ◌∷◌, ◌++◌, ◌==◌, if◌then◌else◌,
}
use daux4pcs2m.Base.Int.{ℤ, pos, pos_part}
use daux4pcs2m.Real.{Ieee, Float, Dbl, ◌⊕◌, ◌⊖◌, ◌⊗◌, ◌⊘◌, ◌≺◌, ◌⊞◌, ◌⊟◌, ◌⊠◌, ◌◁◌, nought}
use daux4pcs2m.Memory.Result.{Result, ok, err, out_of_bounds, unfinished, ◌>>=◌}
use daux4pcs2m.Memory.Buffer.{Buffer, freed, contents, read_list, write}
use daux4pcs2m.Vs.State.{Point, Wave}

module _ ⦃m : Ieee⦄ where
  open m use {widen, narrow, lit}

  -- The vertices at `vertics`, `*len`, and whether the pointer has left the caller's array.
  pub record Span : Type 0 where
    pub vertices : List Point
    pub len : ℕ
    pub moved : Bool

  -- `count` elements from the index `i` on, each of them read.
  unfoldable pub copy : List Point → ℕ → ℕ → Result (List Point)
  copy vs i zero = ok []
  copy vs i (suc count) = do p ← read_list vs i; rest ← copy vs (i + 1) count; ok (p ∷ rest)

  abbrev pub point : Float → Float → Point
  point x y = record { x = x; y = y }

  -- The slope between two vertices.
  abbrev pub slope : Point → Point → Float
  slope p q = (q.y ⊖ p.y) ⊘ (q.x ⊖ p.x)

  -- The value at `x` of the line with slope `k` through `p`.
  abbrev pub on_line : Float → Float → Point → Float
  on_line x k p = x ⊗ k ⊕ (p.y ⊖ k ⊗ p.x)

  -- `if (starttime < vertics[0].x)`
  unfoldable pub extend_start : Float → Span → Result Span
  extend_start start s = do
    first ← read_list s.vertices 0
    let extended : Result Span = do
      old ← copy s.vertices 0 s.len
      ok (record { vertices = point start first.y ∷ old; len = s.len + 1; moved = true })
    if start ≺ first.x then extended else ok s

  -- `if (endtime > vertics[*len - 1].x)`
  unfoldable pub extend_end : Float → Span → Result Span
  extend_end end s = do
    last ← read_list s.vertices (s.len - 1)
    let extended : Result Span = do
      old ← copy s.vertices 0 s.len
      after ← read_list s.vertices s.len
      ok (record { vertices = old ++ (point end after.y ∷ []); len = s.len + 1; moved = true })
    if last.x ≺ end then extended else ok s

  -- The loop for the vertex before the start time, with the rounds left.
  unfoldable pub find_start : List Point → Float → ℕ → ℕ → Result ℕ
  find_start vs start zero a = ok a
  find_start vs start (suc rounds) a = do
    next ← read_list vs (a + 1)
    let rest = find_start vs start rounds (a + 1)
    if start ≺ next.x then ok a else rest

  -- `if (starttime > vertics[0].x)`; `step` is ADD_VERTICS
  unfoldable pub trim_start : Bool → Float → Span → Result Span
  trim_start step start s = do
    first ← read_list s.vertices 0
    let trimmed : Result Span = do
      a ← find_start s.vertices start s.len 0
      later ← copy s.vertices (a + 1) (s.len - a - 1)
      p ← read_list s.vertices a
      let between : Result Float = do
        q ← read_list s.vertices (a + 1)
        ok (on_line start (slope p q) p)
      y ← if step then ok p.y else between
      ok (record { vertices = point start y ∷ later; len = s.len - a; moved = true })
    if first.x ≺ start then trimmed else ok s

  -- The loop down to the vertex after the end time.
  unfoldable pub find_end : List Point → Float → ℕ → Result ℕ
  find_end vs end zero = ok 0
  find_end vs end (suc a) = do
    p ← read_list vs a
    let rest = find_end vs end a
    if p.x ≺ end then ok (suc a) else rest

  -- `vertics[a - 1]`
  abbrev pub read_before : List Point → ℕ → Result Point
  read_before vs zero = err out_of_bounds
  read_before vs (suc a) = read_list vs a

  -- `if (endtime < vertics[*len - 1].x)`
  unfoldable pub trim_end : Bool → Float → Span → Result Span
  trim_end step end s = do
    last ← read_list s.vertices (s.len - 1)
    let trimmed : Result Span = do
      a ← find_end s.vertices end (s.len - 1)
      earlier ← copy s.vertices 0 a
      p ← read_before s.vertices a
      let between : Result Float = do q ← read_list s.vertices a; ok (on_line end (slope p q) q)
      y ← if step then ok p.y else between
      ok (record { vertices = earlier ++ (point end y ∷ []); len = a + 1; moved = true })
    if end ≺ last.x then trimmed else ok s

  -- The variables of the sampling loops.
  pub record Sampling : Type 0 where
    pub i : ℕ
    pub lastt : Dbl
    pub samples : Buffer Float

  abbrev pub value_at : Float → Float → Dbl → Float
  value_at k b time = narrow (widen k ⊠ time ⊞ widen b)

  -- `for (time = ...; time < vertics[s + 1].x; time += dx)` on fuel, with its last `time`.
  unfoldable pub sample_stage :
      ℕ → Float → Float → Float → Float → Dbl → Sampling → Result (Dbl × Sampling)
  sample_stage zero dx k b end time st = err unfinished
  sample_stage (suc fuel) dx k b end time st = elim (time ◁ widen end) [
    | false ↦ ok (time, st)
    | true ↦ elim ((time ⊟ st.lastt) ◁ lit 1 6) [
      | true ↦ sample_stage fuel dx k b end (time ⊞ widen dx) st
      | false ↦ write st.samples st.i (value_at k b time) >>= λ samples.
          sample_stage fuel dx k b end (time ⊞ widen dx)
            (record { i = st.i + 1; lastt = time; samples = samples })
    ]
  ]

  -- The loop over the stages from `s` on, with the stages left; the last one adds the end point.
  unfoldable pub sample_stages : ℕ → Bool → Float → List Point → ℕ → ℕ → Sampling → Result Sampling
  sample_stages fuel step dx vs zero s st = ok st
  sample_stages fuel step dx vs (suc left) s st = do
    p ← read_list vs s
    q ← read_list vs (s + 1)
    let k = if step then nought else slope p q
    let b = if step then p.y else p.y ⊖ k ⊗ p.x
    (time, st') ← sample_stage fuel dx k b q.x (widen p.x) st
    samples ← if left == 0 then write st'.samples st'.i (value_at k b time) else ok st'.samples
    sample_stages fuel step dx vs left (s + 1) (record st' { samples = samples })

  -- `for (i = 0; i < vs_samples; i++) data[i] = y;`
  unfoldable pub fill : ℕ → ℕ → Float → Buffer Float → Result (Buffer Float)
  fill zero i y samples = ok samples
  fill (suc left) i y samples = do samples' ← write samples i y; fill left (i + 1) y samples'

  pub record Sampled : Type 0 where
    pub wave : Wave
    pub samples : Buffer Float
    pub count : ℤ

  abbrev span : Wave → List Point → Span
  span w vs = record { vertices = vs; len = w.len; moved = false }

  -- The four changes to the vertices, in order.
  unfoldable pub reshape : Bool → Float → Float → Span → Result Span
  reshape step start end s = do
    s1 ← extend_start start s
    s2 ← extend_end end s1
    s3 ← trim_start step start s2
    trim_end step end s3

  -- The part behind the two early returns.
  unfoldable pub resample :
      ℕ → Float → Wave → List Point → Float → Float → Buffer Float → Bool → Result Sampled
  resample fuel dx w vs start end samples step = do
    s4 ← reshape step start end (span w vs)
    let st : Sampling = record { i = 0; lastt = m.neg (lit 10086 0); samples = samples }
    st' ← sample_stages fuel step dx s4.vertices (s4.len - 1) 0 st
    ok (record {
      wave = record { points = if s4.moved then freed else w.points; len = s4.len };
      samples = st'.samples;
      count = pos (st'.i + 1);
    })

  -- `vs_samples` is the global. The result holds the caller's pointer and `*len` afterwards, the
  -- data, and what is returned.
  unfoldable pub linear :
      ℕ → ℤ → Float → Wave → Float → Float → Buffer Float → Bool → Result Sampled
  linear fuel vs_samples dx w start end samples step = do
    vs ← contents w.points
    first ← read_list vs 0
    let filled : Float → Result Sampled = λ y. do
      out ← fill (pos_part vs_samples) 0 y samples
      ok (record { wave = w; samples = out; count = vs_samples })
    let inside : Result Sampled = do
      last ← read_list vs (w.len - 1)
      if last.x ≺ start then filled last.y else resample fuel dx w vs start end samples step
    if end ≺ first.x then filled first.y else inside
