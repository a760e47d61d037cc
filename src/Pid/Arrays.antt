-- ===== src/Pid/Arrays.antt =====
-- The loop of pidv4_cal.h over the elements of its arrays.
use daux4pcs2m.Base.{
  ℕ, zero, suc, ◌+◌, ◌*◌, ◌==◌, subst, ◌≤◌, ◌<◌, ◌≡◌, ◌≢◌, refl, sym, ◌∙◌, arith, Bool-cases, inl,
  inr,
}
use daux4pcs2m.Real.{Ieee, Float}
use daux4pcs2m.Memory.Result.{ok, Ends}
use daux4pcs2m.Memory.Buffer.{
  Buffer, null, freed, live, read, HasSize, read_within, write_within, read-write_ne,
}
use daux4pcs2m.Pid.{
  Scratch, Gains, Terms, Elements, pid_element, store_shape, element_round, element_rounds, pidv4,
}

module _ ⦃m : Ieee⦄ where
  -- The arrays of `n` elements, with three entries of `shape` for each.
  pub record HasElements (n : ℕ) (a : Elements) : Type 0 where
    pub calculate : HasSize n a.calculate
    pub use_gi : HasSize n a.use_gi
    pub pvector : HasSize n a.pvector
    pub shape : HasSize (n * 3) a.shape
    pub error : HasSize n a.error
    pub scratch : HasSize n a.scratch

  -- The three entries of an element in `shape`.
  abbrev pub Holds : Buffer Float → ℕ → Terms → Type 0
  Holds b i t =
      (read b (i * 3 + 0) ≡ ok t.vout)
      × (read b (i * 3 + 1) ≡ ok t.dout)
      × (read b (i * 3 + 2) ≡ ok t.iout)

  -- The three writes, and what they leave.
  record IsStored (t : Terms) (n i : ℕ) (b z : Buffer Float) : Type 0 where
    size : HasSize (n * 3) z
    stored : Holds z i t
    others : (j : ℕ) → j ≢ i * 3 + 0 → j ≢ i * 3 + 1 → j ≢ i * 3 + 2 → read z j ≡ read b j

  store_shape-IsStored :
      (t : Terms) (n i : ℕ) (b : Buffer Float)
      → HasSize (n * 3) b
      → i < n
      → Ends (IsStored t n i b) (store_shape t i b)
  unfolding store_shape
  store_shape-IsStored t n i null h lt = absurd h
  store_shape-IsStored t n i freed h lt = absurd h
  store_shape-IsStored t n i (live xs) h lt =
      let (x, ex, hx, rx) =
        write_within (live xs) (n * 3) (i * 3 + 0) t.vout h (omega (arith, lt)) in
      let (y, ey, hy, ry) = write_within x (n * 3) (i * 3 + 1) t.dout hx (omega (arith, lt)) in
      let (z, ez, hz, rz) = write_within y (n * 3) (i * 3 + 2) t.iout hy (omega (arith, lt)) in
      let keep_x =
        λ (j : ℕ) (d : i * 3 + 0 ≢ j). read-write_ne (live xs) (i * 3 + 0) j t.vout ex d in
      let keep_y = λ (j : ℕ) (d : i * 3 + 1 ≢ j). read-write_ne x (i * 3 + 1) j t.dout ey d in
      let keep_z = λ (j : ℕ) (d : i * 3 + 2 ≢ j). read-write_ne y (i * 3 + 2) j t.iout ez d in
      record {
        value = z;
        returns = rw ex (rw ey ez);
        holds = record {
          size = hz;
          stored = (
            keep_z (i * 3 + 0) (omega arith) ∙ keep_y (i * 3 + 0) (omega arith) ∙ rx,
            keep_z (i * 3 + 1) (omega arith) ∙ ry,
            rz,
          );
          others = λ j p q r.
              keep_z j (λ e. r (sym e)) ∙ keep_y j (λ e. q (sym e)) ∙ keep_x j (λ e. p (sym e));
        };
      }

  -- The element `i` is stepped: its outputs and its memory are those of one step on its inputs.
  pub record IsStepped (time : Float) (g : Gains) (a z : Elements) (i : ℕ) : Type 0 where
    pub calculate : ℕ
    pub use_gi : ℕ
    pub error : Float
    pub memory : Scratch
    pub calculate_read : read a.calculate i ≡ ok calculate
    pub use_gi_read : read a.use_gi i ≡ ok use_gi
    pub error_read : read a.error i ≡ ok error
    pub memory_read : read a.scratch i ≡ ok memory
    pub pvector : read z.pvector i ≡ ok (pid_element time g calculate use_gi error memory).0
    pub shape : Holds z.shape i (pid_element time g calculate use_gi error memory).1
    pub scratch : read z.scratch i ≡ ok (pid_element time g calculate use_gi error memory).2

  -- The element `i` is as it was.
  record IsUntouched (a z : Elements) (i : ℕ) : Type 0 where
    calculate : read z.calculate i ≡ read a.calculate i
    use_gi : read z.use_gi i ≡ read a.use_gi i
    error : read z.error i ≡ read a.error i
    pvector : read z.pvector i ≡ read a.pvector i
    scratch : read z.scratch i ≡ read a.scratch i
    shape_0 : read z.shape (i * 3 + 0) ≡ read a.shape (i * 3 + 0)
    shape_1 : read z.shape (i * 3 + 1) ≡ read a.shape (i * 3 + 1)
    shape_2 : read z.shape (i * 3 + 2) ≡ read a.shape (i * 3 + 2)

  record IsRound (time : Float) (g : Gains) (n i : ℕ) (a z : Elements) : Type 0 where
    elements : HasElements n z
    stepped : IsStepped time g a z i
    others : (j : ℕ) → j ≢ i → IsUntouched a z j

  element_round-IsRound :
      (time : Float) (g : Gains) (n i : ℕ) (a : Elements)
      → HasElements n a
      → i < n
      → Ends (IsRound time g n i a) (element_round time g i a)
  unfolding element_round
  element_round-IsRound time g n i a h lt =
      let (c, ec) = read_within a.calculate n i h.calculate lt in
      let (u, eu) = read_within a.use_gi n i h.use_gi lt in
      let (e, ee) = read_within a.error n i h.error lt in
      let (s, es) = read_within a.scratch n i h.scratch lt in
      let step = pid_element time g c u e s in
      let (x, ex, hx, rx) = write_within a.scratch n i step.2 h.scratch lt in
      let (y, ey, hy, ry) = write_within a.pvector n i step.0 h.pvector lt in
      let b = store_shape-IsStored step.1 n i a.shape h.shape lt in
      record {
        value = record a { scratch = x; pvector = y; shape = b.value };
        returns = rw ec (rw eu (rw ee (rw es (rw ex (rw ey (rw b.returns refl))))));
        holds = record {
          elements = record {
            calculate = h.calculate;
            use_gi = h.use_gi;
            pvector = hy;
            shape = b.holds.size;
            error = h.error;
            scratch = hx;
          };
          stepped = record {
            calculate = c;
            use_gi = u;
            error = e;
            memory = s;
            calculate_read = ec;
            use_gi_read = eu;
            error_read = ee;
            memory_read = es;
            pvector = ry;
            shape = b.holds.stored;
            scratch = rx;
          };
          others = λ j d. record {
            calculate = refl;
            use_gi = refl;
            error = refl;
            pvector = read-write_ne a.pvector i j step.0 ey (λ q. d (sym q));
            scratch = read-write_ne a.scratch i j step.2 ex (λ q. d (sym q));
            shape_0 = b.holds.others (j * 3 + 0) (omega (arith, d)) (omega arith) (omega arith);
            shape_1 = b.holds.others (j * 3 + 1) (omega arith) (omega (arith, d)) (omega arith);
            shape_2 = b.holds.others (j * 3 + 2) (omega arith) (omega arith) (omega (arith, d));
          };
        };
      }

  IsUntouched-trans :
      {a b z : Elements} {j : ℕ} → IsUntouched a b j → IsUntouched b z j → IsUntouched a z j
  IsUntouched-trans p q = record {
    calculate = q.calculate ∙ p.calculate;
    use_gi = q.use_gi ∙ p.use_gi;
    error = q.error ∙ p.error;
    pvector = q.pvector ∙ p.pvector;
    scratch = q.scratch ∙ p.scratch;
    shape_0 = q.shape_0 ∙ p.shape_0;
    shape_1 = q.shape_1 ∙ p.shape_1;
    shape_2 = q.shape_2 ∙ p.shape_2;
  }

  module _ (time : Float) (g : Gains) where
    -- A stepped element stays so when later rounds leave it.
    IsStepped-kept :
        {a b z : Elements} {j : ℕ}
        → IsStepped time g a b j
        → IsUntouched b z j
        → IsStepped time g a z j
    IsStepped-kept p q = record {
      calculate = p.calculate;
      use_gi = p.use_gi;
      error = p.error;
      memory = p.memory;
      calculate_read = p.calculate_read;
      use_gi_read = p.use_gi_read;
      error_read = p.error_read;
      memory_read = p.memory_read;
      pvector = q.pvector ∙ p.pvector;
      shape = (q.shape_0 ∙ p.shape.0, q.shape_1 ∙ p.shape.1, q.shape_2 ∙ p.shape.2);
      scratch = q.scratch ∙ p.scratch;
    }

    -- And an element that the first round leaves is stepped from what it was before.
    IsStepped-later :
        {a b z : Elements} {j : ℕ}
        → IsUntouched a b j
        → IsStepped time g b z j
        → IsStepped time g a z j
    IsStepped-later p q = record {
      calculate = q.calculate;
      use_gi = q.use_gi;
      error = q.error;
      memory = q.memory;
      calculate_read = sym p.calculate ∙ q.calculate_read;
      use_gi_read = sym p.use_gi ∙ q.use_gi_read;
      error_read = sym p.error ∙ q.error_read;
      memory_read = sym p.scratch ∙ q.memory_read;
      pvector = q.pvector;
      shape = q.shape;
      scratch = q.scratch;
    }

    record IsAfter (n k i : ℕ) (a z : Elements) : Type 0 where
      elements : HasElements n z
      stepped : (j : ℕ) → i ≤ j → j < i + k → IsStepped time g a z j
      below : (j : ℕ) → j < i → IsUntouched a z j

    element_rounds-IsAfter :
        (n k i : ℕ) (a : Elements)
        → HasElements n a
        → i + k ≤ n
        → Ends (IsAfter n k i a) (element_rounds time g k i a)
    unfolding element_rounds
    element_rounds-IsAfter n zero i a h le = record {
      value = a;
      returns = refl;
      holds = record {
        elements = h;
        stepped = λ j p q. absurd (omega (arith, p, q));
        below = λ j p. record {
          calculate = refl;
          use_gi = refl;
          error = refl;
          pvector = refl;
          scratch = refl;
          shape_0 = refl;
          shape_1 = refl;
          shape_2 = refl;
        };
      };
    }
    element_rounds-IsAfter n (suc k) i a h le =
        let r = element_round-IsRound time g n i a h (omega (arith, le)) in
        let ih = element_rounds-IsAfter n k (suc i) r.value r.holds.elements (omega (arith, le)) in
        record {
          value = ih.value;
          returns = rw r.returns ih.returns;
          holds = record {
            elements = ih.holds.elements;
            stepped = λ j p q. elim (Bool-cases (j == i)) [
              | inl same ↦
                  subst (IsStepped time g a ih.value) (sym (ground arith))
                    (IsStepped-kept r.holds.stepped (ih.holds.below i (omega arith)))
              | inr other ↦
                  IsStepped-later (r.holds.others j (ground arith))
                    (ih.holds.stepped j (ground arith) (omega (arith, q)))
            ];
            below = λ j p.
                IsUntouched-trans (r.holds.others j (omega (arith, p)))
                  (ih.holds.below j (omega (arith, p)));
          };
        }

    -- On arrays of at least as many elements as it is asked for, with three entries of `shape` for
    -- each, `pidv4` comes to its end, and steps each of the elements: the output, the three entries
    -- of `shape` and the memory at its index are those of one step on the inputs and the memory that
    -- stood at that index. The arrays keep their sizes.
    pub pidv4-IsStepped :
        (numpvelem n : ℕ) (a : Elements)
        → HasElements n a
        → numpvelem ≤ n
        → Ends
            (λ z. HasElements n z × ((i : ℕ) → i < numpvelem → IsStepped time g a z i))
            (pidv4 numpvelem time g a)
    unfolding pidv4
    pidv4-IsStepped numpvelem n a h le =
        let r = element_rounds-IsAfter n numpvelem 0 a h (omega (arith, le)) in
        record {
          value = r.value;
          returns = r.returns;
          holds = (r.holds.elements, λ i p. r.holds.stepped i (omega arith) (omega (arith, p)));
        }
