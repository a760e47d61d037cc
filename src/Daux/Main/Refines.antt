-- ===== src/Daux/Main/Refines.antt =====
-- What the program of daux.c is for, without its state: an archive that goes from shot to shot. The
-- loop over the shots does what this archive does.
use daux4pcs2m.Base.{
  ℕ, ◌+◌, ◌≤◌, true, List, [], ◌∷◌, All, ◌≡◌, refl, length, overwrite, replicate, length-replicate,
  ap, sym, ◌∙◌, arith,
}
use daux4pcs2m.Base.Int.{ℤ, pos, pos_part}
use daux4pcs2m.Base.Text.{Text}
use daux4pcs2m.Real.{Ieee, Float, Dbl, nought, double_of, ◌⧄◌}
use daux4pcs2m.Memory.Result.{Result, ok, ◌>>=◌, Ends, Ends-ok}
use daux4pcs2m.Memory.Buffer.{live}
use daux4pcs2m.Rfm.{Rfm2g}
use daux4pcs2m.Vs.State.{Vs}
use daux4pcs2m.Vs.Init.{Env}
use daux4pcs2m.Vs.Cycle.{Calc}
use daux4pcs2m.Mds.{MdsLib, open_tree}
use daux4pcs2m.Daux.Count.{rate, sample_count}
use daux4pcs2m.Daux.Message.{Order, wait_for_shot_lem}
use daux4pcs2m.Daux.Options.{Options}
use daux4pcs2m.Daux.Shot.{chns, collect_baseline, cleared}
use daux4pcs2m.Daux.Shot.Columns.{collected}
use daux4pcs2m.Daux.Signals.{signal_list}
use daux4pcs2m.Daux.Signals.Rows.{row, put_rows, times}
use daux4pcs2m.Daux.Main.{data_of, server, tree, Program, serve}
use daux4pcs2m.Daux.Main.Waiting.{Waits, after_create}
use daux4pcs2m.Daux.Main.Serve.{serve_archives, rows_of}
use daux4pcs2m.Daux.Main.Loop.{Arrival, input_of, IsGood, main_loop}

-- A shot as it is measured: its number, its time, the numbers of the calibration file and the data
-- of the device.
pub record Measured ⦃m : Ieee⦄ : Type 0 where
  pub shot : ℤ
  pub total_time : ℤ
  pub factors : List Float
  pub device : ℕ → List ℤ

module _ ⦃m : Ieee⦄ (lib : MdsLib) where
  open m use {lit}

  -- The calibration factors, and the session with the MDSplus library.
  abbrev pub Archive : Type 0
  Archive = List Float × lib.Session

  -- A shot with a cycle of `c` microseconds: the rows of all channels go to the tree of the shot. The
  -- base line begins at 0.
  abbrev pub archive_shot : ℕ → Measured → Archive → Result Archive
  archive_shot c x (old, session) = rate (pos c) >>= λ r. sample_count x.total_time (pos c) >>= λ n.
      put_rows lib (overwrite old 0 x.factors) (lit 1 0 ⧄ double_of r)
        (data_of x.device 0 (pos_part n)) (replicate chns nought) signal_list 0
        (open_tree lib server tree x.shot (after_create lib x.shot session)).1
      >>= λ saved. ok (overwrite old 0 x.factors, (lib.close_shot tree x.shot saved).1)

  abbrev pub archive_all : ℕ → List Measured → Archive → Result Archive
  archive_all c [] a = ok a
  archive_all c (x ∷ xs) a = archive_shot c x a >>= archive_all c xs

module _ ⦃m : Ieee⦄ where
  cleared_same : (bs bs' : List Float) → length bs ≡ length bs' → cleared bs ≡ cleared bs'
  cleared_same [] [] e = refl
  cleared_same [] (b ∷ bs') e = absurd (omega arith)
  cleared_same (b ∷ bs) [] e = absurd (omega arith)
  cleared_same (b ∷ bs) (b' ∷ bs') e = ap (λ xs. nought ∷ xs) (cleared_same bs bs' (omega arith))

  module _ (calib : List Float) (tick : Dbl) (bs bs' : List Float)
      (same : length bs ≡ length bs') where
    -- The first cycle clears the base line, so that its old values do not count.
    collected_first : (raw : List ℤ) → collected calib 0 raw bs ≡ collected calib 0 raw bs'
    unfolding collect_baseline
    collected_first raw = rw (cleared_same bs bs' same) refl

    row_first :
        (k : ℕ) (raws : List (List ℤ)) → row calib tick k 0 raws bs ≡ row calib tick k 0 raws bs'
    row_first k [] = refl
    row_first k (raw ∷ raws) = rw (collected_first raw) refl

    put_rows_first :
        (lib : MdsLib) (raws : List (List ℤ)) (names : List Text) (k : ℕ) (s : lib.Session)
        → put_rows lib calib tick raws bs names k s ≡ put_rows lib calib tick raws bs' names k s
    put_rows_first lib raws [] k s = refl
    put_rows_first lib raws (name ∷ names) k s = rw (row_first k raws) λ i.
        row calib tick k 0 raws bs' >>= λ values.
        put_rows_first lib raws names (k + 1)
          (lib.put name values (times calib tick 0 (length raws)) s).1 i

module _ ⦃m : Ieee⦄ (lib : MdsLib) (env : Env) where
  abbrev measured_of : (a : Arrival) → IsGood lib env a → Measured
  measured_of a g = record {
    shot = g.order.shot;
    total_time = g.order.total_time;
    factors = g.servable.factors;
    device = a.device;
  }

  -- The shots that messages which can be served ask for.
  abbrev pub all_measured :
      (arrivals : List Arrival) → All (IsGood lib env) arrivals → List Measured
  all_measured [] good = []
  all_measured (a ∷ rest) (now, later) = measured_of a now ∷ all_measured rest later

module _ ⦃m : Ieee⦄ (lib : MdsLib) {api : Rfm2g} {I : Type 0} where
  -- The program holds the archive that these shots make.
  abbrev pub Holds : ℕ → List Measured → Archive lib → Order × Program lib api I → Type 0
  Holds c xs begun (order, p) =
      (factors : List Float) × (p.calib ≡ live factors)
      × (archive_all lib c xs begun ≡ ok (factors, p.session))

module _ ⦃m : Ieee⦄ (lib : MdsLib) {api : Rfm2g} {I : Type 0} (calc : Calc I)
    (create destroy : I → I) (env : Env) (o : Options) where
  open m use {lit}

  -- One shot.
  serve_refines :
      (c size : ℕ) (s : Vs I) (old : List Float) (a : Arrival) (p : Program lib api I)
      → o.acqonly ≡ true
      → o.saveall ≡ true
      → length (lib.decimal o.cycle) ≤ 11
      → Waits lib c size s p
      → p.calib ≡ live old
      → (g : IsGood lib env a)
      → (p' : Program lib api I) × (serve lib calc create destroy env o (input_of a g.order) p
          ≡ ok p')
        × Waits lib c size s p'
        × (p'.calib ≡ live (overwrite old 0 g.servable.factors))
        × (archive_shot lib c (measured_of lib env a g) (old, p.session)
            ≡ ok (overwrite old 0 g.servable.factors, p'.session))
  serve_refines c size s old a p only saving cycled w held g =
      let (r, n, now, saved, p', er, en, ec, rows, e, es, ran, left, w') =
        serve_archives lib calc create destroy env o c size s (input_of a g.order) p only saving
          cycled w g.servable in
      let same : now ≡ old = cc in
      let calib = overwrite old 0 g.servable.factors in
      let rows' : rows_of lib (input_of a g.order) calib r n p ≡ ok saved = rw same at rows in
      let sized : length p.daq.baseline ≡ length (replicate chns nought) =
        w.baseline ∙ sym (length-replicate chns nought) in
      let er' : rate (pos c) ≡ ok r = ap rate (sym w.cycle_time) ∙ er in
      let en' : sample_count g.order.total_time (pos c) ≡ ok (pos n) =
        ap (sample_count g.order.total_time) (sym w.cycle_time) ∙ en in
      let first =
        put_rows_first calib (lit 1 0 ⧄ double_of r) p.daq.baseline (replicate chns nought) sized
          lib (data_of a.device 0 n) signal_list 0
          (open_tree lib server tree g.order.shot (after_create lib g.order.shot p.session)).1 in
      (p', e, w', rw same at left, rw er' (rw en' (rw (sym first ∙ rows') (rw es refl))))

  pub main_loop_archives :
      (c size : ℕ) (s : Vs I) (old : List Float) (arrivals : List Arrival) (order : Order)
      (p : Program lib api I)
      → o.acqonly ≡ true
      → o.saveall ≡ true
      → length (lib.decimal o.cycle) ≤ 11
      → Waits lib c size s p
      → p.calib ≡ live old
      → (good : All (IsGood lib env) arrivals)
      → Ends
          (Holds lib c (all_measured lib env arrivals good) (old, p.session))
          (main_loop lib calc create destroy env o arrivals order p)
  unfolding main_loop
  main_loop_archives c size s old [] order p only saving cycled w held good =
      Ends-ok (order, p) (old, held, refl)
  main_loop_archives c size s old (a ∷ rest) order p only saving cycled w held (now, later) =
      let heard =
        wait_for_shot_lem env.scan now.bytes now.order.shot now.order.total_time order
          now.message in
      let (p', e, w', held', shot) = serve_refines c size s old a p only saving cycled w held now in
      let ends =
        main_loop_archives c size s (overwrite old 0 now.servable.factors) rest now.order p' only
          saving cycled w' held' later in
      let (factors, kept, all) = ends.holds in
      record {
        value = ends.value;
        returns = rw now.arrived (rw heard (rw e ends.returns));
        holds = (factors, kept, rw shot all);
      }
