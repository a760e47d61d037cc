-- ===== src/Daux/Shot/Transmit.antt =====
-- What `process` of daux.c sends over the reflective memory in each cycle.
use daux4pcs2m.Base.{
  ℕ, ◌+◌, ◌*◌, ◌≤◌, true, List, [], ◌∷◌, ◌++◌, ◌≡◌, ◌≢◌, ◌⊎◌, inl, inr, refl, arith, length, ◌==◌,
  Bool-cases, ap, sym, ◌∙◌,
}
use daux4pcs2m.Base.Int.{ℤ}
use daux4pcs2m.Real.{Ieee, Float, Dbl}
use daux4pcs2m.Memory.Result.{Result, ok, ◌>>=◌, >>=-eq-ok, ok-injective}
use daux4pcs2m.Memory.Buffer.{Buffer, write}
use daux4pcs2m.Memory.Copy.{first, first_within}
use daux4pcs2m.Rfm.{Rfm2g, IsReflective}
use daux4pcs2m.Rfm.Helper.{Link, transmit, bytes_of_shorts, offset_daq}
use daux4pcs2m.Vs.State.{Vs}
use daux4pcs2m.Vs.Cycle.{Calc}
use daux4pcs2m.Daux.Options.{Options}
use daux4pcs2m.Daux.Shot.{Daq, process, run, cycles, chns, time_of}
use daux4pcs2m.Daux.Shot.Acquire.{IsOpen, HaveData, cycles-IsOpen}

length-bytes_of_shorts : (xs : List ℤ) → length (bytes_of_shorts xs) ≡ length xs * 2
unfolding bytes_of_shorts
length-bytes_of_shorts [] = refl
length-bytes_of_shorts (x ∷ xs) = omega (arith, length-bytes_of_shorts xs)

last_of : (raws : List (List ℤ)) (raw : List ℤ) → HaveData (raws ++ raw ∷ []) → chns ≤ length raw
last_of [] raw (full, _) = full
last_of (first_raw ∷ raws) raw (_, later) = last_of raws raw later

module _ ⦃m : Ieee⦄ {api : Rfm2g} {I : Type 0} (calc : Calc I) (o : Options) (calib : List Float)
    (tick : Dbl) (n : ℕ) where
  run-link :
      (sss : ℕ) (raw sent : List ℤ) (d d1 : Daq api I)
      → first chns raw ≡ ok sent
      → run calc o calib tick n sss raw d ≡ ok d1
      → d1.link ≡ transmit api (bytes_of_shorts sent) d.link
  unfolding run process
  run-link sss raw sent d d1 e r = grind arith

  -- Whatever the cycles before have sent, the last one sends its own data.
  cycles-link :
      (sss : ℕ) (raws : List (List ℤ)) (raw sent : List ℤ) (d d' : Daq api I)
      → first chns raw ≡ ok sent
      → cycles calc o calib tick n sss (raws ++ raw ∷ []) d ≡ ok d'
      → (link : Link api) × (d'.link ≡ transmit api (bytes_of_shorts sent) link)
  unfolding cycles
  cycles-link sss [] raw sent d d' e r =
      let (d1, er, e1) =
        >>=-eq-ok (run calc o calib tick n sss raw d)
          (λ d1. write d1.timebase sss (time_of tick sss) >>= λ t. ok (record d1 { timebase = t }))
          r in
      let (t, ew, done) =
        >>=-eq-ok (write d1.timebase sss (time_of tick sss)) (λ t. ok (record d1 { timebase = t }))
          e1 in
      (d.link, ap (λ x. x.link) (sym (ok-injective done)) ∙ run-link sss raw sent d d1 e er)
  cycles-link sss (here ∷ raws) raw sent d d' e r =
      let rest : Daq api I → Buffer Float → Result (Daq api I) = λ d1 t.
        cycles calc o calib tick n (sss + 1) (raws ++ raw ∷ []) (record d1 { timebase = t }) in
      let (d1, er, e1) =
        >>=-eq-ok (run calc o calib tick n sss here d)
          (λ d1. write d1.timebase sss (time_of tick sss) >>= rest d1) r in
      let (t, ew, later) = >>=-eq-ok (write d1.timebase sss (time_of tick sss)) (rest d1) e1 in
      cycles-link (sss + 1) raws raw sent (record d1 { timebase = t }) d' e later

  -- After the cycles of a shot with `-q` the board of the reflective memory holds the data of the last
  -- one: the cycles go right, and, unless the write of the last cycle has failed, a read through the
  -- same board, at the offset of the acquisition and for 96 shorts, delivers the bytes of the first 96 channels of the
  -- last cycle. It wants arrays for `n` samples, at most `n` cycles and at least one of them, 96
  -- calibration factors and 96 channels in each cycle, and a library that delivers what was just
  -- written.
  pub cycles-read_back :
      IsReflective api
      → (raws : List (List ℤ)) (raw : List ℤ) (s : Vs I) (d : Daq api I) → o.acqonly ≡ true
      → length calib ≡ chns
      → IsOpen n s d
      → length (raws ++ raw ∷ []) ≤ n
      → HaveData (raws ++ raw ∷ [])
      → (d' : Daq api I) × (sent : List ℤ) × (cycles calc o calib tick n 0 (raws ++ raw ∷ []) d
          ≡ ok d')
        × (first chns raw ≡ ok sent)
        × ((d'.link.result ≢ 0)
            ⊎ ((b : api.Board) × (api.read offset_daq (chns * 2) d'.link.board
                  ≡ (0, bytes_of_shorts sent, b))))
  unfolding transmit
  cycles-read_back law raws raw s d only factors ready room full =
      let (d', e, over) =
        cycles-IsOpen calc o calib tick n 0 (raws ++ raw ∷ []) s d only factors ready (omega arith)
          full in
      let (sent, es, count) = first_within raw chns (last_of raws raw full) in
      let (link, same) = cycles-link 0 raws raw sent d d' es e in
      let r = api.write offset_daq (bytes_of_shorts sent) link.board in
      let size : length (bytes_of_shorts sent) ≡ chns * 2 =
        omega (arith, length-bytes_of_shorts sent) in
      let seen : (d'.link.result ≢ 0)
          ⊎ ((b : api.Board) × (api.read offset_daq (chns * 2) d'.link.board
                ≡ (0, bytes_of_shorts sent, b))) =
        elim (Bool-cases (r.0 == 0)) [
          | inl good ↦
              let written : api.write offset_daq (bytes_of_shorts sent) link.board ≡ (0, r.1) =
                let zero_status : r.0 ≡ 0 = ground arith in rw zero_status refl in
              let (b, got) =
                law.read_back offset_daq (bytes_of_shorts sent) link.board r.1 written in
              inr (b, rw (ap (λ l. l.board) same) (rw size at got))
          | inr bad ↦ inl λ none_left.
              let failed : r.0 ≡ 0 = sym (ap (λ l. l.result) same) ∙ none_left in
              absurd (ground arith)
        ] in
      (d', sent, e, es, seen)
