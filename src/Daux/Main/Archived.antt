-- ===== src/Daux/Main/Archived.antt =====
-- What a shot of daux.c that controls leaves in its tree.
use daux4pcs2m.Base.{ℕ, List, [], ◌∷◌, ◌≡◌, refl, ap, ◌∙◌, map}
use mathlib.Core.Path.{subst}
use daux4pcs2m.Base.Int.{ℤ}
use daux4pcs2m.Base.Text.{Text, codes}
use daux4pcs2m.Real.{Ieee}
use daux4pcs2m.Memory.Result.{ok}
use daux4pcs2m.Rfm.{Rfm2g}
use daux4pcs2m.Vs.State.{Vs}
use daux4pcs2m.Vs.Archive.{
  Signal, save_fastz, vsezx1, vspzx1, vsczx1, vscvs1, vscvs1b, vscvs1v, vscvs1i,
}
use daux4pcs2m.Mds.{MdsLib, open_tree}
use daux4pcs2m.Daux.Shot.{Daq}
use daux4pcs2m.Daux.Signals.{save_signal}
use daux4pcs2m.Daux.Main.{server, tree, node_name, put_all}

-- The names of the signals of the control in the tree, in order.
abbrev pub control_names : List Text
control_names =
    codes "VSEZX1"
    ∷ codes "VSPZX1"
    ∷ codes "VSCZX1"
    ∷ codes "VSCVS1"
    ∷ codes "VSCVS1B"
    ∷ codes "VSCVS1V"
    ∷ codes "VSCVS1I"
    ∷ []

module _ ⦃m : Ieee⦄ (lib : MdsLib) where
  -- One signal goes to each name, in order, with its values and its times, and nothing else.
  abbrev pub ArePut : List Text → List Signal → lib.Session → lib.Session → Type 0
  ArePut [] [] s t = t ≡ s
  ArePut [] (x ∷ xs) s t = ⊥
  ArePut (name ∷ names) [] s t = ⊥
  ArePut (name ∷ names) (x ∷ xs) s t = ArePut names xs (lib.put name x.values x.times s).1 t

  -- From one session to the next: the tree of the shot is opened, the channels of the acquisition
  -- and then the signals that `save_fastz` makes of the state of the control are put, and the tree
  -- is closed.
  pub record IsArchived {api : Rfm2g} {I : Type 0} (shot : ℤ) (n : ℕ) (d : Daq api I) (t : Vs I)
      (before after : lib.Session) : Type 0 where
    pub saved : lib.Session
    pub out : List Signal
    pub done : lib.Session
    pub channels :
        save_signal lib d.timebase d.signal_data n (open_tree lib server tree shot before).1
        ≡ ok saved
    pub made : save_fastz t ≡ ok out
    pub put : ArePut control_names out saved done
    pub closed : after ≡ (lib.close_shot tree shot done).1

  put_own :
      (out : List Signal) (s : lib.Session)
      → ArePut (map (λ x. node_name x.node) out) out s (put_all lib out s)
  unfolding put_all
  put_own [] s = refl
  put_own (x ∷ xs) s = put_own xs (lib.put (node_name x.node) x.values x.times s).1

  names_of :
      (out : List Signal) → map (λ x. node_name x.node) out ≡ map node_name (map (λ x. x.node) out)
  names_of [] = refl
  names_of (x ∷ xs) = ap (λ names. node_name x.node ∷ names) (names_of xs)

  pub put_all-ArePut :
      (out : List Signal) (s : lib.Session)
      → map (λ x. x.node) out ≡ vsezx1 ∷ vspzx1 ∷ vsczx1 ∷ vscvs1 ∷ vscvs1b ∷ vscvs1v ∷ vscvs1i ∷ []
      → ArePut control_names out s (put_all lib out s)
  put_all-ArePut out s nodes =
      subst (λ names. ArePut names out s (put_all lib out s))
        (names_of out ∙ ap (map node_name) nodes) (put_own out s)
