-- ===== src/Mds/Trees.antt =====
-- The commands that make a tree for a shot, in mds_helper.h.
use daux4pcs2m.Base.{
  ◌≤◌, ◌<◌, List, [], ◌∷◌, ◌≡◌, refl, arith, length, length-append, lt→ltb, ltb-false,
}
use daux4pcs2m.Base.Int.{ℤ}
use daux4pcs2m.Base.Text.{Text, codes}
use daux4pcs2m.Real.{Ieee}
use daux4pcs2m.Memory.Result.{ok, err, out_of_bounds}
use daux4pcs2m.Memory.Print.{print_to}
use daux4pcs2m.Mds.{MdsLib, tcl, command, create_tree, set_tree, create_pulse}

module _ ⦃m : Ieee⦄ (lib : MdsLib) where
  -- The library after these commands in order, whatever it answers.
  abbrev pub after : List Text → lib.Session → lib.Session
  after [] s = s
  after (c ∷ cs) s = after cs (lib.value (tcl lib c) s).2

  command_prints :
      (text : Text) (s : lib.Session)
      → length text < 64
      → command lib text s ≡ ok (lib.value (tcl lib text) s).2
  unfolding command print_to
  command_prints text s short =
      let outer = length-append text (codes "\",_output)") in
      let long : length (tcl lib text) < 96 = omega arith in
      rw (lt→ltb (length text) 64 short) (rw (lt→ltb (length (tcl lib text)) 96 long) refl)

  -- A shot gets its tree by three commands in this order, after the connection: the tree is set, the
  -- pulse is created and the tree is closed, each of them whether or not the ones before succeeded;
  -- for a name of at most 54 bytes and a number of at most 50 no text overflows its array.
  pub create_tree-after :
      (host db : Text) (shot : ℤ) (s : lib.Session)
      → length db ≤ 54
      → length (lib.decimal shot) ≤ 50
      → create_tree lib host db shot s
        ≡ ok (
            after
              (set_tree lib db ∷ create_pulse lib shot ∷ codes "close" ∷ [])
              (lib.connect host s).1)
  unfolding create_tree
  create_tree-after host db shot s short few =
      let s1 = (lib.connect host s).1 in
      let s2 = (lib.value (tcl lib (set_tree lib db)) s1).2 in
      let s3 = (lib.value (tcl lib (create_pulse lib shot)) s2).2 in
      rw (command_prints (set_tree lib db) s1 (omega arith)) (
        rw (command_prints (create_pulse lib shot) s2 (omega arith))
          (command_prints (codes "close") s3 (omega arith)))

  -- A longer name overflows the array of the command.
  pub create_tree_long :
      (host db : Text) (shot : ℤ) (s : lib.Session)
      → 54 < length db
      → create_tree lib host db shot s ≡ err out_of_bounds
  unfolding create_tree command print_to
  create_tree_long host db shot s long =
      let wide : 64 ≤ length (set_tree lib db) = omega arith in
      rw (ltb-false (length (set_tree lib db)) 64 wide) refl
