-- ===== src/Lib.antt =====
-- A model of daux4pcs2m, the auxiliary of a plasma control system: it samples 96 channels at a
-- fixed cycle, computes a command for the vertical stabilisation from them, and archives the shot.
--
-- The parts of the program, and the files that model them:
--   vscontrol.h         Vs/State      the globals, in records; pointers are buffers
--                       Vs/Linear     linear: cuts or extends a waveform and samples it; the child
--                                     module Sizes has the size of the samples
--                       Vs/Ztarget    get_wave, read_z_cc .. read_z_sm, read_ztarget
--                       Vs/Init       min, max, the *_interpolation_data, fastz_init; the child
--                                     module Ready has what it leaves for the cycles
--                       Vs/Cycle      fastz, the control step of a cycle, and shots of several
--                       Vs/Archive    save_fastz
--                       Vs/Clean      fastz_clean; the child module Right has the shots that it
--                                     cleans up without a fault, First a program whose first file
--                                     has no algorithm, Stale the shot behind one that was cleaned
--                                     up
--                       Vs/Digital    fastz_do32
--   low_pass_filter.h   Filter        low_pass_filter and its globals
--   pidv4_cal.h         Pid           pidv4, on the arrays of its arguments; one element of it is
--                                     pid_element, which fastz calls for its single element;
--                                     the child module Arrays has the loop
--   HL2MCal.h           Vs/State      the structs of the control library
--   mds_helper.h        Mds           get_size, create_tree, open_tree, write_signal
--   rfm_helper.h        Rfm/Helper    rfm_init, rfm_end, and the write in process of daux.c
--   include/east_rfmrt.h
--                       Rfm/East      east_rfm_open .. east_rfm_close, and the packets
--   include/east_rfmrt-2.h
--                       Rfm/Direct    the same without the DMA buffer
--   daq_helper.h        Daq           the globals, with child modules: Scripts, acq2106_start and
--                                     the scripts it runs; Parameters, the parameter file; Setup,
--                                     acq2106_init, setup and acq2106_end; Words, the functions on
--                                     the memory of the device; Cards, the data of a board; Ident,
--                                     make_ao_ident
--   daux.c              Daux/Options  the options of main
--                       Daux/Calib    readcalib; the child module Header has the one of readcalib.h
--                       Daux/Count    the count of the samples of a shot
--                       Daux/Message  the message that starts a shot
--                       Daux/Shot     the cycles of a shot, with run and process, and
--                                     acq2106_collect_baseline of daq_helper.h; the child module
--                                     Wait has the wait for the data in run, Live the cycles with
--                                     it, and Control the cycles of a shot that controls
--                       Daux/Signals  signal_list and save_signal
--                       Daux/Main     the loop over the shots; the child module Loop has it from
--                                     the datagrams on, Armed the cycles from the armed memory
--                                     on, Archived what is put for the control into the tree of a
--                                     shot, Controlled the cycles and the archive of a shot that
--                                     controls, Whole the same from the ztarget file on, Served a
--                                     round that controls, Start has main from the command line on,
--                                     Answers what it sends, and Refines an archive of shots that
--                                     it implements
-- Base has the shared names, lists, int and text; Real the float types; Memory the arrays and the
-- results of code that may go wrong; Tests runs the code on concrete input.
--
-- A round of the main loop is a message and serve: it counts the samples, makes a tree for the
-- shot, reads the calibration file, allocates the arrays, runs the cycles, archives and cleans up.
-- In each cycle the main program takes over the data of the device, collects the base line, saves
-- the signals and sends the data over the reflective memory and calls the control. The control is
-- prepared by fastz_init, which reads the ztarget file and samples its waveforms with linear; each
-- cycle is a call of fastz, which calls the filter, the PID step and the control library; then
-- save_fastz archives it and fastz_clean frees it, for the next shot. Each function is a function
-- on a record of the globals that returns a Result: err is undefined behaviour of C, or an exit.
--
-- Floating point is the interface Real.Arith.Ieee, since no such arithmetic is at hand: a theorem
-- holds for each implementation of the operators, and says which laws it needs. The conversions of
-- sscanf, the contents of fresh memory from malloc and the control library (CalcVSParams,
-- CreatePwrAlgoInst, DestroyPwrAlgoInst) are parameters too, and so are the libraries RFM2g (the
-- record Rfm2g, with a law for a read after a write), MDSplus (the record MdsLib, with the printing
-- of %d) and the driver of the device (the record Driver). Tests use fractions and small instances
-- of these records.
--
-- Counts of int are ℤ, an unsigned count that is read from the file wraps at 2 ^ 32. The loops over
-- a file and between two vertices run on fuel: for the first, one more than the lines of the file
-- and one round is enough, and for the second one more than its ticks; both are proved. All other
-- loops are structural; the loop over the shots runs over a list of messages, and the wait for the
-- data over the list of looks.
--
-- The device writes its memory while the program runs: the wait of a cycle and the copy behind it
-- run on a list of what the memory holds at each look, and the step relation Watches says which
-- lists a program sees that is quick enough. The arithmetic of a cycle, the files and the socket
-- run on values: what arrives at the socket is a list.
--
-- Not modelled: opening the socket, CPU affinity, what the scripts do on the device, the parts of
-- daq_helper.h that the build leaves out, for the digital output, the driver's headers and those of
-- RFM2g, which are copies, rfm-transmitter.c, which does not compile and which nothing uses,
-- include/east_rfmrt-test.h, which is east_rfmrt.h but for casts and comments, and printing.
-- east_rfmrt.h is taken as built without NORFM. Lines of the ztarget file are shorter than its
-- buffer.
pub mod Base
pub mod Real
pub mod Memory
pub mod Filter
pub mod Pid
pub mod Vs
pub mod Rfm
pub mod Mds
pub mod Daq
pub mod Daux
pub mod Tests
