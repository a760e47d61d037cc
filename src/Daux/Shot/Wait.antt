-- ===== src/Daux/Shot/Wait.antt =====
-- The wait for the data of a cycle in `run` of daux.c. The device writes its memory while the
-- program looks at it: `looks` is what the memory holds at each look, in order. A look is one round
-- of the wait, or the copy behind it.
use daux4pcs2m.Base.{
  ℕ, zero, suc, ◌≤◌, true, false, List, [], ◌∷◌, ◌==◌, if◌then◌else◌, ◌≡◌, ◌≢◌, refl, arith, length,
  ◌∙◌,
}
use daux4pcs2m.Memory.Result.{Result, ok, err, unfinished, ◌>>=◌, >>=-nested}
use daux4pcs2m.Memory.Buffer.{live}
use daux4pcs2m.Memory.Copy.{first, first_within}
use daux4pcs2m.Daq.Words.{read_word}
use daux4pcs2m.Daq.Setup.{nshorts}

module _ (spix : ℕ) where
  -- `TLATCH(host_buffer)[0]`
  abbrev pub tlatch : List ℕ → Result ℕ
  tlatch memory = read_word (live memory) 0 spix

  -- `while((tl1 = TLATCH(host_buffer)[0]) == tl0)`, with the looks left. It ends with the looks.
  unfoldable pub await : ℕ → List (List ℕ) → Result (ℕ × List (List ℕ))
  await tl0 [] = err unfinished
  await tl0 (memory ∷ looks) =
      let again = await tl0 looks in
      tlatch memory >>= λ tl1. if tl1 == tl0 then again else ok (tl1, looks)

  -- `memcpy(ai_buffer,host_buffer,VI_LEN)`
  abbrev pub take_over : List (List ℕ) → Result (List ℕ × List (List ℕ))
  take_over [] = err unfinished
  take_over (memory ∷ looks) = do ai ← first nshorts memory; ok (ai, looks)

  -- The part of `run` up to the copy, with `ai_buffer` and the new `tl0`.
  unfoldable pub acquire : ℕ → List (List ℕ) → Result (List ℕ × ℕ × List (List ℕ))
  acquire tl0 looks = do
    (tl1, after_wait) ← await tl0 looks
    (ai, after_copy) ← take_over after_wait
    ok (ai, tl1, after_copy)

  -- What a number of cycles acquires.
  unfoldable pub acquire_all : ℕ → ℕ → List (List ℕ) → Result (List (List ℕ))
  acquire_all zero tl0 looks = ok []
  acquire_all (suc n) tl0 looks = do
    (ai, tl1, later) ← acquire tl0 looks
    rest ← acquire_all n tl1 later
    ok (ai ∷ rest)

  -- The memory that the device shows now, what it will show, and the looks of a program that is
  -- quick: at each time it may look again, and it looks at least twice before the next sample.
  pub data Watches : List ℕ → List (List ℕ) → List (List ℕ) → Type 0 where
    over : {now : List ℕ} → Watches now [] []
    idle :
        {now : List ℕ} {coming looks : List (List ℕ)}
        → Watches now coming looks
        → Watches now coming (now ∷ looks)
    fresh :
        {now next : List ℕ} {coming looks : List (List ℕ)}
        → Watches next coming looks
        → Watches now (next ∷ coming) (next ∷ next ∷ looks)

  -- The samples are whole, and each has another latch than the one before.
  abbrev pub Change : ℕ → List (List ℕ) → Type 0
  Change tl0 [] = Unit
  Change tl0 (memory ∷ coming) =
      (tl1 : ℕ) × (tlatch memory ≡ ok tl1)
      × (tl1 ≢ tl0)
      × (nshorts ≤ length memory)
      × Change tl1 coming

  -- The data of samples.
  abbrev pub data_in : List (List ℕ) → Result (List (List ℕ))
  data_in [] = ok []
  data_in (memory ∷ coming) = do ai ← first nshorts memory; rest ← data_in coming; ok (ai ∷ rest)

  pub data_in-Change :
      (tl0 : ℕ) (coming : List (List ℕ))
      → Change tl0 coming
      → (ais : List (List ℕ)) × (data_in coming ≡ ok ais)
  data_in-Change tl0 [] changes = ([], refl)
  data_in-Change tl0 (memory ∷ coming) (tl1, e, other, whole, changes) =
      let (ai, taken, size) = first_within memory nshorts whole in
      let (ais, rest) = data_in-Change tl1 coming changes in (ai ∷ ais, rw taken (rw rest refl))

  await-same :
      (tl0 : ℕ) (memory : List ℕ) (looks : List (List ℕ))
      → tlatch memory ≡ ok tl0
      → await tl0 (memory ∷ looks) ≡ await tl0 looks
  unfolding await
  await-same tl0 memory looks e =
      let same : (tl0 == tl0) ≡ true = ground arith in rw e (rw same refl)

  await-other :
      (tl0 tl1 : ℕ) (memory : List ℕ) (looks : List (List ℕ))
      → tlatch memory ≡ ok tl1
      → tl1 ≢ tl0
      → await tl0 (memory ∷ looks) ≡ ok (tl1, looks)
  unfolding await
  await-other tl0 tl1 memory looks e other =
      let differ : (tl1 == tl0) ≡ false = ground arith in rw e (rw differ refl)

  acquire_all-idle :
      (n tl0 : ℕ) (memory : List ℕ) (looks : List (List ℕ))
      → tlatch memory ≡ ok tl0
      → acquire_all n tl0 (memory ∷ looks) ≡ acquire_all n tl0 looks
  unfolding acquire_all acquire
  acquire_all-idle zero tl0 memory looks e = refl
  acquire_all-idle (suc n) tl0 memory looks e = rw (await-same tl0 memory looks e) refl

  -- A round that finds a new latch takes over what the look behind it shows.
  acquire_all-fresh :
      (n tl0 tl1 : ℕ) (memory copied ai : List ℕ) (looks : List (List ℕ))
      → tlatch memory ≡ ok tl1
      → tl1 ≢ tl0
      → first nshorts copied ≡ ok ai
      → acquire_all (suc n) tl0 (memory ∷ copied ∷ looks)
        ≡ (acquire_all n tl1 looks >>= λ rest. ok (ai ∷ rest))
  unfolding acquire_all acquire
  acquire_all-fresh n tl0 tl1 memory copied ai looks e other taken =
      rw (await-other tl0 tl1 memory (copied ∷ looks) e other) (rw taken refl)

  pub acquire_all-Watches :
      {now : List ℕ} {coming looks : List (List ℕ)} (tl0 : ℕ)
      → Watches now coming looks
      → tlatch now ≡ ok tl0
      → Change tl0 coming
      → acquire_all (length coming) tl0 looks ≡ data_in coming
  unfolding acquire_all
  acquire_all-Watches tl0 over e changes = refl
  acquire_all-Watches {now} {coming} tl0 (idle {looks = looks} w) e changes =
      acquire_all-idle (length coming) tl0 now looks e ∙ acquire_all-Watches tl0 w e changes
  acquire_all-Watches tl0 (fresh {next = next} {coming = coming} {looks = looks} w) e
        (tl1, e1, other, whole, changes) =
      let (ai, taken, size) = first_within next nshorts whole in
      acquire_all-fresh (length coming) tl0 tl1 next next ai looks e1 other taken
      ∙ rw (acquire_all-Watches tl1 w e1 changes) (rw taken refl)

  -- The race between the wait and the copy: when the next sample arrives right behind the look that
  -- ends the wait, the cycle gets the data of the next sample under the latch of the one before, so
  -- that the cycle after it gets the same data once more, and the data of the sample that the wait
  -- has found is lost. The samples are whole and their latches differ.
  pub acquire_all-race :
      (n tl0 tl1 tl2 : ℕ) (found arrived : List ℕ) (looks : List (List ℕ))
      → tlatch found ≡ ok tl1
      → tl1 ≢ tl0
      → tlatch arrived ≡ ok tl2
      → tl2 ≢ tl1
      → nshorts ≤ length arrived
      → (ai : List ℕ) × (first nshorts arrived ≡ ok ai)
        × (acquire_all (suc (suc n)) tl0 (found ∷ arrived ∷ arrived ∷ arrived ∷ looks)
            ≡ (acquire_all n tl2 looks >>= λ rest. ok (ai ∷ ai ∷ rest)))
  acquire_all-race n tl0 tl1 tl2 found arrived looks e1 other1 e2 other2 whole =
      let (ai, taken, size) = first_within arrived nshorts whole in
      (
        ai,
        taken,
        acquire_all-fresh (suc n) tl0 tl1 found arrived ai (arrived ∷ arrived ∷ looks) e1 other1
              taken
            ∙ rw (acquire_all-fresh n tl1 tl2 arrived arrived ai looks e2 other2 taken)
                (>>=-nested (acquire_all n tl2 looks) _ _ _ λ rest. refl),
      )
