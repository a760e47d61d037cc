-- ===== src/Memory/Copy.antt =====
-- `memcpy` and `memset` on buffers: they work at the front of both arrays.
use daux4pcs2m.Base.{
  ℕ, zero, suc, ◌+◌, ◌≤◌, ◌<◌, List, [], ◌∷◌, ◌≡◌, refl, ap, arith, length, replicate,
  length-replicate, ◌∙◌, sym, get_elem?,
}
use daux4pcs2m.Memory.Result.{Result, ok, err, out_of_bounds, ◌>>=◌, >>=-eq-ok, ok-injective}
use daux4pcs2m.Memory.Buffer.{Buffer, null, freed, live, contents, HasSize}

module _ {ℓ} {A : Type ℓ} where
  -- The first `n` elements, each of them read.
  unfoldable pub first : ℕ → List A → Result (List A)
  first zero xs = ok []
  first (suc n) [] = err out_of_bounds
  first (suc n) (x ∷ xs) = do rest ← first n xs; ok (x ∷ rest)

  -- The array `ys` once `xs` is written over its front.
  unfoldable pub paste : List A → List A → Result (List A)
  paste [] ys = ok ys
  paste (x ∷ xs) [] = err out_of_bounds
  paste (x ∷ xs) (y ∷ ys) = do rest ← paste xs ys; ok (x ∷ rest)

  -- The destination of `memcpy(to, from, n)`, with `n` in elements.
  unfoldable pub memcpy : Buffer A → Buffer A → ℕ → Result (Buffer A)
  memcpy to from n = do
    xs ← contents from
    ys ← contents to
    part ← first n xs
    new ← paste part ys
    ok (live new)

  -- `memset(to, a, n)`
  unfoldable pub memset : Buffer A → A → ℕ → Result (Buffer A)
  memset to a n = do ys ← contents to; new ← paste (replicate n a) ys; ok (live new)

  pub first_all : (xs : List A) (n : ℕ) → length xs ≡ n → first n xs ≡ ok xs
  unfolding first
  first_all [] zero e = refl
  first_all [] (suc n) e = absurd (omega arith)
  first_all (x ∷ xs) zero e = absurd (omega arith)
  first_all (x ∷ xs) (suc n) e = rw (first_all xs n (omega arith))

  -- A part that fits comes to stand at the front, and the size is kept.
  pub paste_fits :
      (xs ys : List A) (n : ℕ)
      → length xs ≡ n
      → n ≤ length ys
      → (zs : List A) × (paste xs ys ≡ ok zs) × (length zs ≡ length ys) × (first n zs ≡ ok xs)
  unfolding paste first
  paste_fits [] ys zero e h = (ys, refl, refl, refl)
  paste_fits [] ys (suc n) e h = absurd (omega arith)
  paste_fits (x ∷ xs) ys zero e h = absurd (omega arith)
  paste_fits (x ∷ xs) [] (suc n) e h = absurd (omega arith)
  paste_fits (x ∷ xs) (y ∷ ys) (suc n) e h =
      let (zs, q, size, f) = paste_fits xs ys n (omega arith) (omega arith) in
      (x ∷ zs, rw q, ap suc size, rw f)

  pub paste_whole : (xs ys : List A) → length xs ≡ length ys → paste xs ys ≡ ok xs
  unfolding paste
  paste_whole [] [] h = refl
  paste_whole [] (y ∷ ys) h = absurd (omega arith)
  paste_whole (x ∷ xs) [] h = absurd (omega arith)
  paste_whole (x ∷ xs) (y ∷ ys) h = rw (paste_whole xs ys (omega arith))

  pub paste_beyond : (xs ys : List A) → length ys < length xs → paste xs ys ≡ err out_of_bounds
  unfolding paste
  paste_beyond [] ys h = absurd (omega arith)
  paste_beyond (x ∷ xs) [] h = refl
  paste_beyond (x ∷ xs) (y ∷ ys) h = rw (paste_beyond xs ys (omega arith))

  -- What the parts hold, element by element.
  pub get_elem?-first :
      (xs : List A) (n i : ℕ) {ys : List A}
      → first n xs ≡ ok ys
      → i < n
      → get_elem? ys i ≡ get_elem? xs i
  unfolding first
  get_elem?-first xs zero i e h = absurd (omega arith)
  get_elem?-first [] (suc n) i e h = cc
  get_elem?-first (x ∷ xs) (suc n) zero e h =
      let (rest, f, g) = >>=-eq-ok (first n xs) (λ rest. ok (x ∷ rest)) e in
      ap (λ l. get_elem? l zero) (sym (ok-injective g))
  get_elem?-first (x ∷ xs) (suc n) (suc i) e h =
      let (rest, f, g) = >>=-eq-ok (first n xs) (λ rest. ok (x ∷ rest)) e in
      ap (λ l. get_elem? l (suc i)) (sym (ok-injective g)) ∙ get_elem?-first xs n i f (omega arith)

  pub first_within :
      (xs : List A) (n : ℕ) → n ≤ length xs → (ys : List A) × (first n xs ≡ ok ys) × (length ys ≡ n)
  unfolding first
  first_within xs zero h = ([], refl, refl)
  first_within [] (suc n) h = absurd (omega arith)
  first_within (x ∷ xs) (suc n) h =
      let (ys, e, size) = first_within xs n (omega arith) in (x ∷ ys, rw e, ap suc size)

  pub paste_elements :
      (xs ys : List A)
      → length xs ≤ length ys
      → (zs : List A) × (paste xs ys ≡ ok zs)
        × ((i : ℕ) → i < length xs → get_elem? zs i ≡ get_elem? xs i)
        × ((i : ℕ) → length xs ≤ i → get_elem? zs i ≡ get_elem? ys i)
  unfolding paste
  paste_elements [] ys h = (ys, refl, λ i b. absurd (omega arith), λ i b. refl)
  paste_elements (x ∷ xs) [] h = absurd (omega arith)
  paste_elements (x ∷ xs) (y ∷ ys) h =
      let (zs, e, new, old) = paste_elements xs ys (omega arith) in
      (x ∷ zs, rw e, λ i b. new_at zs i b new, λ i b. old_at zs i b old)
    where
      new_at :
          (zs : List A) (i : ℕ)
          → i < suc (length xs)
          → ((i : ℕ) → i < length xs → get_elem? zs i ≡ get_elem? xs i)
          → get_elem? (x ∷ zs) i ≡ get_elem? (x ∷ xs) i
      new_at zs zero b new = refl
      new_at zs (suc i) b new = new i (omega arith)

      old_at :
          (zs : List A) (i : ℕ)
          → suc (length xs) ≤ i
          → ((i : ℕ) → length xs ≤ i → get_elem? zs i ≡ get_elem? ys i)
          → get_elem? (x ∷ zs) i ≡ get_elem? (y ∷ ys) i
      old_at zs zero b old = absurd (omega arith)
      old_at zs (suc i) b old = old i (omega arith)

  -- The array that a pointer `n` elements further on names.
  abbrev pub skip : ℕ → List A → List A
  skip zero xs = xs
  skip (suc n) [] = []
  skip (suc n) (x ∷ xs) = skip n xs

  pub get_elem?-skip :
      (n : ℕ) (xs : List A) (i : ℕ) → get_elem? (skip n xs) i ≡ get_elem? xs (n + i)
  get_elem?-skip zero xs i = let same : 0 + i ≡ i = omega arith in rw same
  get_elem?-skip (suc n) [] i = refl
  get_elem?-skip (suc n) (x ∷ xs) i =
      let next : suc n + i ≡ suc (n + i) = omega arith in rw next (get_elem?-skip n xs i)

  pub length-skip : (n : ℕ) (xs : List A) → n ≤ length xs → n + length (skip n xs) ≡ length xs
  length-skip zero xs h = omega arith
  length-skip (suc n) [] h = absurd (omega arith)
  length-skip (suc n) (x ∷ xs) h = omega (arith, length-skip n xs (omega arith))

  pub memset_within :
      (b : Buffer A) (a : A) (n size : ℕ)
      → HasSize size b
      → n ≤ size
      → (c : Buffer A) × (memset b a n ≡ ok c) × HasSize size c
  unfolding memset
  memset_within null a n size h room = absurd h
  memset_within freed a n size h room = absurd h
  memset_within (live ys) a n size h room =
      let (zs, e, same, f) = paste_fits (replicate n a) ys n (length-replicate n a) (omega arith) in
      (live zs, rw e refl, same ∙ h)
