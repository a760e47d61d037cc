-- ===== src/Memory/Buffer.antt =====
-- A pointer to an array from `malloc` or `calloc`, with its contents. Each buffer has one owner: no
-- two pointers of the modelled code name one array, but where the code says so.
use daux4pcs2m.Base.{
  ℕ, zero, suc, ◌≤◌, ◌<◌, List, [], ◌∷◌, Option, none, some, ◌≡◌, ◌≢◌, refl, length, get_elem?, set,
  replicate, get_elem?-set_self, get_elem?-set_ne, length-set, length-replicate, arith, ◌∙◌, ltb,
  ltb→lt, Bool-cases, inl, inr,
}
use daux4pcs2m.Base.Int.{ℤ, pos, negsuc}
use daux4pcs2m.Memory.Result.{
  Result, ok, err, or_fault, out_of_bounds, null_access, dangling_access, double_free, ok-injective,
}
use mathlib.Core.Path.{subst}

pub data Buffer {ℓ} (A : Type ℓ) : Type ℓ where
  null : Buffer A
  freed : Buffer A
  live : List A → Buffer A

module _ {ℓ} {A : Type ℓ} where
  -- `n` elements that hold `a`. A negative count is a huge `size_t`, for which the call fails.
  abbrev pub allocate : ℤ → A → Buffer A
  allocate (pos n) a = live (replicate n a)
  allocate (negsuc n) a = null

  abbrev pub contents : Buffer A → Result (List A)
  contents null = err null_access
  contents freed = err dangling_access
  contents (live xs) = ok xs

  abbrev pub read_list : List A → ℕ → Result A
  read_list xs i = or_fault out_of_bounds (get_elem? xs i)

  -- `p[i]`
  unfoldable pub read : Buffer A → ℕ → Result A
  read null i = err null_access
  read freed i = err dangling_access
  read (live xs) i = read_list xs i

  abbrev write_at : List A → ℕ → A → Option A → Result (Buffer A)
  write_at xs i a none = err out_of_bounds
  write_at xs i a (some _) = ok (live (set xs i a))

  -- `p[i] = a`
  unfoldable pub write : Buffer A → ℕ → A → Result (Buffer A)
  write null i a = err null_access
  write freed i a = err dangling_access
  write (live xs) i a = write_at xs i a (get_elem? xs i)

  -- `free(p)`, which does nothing to a null pointer
  unfoldable pub free : Buffer A → Result (Buffer A)
  free null = ok null
  free freed = err double_free
  free (live xs) = ok freed

  -- The array is there and has `n` elements.
  abbrev pub HasSize : ℕ → Buffer A → Type 0
  HasSize n null = ⊥
  HasSize n freed = ⊥
  HasSize n (live xs) = length xs ≡ n

  get_elem?_within : (xs : List A) (i : ℕ) → i < length xs → (a : A) × (get_elem? xs i ≡ some a)
  get_elem?_within [] i h = elim h [ ]
  get_elem?_within (x ∷ xs) zero h = (x, refl)
  get_elem?_within (x ∷ xs) (suc i) h = get_elem?_within xs i (omega arith)

  get_elem?_beyond : (xs : List A) (i : ℕ) → length xs ≤ i → get_elem? xs i ≡ none
  get_elem?_beyond [] i h = refl
  get_elem?_beyond (x ∷ xs) zero h = elim h [ ]
  get_elem?_beyond (x ∷ xs) (suc i) h = get_elem?_beyond xs i (omega arith)

  -- Inside its size an array can be read and written, and a write is what a later read sees.
  pub read_within : (b : Buffer A) (n i : ℕ) → HasSize n b → i < n → (a : A) × (read b i ≡ ok a)
  unfolding read
  read_within null n i s h = absurd s
  read_within freed n i s h = absurd s
  read_within (live xs) n i s h = let (a, e) = get_elem?_within xs i (omega arith) in (a, rw e)

  pub read_list_within : (xs : List A) (i : ℕ) → i < length xs → (a : A) × (read_list xs i ≡ ok a)
  read_list_within xs i h = let (a, e) = get_elem?_within xs i h in (a, rw e)

  pub write_within :
      (b : Buffer A) (n i : ℕ) (a : A)
      → HasSize n b
      → i < n
      → (c : Buffer A) × (write b i a ≡ ok c) × HasSize n c × (read c i ≡ ok a)
  unfolding write read
  write_within null n i a s h = absurd s
  write_within freed n i a s h = absurd s
  write_within (live xs) n i a s h =
      let (_, e) = get_elem?_within xs i (omega arith) in
      (live (set xs i a), rw e, length-set xs i a ∙ s, rw (get_elem?-set_self xs i a (omega arith)))

  pub write_live :
      (xs : List A) (i : ℕ) (a : A) → i < length xs → write (live xs) i a ≡ ok (live (set xs i a))
  unfolding write
  write_live xs i a h = let (_, e) = get_elem?_within xs i h in rw e

  pub read_beyond : (b : Buffer A) (n i : ℕ) → HasSize n b → n ≤ i → read b i ≡ err out_of_bounds
  unfolding read
  read_beyond null n i s h = absurd s
  read_beyond freed n i s h = absurd s
  read_beyond (live xs) n i s h = rw (get_elem?_beyond xs i (omega arith))

  pub write_beyond :
      (b : Buffer A) (n i : ℕ) (a : A) → HasSize n b → n ≤ i → write b i a ≡ err out_of_bounds
  unfolding write
  write_beyond null n i a s h = absurd s
  write_beyond freed n i a s h = absurd s
  write_beyond (live xs) n i a s h = rw (get_elem?_beyond xs i (omega arith))

  -- A successful write leaves the other elements.
  pub read-write_ne :
      (b : Buffer A) (i j : ℕ) (a : A) {c : Buffer A}
      → write b i a ≡ ok c
      → i ≢ j
      → read c j ≡ read b j
  unfolding write read
  read-write_ne null i j a e h = cc
  read-write_ne freed i j a e h = cc
  read-write_ne (live xs) i j a {c} e h = read_after (get_elem? xs i) e
    where
      read_after : (o : Option A) → write_at xs i a o ≡ ok c → read c j ≡ read_list xs j
      read_after none w = cc
      read_after (some x) w =
          let shown : read (live (set xs i a)) j ≡ read_list xs j = rw (get_elem?-set_ne xs a h) in
          subst (λ b'. read b' j ≡ read_list xs j) (ok-injective w) shown

  pub HasSize-allocate : (n : ℕ) (a : A) → HasSize n (allocate (pos n) a)
  HasSize-allocate n a = length-replicate n a

  get_elem?_bound : (xs : List A) (i : ℕ) {x : A} → get_elem? xs i ≡ some x → i < length xs
  get_elem?_bound [] i e = cc
  get_elem?_bound (x ∷ xs) zero e = omega arith
  get_elem?_bound (x ∷ xs) (suc i) e = omega (arith, get_elem?_bound xs i e)

  write_at-read :
      (xs : List A) (i : ℕ) (a : A) (o : Option A) {c : Buffer A}
      → get_elem? xs i ≡ o
      → write_at xs i a o ≡ ok c
      → read c i ≡ ok a
  unfolding read
  write_at-read xs i a none e w = cc
  write_at-read xs i a (some x) e w =
      let shown : read (live (set xs i a)) i ≡ ok a =
        rw (get_elem?-set_self xs i a (get_elem?_bound xs i e)) in
      subst (λ b'. read b' i ≡ ok a) (ok-injective w) shown

  -- A successful write is what a read sees.
  pub read-write :
      (b : Buffer A) (i : ℕ) (a : A) {c : Buffer A} → write b i a ≡ ok c → read c i ≡ ok a
  unfolding write
  read-write null i a e = cc
  read-write freed i a e = cc
  read-write (live xs) i a e = write_at-read xs i a (get_elem? xs i) refl e

  -- And it keeps the size.
  pub HasSize-write :
      (b : Buffer A) (n i : ℕ) (a : A) {c : Buffer A}
      → write b i a ≡ ok c
      → HasSize n b
      → HasSize n c
  unfolding write
  HasSize-write null n i a e h = absurd h
  HasSize-write freed n i a e h = absurd h
  HasSize-write (live xs) n i a {c} e h = size (get_elem? xs i) e
    where
      size : (o : Option A) → write_at xs i a o ≡ ok c → HasSize n c
      size none w = cc
      size (some x) w = subst (HasSize n) (ok-injective w) (length-set xs i a ∙ h)

  -- A write that succeeds is inside the array.
  pub write_bound :
      (b : Buffer A) (n i : ℕ) (a : A) {c : Buffer A} → write b i a ≡ ok c → HasSize n b → i < n
  write_bound b n i a e h = elim (Bool-cases (ltb i n)) [
    | inl below ↦ ltb→lt i n below
    | inr above ↦ let failed = write_beyond b n i a h (ground arith) in absurd (cc)
  ]

  pub free_live : (b : Buffer A) (n : ℕ) → HasSize n b → free b ≡ ok freed
  unfolding free
  free_live null n h = absurd h
  free_live freed n h = absurd h
  free_live (live xs) n h = refl
