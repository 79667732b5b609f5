-- ===== src/Ipc/Pipes/Stream.antt =====
-- A pipe as a stream of bytes: what `pipe_write` appends and `pipe_read` takes off the front.
use cs58_yalnix.Base.{ℕ, zero, suc, ◌+◌, ◌<◌, ◌≤◌, ◌≡◌, refl, ap, List, [], ◌∷◌, ◌++◌, arith, ◌∙◌}
use cs58_yalnix.Ipc.Pipes.Write.{copied_in}
use cs58_yalnix.Ipc.Pipes.Read.{copied_out, shifted}

zero_plus : (b : ℕ) → zero + b ≡ b
zero_plus b = omega arith

suc_plus : (a b : ℕ) → suc a + b ≡ suc (a + b)
suc_plus a b = omega arith

module _ {ℓ} {A : Type ℓ} where
  -- The first `n` values of a function.
  abbrev pub bytes : (ℕ → A) → ℕ → List A
  bytes f zero = []
  bytes f (suc n) = f zero ∷ bytes (λ i. f (suc i)) n

  pub bytes-ext : (f g : ℕ → A) (n : ℕ) → ((i : ℕ) → i < n → f i ≡ g i) → bytes f n ≡ bytes g n
  bytes-ext f g zero h = refl
  bytes-ext f g (suc n) h = rw (
    h zero (omega arith),
    bytes-ext (λ i. f (suc i)) (λ i. g (suc i)) n (λ i l. h (suc i) (omega arith)),
  )

  pub bytes-append : (f : ℕ → A) (a b : ℕ) → bytes f (a + b) ≡ bytes f a ++ bytes (λ i. f (a + i)) b
  bytes-append f zero b =
      ap (bytes f) (zero_plus b) ∙ bytes-ext f (λ i. f (zero + i)) b (λ i l. ap f (omega arith))
  bytes-append f (suc a) b =
      ap (bytes f) (suc_plus a b)
      ∙ ap (λ t. f zero ∷ t) (bytes-append (λ i. f (suc i)) a b)
      ∙ ap (λ t. bytes f (suc a) ++ t)
          (bytes-ext (λ i. f (suc (a + i))) (λ i. f (suc a + i)) b (λ i l. ap f (omega arith)))

module _ (buffer user : ℕ → ℕ) (at n buf : ℕ) where
  copied_in_old : (i : ℕ) → i < at → copied_in buffer at n user buf i ≡ buffer i
  copied_in_old i l = ground arith

  copied_in_new : (i : ℕ) → i < n → copied_in buffer at n user buf (at + i) ≡ user (buf + i)
  copied_in_new i l = ground arith

  pub bytes-copied_in :
      bytes (copied_in buffer at n user buf) (at + n)
      ≡ bytes buffer at ++ bytes (λ i. user (buf + i)) n
  bytes-copied_in = rw (
    bytes-append (copied_in buffer at n user buf) at n,
    bytes-ext _ _ at copied_in_old,
    bytes-ext _ _ n copied_in_new,
  )

module _ (buffer user : ℕ → ℕ) (size n buf : ℕ) where
  shifted_front : (i : ℕ) → n + i < size → shifted buffer size n i ≡ buffer (n + i)
  shifted_front i l = ground arith

  copied_out_at : (i : ℕ) → i < n → copied_out user n buffer buf (buf + i) ≡ buffer i
  copied_out_at i l = ground arith

  -- The first `n` bytes of a pipe's buffer as `pipe_read` copies them out, followed by the `rest`
  -- next bytes of the buffer as `leftshift_buffer` leaves it, are the first `n + rest` bytes that
  -- the buffer held, if it is that long.
  pub bytes-taken :
      (rest : ℕ)
      → n + rest ≤ size
      → bytes buffer (n + rest)
        ≡ bytes (λ i. copied_out user n buffer buf (buf + i)) n
          ++ bytes (shifted buffer size n) rest
  bytes-taken rest fits = rw (
    bytes-append buffer n rest,
    bytes-ext _ _ n copied_out_at,
    bytes-ext (shifted buffer size n) (λ i. buffer (n + i)) rest
        (λ i l. shifted_front i (omega arith)),
  )
