-- ===== src/Loader/Fit.antt =====
-- Where the stack of a new program lies, if its arguments fit into region 1.
use cs58_yalnix.Base.{ap, ℕ, ◌≡◌, ◌≤◌, ◌<◌, ◌+◌, ◌-◌, ◌*◌, ◌%◌, ◌^◌, List, length, arith}
use cs58_yalnix.Kernel.{Hardware}
use cs58_yalnix.Loader.{
  args_size, base_1, limit_1, minus, double_word, strings_start, words_start, stack_pointer,
}

-- The arguments, the words below them and the space that is left above the stack pointer fit.
pub record ArgsFit (hw : Hardware) (args : List (List ℕ)) : Type 0 where
  pub small : limit_1 hw ≤ 2 ^ 31
  pub fits :
      args_size args
        + (length args + 3 + hw.post_argv_null_space) * 4
        + 8
        + hw.initial_stack_frame_size
      ≤ base_1 hw

pub minus_lem : (a b : ℕ) → b ≤ a → a < 2 ^ 32 → minus a b ≡ a - b
minus_lem a b low high =
    let e : b % 2 ^ 32 ≡ b = omega arith in
    let whole : a + 2 ^ 32 - b ≡ a - b + 2 ^ 32 = omega arith in rw (e, whole) (omega arith)

module _ (hw : Hardware) (args : List (List ℕ)) (f : ArgsFit hw args) where
  abbrev words_size : ℕ
  words_size = (length args + 3 + hw.post_argv_null_space) * 4

  strings_eq : strings_start hw args ≡ limit_1 hw - args_size args
  strings_eq =
      let fits = f.fits in
      let small = f.small in minus_lem (limit_1 hw) (args_size args) (omega arith) (omega arith)

  words_eq : words_start hw args ≡ double_word (strings_start hw args - words_size)
  words_eq =
      let fits = f.fits in
      let small = f.small in
      let e = strings_eq in
      ap double_word (minus_lem (strings_start hw args) words_size (omega arith) (omega arith))

  words_near :
      (words_start hw args + words_size ≤ strings_start hw args)
      × (strings_start hw args < words_start hw args + words_size + 8)
  words_near =
      let fits = f.fits in
      let e = strings_eq in rw words_eq (omega (arith, strings_eq), omega (arith, strings_eq))

  pub strings_start_lem : strings_start hw args + args_size args ≡ limit_1 hw
  strings_start_lem = let fits = f.fits in omega (arith, strings_eq)

  pub words_start-le : words_start hw args + 4 * (length args + 3) ≤ strings_start hw args
  words_start-le = let near = words_near in omega arith

  stack_eq : stack_pointer hw args ≡ words_start hw args - hw.initial_stack_frame_size
  stack_eq =
      let fits = f.fits in
      let small = f.small in
      let e = strings_eq in
      let near = words_near in
      minus_lem (words_start hw args) hw.initial_stack_frame_size (omega arith) (omega arith)

  -- The stack pointer and all above it lie in region 1.
  pub stack_pointer_lem :
      (base_1 hw ≤ stack_pointer hw args)
      × (stack_pointer hw args + hw.initial_stack_frame_size ≡ words_start hw args)
      × (words_start hw args < limit_1 hw)
  stack_pointer_lem =
      let fits = f.fits in
      let e = strings_eq in
      let near = words_near in rw stack_eq (omega arith, omega arith, omega arith)
