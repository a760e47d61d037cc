-- ===== src/Memory/Print.antt =====
-- `sprintf` into an array of bytes.
use daux4pcs2m.Base.{ℕ, ◌<◌, ltb, if◌then◌else◌, ◌≡◌, refl, length, lt→ltb}
use daux4pcs2m.Base.Text.{Text}
use daux4pcs2m.Memory.Result.{Result, ok, err, out_of_bounds}

-- The text and its end are in an array of `size` bytes.
unfoldable pub print_to : ℕ → Text → Result Text
print_to size text = if ltb (length text) size then ok text else err out_of_bounds

pub print_to_fits : (size : ℕ) (text : Text) → length text < size → print_to size text ≡ ok text
unfolding print_to
print_to_fits size text short = rw (lt→ltb (length text) size short) refl
