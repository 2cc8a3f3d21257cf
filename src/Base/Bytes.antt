-- ===== src/Base/Bytes.antt =====
-- Byte arrays. An array is the list of its bytes, and the number that stands for it reads them with the
-- lowest byte first.
use Prim.Native.Nat.{ℕ, zero, suc, ◌+◌, ◌*◌, ◌/◌, ◌%◌, ◌^◌, ◌<◌}
use mathlib.Core.Path.{◌≡◌, refl, sym, ap, ◌∙◌}
use mathlib.Core.List.{List, [], ◌∷◌}
use native.Mathlib.Omega.{arith}
use inx_coordinator.Base.Lists.{length}

-- `copy(target[:], source)` into a new array of this size: the bytes that fit, and zeros.
unfoldable pub copied : ℕ → List ℕ → List ℕ
copied zero bytes = []
copied (suc size) [] = 0 ∷ copied size []
copied (suc size) (b ∷ bytes) = b ∷ copied size bytes

-- The number of an array, and the array of a number.
unfoldable pub number : List ℕ → ℕ
number [] = 0
number (b ∷ bytes) = b + 256 * number bytes

unfoldable pub bytes_of : ℕ → ℕ → List ℕ
bytes_of zero n = []
bytes_of (suc size) n = n % 256 ∷ bytes_of size (n / 256)

-- `iotago.MilestoneMerkleProofLength`, and the length of milestone IDs.
abbrev pub hash_length : ℕ
hash_length = 32

-- An array of the right size is copied whole.
pub copied_whole : (bytes : List ℕ) → copied (length bytes) bytes ≡ bytes
unfolding copied
copied_whole [] = refl
copied_whole (b ∷ bytes) = ap (◌∷◌ b) (copied_whole bytes)

pub length-bytes_of : (size n : ℕ) → length (bytes_of size n) ≡ size
unfolding bytes_of
length-bytes_of zero n = refl
length-bytes_of (suc size) n = ap suc (length-bytes_of size (n / 256))

below : (size n : ℕ) → n < 256 ^ suc size → n / 256 < 256 ^ size
below size n h = omega arith

pub number-bytes_of : (size n : ℕ) → n < 256 ^ size → number (bytes_of size n) ≡ n
unfolding number bytes_of
number-bytes_of zero n h = omega arith
number-bytes_of (suc size) n h = omega (arith, number-bytes_of size (n / 256) (below size n h))

copied-bytes_of : (size n : ℕ) → copied size (bytes_of size n) ≡ bytes_of size n
copied-bytes_of size n =
    ap (λ k. copied k (bytes_of size n)) (sym (length-bytes_of size n))
    ∙ copied_whole (bytes_of size n)

-- An array of this size is read back as its number.
pub number-copied : (size n : ℕ) → n < 256 ^ size → number (copied size (bytes_of size n)) ≡ n
number-copied size n h = ap number (copied-bytes_of size n) ∙ number-bytes_of size n h
