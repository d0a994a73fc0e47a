-- ===== src/Common/Strings.antt =====
-- Go strings and byte slices: lists of bytes, each a number below 256.
use Prim.Native.Nat.{ℕ, ◌<◌}
use Prim.Native.Char.{code}
use Prim.Native.String.{String}
use mathlib.Core.Path.{◌≡◌, refl}
use mathlib.Core.Logic.{◌↔◌}
use mathlib.Core.Bool.{Bool, true, false, ◌&&◌}
use mathlib.Core.List.{List, [], ◌∷◌}
use native.Mathlib.Omega.{arith}
use redwood_filter.Common.Tests.{KeyTest, nat_beq}
use redwood_filter.Common.Lists.{All}

abbrev pub Bytes : Type 0
Bytes = List ℕ

abbrev pub IsBytes : Bytes → Type 0
IsBytes = All (λ c. c < 256)

-- The code points of a text: its bytes, if it is ASCII. `String` has its own `[]` and `∷`.
abbrev pub codes : String → Bytes
codes String.[] = []
codes (String.◌∷◌ c s) = code c ∷ codes s

abbrev pub bytes_beq : Bytes → Bytes → Bool
bytes_beq [] [] = true
bytes_beq [] (d ∷ t) = false
bytes_beq (c ∷ s) [] = false
bytes_beq (c ∷ s) (d ∷ t) = nat_beq c d && bytes_beq s t

bytes_beq→eq : (s t : Bytes) → bytes_beq s t ≡ true → s ≡ t
bytes_beq→eq [] [] h = refl
bytes_beq→eq [] (d ∷ t) h = ground arith
bytes_beq→eq (c ∷ s) [] h = ground arith
bytes_beq→eq (c ∷ s) (d ∷ t) h = ground (arith, bytes_beq→eq s t)

bytes_beq_refl : (s : Bytes) → bytes_beq s s ≡ true
bytes_beq_refl [] = refl
bytes_beq_refl (c ∷ s) = ground (arith, bytes_beq_refl s)

pub bytes_beq_iff : (s t : Bytes) → (bytes_beq s t ≡ true) ↔ (s ≡ t)
bytes_beq_iff s t = (bytes_beq→eq s t, λ e. rw e (bytes_beq_refl t))

instance abbrev pub bytes_eq : KeyTest Bytes
bytes_eq = record { agree = bytes_beq; agree_iff = bytes_beq_iff }
