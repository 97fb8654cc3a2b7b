-- ===== src/Client/Session/Sequence.antt =====
-- The count of missed frames over a run of frames whose numbers increase.
use manka_shreds_sdk.Common.{ℕ, ◌+◌, ◌-◌, ◌^◌, ◌≤◌, ◌<◌, ◌≡◌, arith, List, [], ◌∷◌, length}
use manka_shreds_sdk.Client.Session.{Client, count_gap}

-- Every number is at least the one that is expected, and below the last number of 64 bits.
abbrev pub Increasing : ℕ → List ℕ → Type 0
Increasing expected [] = Unit
Increasing expected (seq ∷ seqs) = (expected ≤ seq) × (seq + 1 < 2 ^ 64) × Increasing (seq + 1) seqs

-- The sequence check of a run of frames
abbrev pub count_gaps : List ℕ → Client → Client
count_gaps [] self = self
count_gaps (seq ∷ seqs) self = count_gaps seqs (count_gap seq self)

count_gap_lem :
    (seq : ℕ) (self : Client)
    → 0 < self.expected_seq
    → self.expected_seq ≤ seq
    → seq + 1 < 2 ^ 64
    → self.gaps + (seq - self.expected_seq) < 2 ^ 64
    → ((count_gap seq self).expected_seq ≡ seq + 1)
      × ((count_gap seq self).gaps ≡ self.gaps + (seq - self.expected_seq))
unfolding count_gap
count_gap_lem seq self h k w g = ground arith

-- Over a run of frames whose numbers increase from the expected one, which is not 0, and stay
-- below 2^64 - 1, starting with no more counted gaps than the expected number: the growth of
-- the count of gaps and the number of frames together are the growth of the expected number.
pub count_gaps_lem :
    (seqs : List ℕ) (self : Client)
    → 0 < self.expected_seq
    → Increasing self.expected_seq seqs
    → self.gaps ≤ self.expected_seq
    → (count_gaps seqs self).gaps + length seqs + self.expected_seq
      ≡ self.gaps + (count_gaps seqs self).expected_seq
count_gaps_lem [] self h k g = omega arith
count_gaps_lem (seq ∷ seqs) self h (low, high, k) g =
    let (expected, gaps) = count_gap_lem seq self h low high (omega arith) in
    omega (
      arith,
      expected,
      gaps,
      count_gaps_lem seqs (count_gap seq self) (omega (arith, expected)) (rw expected k)
          (omega (arith, expected, gaps)),
    )
