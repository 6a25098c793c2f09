-- ===== src/Leveldb/VersionSet/Inputs/Counts.antt =====
-- Counts of files, for the restarts of `Version::GetOverlappingInputs` of leveldb/db/version_set.cc.
use wormholefilters.Base.{
  ℕ, suc, ◌≤◌, ◌<◌, ◌≡◌, Bool, true, false, Bool-cases, inl, inr, List, [], ◌∷◌, ◌++◌, arith,
  if◌then◌else◌, length,
}
use wormholefilters.Leveldb.VersionEdit.{FileMetaData}

-- For how many files a test holds.
pub number_of : (FileMetaData → Bool) → List FileMetaData → ℕ
number_of p [] = 0
number_of p (f ∷ files) = let rest = number_of p files in if p f then suc rest else rest

pub number_of-le :
    (p : FileMetaData → Bool) (files : List FileMetaData) → number_of p files ≤ length files
unfolding number_of
number_of-le p [] = omega arith
number_of-le p (f ∷ files) = elim (Bool-cases (p f)) [
  | inl e ↦ rw e (omega (arith, number_of-le p files))
  | inr e ↦ rw e (omega (arith, number_of-le p files))
]

-- A test that holds for fewer files.
number_of_fewer :
    (p q : FileMetaData → Bool) (files : List FileMetaData)
    → ((f : FileMetaData) → q f ≡ true → p f ≡ true)
    → number_of q files ≤ number_of p files
unfolding number_of
number_of_fewer p q [] h = omega arith
number_of_fewer p q (f ∷ files) h = elim (Bool-cases (q f)) [
  | inl e ↦ rw (e, h f e) (omega (arith, number_of_fewer p q files h))
  | inr e ↦ elim (Bool-cases (p f)) [
    | inl g ↦ rw (e, g) (omega (arith, number_of_fewer p q files h))
    | inr g ↦ rw (e, g) (number_of_fewer p q files h)
  ]
]

pub number_of_strict :
    (p q : FileMetaData → Bool) (pre : List FileMetaData) (f : FileMetaData)
    (post : List FileMetaData)
    → ((f : FileMetaData) → q f ≡ true → p f ≡ true)
    → q f ≡ false
    → p f ≡ true
    → number_of q (pre ++ (f ∷ post)) < number_of p (pre ++ (f ∷ post))
unfolding number_of
number_of_strict p q [] f post h e g = rw (e, g) (omega (arith, number_of_fewer p q post h))
number_of_strict p q (x ∷ pre) f post h e g = elim (Bool-cases (q x)) [
  | inl i ↦ rw (i, h x i) (omega (arith, number_of_strict p q pre f post h e g))
  | inr i ↦ elim (Bool-cases (p x)) [
    | inl j ↦ rw (i, j) (omega (arith, number_of_strict p q pre f post h e g))
    | inr j ↦ rw (i, j) (number_of_strict p q pre f post h e g)
  ]
]
