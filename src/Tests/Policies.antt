-- ===== src/Tests/Policies.antt =====
-- The filter policy of leveldb/util/wormhole.cc, and the vectors of leveldb/util/hash_test.cc.
use wormholefilters.Base.{ℕ, ◌*◌, ◌≤◌, ◌≡◌, some, List, [], ◌∷◌, ◌++◌, refl, arith, length}
use wormholefilters.Leveldb.Hash.{hash}
use wormholefilters.Leveldb.Wormhole.Policy.{any_collides, kept_keys, create_filter-key_may_match}
use wormholefilters.Leveldb.Wormhole.Size.{buckets_for_load}
use wormholefilters.Leveldb.Wormhole.Power.{IsPowerOf, upperpower2-IsPowerOf}
use wormholefilters.Leveldb.Wormhole.{upperpower2, buckets_for, create_filter, key_may_match}

-- "a", "bc" and "wormhole"
abbrev keys : List (List ℕ)
keys = (97 ∷ []) ∷ (98 ∷ 99 ∷ []) ∷ (119 ∷ 111 ∷ 114 ∷ 109 ∷ 104 ∷ 111 ∷ 108 ∷ 101 ∷ []) ∷ []

create_filter-key_may_match_example :
    (filter : List ℕ) × (create_filter keys (1 ∷ 2 ∷ []) ≡ some ((1 ∷ 2 ∷ []) ++ filter))
    × ((k : List ℕ)
        → key_may_match k filter
          ≡ some (any_collides (buckets_for (length keys)) k (kept_keys keys)))
create_filter-key_may_match_example = create_filter-key_may_match keys (1 ∷ 2 ∷ []) (omega arith)

upperpower2-IsPowerOf_example : IsPowerOf 1000 (upperpower2 1000)
upperpower2-IsPowerOf_example = upperpower2-IsPowerOf 1000 (omega arith) (omega arith)

buckets_for_load_example : 5 * 1000 ≤ 16 * buckets_for 1000
buckets_for_load_example = buckets_for_load 1000 (omega arith) (omega arith)

abbrev seed : ℕ
seed = 0xbc9f1d34

hash₀ : hash [] seed ≡ 0xbc9f1d34
unfolding hash
hash₀ = refl

hash₁ : hash (0x62 ∷ []) seed ≡ 0xef1345c4
unfolding hash
hash₁ = refl

hash₂ : hash (0xc3 ∷ 0x97 ∷ []) seed ≡ 0x5b663814
unfolding hash
hash₂ = refl

hash₃ : hash (0xe2 ∷ 0x99 ∷ 0xa5 ∷ []) seed ≡ 0x323c078f
unfolding hash
hash₃ = refl

hash₄ : hash (0xe1 ∷ 0x80 ∷ 0xb9 ∷ 0x32 ∷ []) seed ≡ 0xed21633a
unfolding hash
hash₄ = refl
