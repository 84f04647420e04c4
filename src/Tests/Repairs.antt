-- ===== src/Tests/Repairs.antt =====
-- The repair strategies of roshi/farm, the hashes of roshi/pool and the reports of
-- roshi/instrumentation on small inputs.
use er_pi_middleware25_artif.Base.{
  some, ℕ, ◌+◌, ◌-◌, ◌≤◌, min, false, ◌≡◌, refl, List, [], ◌∷◌, pos, ◌≤ℤ◌, ◌<ℤ◌, map, arith,
}
use er_pi_middleware25_artif.Common.{Bytes, KeyMember}
use er_pi_middleware25_artif.Farm.Repair.Permits.{
  Buckets, repaired, new_permitter, rate_limited_all, nonblocking_limited, by_size, repaired_total,
  Accounts, rate_limited_lem,
}
use er_pi_middleware25_artif.Farm.Repair.Nonblocking.{
  State, request, next, Run, starts, requests, receives, IsConserved, Run-IsConserved,
}
use er_pi_middleware25_artif.Pool.Hashes.{
  scramble, mix, read_word, blocks, tail_word, add_tail, finalize, murmur3,
}
use er_pi_middleware25_artif.Pool.Hashes.Reference.{reference, murmur3-reference}

-- A bucket by its capacity and its tokens.
abbrev counted_buckets : Buckets
counted_buckets = record {
  Bucket = ℕ × ℕ;
  new_bucket = λ c. (c, c);
  take = λ n b. (min n b.1, (b.0, b.1 - n));
  put = λ n b. (b.0, min (b.1 + n) b.0);
  capacity = λ b. b.0;
  tokens = λ b. b.1;
  capacity-new = λ c. refl;
  tokens-new = λ c. refl;
  take_got = λ n b. refl;
  take_left = λ n b. refl;
  capacity-take = λ n b. refl;
  tokens-put = λ n b. refl;
  capacity-put = λ n b. refl;
}

abbrev a_member : KeyMember
a_member = record { key = 1 ∷ []; member = 2 ∷ [] }

abbrev wanted : List (List KeyMember)
wanted = (a_member ∷ []) ∷ (a_member ∷ a_member ∷ []) ∷ (a_member ∷ []) ∷ []

rate_limited_lem_example :
    let fates =
      (rate_limited_all counted_buckets wanted (new_permitter counted_buckets (pos 2))).0 in
    Accounts wanted fates
    × (pos 0 ≤ℤ pos 2 → repaired_total fates ≤ 2)
    × (pos 2 <ℤ pos 0 → fates ≡ map repaired wanted)
    × ((n : ℕ)
        → pos 2 ≡ pos n
        → nonblocking_limited counted_buckets (pos 2) wanted ≡ map (by_size n) wanted)
rate_limited_lem_example = rate_limited_lem counted_buckets (pos 2) wanted

-- Two requests with a buffer of one before the goroutine comes to the channel.
abbrev after_two : State
after_two = record {
  waiting = false;
  buffer = [];
  repaired = (a_member ∷ []) ∷ [];
  discarded = 1 ∷ [];
}

two_requests : Run 1 ((a_member ∷ []) ∷ (a_member ∷ []) ∷ []) after_two
unfolding request next
two_requests = receives refl (requests (a_member ∷ []) (requests (a_member ∷ []) starts))

Run-IsConserved_example : IsConserved 1 ((a_member ∷ []) ∷ (a_member ∷ []) ∷ []) after_two
Run-IsConserved_example = Run-IsConserved 1 _ after_two two_requests

abbrev hello : Bytes
hello = b'h' ∷ b'e' ∷ b'l' ∷ b'l' ∷ b'o' ∷ []

hello_hash : murmur3 hello ≡ some 0x248b_fa47
unfolding murmur3 finalize add_tail blocks mix scramble read_word tail_word
hello_hash = refl

murmur3-reference_example : murmur3 hello ≡ some (reference hello)
murmur3-reference_example =
    murmur3-reference hello
      (omega arith, (omega arith, (omega arith, (omega arith, (omega arith, tt)))))
